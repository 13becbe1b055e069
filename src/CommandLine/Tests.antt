-- ===== src/CommandLine/Tests.antt =====
-- Concrete command lines of netperf, as scan_cmd_line() of src/netsh.c takes them.
use netperf_copilot.Common.{◌≡◌, refl, true, List, [], ◌∷◌, some, pos, codes}
use netperf_copilot.CString.{
  same_nocase, begins, contains, cut, digit, scan, starts_digit, skip_space, decimal, word_of, atoi,
}
use netperf_copilot.Args.{break_args, convert_to_upper}
use netperf_copilot.Buffers.{convert}
use netperf_copilot.Platform.{linux}
use netperf_copilot.CommandLine.Globals.{Options, initial, five_percent}
use netperf_copilot.CommandLine.{
  Flag, iterations, test_length, test, without_control, scan_option, scan_options,
}
use netperf_copilot.CommandLine.Handlers.{
  Reals, int_of, limit_iterations, default_width, width_is_zero, set_iterations, set_length,
  set_test_length,
}
use netperf_copilot.CommandLine.Limits.{HasLimits, scan_options-HasLimits}

-- A reader of numbers that knows 0 and a minus sign.
abbrev reals : Reals
reals = record { is_zero = λ s. same_nocase s (codes "0"); is_negative = λ s. begins s (codes "-") }

abbrev tcp_rr : Options
tcp_rr = record (initial linux) { test_name = codes "TCP_RR" }

-- Iterations below 3 are put up to 3, and a negative length counts transactions.
abbrev flags : List Flag
flags =
    test (codes "tcp_rr")
    ∷ test_length (codes "-250")
    ∷ iterations (codes "2")
    ∷ without_control
    ∷ []

abbrev counted : Options
counted = record (initial linux) {
  test_name = codes "TCP_RR";
  test_time = pos 0;
  test_bytes = pos 250;
  test_trans = pos 250;
  iteration_min = pos 3;
  iteration_max = pos 3;
  confidence_level = pos 99;
  interval = five_percent;
  no_control = true;
}

scanned : scan_options linux reals flags (initial linux) ≡ some counted
unfolding scan_options scan_option set_test_length set_length set_iterations limit_iterations
    default_width width_is_zero int_of initial convert break_args convert_to_upper contains begins
    cut atoi decimal scan digit skip_space starts_digit word_of
scanned = refl

scan_options-HasLimits_example : HasLimits counted
scan_options-HasLimits_example = scan_options-HasLimits linux reals flags counted scanned

abbrev localhost : Options
localhost = record (initial linux) { host_name = codes "localhost" }
