-- ===== src/CommandLine/Handlers.antt =====
-- What the options of scan_cmd_line() in src/netsh.c do to netperf's globals.
use netperf_copilot.Common.{
  ℕ, suc, ◌-◌, ◌/◌, ◌^◌, Bool, true, false, not, ◌||◌, [], ◌∷◌, Option, none, some, ltb, ◌==◌,
  if◌then◌else◌, length, take, ℤ, pos, negsuc, ltb_ℤ, Bytes,
}
use netperf_copilot.Platform.{Platform}
use netperf_copilot.Args.{break_args, break_args_explicit, parse_address_family}
use netperf_copilot.Buffers.{convert, convert_timespec}
use netperf_copilot.CommandLine.Globals.{Options, Width, unset, five_percent, percent}

-- What strtod() and atof() say of a text: whether its number is 0, and whether it is negative.
pub record Reals : Type 0 where
  pub is_zero : Bytes → Bool
  pub is_negative : Bytes → Bool

-- An unsigned int where C makes it an int.
unfoldable pub int_of : ℕ → ℤ
int_of w = if ltb w (2 ^ 31) then pos w else negsuc (2 ^ 32 - 1 - w)

-- `if (arg[0]) …`
abbrev pub given : Bytes → (Options → Options) → Options → Options
given [] f o = o
given (c ∷ arg) f o = f o

abbrev pub int_arg : Bytes → ℤ
int_arg arg = int_of (convert arg)

-- -i: the numbers of iterations.
abbrev pub at_least : ℤ → ℤ → ℤ
at_least low n = if ltb_ℤ n low then low else n

abbrev pub at_most : ℤ → ℤ → ℤ
at_most high n = if ltb_ℤ high n then high else n

unfoldable pub width_is_zero : Reals → Width → Bool
width_is_zero r unset = true
width_is_zero r five_percent = false
width_is_zero r (percent s) = r.is_zero s

unfoldable pub default_width : Reals → Width → Width
default_width r w = if width_is_zero r w then five_percent else w

abbrev pub default_level : ℤ → ℤ
default_level (pos n) = if n == 0 then pos 99 else pos n
default_level (negsuc k) = negsuc k

unfoldable pub limit_iterations : Reals → Options → Options
limit_iterations r o = record o {
  iteration_max = at_most (pos 30) (at_least (pos 3) (at_least o.iteration_min o.iteration_max));
  iteration_min = at_most (pos 30) (at_least (pos 3) o.iteration_min);
  confidence_level = default_level o.confidence_level;
  interval = default_width r o.interval;
}

unfoldable pub set_iterations : Reals → Bytes → Options → Options
set_iterations r optarg o =
    let (arg1, arg2, all) = break_args optarg in
    limit_iterations r (
      given arg2 (λ o. record o { iteration_min = int_arg arg2 })
        (given arg1 (λ o. record o { iteration_max = int_arg arg1 }) o))

-- -I: the confidence level and the width of the interval; another level than 95 or 99 exits.
abbrev pub is_level : ℤ → Bool
is_level (pos n) = n == 95 || n == 99
is_level (negsuc k) = false

abbrev pub if_one : ℤ → ℤ → ℤ
if_one (pos n) d = if n == 1 then d else pos n
if_one (negsuc k) d = negsuc k

unfoldable pub set_confidence : Reals → Bytes → Options → Option Options
set_confidence r optarg o =
    let (arg1, arg2, all) = break_args optarg in
    let level = given arg1 (λ o. record o { confidence_level = int_arg arg1 }) o in
    let width = given arg2 (λ o. record o { interval = percent arg2 }) level in
    if not (is_level level.confidence_level)
    then none
    else some (record width {
      iteration_min = if_one width.iteration_min (pos 3);
      iteration_max = if_one width.iteration_max (pos 10);
      interval = default_width r width.interval;
    })

-- -D: the interval and the units of interim results.
unfoldable pub set_demo : Reals → Bytes → Options → Options
set_demo r optarg o =
    let (arg1, arg2, all) = break_args_explicit optarg in
    given arg2 (λ o. record o { demo_units = convert arg2 })
      (given arg1
        (λ o. record o {
          demo_interval = some arg1;
          demo_mode = if r.is_negative arg1 then 2 else o.demo_mode;
        })
        (record o { demo_mode = 1 }))

-- -F: the fill files; a name for the other side that does not fit a control message exits.
unfoldable pub set_fill_files : Bytes → Options → Option Options
set_fill_files optarg o =
    let (arg1, arg2, all) = break_args_explicit optarg in
    let o' = given arg1 (λ o. record o { local_fill_file = take 8191 arg1 }) o in
    if ltb 31 (length arg2)
    then none
    else some (given arg2 (λ o. record o { remote_fill_file = take 31 arg2 }) o')

-- -l: the end of the test, in seconds, or in bytes or transactions if it is negative. `-1 *` of the
-- least int is that int again.
unfoldable pub set_length : ℤ → Options → Options
set_length (pos n) o = record o { test_time = pos n; test_bytes = pos 0; test_trans = pos 0 }
set_length (negsuc k) o = record o {
  test_time = pos 0;
  test_bytes = int_of (suc k);
  test_trans = int_of (suc k);
}

unfoldable pub set_test_length : Bytes → Options → Options
set_test_length optarg o = set_length (int_arg optarg) o

-- -T: the processors. The local one is bound to at once, which is not modelled.
unfoldable pub set_affinity : Bytes → Options → Options
set_affinity optarg o =
    let (arg1, arg2, all) = break_args optarg in
    record (given arg2 (λ o. record o { remote_proc_affinity = int_arg arg2 })
      (given arg1 (λ o. record o { local_proc_affinity = int_arg arg1 }) o)) {
        cpu_binding_requested = true;
      }

-- -w: the time between bursts.
unfoldable pub set_wate : Bytes → Options → Options
set_wate optarg o =
    let (arg1, arg2, all) = break_args_explicit optarg in
    given arg2 (λ o. record o { remote_interval_usecs = convert_timespec arg2 })
      (given arg1
        (λ o. record o {
          interval_usecs = convert_timespec arg1;
          interval_wate = convert_timespec arg1 / 1000;
        })
        o)

-- -b: the size of a burst, with a time between bursts if there is none yet.
unfoldable pub set_burst : Bytes → Options → Options
set_burst optarg o =
    let (arg1, arg2, all) = break_args_explicit optarg in
    given arg2
      (λ o. record o {
        remote_interval_burst = convert arg2;
        remote_interval_usecs =
            if o.remote_interval_usecs == 0 then 1000 else o.remote_interval_usecs;
      })
      (given arg1
        (λ o. record o {
          interval_burst = convert arg1;
          interval_wate = if o.interval_usecs == 0 then 1 else o.interval_wate;
          interval_usecs = if o.interval_usecs == 0 then 1000 else o.interval_usecs;
        })
        o)

-- -H and -L: a host and its address family; `none`: the family's name reads past its copy.
unfoldable pub set_host : Platform → Bytes → Options → Option Options
set_host p optarg o =
    let (arg1, arg2, all) = break_args_explicit optarg in
    let o' = given arg1 (λ o. record o { host_name = take 255 arg1 }) o in
    if length arg2 == 0 then some o' else elim (parse_address_family p arg2) [
      | none ↦ none
      | some family ↦ some (record o' { address_family = family })
    ]

unfoldable pub set_local_host : Platform → Bytes → Options → Option Options
set_local_host p optarg o =
    let (arg1, arg2, all) = break_args_explicit optarg in
    let o' = given arg1 (λ o. record o { local_host_name = take 255 arg1 }) o in
    if length arg2 == 0 then some o' else elim (parse_address_family p arg2) [
      | none ↦ none
      | some family ↦ some (record o' { local_address_family = family })
    ]

-- -Z: as much of the passphrase as fits a control message.
unfoldable pub set_passphrase : Bytes → Options → Options
set_passphrase optarg o = record o { passphrase = some (take 647 optarg) }

-- The options whose two values are numbers, and those of one value.
abbrev pub two :
    (Bytes → Bytes × Bytes × Bytes)
    → Bytes
    → (Bytes → Options → Options)
    → (Bytes → Options → Options)
    → Options
    → Options
two break optarg first second o =
    given (break optarg).1 (second (break optarg).1)
      (given (break optarg).0 (first (break optarg).0) o)
