-- ===== src/Selection/ByTest/Tests.antt =====
-- A test whose output nobody has chosen, as print_omni_init() of src/nettest_omni.c sees it.
use netperf_copilot.Common.{refl, false, true, none}
use netperf_copilot.Selection.{nothing}
use netperf_copilot.Selection.ByTest.{default_preset, print_omni_init}
use netperf_copilot.Selection.ByTest.Known.{IsPrinted, default_names, print_omni_init-default_names}

print_omni_init-default_names_example : IsPrinted (default_names true false true) (
    print_omni_init false
      (λ path. none)
      2
      true
      none
      (record { printing_initialized = false; selected = nothing }))
unfolding default_preset
print_omni_init-default_names_example =
    print_omni_init-default_names false (λ path. none) 2 true nothing.output_list refl
