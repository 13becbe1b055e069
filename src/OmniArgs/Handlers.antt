-- ===== src/OmniArgs/Handlers.antt =====
-- What the options of scan_omni_args() in src/nettest_omni.c do to netperf's globals, where they do
-- more than set one of them.
use netperf_copilot.Common.{
  ℕ, suc, Bool, true, false, ◌&&◌, [], ◌∷◌, Option, none, some, ◌==◌, if◌then◌else◌, length, take,
  ℤ, Bytes, codes,
}
use netperf_copilot.CString.{same_nocase, atoi}
use netperf_copilot.Platform.{Platform}
use netperf_copilot.Args.{
  break_args, break_args_explicit, break_args_explicit_sep, parse_address_family, parse_socket_type,
  parse_protocol, parse_direction, bit_or,
}
use netperf_copilot.CommandLine.Handlers.{int_of, int_arg}
use netperf_copilot.OmniArgs.Globals.{OmniOptions, OutputMode}

abbrev pub atoi_int : Bytes → ℤ
atoi_int s = int_of (atoi s)

-- `if (arg[0]) …`
unfoldable pub given : Bytes → (OmniOptions → OmniOptions) → OmniOptions → OmniOptions
given [] f o = o
given (c ∷ arg) f o = f o

-- `if (implicit_direction) direction |= …`
abbrev pub adds : ℕ → OmniOptions → OmniOptions
adds bit o = record o {
  direction = if o.implicit_direction then bit_or o.direction bit else o.direction;
}

-- -d
unfoldable pub set_direction : Bytes → OmniOptions → Option OmniOptions
set_direction optarg o =
    if o.was_legacy then some o else elim (parse_direction (suc (length optarg)) optarg) [
      | none ↦ none
      | some d ↦ some (record o { direction = d; implicit_direction = false })
    ]

abbrev pub set_remote_family : Platform → Bytes → OmniOptions → Option OmniOptions
set_remote_family p [] o = some o
set_remote_family p (c ∷ arg2) o = elim (parse_address_family p (c ∷ arg2)) [
  | none ↦ none
  | some family ↦ some (record o { remote_data_family = family })
]

abbrev pub set_local_family : Platform → Bytes → OmniOptions → Option OmniOptions
set_local_family p [] o = some o
set_local_family p (c ∷ arg2) o = elim (parse_address_family p (c ∷ arg2)) [
  | none ↦ none
  | some family ↦ some (record o { local_data_family = family })
]

-- -H: an address, the length of its mask and its family. The first search for a comma has cut the
-- argument there, so the second one sees what is in front of it.
unfoldable pub set_remote_address : Platform → Bytes → OmniOptions → Option OmniOptions
set_remote_address p optarg o =
    let (arg1, arg2, cut) = break_args_explicit_sep optarg b',' in
    let (address, arg3, all) = break_args_explicit_sep cut b'/' in
    set_remote_family p arg2 (
      given arg1
        (λ o.
          given arg3 (λ o. record o { remote_mask_len = int_arg arg3 })
            (given address
              (λ o. record o { remote_data_address = some address; explicit_data_address = true })
              o))
        o)

-- -L
unfoldable pub set_local_address : Platform → Bytes → OmniOptions → Option OmniOptions
set_local_address p optarg o =
    let (arg1, arg2, cut) = break_args_explicit_sep optarg b',' in
    let (address, arg3, all) = break_args_explicit_sep cut b'/' in
    set_local_family p arg2 (
      given arg1
        (λ o.
          given arg3 (λ o. record o { local_mask_len = int_arg arg3 })
            (given address (λ o. record o { local_data_address = some address }) o))
        o)

-- -J, -k, -o and -O, with what follows them if it is no option; `?` prints the choices and exits.
unfoldable pub set_output : OutputMode → Option Bytes → OmniOptions → Option OmniOptions
set_output mode none o =
    some (record o { netperf_output_mode = mode; legacy = false; output_selection_spec = none })
set_output mode (some spec) o =
    if length spec == 1 && same_nocase spec (codes "?")
    then none
    else some
        (record o { netperf_output_mode = mode; legacy = false; output_selection_spec = some spec })

-- -K: the congestion control. The remote one is taken if the third byte of its text is not 0; what
-- stands there behind a text of one character or none is `beyond`.
abbrev pub third_is_set : Bool → Bytes → Bool
third_is_set beyond (a ∷ b ∷ c ∷ s) = true
third_is_set beyond (a ∷ b ∷ []) = false
third_is_set beyond (a ∷ []) = beyond
third_is_set beyond [] = beyond

unfoldable pub set_congestion : Bool → Bytes → OmniOptions → OmniOptions
set_congestion beyond optarg o =
    let (arg1, arg2, all) = break_args optarg in
    let o' = given arg1 (λ o. record o { local_cong_control_req = take 16 arg1 }) o in
    record o' {
      remote_cong_control_req =
          if third_is_set beyond arg2 then take 16 arg2 else o'.remote_cong_control_req;
    }

-- -m: the send sizes.
unfoldable pub set_send_sizes : Bytes → OmniOptions → OmniOptions
set_send_sizes optarg o =
    let (arg1, arg2, all) = break_args_explicit optarg in
    given arg2 (λ o. adds 4 (record o { remote_send_size_req = int_arg arg2 }))
      (given arg1 (λ o. adds 2 (record o { send_size = int_arg arg1 })) o)

-- -M: the receive sizes, the remote one first.
unfoldable pub set_recv_sizes : Bytes → OmniOptions → OmniOptions
set_recv_sizes optarg o =
    let (arg1, arg2, all) = break_args_explicit optarg in
    given arg2 (λ o. adds 4 (record o { recv_size = int_arg arg2 }))
      (given arg1 (λ o. adds 2 (record o { remote_recv_size_req = int_arg arg1 })) o)

-- The options of two values that stand for each other: -p, -P, -r, -s and -S.
unfoldable pub pair_of :
    Bytes
    → (Bytes → OmniOptions → OmniOptions)
    → (Bytes → OmniOptions → OmniOptions)
    → OmniOptions
    → OmniOptions
pair_of optarg first second o =
    let (arg1, arg2, all) = break_args optarg in
    given arg2 (second arg2) (given arg1 (first arg1) o)

-- -t
unfoldable pub set_socket_type : Platform → Bytes → OmniOptions → Option OmniOptions
set_socket_type p optarg o = elim (parse_socket_type p optarg) [
  | none ↦ none
  | some t ↦ some (record o { socket_type = t })
]

-- -T
unfoldable pub set_protocol : Platform → Bytes → OmniOptions → OmniOptions
set_protocol p optarg o =
    let (protocol, socket_type) = parse_protocol p optarg o.socket_type in
    record o { protocol = protocol; socket_type = socket_type }
