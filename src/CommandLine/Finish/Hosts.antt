-- ===== src/CommandLine/Finish/Hosts.antt =====
-- What scan_cmd_line() of src/netsh.c leaves for the hosts, the remote side and the output format.
use mathlib.Core.Path.{subst}
use mathlib.Core.Option.{some-injective}
use netperf_copilot.Common.{
  ℕ, ◌<◌, ◌≡◌, ◌≢◌, refl, arith, true, false, Option, none, some, ◌==◌, if_cases, length, Bytes,
  codes,
}
use netperf_copilot.Platform.{Platform}
use netperf_copilot.CString.{same_nocase}
use netperf_copilot.CommandLine.Globals.{Options}
use netperf_copilot.CommandLine.Finish.{
  default_host, finish_host, finish_local_host, names_rr, finish_format,
}

default_host_name :
    (p : Platform) (v4 v6 : Bytes) (first second : ℕ) (name : Bytes)
    → 0 < length v4
    → 0 < length v6
    → default_host p v4 v6 first second ≡ some name
    → 0 < length name
unfolding default_host
default_host_name p v4 v6 first second name a b h = ground arith

some_length : (s : Bytes) → (length s == 0) ≡ false → 0 < length s
some_length s h = ground arith

named_host :
    (p : Platform) (o a : Options) (d : Option Bytes) (name : Options → Bytes)
    (rename : Bytes → Options → Options)
    → ((n : Bytes) → d ≡ some n → 0 < length (name (rename n o)))
    → elim d [ none ↦ none | some n ↦ some (rename n o) ] ≡ some a
    → 0 < length (name a)
named_host p o a none name rename long h = cc
named_host p o a (some n) name rename long h =
    subst (λ a. 0 < length (name a)) (some-injective _ _ h) (long n refl)

finish_host_name :
    (p : Platform) (resolve : Bytes → ℕ → Option ℕ) (o a : Options)
    → finish_host p resolve o ≡ some a
    → 0 < length a.host_name
unfolding finish_host
finish_host_name p resolve o a =
    if_cases P (length o.host_name == 0) _ _
      (λ none_given.
        named_host p o a _ (λ o. o.host_name) (λ n o. record o { host_name = n })
          (λ n.
            default_host_name p (codes "localhost") (codes "::1") _ _ n (omega arith)
              (omega arith)))
      (λ one_given. resolved one_given (resolve o.host_name o.address_family))
  where
    P : Option Options → Type 0
    P r = r ≡ some a → 0 < length a.host_name

    resolved :
        (length o.host_name == 0) ≡ false
        → (d : Option ℕ)
        → elim d [ none ↦ none | some family ↦ some (record o { address_family = family }) ]
          ≡ some a
        → 0 < length a.host_name
    resolved one_given none h = cc
    resolved one_given (some family) h =
        subst (λ a. 0 < length a.host_name) (some-injective _ _ h)
          (some_length o.host_name one_given)

-- finish_host and finish_local_host leave names that are not empty.
pub finish_local_host-finish_host :
    (p : Platform) (resolve : Bytes → ℕ → Option ℕ) (o a b : Options)
    → finish_host p resolve o ≡ some a
    → finish_local_host p a ≡ some b
    → (0 < length b.host_name) × (0 < length b.local_host_name)
unfolding finish_local_host
finish_local_host-finish_host p resolve o a b h k =
    if_cases P (length a.local_host_name == 0) _ _
      (λ none_given.
        defaulted
          (default_host p (codes "0.0.0.0") (codes "::0") a.local_address_family a.address_family)
          (λ n.
            default_host_name p (codes "0.0.0.0") (codes "::0") _ _ n (omega arith) (omega arith)))
      (λ one_given k.
        subst Q (some-injective _ _ k)
          (finish_host_name p resolve o a h, some_length a.local_host_name one_given))
      k
  where
    Q : Options → Type 0
    Q b = (0 < length b.host_name) × (0 < length b.local_host_name)

    P : Option Options → Type 0
    P r = r ≡ some b → Q b

    defaulted :
        (d : Option Bytes)
        → ((n : Bytes) → d ≡ some n → 0 < length n)
        → elim d [ none ↦ none | some name ↦ some (record a { local_host_name = name }) ] ≡ some b
        → Q b
    defaulted none long k = cc
    defaulted (some n) long k =
        subst Q (some-injective _ _ k) (finish_host_name p resolve o a h, long n refl)

-- Behind scan_cmd_line() the output format of a test that is not the omni test is settled: it is not
-- the initial question mark, and it is `x`, for transactions, only where the test's name has RR in
-- it; deciding it again changes nothing.
pub finish_format_settled :
    (o : Options)
    → same_nocase o.test_name (codes "omni") ≡ false
    → ((finish_format o).libfmt ≢ b'?')
      × ((finish_format o).libfmt ≡ b'x' → names_rr o.test_name ≡ true)
      × (finish_format (finish_format o) ≡ finish_format o)
unfolding finish_format
finish_format_settled o h = (ground arith, ground arith, ground arith)
