-- ===== src/CommandLine/Limits.antt =====
-- What holds of the confidence interval's limits and of a test's length, whatever options are given
-- to scan_cmd_line() of src/netsh.c.
use mathlib.Core.Path.{subst}
use netperf_copilot.Common.{
  ℕ, suc, ◌-◌, ◌^◌, ◌≤◌, ◌<◌, neg_part, ◌≡◌, ◌⊎◌, inl, inr, refl, arith, Bool, true, false, not,
  List, [], ◌∷◌, Option, none, some, if_cases, ℤ, pos, negsuc, ◌≤ℤ◌, Bytes,
}
use netperf_copilot.Platform.{Platform}
use netperf_copilot.Args.{break_args}
use netperf_copilot.Buffers.{convert}
use netperf_copilot.CommandLine.Globals.{Options, initial, percent}
use netperf_copilot.CommandLine.{
  Flag, scan_option, scan_options, cpu_local, cpu_remote, iterations, confidence, test_length,
  format,
}
use netperf_copilot.CommandLine.Handlers.{
  Reals, int_of, given, int_arg, at_least, at_most, if_one, is_level, default_level, set_length,
  limit_iterations, set_iterations, set_confidence, set_demo, set_fill_files, set_test_length,
  set_affinity, set_wate, set_burst, set_host, set_local_host, set_passphrase,
}

abbrev pub InLimits : ℤ → ℤ → Type 0
InLimits least most =
    ((least ≡ pos 1) × (most ≡ pos 1)) ⊎ ((pos 3 ≤ℤ least) × (least ≤ℤ most) × (most ≤ℤ pos 30))

abbrev pub IsLevel : ℤ → Type 0
IsLevel level = (level ≡ pos 0) ⊎ ((level ≡ pos 95) ⊎ (level ≡ pos 99))

-- A number that is positive, or the least int, which the negation of itself overflows to.
abbrev pub IsCount : ℤ → Type 0
IsCount n = (pos 1 ≤ℤ n) ⊎ (n ≡ negsuc (2 ^ 31 - 1))

-- Either no option has asked for confidence intervals, or the iterations lie between 3 and 30, the
-- least no more than the most; the level is one of two, or unset; and a test ends by bytes and
-- transactions, the same number, only where it does not end by time.
pub record HasLimits (o : Options) : Type 0 where
  pub limits : InLimits o.iteration_min o.iteration_max
  pub level : IsLevel o.confidence_level
  pub end_of_test :
      ((o.test_bytes ≡ pos 0) × (o.test_trans ≡ pos 0))
      ⊎ ((o.test_time ≡ pos 0) × (o.test_trans ≡ o.test_bytes) × IsCount o.test_bytes)

clamped :
    (a b : ℤ)
    → (pos 3 ≤ℤ at_most (pos 30) (at_least (pos 3) a))
      × (at_most (pos 30) (at_least (pos 3) a)
          ≤ℤ at_most (pos 30) (at_least (pos 3) (at_least a b)))
      × (at_most (pos 30) (at_least (pos 3) (at_least a b)) ≤ℤ pos 30)
clamped (pos a) (pos b) = (ground arith, ground arith, ground arith)
clamped (pos a) (negsuc b) = (ground arith, ground arith, ground arith)
clamped (negsuc a) (pos b) = (ground arith, ground arith, ground arith)
clamped (negsuc a) (negsuc b) = (ground arith, ground arith, ground arith)

ones : (a b : ℤ) → InLimits a b → InLimits (if_one a (pos 3)) (if_one b (pos 10))
ones (pos a) (pos b) h = inr (ground arith, ground arith, ground arith)
ones (pos a) (negsuc b) h = absurd (ground arith)
ones (negsuc a) (pos b) h = absurd (ground arith)
ones (negsuc a) (negsuc b) h = absurd (ground arith)

IsLevel-set : (v : ℤ) → is_level v ≡ true → IsLevel v
IsLevel-set (pos n) h = ground arith
IsLevel-set (negsuc k) h = cc

IsLevel-default : (v : ℤ) → IsLevel v → IsLevel (default_level v)
IsLevel-default (pos n) h = ground arith
IsLevel-default (negsuc k) h = ground arith

-- What -i changes apart from the limits that it sets.
record HasLevel (o : Options) : Type 0 where
  level : IsLevel o.confidence_level
  end_of_test :
      ((o.test_bytes ≡ pos 0) × (o.test_trans ≡ pos 0))
      ⊎ ((o.test_time ≡ pos 0) × (o.test_trans ≡ o.test_bytes) × IsCount o.test_bytes)

limit_iterations-HasLimits :
    (r : Reals) (o : Options) → HasLevel o → HasLimits (limit_iterations r o)
unfolding limit_iterations
limit_iterations-HasLimits r o h = record {
  limits = inr (clamped o.iteration_min o.iteration_max);
  level = IsLevel-default o.confidence_level h.level;
  end_of_test = h.end_of_test;
}

-- A property of the options that are left, where there are any.
abbrev pub OfSome : (Options → Type 0) → Option Options → Type 0
OfSome P none = Unit
OfSome P (some o) = P o

given-Holds :
    (P : Options → Type 0) (arg : Bytes) (f : Options → Options) (o : Options)
    → P o
    → P (f o)
    → P (given arg f o)
given-Holds P [] f o now then_one = now
given-Holds P (c ∷ arg) f o now then_one = then_one

set_iterations-HasLimits :
    (r : Reals) (arg : Bytes) (o : Options) → HasLimits o → HasLimits (set_iterations r arg o)
unfolding set_iterations
set_iterations-HasLimits r arg o h =
    limit_iterations-HasLimits r _
      (given-Holds HasLevel (break_args arg).1 _ _ first (ground (arith, first)))
  where
    first :
        HasLevel (
          given (break_args arg).0 (λ o. record o { iteration_max = int_arg (break_args arg).0 }) o)
    first = given-Holds HasLevel (break_args arg).0 _ o (ground arith) (ground arith)

-- Before -I has looked at the level, it may be any.
record HasIterations (o : Options) : Type 0 where
  limits : InLimits o.iteration_min o.iteration_max
  end_of_test :
      ((o.test_bytes ≡ pos 0) × (o.test_trans ≡ pos 0))
      ⊎ ((o.test_time ≡ pos 0) × (o.test_trans ≡ o.test_bytes) × IsCount o.test_bytes)

not-not : (b : Bool) → not b ≡ false → b ≡ true
not-not true h = refl
not-not false h = cc

set_confidence-HasLimits :
    (r : Reals) (arg : Bytes) (o : Options)
    → HasLimits o
    → OfSome HasLimits (set_confidence r arg o)
unfolding set_confidence
set_confidence-HasLimits r arg o h =
    if_cases (OfSome HasLimits) (not (is_level level.confidence_level)) _ _ (λ bad. tt)
      (λ good. record {
        limits = ones _ _ kept_after.limits;
        level =
            given-Holds (λ w. IsLevel w.confidence_level) (break_args arg).1 _ level
              (IsLevel-set level.confidence_level (not-not (is_level level.confidence_level) good))
              (IsLevel-set level.confidence_level (not-not (is_level level.confidence_level) good));
        end_of_test = kept_after.end_of_test;
      })
  where
    level : Options
    level =
        given (break_args arg).0 (λ o. record o { confidence_level = int_arg (break_args arg).0 }) o

    kept : HasIterations level
    kept =
        given-Holds HasIterations (break_args arg).0 _ o
          (record { limits = h.limits; end_of_test = h.end_of_test })
          (record { limits = h.limits; end_of_test = h.end_of_test })

    kept_after :
        HasIterations
          (given (break_args arg).1 (λ o. record o { interval = percent (break_args arg).1 }) level)
    kept_after =
        given-Holds HasIterations (break_args arg).1 _ level kept
          (record { limits = kept.limits; end_of_test = kept.end_of_test })

int_of-IsCount : (k : ℕ) → k < 2 ^ 31 → IsCount (int_of (suc k))
unfolding int_of
int_of-IsCount k l = ground arith

neg_part-int_of : (w : ℕ) → neg_part (int_of w) ≤ 2 ^ 31
unfolding int_of
neg_part-int_of w = ground arith

set_length-HasLimits :
    (v : ℤ) (o : Options) → neg_part v ≤ 2 ^ 31 → HasLimits o → HasLimits (set_length v o)
unfolding set_length
set_length-HasLimits (pos n) o l h = record {
  limits = h.limits;
  level = h.level;
  end_of_test = inl (refl, refl);
}
set_length-HasLimits (negsuc k) o l h = record {
  limits = h.limits;
  level = h.level;
  end_of_test = inr (refl, refl, int_of-IsCount k (omega arith));
}

module _ (p : Platform) (r : Reals) where
  scan_option-HasLimits :
      (f : Flag) (o : Options) → HasLimits o → OfSome HasLimits (scan_option p r f o)
  unfolding scan_option set_demo set_fill_files set_affinity set_wate set_burst set_host
      set_local_host set_passphrase set_test_length
  scan_option-HasLimits (iterations arg) o h = set_iterations-HasLimits r arg o h
  scan_option-HasLimits (confidence arg) o h = set_confidence-HasLimits r arg o h
  scan_option-HasLimits (test_length arg) o h =
      set_length-HasLimits (int_arg arg) o (neg_part-int_of (convert arg)) h
  scan_option-HasLimits (cpu_local none) o h = ground arith
  scan_option-HasLimits (cpu_local (some rate)) o h = ground arith
  scan_option-HasLimits (cpu_remote none) o h = ground arith
  scan_option-HasLimits (cpu_remote (some rate)) o h = ground arith
  scan_option-HasLimits (format []) o h = ground arith
  scan_option-HasLimits (format (c ∷ arg)) o h = ground arith
  scan_option-HasLimits _ o h = ground arith

  scan_options-OfSome :
      (flags : List Flag) (o : Options) → HasLimits o → OfSome HasLimits (scan_options p r flags o)
  unfolding scan_options
  scan_options-OfSome [] o h = h
  scan_options-OfSome (f ∷ flags) o h =
      next (scan_option p r f o) (scan_option-HasLimits f o h) (scan_options-OfSome flags)
    where
      next :
          (m : Option Options)
          → OfSome HasLimits m
          → ((o : Options) → HasLimits o → OfSome HasLimits (scan_options p r flags o))
          → OfSome HasLimits (elim m [ none ↦ none | some o' ↦ scan_options p r flags o' ])
      next none now later = tt
      next (some o) now later = later o now

  -- Whatever options are given and in whatever order, if scan_cmd_line() does not end the process
  -- the iterations lie between 3 and 30 with the least no more than the most, or both are still 1;
  -- the confidence level is 0, 95 or 99; and there are bytes and transactions to count, as many of
  -- one as of the other, only where the test has no time: then their number is positive, or it is
  -- the least int, where the negation of the length asked for has overflowed.
  pub scan_options-HasLimits :
      (flags : List Flag) (o : Options) → scan_options p r flags (initial p) ≡ some o → HasLimits o
  unfolding initial
  scan_options-HasLimits flags o h = subst (OfSome HasLimits) h (
      scan_options-OfSome flags (initial p)
        (record { limits = inl (refl, refl); level = inl refl; end_of_test = inl (refl, refl) }))
