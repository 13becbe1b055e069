-- ===== src/Args/Direction.antt =====
-- parse_direction() of src/netsh.c on any number of parts.
use netperf_copilot.Common.{
  ℕ, zero, suc, ◌<◌, ◌≡◌, ◌∙◌, refl, ap, List, [], ◌∷◌, ◌++◌, none, some, arith, Bytes, length,
  length-append, All,
}
use netperf_copilot.CString.Laws.{Lacks, cut-append, cut-Lacks}
use netperf_copilot.Args.{
  explicit_args, break_args_explicit_sep, bit_or, direction_part, parse_direction,
}

-- The parts with `|` between them. Every string is such a text, of parts without `|`.
abbrev pub join : Bytes → List Bytes → Bytes
join first [] = first
join first (next ∷ more) = first ++ b'|' ∷ join next more

abbrev pub or_all : Bytes → List Bytes → ℕ
or_all first [] = bit_or (direction_part first) 0
or_all first (next ∷ more) = bit_or (direction_part first) (or_all next more)

direction_step :
    (fuel : ℕ) (s arg1 arg2 : Bytes) (n : ℕ)
    → 0 < length s
    → break_args_explicit_sep s b'|' ≡ (arg1, arg2, arg1)
    → parse_direction fuel arg2 ≡ some n
    → parse_direction (suc fuel) s ≡ some (bit_or (direction_part arg1) n)
unfolding parse_direction
direction_step fuel [] arg1 arg2 n l e r = absurd (omega arith)
direction_step fuel (c ∷ s) arg1 arg2 n l e r =
    ap
      (λ b. elim (parse_direction fuel b.1) [
        | none ↦ none
        | some m ↦ some (bit_or (direction_part b.0) m)
      ])
      e
    ∙ ap (λ o. elim o [ none ↦ none | some m ↦ some (bit_or (direction_part arg1) m) ]) r

or_empty : 0 ≡ bit_or (direction_part []) 0
unfolding bit_or direction_part
or_empty = refl

direction_empty : (fuel : ℕ) → 0 < fuel → parse_direction fuel [] ≡ some 0
unfolding parse_direction
direction_empty zero l = absurd (omega arith)
direction_empty (suc fuel) l = refl

-- parse_direction() of parts without `|` that stand between `|` is the bitwise or of what the parts
-- stand for, an empty one being 0, and as many nested calls as the text has characters and one
-- more are enough.
pub parse_direction-join :
    (fuel : ℕ) (first : Bytes) (more : List Bytes)
    → All (Lacks b'|') (first ∷ more)
    → length (join first more) < fuel
    → parse_direction fuel (join first more) ≡ some (or_all first more)
unfolding break_args_explicit_sep parse_direction
parse_direction-join zero first more lacks l = absurd (omega arith)
parse_direction-join (suc fuel) first (next ∷ more) (lack, lacks) l =
    direction_step fuel (first ++ b'|' ∷ join next more) first (join next more) (or_all next more)
      (omega (arith, length-append first (b'|' ∷ join next more)))
      (ap (explicit_args (first ++ b'|' ∷ join next more))
        (cut-append b'|' first (join next more) lack))
      (parse_direction-join fuel next more lacks
        (omega (arith, length-append first (b'|' ∷ join next more), l)))
parse_direction-join (suc fuel) [] [] lacks l = ap some or_empty
parse_direction-join (suc fuel) (c ∷ s) [] (lack, lacks) l =
    direction_step fuel (c ∷ s) (c ∷ s) [] 0 (omega arith)
      (ap (explicit_args (c ∷ s)) (cut-Lacks b'|' (c ∷ s) lack))
      (direction_empty fuel (omega arith))
