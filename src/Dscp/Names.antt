-- ===== src/Dscp/Names.antt =====
-- What parse_ipqos() and iptos2str() of src/dscp.c give, and when they undo one another.
use netperf_copilot.Common.{
  ℕ, zero, suc, ◌<◌, ◌≡◌, ◌⊎◌, inl, inr, ◌∙◌, refl, ap, Bool, true, false, ◌&&◌, List, [], ◌∷◌,
  none, some, arith, ◌==◌, get_elem?, All, ℤ, pos, negsuc, Bytes, ==→eq,
}
use mathlib.Core.Option.{some-injective}
use netperf_copilot.CString.{
  same_nocase, digit, scan, skip_space, starts_digit, magnitude, signed, strtol,
}
use netperf_copilot.CString.Laws.{same_nocase_trans}
use netperf_copilot.Dscp.{
  ipqos, find_name, find_value, in_byte, parse_number, parse_ipqos, in_range, name_or_number,
  iptos2str,
}

find_name_same :
    (s t : Bytes) (l : List (Bytes × ℕ)) → same_nocase s t ≡ true → find_name s l ≡ find_name t l
unfolding find_name
find_name_same s t [] h = refl
find_name_same s t ((name, value) ∷ rest) h =
    rw (same_nocase_trans s t name h, find_name_same s t rest h)

All-get_elem {ℓ} :
    {A : Type ℓ} (P : A → Type 0) (l : List A) (i : ℕ) (a : A)
    → All P l
    → get_elem? l i ≡ some a
    → P a
All-get_elem P [] i a all e = absurd (cc)
All-get_elem P (x ∷ xs) zero a all e = rw (← some-injective _ _ e) all.0
All-get_elem P (x ∷ xs) (suc i) a all e = All-get_elem P xs i a all.1 e

names_found : All (λ e. find_name e.0 ipqos ≡ some e.1) ipqos
unfolding find_name same_nocase
names_found = (
  refl,
  (
    refl,
    (
      refl,
      (
        refl,
        (
          refl,
          (
            refl,
            (
              refl,
              (
                refl,
                (
                  refl,
                  (
                    refl,
                    (
                      refl,
                      (
                        refl,
                        (
                          refl,
                          (
                            refl,
                            (
                              refl,
                              (
                                refl,
                                (refl, (refl, (refl, (refl, (refl, (refl, (refl, (refl, tt)))))))),
                              ),
                            ),
                          ),
                        ),
                      ),
                    ),
                  ),
                ),
              ),
            ),
          ),
        ),
      ),
    ),
  ),
)

-- A name of the table, in upper or lower case, gives its number.
pub parse_ipqos_names :
    (cp name : Bytes) (value i : ℕ)
    → get_elem? ipqos i ≡ some (name, value)
    → same_nocase cp name ≡ true
    → parse_ipqos (some cp) ≡ pos value
unfolding parse_ipqos
parse_ipqos_names cp name value i e h =
    ap (λ o. elim o [ some n ↦ pos n | none ↦ parse_number cp ])
      (find_name_same cp name ipqos h
        ∙ All-get_elem (λ e. find_name e.0 ipqos ≡ some e.1) ipqos i (name, value) names_found e)

is_pos : ℕ → ℤ → Bool
is_pos v (pos n) = n == v
is_pos v (negsuc n) = false

is_pos→eq : (v : ℕ) (z : ℤ) → is_pos v z ≡ true → z ≡ pos v
unfolding is_pos
is_pos→eq v (pos n) h = ap pos (==→eq n v h)
is_pos→eq v (negsuc n) h = absurd (cc)

all_below : ℕ → (ℕ → Bool) → Bool
all_below zero f = true
all_below (suc n) f = f n && all_below n f

all_below_lem : (n : ℕ) (f : ℕ → Bool) → all_below n f ≡ true → (v : ℕ) → v < n → f v ≡ true
unfolding all_below
all_below_lem zero f h v lt = absurd (ground arith)
all_below_lem (suc n) f h v lt =
    let (now, before) = both (f n) (all_below n f) h in
    elim (<_cases v n lt) [
      | inl below ↦ all_below_lem n f before v below
      | inr same ↦ rw (same) now
    ]
  where
    both : (a b : Bool) → (a && b) ≡ true → (a ≡ true) × (b ≡ true)
    both a b e = ground arith

    <_cases : (a b : ℕ) → a < suc b → (a < b) ⊎ (a ≡ b)
    <_cases a b e = ground arith

-- What iptos2str() prints of a number in range.
printed : ℕ → Bytes
printed v = name_or_number v (find_value v ipqos)

read_back : all_below 65 (λ v. is_pos v (parse_ipqos (some (printed v)))) ≡ true
unfolding all_below is_pos parse_ipqos find_name find_value same_nocase parse_number in_byte strtol
    skip_space signed magnitude scan digit starts_digit name_or_number printed
read_back = refl

in_range_small : (z : ℤ) → in_range z < 65
in_range_small (pos n) = ground arith
in_range_small (negsuc n) = ground arith

-- parse_ipqos() of the text that iptos2str() gives for a number is the number itself if it is
-- from 0 to 64, and 0 for any other.
pub parse_ipqos-iptos2str : (z : ℤ) → parse_ipqos (some (iptos2str z)) ≡ pos (in_range z)
unfolding iptos2str printed
parse_ipqos-iptos2str z = is_pos→eq (in_range z) (parse_ipqos (some (printed (in_range z)))) (
    all_below_lem 65 (λ v. is_pos v (parse_ipqos (some (printed v)))) read_back (in_range z)
      (in_range_small z))
