-- ===== src/Buffers/FromFile.antt =====
-- The filling of a buffer from a file by allocate_buffer_ring() of src/netlib.c.
use netperf_copilot.Common.{
  ℕ, zero, suc, ◌+◌, ◌*◌, ◌-◌, ◌%◌, ◌≤◌, ◌<◌, ◌≡◌, inl, inr, ◌∙◌, refl, ap, ap₂, sym, arith, [],
  ◌∷◌, ◌++◌, Option, none, some, Bytes, get_or, length, take, drop, min, false, ◌==◌, if◌then◌else◌,
  Bool-cases, ==→eq,
}
use netperf_copilot.Buffers.{file_loop}

-- A file over and over again: `n` bytes from `position` on.
abbrev pub cycle : Bytes → ℕ → ℕ → Bytes
cycle file position zero = []
cycle file position (suc n) = get_or file (position % length file) 0 ∷ cycle file (suc position) n

suc_add : (m n : ℕ) → suc m + n ≡ suc (m + n)
suc_add m n = omega arith

cycle-add :
    (file : Bytes) (p m n : ℕ) → cycle file p (m + n) ≡ cycle file p m ++ cycle file (p + m) n
cycle-add file p zero n = ap₂ (λ q r. cycle file q r) (omega arith) (omega arith)
cycle-add file p (suc m) n =
    ap (cycle file p) (suc_add m n)
    ∙ ap (λ r. get_or file (p % length file) 0 ∷ r)
        (cycle-add file (suc p) m n
          ∙ ap (λ q. cycle file (suc p) m ++ cycle file q n) (omega arith))

mod_wrap : (l p : ℕ) → (l + p) % l ≡ p % l
mod_wrap l p = grind arith

cycle_wrap : (file : Bytes) (p n : ℕ) → cycle file (length file + p) n ≡ cycle file p n
cycle_wrap file p zero = refl
cycle_wrap file p (suc n) =
    ap₂ (λ b r. get_or file b 0 ∷ r) (mod_wrap (length file) p)
      (ap (λ q. cycle file q n) (omega arith) ∙ cycle_wrap file (suc p) n)

mod_small : (p l : ℕ) → p < l → p % l ≡ p
mod_small p l h = grind arith

drop_next :
    (file : Bytes) (p : ℕ) → p < length file → drop p file ≡ get_or file p 0 ∷ drop (suc p) file
drop_next [] p l = absurd (omega arith)
drop_next (b ∷ file) zero l = refl
drop_next (b ∷ file) (suc p) l = drop_next file p (omega arith)

cycle_inside :
    (file : Bytes) (p n : ℕ) → p + n ≤ length file → cycle file p n ≡ take n (drop p file)
cycle_inside file p zero l = refl
cycle_inside file p (suc n) l = rw (drop_next file p (omega arith)) (
    ap₂ (λ b s. b ∷ s) (ap (λ q. get_or file q 0) (mod_small p (length file) (omega arith)))
      (cycle_inside file (suc p) n (omega arith)))

-- The rounds that may be needed.
abbrev rounds : ℕ → ℕ → ℕ → ℕ
rounds size p n = 2 * n + (if p == size then 1 else 0)

abbrev Filled : ℕ → Bytes → ℕ → ℕ → Type 0
Filled fuel file p n =
    (end : ℕ) × (file_loop fuel file p n ≡ some (cycle file p n, end)) × (end ≤ length file)

-- One round, by the number of bytes that fread() gives.
abbrev round : ℕ → Bytes → ℕ → ℕ → ℕ → Option (Bytes × ℕ)
round fuel file p n m = elim (file_loop fuel file (if m == 0 then 0 else p + m) (n - m)) [
  | none ↦ none
  | some (bytes, end) ↦ some (take m (drop p file) ++ bytes, end)
]

module _ (fuel : ℕ) (file : Bytes) (p n : ℕ) where
  file_loop-round :
      0 < n → file_loop (suc fuel) file p n ≡ round fuel file p n (min n (length file - p))
  unfolding file_loop
  file_loop-round pos =
      ap (λ b. if b then some ([], p) else round fuel file p n (min n (length file - p)))
        (not_zero n pos)
    where
      not_zero : (k : ℕ) → 0 < k → (k == 0) ≡ false
      not_zero k h = ground arith

  file_loop_rewound :
      (bytes : Bytes) (end : ℕ)
      → 0 < n
      → p ≡ length file
      → file_loop fuel file 0 n ≡ some (bytes, end)
      → file_loop (suc fuel) file p n ≡ some (bytes, end)
  file_loop_rewound bytes end pos at_end rest =
      file_loop-round pos
      ∙ ap (round fuel file p n) nothing_read
      ∙ ap (λ o. elim o [ none ↦ none | some (bs, e) ↦ some (bs, e) ])
          (ap (file_loop fuel file 0) all_left ∙ rest)
    where
      nothing_read : min n (length file - p) ≡ 0
      nothing_read = omega arith

      all_left : n - 0 ≡ n
      all_left = omega arith

  file_loop_read :
      (m : ℕ) (bytes : Bytes) (end : ℕ)
      → 0 < m
      → m ≡ min n (length file - p)
      → file_loop fuel file (p + m) (n - m) ≡ some (bytes, end)
      → file_loop (suc fuel) file p n ≡ some (take m (drop p file) ++ bytes, end)
  file_loop_read m bytes end pos is_min rest =
      file_loop-round (omega arith)
      ∙ ap (round fuel file p n) (sym is_min)
      ∙ ap (λ o. elim o [ none ↦ none | some (bs, e) ↦ some (take m (drop p file) ++ bs, e) ])
          (ap (λ q. file_loop fuel file q (n - m)) (step m pos) ∙ rest)
    where
      step : (k : ℕ) → 0 < k → (if k == 0 then 0 else p + k) ≡ p + k
      step k h = ground arith

Filled-read :
    (fuel : ℕ) (file : Bytes) (p n m : ℕ)
    → 0 < m
    → m ≡ min n (length file - p)
    → p < length file
    → Filled fuel file (p + m) (n - m)
    → Filled (suc fuel) file p n
Filled-read fuel file p n m pos is_min inside (end, rest, bound) = (
  end,
  file_loop_read fuel file p n m (cycle file (p + m) (n - m)) end pos is_min rest
      ∙ ap (λ b. some (b, end)) whole,
  bound,
)
  where
    whole : take m (drop p file) ++ cycle file (p + m) (n - m) ≡ cycle file p n
    whole =
        ap (λ b. b ++ cycle file (p + m) (n - m)) (sym (cycle_inside file p m (omega arith)))
        ∙ sym (cycle-add file p m (n - m))
        ∙ ap (cycle file p) (omega arith)

Filled-rewound :
    (fuel : ℕ) (file : Bytes) (p n : ℕ)
    → 0 < n
    → p ≡ length file
    → Filled fuel file 0 n
    → Filled (suc fuel) file p n
Filled-rewound fuel file p n pos at_end (end, rest, bound) = (
  end,
  file_loop_rewound fuel file p n (cycle file 0 n) end pos at_end rest
      ∙ ap (λ b. some (b, end)) whole,
  bound,
)
  where
    whole : cycle file 0 n ≡ cycle file p n
    whole = sym (cycle_wrap file 0 n) ∙ ap (λ q. cycle file q n) (omega arith)

Filled-none : (fuel : ℕ) (file : Bytes) (p : ℕ) → p ≤ length file → Filled fuel file p 0
unfolding file_loop
Filled-none zero file p l = (p, refl, l)
Filled-none (suc fuel) file p l = (p, refl, l)

filled :
    (fuel : ℕ) (file : Bytes) (p n : ℕ)
    → 0 < length file
    → p ≤ length file
    → rounds (length file) p n ≤ fuel
    → Filled fuel file p n
filled fuel file p zero l inside enough = Filled-none fuel file p inside
filled zero file p (suc n) l inside enough = absurd (omega arith)
filled (suc fuel) file p (suc n) l inside enough = elim (Bool-cases (p == length file)) [
  | inl e ↦
      Filled-rewound fuel file p (suc n) (omega arith) (==→eq p (length file) e)
        (filled fuel file 0 (suc n) l (omega arith) (ground arith))
  | inr ne ↦
      Filled-read fuel file p (suc n) (min (suc n) (length file - p)) (ground arith) refl
        (ground arith)
        (filled fuel file (p + min (suc n) (length file - p))
          (suc n - min (suc n) (length file - p)) l (omega arith) (ground arith))
]

-- Filling from a file that is not empty takes at most two rounds for a byte and one more, and the
-- buffer then holds the file from where the last buffer ended, over and over again.
pub file_loop-cycle :
    (fuel : ℕ) (file : Bytes) (position bytes_left : ℕ)
    → 0 < length file
    → position ≤ length file
    → 2 * bytes_left + 1 ≤ fuel
    → (end : ℕ) × (file_loop fuel file position bytes_left
        ≡ some (cycle file position bytes_left, end))
      × (end ≤ length file)
file_loop-cycle fuel file position bytes_left some_bytes inside enough =
    filled fuel file position bytes_left some_bytes inside (ground arith)
