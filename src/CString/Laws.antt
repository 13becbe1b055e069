-- ===== src/CString/Laws.antt =====
-- Laws of the C string functions.
use netperf_copilot.Common.{
  ℕ, ◌≡◌, refl, true, [], ◌∷◌, ◌++◌, none, some, arith, Bytes, to_lower, to_upper, map, ==_self,
  ne→==, All, ◌≢◌,
}
use netperf_copilot.CString.{same_nocase, cut}

pub same_nocase_trans : (s t u : Bytes) → same_nocase s t ≡ true → same_nocase s u ≡ same_nocase t u
unfolding same_nocase
same_nocase_trans [] [] u h = refl
same_nocase_trans [] (d ∷ t) u h = absurd (cc)
same_nocase_trans (c ∷ s) [] u h = absurd (cc)
same_nocase_trans (c ∷ s) (d ∷ t) [] h = refl
same_nocase_trans (c ∷ s) (d ∷ t) (e ∷ u) h = ground (arith, same_nocase_trans s t u)

to_lower-to_upper : (c : ℕ) → to_lower (to_upper c) ≡ to_lower c
to_lower-to_upper c = ground arith

pub same_nocase-to_upper : (s : Bytes) → same_nocase (map to_upper s) s ≡ true
unfolding same_nocase
same_nocase-to_upper [] = refl
same_nocase-to_upper (c ∷ s) =
    rw (to_lower-to_upper c, ==_self (to_lower c), same_nocase-to_upper s) refl

-- No byte of `s` is `sep`.
abbrev pub Lacks : ℕ → Bytes → Type 0
Lacks sep s = All (λ c. c ≢ sep) s

pub cut-append : (sep : ℕ) (s t : Bytes) → Lacks sep s → cut sep (s ++ sep ∷ t) ≡ (s, some t)
unfolding cut
cut-append sep [] t l = rw (==_self sep) refl
cut-append sep (c ∷ s) t (ne, l) = rw (ne→== c sep ne, cut-append sep s t l) refl

pub cut-Lacks : (sep : ℕ) (s : Bytes) → Lacks sep s → cut sep s ≡ (s, none)
unfolding cut
cut-Lacks sep [] l = refl
cut-Lacks sep (c ∷ s) (ne, l) = rw (ne→== c sep ne, cut-Lacks sep s l) refl
