-- ===== src/Server/Accept.antt =====
-- accept_connections() of src/netserver.c accepts once from each descriptor that is ready.
use netperf_copilot.Common.{
  ℕ, zero, suc, ◌+◌, ◌*◌, ◌-◌, ◌≤◌, ◌<◌, ◌≡◌, inl, inr, ◌∙◌, refl, ap, sym, arith, Bool, true,
  false, ◌||◌, List, [], ◌∷◌, some, ltb, ◌==◌, if◌then◌else◌, Bool-cases, ==_self, ℤ, pos, negsuc,
  All,
}
use netperf_copilot.Platform.{is_in}
use netperf_copilot.Server.{
  FdSet, fd_zero, fd_set, fd_clr, above, fdset_loop, set_fdset, accept_loop,
}

-- The descriptors of a set among `n` from `start` on, lowest first.
abbrev pub ready_from : FdSet → ℕ → ℕ → List ℕ
ready_from fds start zero = []
ready_from fds start (suc n) = elim (fds start) [
  | true ↦ start ∷ ready_from fds (suc start) n
  | false ↦ ready_from fds (suc start) n
]

abbrev pub count_from : FdSet → ℕ → ℕ → ℕ
count_from fds start zero = 0
count_from fds start (suc n) = (if fds start then 1 else 0) + count_from fds (suc start) n

other_fd : (start c : ℕ) → c < start → (start == c) ≡ false
other_fd start c l = ground arith

ready_from-fd_clr :
    (fds : FdSet) (c start n : ℕ)
    → c < start
    → ready_from (fd_clr c fds) start n ≡ ready_from fds start n
ready_from-fd_clr fds c start zero l = refl
ready_from-fd_clr fds c start (suc n) l =
    ground (arith, other_fd start c l, ready_from-fd_clr fds c (suc start) n (omega arith))

count_from-fd_clr :
    (fds : FdSet) (c start n : ℕ)
    → c < start
    → count_from (fd_clr c fds) start n ≡ count_from fds start n
count_from-fd_clr fds c start zero l = refl
count_from-fd_clr fds c start (suc n) l =
    rw (other_fd start c l, count_from-fd_clr fds c (suc start) n (omega arith)) refl

count_none : (fds : FdSet) (start n : ℕ) → count_from fds start n ≡ 0 → ready_from fds start n ≡ []
count_none fds start zero e = refl
count_none fds start (suc n) e = ground (arith, count_none fds (suc start) n)

module _ (c high num : ℕ) (fds : FdSet) where
  loop_done :
      (fuel : ℕ) → (num == 0 || ltb high c) ≡ true → accept_loop fuel c high num fds ≡ some []
  unfolding accept_loop
  loop_done zero done = rw (done) refl
  loop_done (suc fuel) done = ground arith

  loop_accept :
      (fuel : ℕ) (l : List ℕ)
      → (num == 0 || ltb high c) ≡ false
      → fds c ≡ true
      → accept_loop fuel c high (num - 1) (fd_clr c fds) ≡ some l
      → accept_loop (suc fuel) c high num fds ≡ some (c ∷ l)
  unfolding accept_loop
  loop_accept fuel l more ready rest = ground arith

  loop_pass :
      (fuel : ℕ)
      → (num == 0 || ltb high c) ≡ false
      → fds c ≡ false
      → accept_loop (suc fuel) c high num fds ≡ accept_loop fuel (suc c) high num fds
  unfolding accept_loop
  loop_pass fuel more not_ready = ground arith

count_idle :
    (fds : FdSet) (c n : ℕ) → fds c ≡ false → count_from fds c (suc n) ≡ count_from fds (suc c) n
count_idle fds c n idle = rw (idle) (omega arith)

ready_idle :
    (fds : FdSet) (c n : ℕ) → fds c ≡ false → ready_from fds c (suc n) ≡ ready_from fds (suc c) n
ready_idle fds c n idle = ground arith

ready_first :
    (fds : FdSet) (c n : ℕ) → fds c ≡ true → ready_from fds c (suc n) ≡ c ∷ ready_from fds (suc c) n
ready_first fds c n ready = ground arith

cleared : (fds : FdSet) (c : ℕ) → fd_clr c fds c ≡ false
cleared fds c = rw (==_self c) refl

accept_idle :
    (n fuel c high : ℕ) (fds : FdSet)
    → fds c ≡ false
    → c ≤ high
    → accept_loop fuel (suc c) high (count_from fds (suc c) n) fds ≡ some (ready_from fds (suc c) n)
    → accept_loop (suc fuel) c high (count_from fds (suc c) n) fds ≡ some (ready_from fds (suc c) n)
accept_idle n fuel c high fds idle inside rest =
    elim (Bool-cases (count_from fds (suc c) n == 0 || ltb high c)) [
      | inl done ↦
          loop_done c high (count_from fds (suc c) n) fds (suc fuel) done
          ∙ ap some (sym (count_none fds (suc c) n (none_left (count_from fds (suc c) n) done)))
      | inr more ↦ loop_pass c high (count_from fds (suc c) n) fds fuel more idle ∙ rest
    ]
  where
    none_left : (k : ℕ) → (k == 0 || ltb high c) ≡ true → k ≡ 0
    none_left k done = ground arith

accept_ready :
    (n fuel c high : ℕ) (fds : FdSet)
    → fds c ≡ true
    → c ≤ high
    → accept_loop fuel c high (count_from fds (suc c) n) (fd_clr c fds)
      ≡ some (ready_from fds (suc c) n)
    → accept_loop (suc fuel) c high (count_from fds c (suc n)) fds ≡ some (ready_from fds c (suc n))
accept_ready n fuel c high fds ready inside rest = rw (ready) (
    loop_accept c high (1 + count_from fds (suc c) n) fds fuel (ready_from fds (suc c) n)
      (not_done (count_from fds (suc c) n)) ready
      (ap (λ k. accept_loop fuel c high k (fd_clr c fds)) (omega arith) ∙ rest)
    ∙ ap some (sym (ready_first fds c n ready)))
  where
    not_done : (k : ℕ) → (1 + k == 0 || ltb high c) ≡ false
    not_done k = ground arith

-- With `n` descriptors left from `c` on, and as many rounds as two for each.
accept_from :
    (n fuel c high : ℕ) (fds : FdSet)
    → high + 1 ≡ c + n
    → 2 * n ≤ fuel
    → accept_loop fuel c high (count_from fds c n) fds ≡ some (ready_from fds c n)
accept_from zero fuel c high fds e enough = loop_done c high 0 fds fuel refl
accept_from (suc n) zero c high fds e enough = absurd (omega arith)
accept_from (suc n) (suc zero) c high fds e enough = absurd (omega arith)
accept_from (suc n) (suc (suc fuel)) c high fds e enough = elim (Bool-cases (fds c)) [
  | inl ready ↦ accept_ready n (suc fuel) c high fds ready (omega arith) (
      ap (λ k. accept_loop (suc fuel) c high k (fd_clr c fds))
        (sym (count_from-fd_clr fds c (suc c) n (omega arith)))
      ∙ accept_idle n fuel c high (fd_clr c fds) (cleared fds c) (omega arith)
          (accept_from n fuel (suc c) high (fd_clr c fds) (omega arith) (omega arith))
      ∙ ap some (ready_from-fd_clr fds c (suc c) n (omega arith)))
  | inr idle ↦
      ap (λ k. accept_loop (suc (suc fuel)) c high k fds) (count_idle fds c n idle)
      ∙ accept_idle n (suc fuel) c high fds idle (omega arith)
          (accept_from n (suc fuel) (suc c) high fds (omega arith) (omega arith))
      ∙ ap some (sym (ready_idle fds c n idle))
]

-- The loop of accept_connections(), with the number of descriptors that select() reports up to the
-- highest one, accepts once from each of these, the lowest first, and from no other; it ends after
-- at most two rounds for each descriptor up to the highest.
pub accept_loop-ready_from :
    (fuel high_fd : ℕ) (read_fds : FdSet)
    → 2 * (high_fd + 1) ≤ fuel
    → accept_loop fuel 0 high_fd (count_from read_fds 0 (high_fd + 1)) read_fds
      ≡ some (ready_from read_fds 0 (high_fd + 1))
accept_loop-ready_from fuel high_fd read_fds enough =
    accept_from (high_fd + 1) fuel 0 high_fd read_fds (omega arith) enough

fdset_loop_members :
    (list : List ℕ) (max : ℤ) (fds : FdSet) (fd : ℕ)
    → (fdset_loop list max fds).1 fd ≡ (is_in fd list || fds fd)
unfolding fdset_loop
fdset_loop_members [] max fds fd = refl
fdset_loop_members (n ∷ list) max fds fd =
    fdset_loop_members list (if above n max then pos n else max) (fd_set n fds) fd
    ∙ or_swap (is_in fd list) (fd == n) (fds fd)
  where
    or_swap : (a b c : Bool) → (a || (b || c)) ≡ ((b || a) || c)
    or_swap a b c = ground arith

fdset_loop_keeps :
    (list : List ℕ) (max : ℤ) (fds : FdSet) (fd : ℕ)
    → above fd max ≡ false
    → above fd (fdset_loop list max fds).0 ≡ false
unfolding fdset_loop
fdset_loop_keeps [] max fds fd h = h
fdset_loop_keeps (n ∷ list) max fds fd h =
    fdset_loop_keeps list (if above n max then pos n else max) (fd_set n fds) fd (higher max h)
  where
    higher : (m : ℤ) → above fd m ≡ false → above fd (if above n m then pos n else m) ≡ false
    higher (pos m) l = ground arith
    higher (negsuc m) l = absurd (cc)

fdset_loop_bounds :
    (list : List ℕ) (max : ℤ) (fds : FdSet)
    → All (λ n. above n (fdset_loop list max fds).0 ≡ false) list
unfolding fdset_loop
fdset_loop_bounds [] max fds = tt
fdset_loop_bounds (n ∷ list) max fds = (
  fdset_loop_keeps list (if above n max then pos n else max) (fd_set n fds) n (own max),
  fdset_loop_bounds list (if above n max then pos n else max) (fd_set n fds),
)
  where
    own : (m : ℤ) → above n (if above n m then pos n else m) ≡ false
    own (pos m) = ground arith
    own (negsuc m) = ground arith

-- set_fdset() puts just the descriptors of the list into the set, and none of them is above the
-- highest that it returns.
pub set_fdset_lem :
    (list : List ℕ) (fd : ℕ)
    → ((set_fdset list).1 fd ≡ is_in fd list) × All (λ n. above n (set_fdset list).0 ≡ false) list
unfolding set_fdset
set_fdset_lem list fd = (
  fdset_loop_members list (negsuc 0) fd_zero fd ∙ or_false (is_in fd list),
  fdset_loop_bounds list (negsuc 0) fd_zero,
)
  where
    or_false : (a : Bool) → (a || false) ≡ a
    or_false true = refl
    or_false false = refl
