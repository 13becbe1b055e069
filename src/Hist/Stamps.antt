-- ===== src/Hist/Stamps.antt =====
-- The ring of outstanding timestamps of a histogram: HIST_timestamp_start(),
-- HIST_timestamp_stop_add() and delta_micro() of src/netlib.c.
use native.Mathlib.Nat.{mod-add-mod}
use netperf_copilot.Common.{
  ℕ, zero, suc, ◌+◌, ◌*◌, ◌-◌, ◌%◌, ◌<◌, ◌≡◌, ◌≢◌, ◌∙◌, refl, sym, ap, ap₂, Bool, List, [], ◌∷◌,
  ◌++◌, none, some, arith, length, length-set, get_or, set, get_or-set_self, get_or-set_ne, ==_self,
  ne→==, ℤ, pos, negsuc, ◌+ℤ◌, ◌-ℤ◌, pos_part, neg_part, ltb_ℤ, int_laws, to_int,
  to_int-IsCongruent, to_int_same, Bool-cases, inl, inr,
}
use netperf_copilot.Floats.{Floats}
use netperf_copilot.Hist.{
  Timeval, Histogram, delta_micro, times_million, add, note_sample, timestamp_start,
  timestamp_stop_add,
}
use netperf_copilot.Hist.Add.{place-SameStats}

-- The instant in microseconds.
abbrev pub micros : Timeval → ℤ
micros t = times_million t.tv_sec +ℤ t.tv_usec

times_million_pos : (a : ℤ) → pos_part (times_million a) ≡ pos_part a * 1000000
times_million_pos (pos n) = omega arith
times_million_pos (negsuc n) = omega arith

times_million_neg : (a : ℤ) → neg_part (times_million a) ≡ neg_part a * 1000000
times_million_neg (pos n) = omega arith
times_million_neg (negsuc n) = omega arith

ruleset time_laws = (int_laws, times_million_pos, times_million_neg)

in_int :
    (u s : ℤ)
    → to_int (to_int u +ℤ to_int (times_million (to_int s))) ≡ to_int (u +ℤ times_million s)
in_int u s =
    let (a, b, p) = to_int-IsCongruent u in
    let (c, d, q) = to_int-IsCongruent s in
    let (e, f, r) = to_int-IsCongruent (times_million (to_int s)) in
    to_int_same (to_int u +ℤ to_int (times_million (to_int s))) (u +ℤ times_million s)
      (a + 1000000 * c + e, b + 1000000 * d + f, omega time_laws)

-- The borrow changes the representation of the later time, not the instant, and the result is the
-- difference of the two instants in microseconds, as an int.
pub delta_micro_lem :
    (begin end : Timeval)
    → ((delta_micro begin end).0 ≡ to_int (micros end -ℤ micros begin))
      × (micros (delta_micro begin end).1 ≡ micros end)
unfolding delta_micro
delta_micro_lem begin end = elim (Bool-cases (ltb_ℤ end.tv_usec begin.tv_usec)) [
  | inl e ↦ rw e (in_int _ _ ∙ ap to_int (omega time_laws), omega time_laws)
  | inr e ↦ rw e (in_int _ _ ∙ ap to_int (omega time_laws), refl)
]

-- The timestamps held in `n` places from place `c` on, the oldest first.
abbrev pub held : List Timeval → ℕ → Timeval → ℕ → ℕ → List Timeval
held ones limit d c zero = []
held ones limit d c (suc n) = get_or ones c d ∷ held ones limit d ((c + 1) % limit) n

length-held :
    (ones : List Timeval) (limit : ℕ) (d : Timeval) (c n : ℕ) → length (held ones limit d c n) ≡ n
length-held ones limit d c zero = refl
length-held ones limit d c (suc n) = ap suc (length-held ones limit d ((c + 1) % limit) n)

step_mod : (c n limit : ℕ) → ((c + 1) % limit + n) % limit ≡ (c + suc n) % limit
step_mod c n limit = rw mod-add-mod (ap (λ k. k % limit) (omega arith))

-- A step of less than a full turn does not come back.
pub turn-ne : (c k limit : ℕ) → c < limit → 0 < k → k < limit → (c + k) % limit ≢ c
turn-ne c k limit h hk hl e = grind arith

held-set :
    (ones : List Timeval) (limit : ℕ) (d now : Timeval) (c n p : ℕ)
    → length ones ≡ limit
    → c < limit
    → n < limit
    → p ≡ (c + n) % limit
    → held (set ones p now) limit d c (suc n) ≡ held ones limit d c n ++ (now ∷ [])
held-set ones limit d now c zero p full hc hn e =
    let at : p ≡ c = grind arith in
    rw at (ap (λ t. t ∷ []) (get_or-set_self ones c now d (omega arith)))
held-set ones limit d now c (suc n) p full hc hn e =
    ap₂ (λ t ts. t ∷ ts)
      (get_or-set_ne ones p c now d (λ q. turn-ne c (suc n) limit hc (omega arith) hn (sym e ∙ q)))
      (held-set ones limit d now ((c + 1) % limit) n p full (grind arith) (omega arith)
        (e ∙ sym (step_mod c n limit)))

held_cons :
    (ones : List Timeval) (limit : ℕ) (d : Timeval) (c m : ℕ) (t : Timeval) (q : List Timeval)
    → held ones limit d c m ≡ t ∷ q
    → (get_or ones c d ≡ t) × (held ones limit d ((c + 1) % limit) (m - 1) ≡ q) × (0 < m)
held_cons ones limit d c zero t q e = absurd (cc)
held_cons ones limit d c (suc m) t q e =
    let same : suc m - 1 ≡ m = omega arith in rw same (cc, cc, omega arith)

pub turned : (c m limit : ℕ) → 0 < m → ((c + 1) % limit + (m - 1)) % limit ≡ (c + m) % limit
turned c zero limit h = absurd (omega arith)
turned c (suc m) limit h = let same : suc m - 1 ≡ m = omega arith in rw same (step_mod c m limit)

pub add_turn : (p c m limit : ℕ) → p ≡ (c + m) % limit → (p + 1) % limit ≡ (c + (m + 1)) % limit
add_turn p c m limit e = rw (e, mod-add-mod) (ap (λ k. k % limit) (omega arith))

module _ (F : Floats) where
  abbrev pub zero_stamp : Timeval
  zero_stamp = record { tv_sec = pos 0; tv_usec = pos 0 }

  -- The ring holds the timestamps of the queue `q`, and is not full.
  pub record Holds (h : Histogram F) (q : List Timeval) : Type 0 where
    pub size : length h.time_ones ≡ h.limit
    pub consumer_in : h.consumer < h.limit
    pub not_full : h.count < h.limit
    pub producer_at : h.producer ≡ (h.consumer + h.count) % h.limit
    pub stamps : held h.time_ones h.limit zero_stamp h.consumer h.count ≡ q

  -- HIST_timestamp_start() on a ring with room for one more: it succeeds, and the new time is the
  -- youngest of the queue.
  pub timestamp_start-Holds :
      (h : Histogram F) (q : List Timeval) (now : Timeval)
      → Holds h q
      → h.count + 1 < h.limit
      → (h' : Histogram F) × (timestamp_start F h now ≡ some h') × Holds h' (q ++ (now ∷ []))
  unfolding timestamp_start
  timestamp_start-Holds h q now v room =
      let more : h.count + 1 ≡ suc h.count = omega arith in
      let h' : Histogram F = record h {
        time_ones = set h.time_ones h.producer now;
        producer = (h.producer + 1) % h.limit;
        count = h.count + 1;
      } in
      (
        h',
        rw (ne→== h.limit 0 (omega arith)),
        record {
          size = length-set h.time_ones h.producer now ∙ v.size;
          consumer_in = v.consumer_in;
          not_full = room;
          producer_at = add_turn h.producer h.consumer h.count h.limit v.producer_at;
          stamps =
              ap (held (set h.time_ones h.producer now) h.limit zero_stamp h.consumer) more
              ∙ held-set h.time_ones h.limit zero_stamp now h.consumer h.count h.producer v.size
                  v.consumer_in v.not_full v.producer_at
              ∙ ap (λ ts. ts ++ (now ∷ [])) v.stamps;
        },
      )

  -- The ring is empty: the process exits.
  pub timestamp_stop_add_empty :
      (keep_statistics : Bool) (h : Histogram F) (now : Timeval)
      → Holds h []
      → timestamp_stop_add F keep_statistics h now ≡ none
  unfolding timestamp_stop_add
  timestamp_stop_add_empty keep_statistics h now v =
      let none_left : h.count ≡ 0 =
        sym (length-held h.time_ones h.limit zero_stamp h.consumer h.count) ∙ ap length v.stamps in
      let same : h.consumer ≡ h.producer = grind arith in rw (← same, ==_self h.consumer)

  add-SameRing :
      (keep_statistics : Bool) (h : Histogram F) (d : ℤ)
      → let k = add F keep_statistics h d in
        (k.limit ≡ h.limit)
        × (k.count ≡ h.count)
        × (k.producer ≡ h.producer)
        × (k.consumer ≡ h.consumer)
        × (k.time_ones ≡ h.time_ones)
  unfolding add note_sample
  add-SameRing keep_statistics h (negsuc n) = (refl, refl, refl, refl, refl)
  add-SameRing keep_statistics h (pos t) =
      let s = place-SameStats F (note_sample F keep_statistics h t) (F.of_int t) in
      (s.same_limit, s.same_count, s.same_producer, s.same_consumer, s.same_time_ones)

  -- What HIST_timestamp_stop_add() leaves behind: HIST_add() of the time from `t` to `now` in
  -- microseconds, as an int, and the consumer's index one place on.
  abbrev pub stopped : Bool → Histogram F → Timeval → Timeval → Histogram F
  stopped keep_statistics h t now =
      record (add F keep_statistics (record h { time_two = (delta_micro t now).1 })
        (to_int (micros now -ℤ micros t))) {
          consumer = (h.consumer + 1) % h.limit;
          count = h.count - 1;
        }

  -- HIST_timestamp_stop_add() on a ring that holds a timestamp: it succeeds, the oldest leaves the
  -- queue, and what HIST_add() is given is the time from it to now in microseconds, wrapped to an
  -- int.
  pub timestamp_stop_add-Holds :
      (keep_statistics : Bool) (h : Histogram F) (t : Timeval) (q : List Timeval) (now : Timeval)
      → Holds h (t ∷ q)
      → (timestamp_stop_add F keep_statistics h now ≡ some (stopped keep_statistics h t now))
        × Holds (stopped keep_statistics h t now) q
  unfolding timestamp_stop_add
  timestamp_stop_add-Holds keep_statistics h t q now v =
      let head = held_cons h.time_ones h.limit zero_stamp h.consumer h.count t q v.stamps in
      let same =
        add-SameRing keep_statistics (record h { time_two = (delta_micro t now).1 })
          (to_int (micros now -ℤ micros t)) in
      let apart : h.consumer ≢ h.producer = λ e.
        turn-ne h.consumer h.count h.limit v.consumer_in head.2 v.not_full
          (sym (e ∙ v.producer_at)) in
      (
        rw
            (
              ne→== h.consumer h.producer apart,
              ne→== h.limit 0 (omega arith),
              head.0,
              (delta_micro_lem t now).0,
            )
            (rw (same.0, same.1, same.3)),
        record {
          size = rw (same.0, same.4) v.size;
          consumer_in = rw same.0 (grind arith);
          not_full = rw same.0 (omega arith);
          producer_at =
              rw (same.0, same.2) (v.producer_at ∙ sym (turned h.consumer h.count h.limit head.2));
          stamps = rw (same.0, same.4) head.1;
        },
      )
