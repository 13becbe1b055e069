-- ===== src/Sockets/Addresses/ReadBack.antt =====
-- get_sockaddr_family_addr_port() of src/nettest_bsd.c reads what set_sockaddr_family_addr_port()
-- has filled in.
use netperf_copilot.Common.{
  ℕ, zero, suc, ◌%◌, ◌^◌, ◌≤◌, ◌<◌, ◌≡◌, inl, inr, ◌∙◌, refl, sym, ap, ap₂, Bool, true, false, ◌||◌,
  Bool-cases, [], ◌∷◌, ◌++◌, none, some, arith, ◌==◌, if◌then◌else◌, Bytes, take, drop, length,
}
use mathlib.Core.Path.{subst}
use mathlib.Core.Option.{some-injective}
use netperf_copilot.Platform.{Platform}
use netperf_copilot.Control.{Endian, little, big, htonl, ntohl}
use netperf_copilot.Sockets.Addresses.{
  Sockaddr, htons, load, store, set_sockaddr_family_addr_port, got, all_zero,
  get_sockaddr_family_addr_port,
}

module _ (p : Platform) where
  -- How many bytes of an address the family has.
  abbrev pub address_size : ℕ → ℕ
  address_size family = if family == p.af_inet6 then 16 else 4

  htons_twice : (e : Endian) (n : ℕ) → n < 2 ^ 16 → htons e (htons e n) ≡ n
  htons_twice little n h = omega arith
  htons_twice big n h = omega arith

  load-take : (e : Endian) (addr : Bytes) → load e (take 4 addr) ≡ load e addr
  load-take e [] = refl
  load-take e (a ∷ []) = refl
  load-take e (a ∷ b ∷ []) = refl
  load-take e (a ∷ b ∷ c ∷ []) = refl
  load-take e (a ∷ b ∷ c ∷ d ∷ rest) = refl

  take-store : (e : Endian) (w : ℕ) (b c : Bytes) → take 4 (store e w b) ≡ take 4 (store e w c)
  take-store little w b c = refl
  take-store big w b c = refl

  abbrev is_v4 : ℕ → Bool
  is_v4 family = family == p.af_rds || family == p.af_inet

  abbrev filled : Endian → ℕ → Bytes → ℕ → Sockaddr
  filled e family addr port = record { family = family % 2 ^ 16; port = htons e port; addr = addr }

  set_v4 :
      (e : Endian) (family port : ℕ) (addr : Bytes)
      → is_v4 family ≡ true
      → set_sockaddr_family_addr_port p e family addr port
        ≡ some (filled e family (take 4 addr) port, store e (htonl e (load e addr)) addr)
  unfolding set_sockaddr_family_addr_port
  set_v4 e family port addr h = rw (h) refl

  set_other :
      (e : Endian) (family port : ℕ) (addr : Bytes)
      → is_v4 family ≡ false
      → set_sockaddr_family_addr_port p e family addr port
        ≡ (if family == p.af_inet6 then some (filled e family (take 16 addr) port, addr) else none)
  unfolding set_sockaddr_family_addr_port
  set_other e family port addr h = rw (h) refl

  get_v4 :
      (e : Endian) (family : ℕ) (s : Sockaddr) (buffer : Bytes)
      → (s.family == family) ≡ true
      → is_v4 family ≡ true
      → get_sockaddr_family_addr_port p e s family buffer
        ≡ got
            (if load e s.addr == 0 then 1 else 0)
            (store e (ntohl e (load e s.addr)) buffer)
            (htons e s.port)
  unfolding get_sockaddr_family_addr_port
  get_v4 e family s buffer same h = rw (same, h) refl

  get_v6 :
      (e : Endian) (family : ℕ) (s : Sockaddr) (buffer : Bytes)
      → (s.family == family) ≡ true
      → is_v4 family ≡ false
      → (family == p.af_inet6) ≡ true
      → get_sockaddr_family_addr_port p e s family buffer
        ≡ got (all_zero s.addr 1) (s.addr ++ drop 16 buffer) (htons e s.port)
  unfolding get_sockaddr_family_addr_port
  get_v6 e family s buffer same h k = rw (same, h, k) refl

  abbrev ReadBack : Endian → ℕ → ℕ → Bytes → Sockaddr × Bytes → Type 0
  ReadBack e family port buffer r =
      (ret : ℕ) × (out : Bytes) × (get_sockaddr_family_addr_port p e r.0 family buffer
        ≡ got ret out port)
      × (take (address_size family) out ≡ take (address_size family) r.1)

  same_family : (family : ℕ) → family < 2 ^ 16 → (family % 2 ^ 16 == family) ≡ true
  same_family family h = ground arith

  v4_not_v6 : (family : ℕ) → is_v4 family ≡ true → address_size family ≡ 4
  v4_not_v6 family h = ground (arith, p.families_distinct)

  v6_size : (family : ℕ) → (family == p.af_inet6) ≡ true → address_size family ≡ 16
  v6_size family h = rw (h) refl

  take_of_take : (n : ℕ) (xs ys : Bytes) → n ≤ length xs → take n (take n xs ++ ys) ≡ take n xs
  take_of_take zero xs ys h = refl
  take_of_take (suc n) [] ys h = absurd (omega arith)
  take_of_take (suc n) (x ∷ xs) ys h = ap (λ r. x ∷ r) (take_of_take n xs ys (omega arith))

  read_v4 :
      (e : Endian) (family port : ℕ) (addr buffer : Bytes)
      → family < 2 ^ 16
      → port < 2 ^ 16
      → is_v4 family ≡ true
      → ReadBack e family port buffer
          (filled e family (take 4 addr) port, store e (htonl e (load e addr)) addr)
  unfolding ntohl
  read_v4 e family port addr buffer f pt v4 = (
    _,
    store e (ntohl e (load e addr)) buffer,
    get_v4 e family (filled e family (take 4 addr) port) buffer (same_family family f) v4
        ∙ ap₂ (λ w n. got (if w == 0 then 1 else 0) (store e (ntohl e w) buffer) n)
            (load-take e addr) (htons_twice e port pt),
    rw (v4_not_v6 family v4) (take-store e (htonl e (load e addr)) buffer addr),
  )

  read_v6 :
      (e : Endian) (family port : ℕ) (addr buffer : Bytes)
      → family < 2 ^ 16
      → port < 2 ^ 16
      → 16 ≤ length addr
      → is_v4 family ≡ false
      → (family == p.af_inet6) ≡ true
      → ReadBack e family port buffer (filled e family (take 16 addr) port, addr)
  read_v6 e family port addr buffer f pt l other v6 = (
    all_zero (take 16 addr) 1,
    take 16 addr ++ drop 16 buffer,
    get_v6 e family (filled e family (take 16 addr) port) buffer (same_family family f) other v6
        ∙ ap (got (all_zero (take 16 addr) 1) (take 16 addr ++ drop 16 buffer))
            (htons_twice e port pt),
    rw (v6_size family v6) (take_of_take 16 addr (drop 16 buffer) l),
  )

  not_none : {r : Sockaddr × Bytes} → none ≡ some r → ⊥
  not_none e = cc

  -- A sockaddr that set_sockaddr_family_addr_port() fills, from an address of 16 bytes or more, is
  -- read back by get_sockaddr_family_addr_port() for the same family, into any buffer: the port is
  -- the same, and the address is what the first function has left in its caller's buffer, which
  -- for IPv4 is the address in host order.
  pub get_sockaddr-set_sockaddr :
      (e : Endian) (family port : ℕ) (addr addr' buffer : Bytes) (s : Sockaddr)
      → family < 2 ^ 16
      → port < 2 ^ 16
      → 16 ≤ length addr
      → set_sockaddr_family_addr_port p e family addr port ≡ some (s, addr')
      → (ret : ℕ) × (out : Bytes) × (get_sockaddr_family_addr_port p e s family buffer
          ≡ got ret out port)
        × (take (address_size family) out ≡ take (address_size family) addr')
  get_sockaddr-set_sockaddr e family port addr addr' buffer s f pt l set_is =
      elim (Bool-cases (is_v4 family)) [
        | inl v4 ↦
            subst (ReadBack e family port buffer)
              (some-injective _ _ (sym (set_v4 e family port addr v4) ∙ set_is))
              (read_v4 e family port addr buffer f pt v4)
        | inr other ↦ elim (Bool-cases (family == p.af_inet6)) [
          | inl v6 ↦
              subst (ReadBack e family port buffer)
                (some-injective _ _
                  (sym (set_other e family port addr other ∙ rw (v6) refl) ∙ set_is))
                (read_v6 e family port addr buffer f pt l other v6)
          | inr bad ↦
              absurd (not_none (sym (set_other e family port addr other ∙ rw (bad) refl) ∙ set_is))
        ]
      ]
