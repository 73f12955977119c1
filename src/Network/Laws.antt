-- ===== src/Network/Laws.antt =====
-- What pkg/network/tools.go guarantees of addresses and packets.
use ptun.Base.{
  ℕ, zero, suc, ◌+◌, ◌-◌, ◌*◌, ◌/◌, ◌≤◌, ◌<◌, ◌≡◌, refl, ◌↔◌, ◌⊎◌, inl, inr, true, false, List, [],
  ◌∷◌, Result, ok, panics, length, take, drop, get_elem?, arith, ◌==◌, length-take, length-drop,
  Bool-cases, Option-cases, none, some, ltb, get_elem?-lt, lt_of_get_elem?,
}
use ptun.Network.{
  Ip, to4, reparse, shortest, IpNet, contains, byte_at, is_broadcast, Slice, sub_slice, Parsed,
  endpoints, parse_packet, index, is_extension, Stuck, skip_loop, skip_extension_headers,
}

shortest-reparse :
    (ip : Ip) → (length ip ≡ 4) ⊎ (length ip ≡ 16) → shortest (reparse ip) ≡ shortest ip
unfolding shortest reparse to4
shortest-reparse ip h = ground arith

-- The address in 16 bytes, which Peer.HasIP compares, lies in the same networks.
pub contains-reparse :
    (n : IpNet) (ip : Ip)
    → (length ip ≡ 4) ⊎ (length ip ≡ 16)
    → contains n (reparse ip) ≡ contains n ip
unfolding contains
contains-reparse n ip h = rw (shortest-reparse ip h)

-- An IPv4 destination goes to every peer exactly if it is multicast or ends in 255, whatever the
-- network's mask is.
pub is_broadcast_v4 :
    (a b c d : ℕ) → is_broadcast (a ∷ b ∷ c ∷ d ∷ []) ≡ true ↔ ((a / 16 ≡ 14) ⊎ (d ≡ 255))
unfolding is_broadcast
is_broadcast_v4 a b c d = (λ e. ground arith, λ e. ground arith)

abbrev unversioned : Parsed
unversioned = record { version = 0; src = []; dst = [] }

module _ {E : Type 0} where
  sub_slice-length :
      (s : Slice) (from to : ℕ)
      → from ≤ to
      → to ≤ length s.backing
      → (p : List ℕ) × (sub_slice {E = E} s from to ≡ ok p) × (length p ≡ to - from)
  unfolding sub_slice
  sub_slice-length s from to h k = (
    take (to - from) (drop from s.backing),
    ground arith,
    omega (arith, length-take (to - from) (drop from s.backing), length-drop from s.backing),
  )

  endpoints-length :
      (version : ℕ) (s : Slice) (offset size : ℕ)
      → offset + size + size ≤ length s.backing
      → (q : Parsed) × (endpoints {E = E} version s offset size ≡ ok q)
        × (q.version ≡ version)
        × (length q.src ≡ size)
        × (length q.dst ≡ size)
  unfolding endpoints
  endpoints-length version s offset size h =
      let (src, e, l) = sub_slice-length s offset (offset + size) (omega arith) (omega arith) in
      let (dst, f, k) =
        sub_slice-length s (offset + size) (offset + size + size) (omega arith) (omega arith) in
      (
        record { version = version; src = src; dst = dst },
        rw e (rw f),
        refl,
        omega arith,
        omega arith,
      )

  -- Neither address of a packet reaches past a capacity of 40, so a pool buffer is always long
  -- enough; and the two have the length of the version's addresses.
  pub parse_packet_total :
      (s : Slice)
      → 40 ≤ length s.backing
      → (q : Parsed) × (parse_packet {E = E} s ≡ ok q)
        × (q.version ≡ 4 → (length q.src ≡ 4) × (length q.dst ≡ 4))
        × (q.version ≡ 6 → (length q.src ≡ 16) × (length q.dst ≡ 16))
  unfolding parse_packet
  parse_packet_total s h =
      let (q4, e4, v4, s4, d4) = endpoints-length 4 s 12 4 (omega arith) in
      let (q6, e6, v6, s6, d6) = endpoints-length 6 s 8 16 (omega arith) in
      elim (Bool-cases (s.len == 0)) [
        | inl a ↦ rw a (unversioned, refl, omega arith, omega arith)
        | inr a ↦ rw a (elim (Bool-cases (byte_at s.backing 0 / 16 == 4)) [
          | inl b ↦ rw b (q4, e4, λ _. (s4, d4), omega arith)
          | inr b ↦ rw b (elim (Bool-cases (byte_at s.backing 0 / 16 == 6)) [
            | inl c ↦ rw c (q6, e6, omega arith, λ _. (s6, d6))
            | inr c ↦ rw c (unversioned, refl, omega arith, omega arith)
          ])
        ])
      ]

index-cases :
    (p : List ℕ) (i : ℕ)
    → ((index {E = Stuck} p i ≡ panics) × (length p ≤ i))
      ⊎ ((b : ℕ) × (index {E = Stuck} p i ≡ ok b) × (get_elem? p i ≡ some b) × (i < length p))
index-cases p i = elim (Option-cases (get_elem? p i)) [
  | inl e ↦ inl (rw (e, index), le_of_none e)
  | inr (b, e) ↦ inr (b, rw (e, index), e, lt_of_get_elem? p i e)
]
  where
    le_of_none : get_elem? p i ≡ none → length p ≤ i
    le_of_none e = elim (Bool-cases (ltb i (length p))) [
      | inl l ↦ let f = get_elem?-lt p i (ground (arith, l)) in cc (e, f.1)
      | inr l ↦ ground (arith, l)
    ]

-- How the loop goes from an offset, with a header: it ends with a header that is no extension, or with a
-- panic where the packet ends before the two bytes at the offset, and goes on with the next header and
-- offset that these bytes give.
pub data Walk (p : List ℕ) : ℕ → ℕ → Result Stuck (ℕ × ℕ) → Type 0 where
  found : (offset h : ℕ) → is_extension h ≡ false → Walk p offset h (ok (offset, h))
  cut_off : (offset h : ℕ) → is_extension h ≡ true → length p < offset + 2 → Walk p offset h panics
  goes_on :
      (offset h b l : ℕ) (r : Result Stuck (ℕ × ℕ))
      → is_extension h ≡ true
      → get_elem? p offset ≡ some b
      → get_elem? p (offset + 1) ≡ some l
      → Walk p (offset + (l + 1) * 8) b r
      → Walk p offset h r

-- One round of the loop, where it may end and where it goes on.
module _ (fuel : ℕ) (p : List ℕ) (offset h : ℕ) where
  round_done : is_extension h ≡ false → skip_loop (suc fuel) p offset h ≡ ok (offset, h)
  unfolding skip_loop
  round_done e = rw (e, skip_loop)

  round_panics :
      is_extension h ≡ true
      → (index {E = Stuck} p offset ≡ panics)
        ⊎ ((b : ℕ) × (index {E = Stuck} p offset ≡ ok b)
            × (index {E = Stuck} p (offset + 1) ≡ panics))
      → skip_loop (suc fuel) p offset h ≡ panics
  unfolding skip_loop
  round_panics e (inl a) = rw (e, skip_loop) (rw a)
  round_panics e (inr (b, a, c)) = rw (e, skip_loop) (rw a (rw c))

  round_more :
      (b l : ℕ)
      → is_extension h ≡ true
      → index {E = Stuck} p offset ≡ ok b
      → index {E = Stuck} p (offset + 1) ≡ ok l
      → skip_loop (suc fuel) p offset h ≡ skip_loop fuel p (offset + (l + 1) * 8) b
  unfolding skip_loop
  round_more b l e a c = rw (e, skip_loop) (rw a (rw c))

skip_loop-Walk :
    (fuel : ℕ) (p : List ℕ) (offset h : ℕ)
    → 0 < fuel
    → length p < offset + fuel
    → Walk p offset h (skip_loop fuel p offset h)
skip_loop-Walk zero p offset h z k = absurd (omega arith)
skip_loop-Walk (suc fuel) p offset h z k = elim (Bool-cases (is_extension h)) [
  | inr e ↦ rw (round_done fuel p offset h e) (found offset h e)
  | inl e ↦ elim (index-cases p offset) [
    | inl (a, short) ↦
        rw (round_panics fuel p offset h e (inl a)) (cut_off offset h e (omega arith))
    | inr (b, a, at_b, lt) ↦ elim (index-cases p (offset + 1)) [
      | inl (c, short) ↦
          rw (round_panics fuel p offset h e (inr (b, a, c))) (cut_off offset h e (omega arith))
      | inr (l, c, at_l, lt2) ↦ rw (round_more fuel p offset h b l e a c) (
          goes_on offset h b l _ e at_b at_l
            (skip_loop-Walk fuel p (offset + (l + 1) * 8) b (omega arith) (omega arith)))
    ]
  ]
]

-- The loop over the extension headers ends on every packet: it goes from each extension header to the
-- next one, by the two bytes at the offset, and ends with the first header that is no extension, or with
-- a panic exactly where the packet ends before both of these bytes.
pub skip_extension_headers-Walk : (p : List ℕ) (h : ℕ) → Walk p 0 h (skip_extension_headers p h)
unfolding skip_extension_headers
skip_extension_headers-Walk p h = skip_loop-Walk (suc (length p)) p 0 h (omega arith) (omega arith)
