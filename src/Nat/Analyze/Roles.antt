-- ===== src/Nat/Analyze/Roles.antt =====
-- What Analyze of pkg/nat/analyze.go settles between the two sides: roles, port ranges, failures.
use ptun.Base.{
  ℕ, ◌≤◌, ◌≡◌, refl, ◌⊎◌, inl, inr, Bool, true, false, List, [], ◌∷◌, Option, none, some, ok,
  panics, ◌>>=◌, arith, Option-cases, >>=-eq-ok, ok-injective,
}
use mathlib.Core.Path.{subst}
use ptun.Base.Text.{String}
use ptun.Nat.Analyze.{
  UdpAddr, server_side, client_side, Resource, DetectResult, AnalyzeResult, Pair, resolve, mapped,
  is_random_port, is_hard, ports_distance, widened, analyze_double_easy, second_port,
  analyze_has_easy, analyze_double_hard, swap, choose, analyze,
}

-- A range that is scanned is no narrower than 10000 .. 65000, and ends at a port.
abbrev pub IsScan : Resource → Type 0
IsScan r = (r.remote_port_start ≤ 10000) × (65000 ≤ r.remote_port_end) × (r.remote_port_end ≤ 65535)

-- What each result says of a side: one address is tried, or 1024 ports of a scan.
abbrev pub IsPlan : AnalyzeResult → Type 0
IsPlan a =
    (a.resource.remote_port_count ≡ 1) ⊎ ((a.resource.remote_port_count ≡ 1024) × IsScan a.resource)

-- The first side is the client, on 256 ports, and the second one the server, on one.
abbrev pub AsHard : Pair → Type 0
AsHard (a, b) =
    (a.role ≡ client_side)
    × (b.role ≡ server_side)
    × (a.resource.local_port_count ≡ 256)
    × (b.resource.local_port_count ≡ 1)

module _ (resolve_addr : String → Option UdpAddr) (keys : List (String × Bool) → List String) where
  abbrev endpoints : DetectResult → List String
  endpoints r = r.local_addr ∷ r.primary_mapped_addr ∷ r.secondary_mapped_addr ∷ []

  -- The resolver gives ports.
  abbrev pub HasPorts : Type 0
  HasPorts = (a : String) (u : UdpAddr) → resolve_addr a ≡ some u → u.port ≤ 65535

  abbrev pub Plans : DetectResult → DetectResult → Pair → Type 0
  Plans local remote p =
      (p.0.local_addrs ≡ local.local_addr ∷ [])
      × (p.1.local_addrs ≡ remote.local_addr ∷ [])
      × (((p.0.role ≡ client_side) × (p.1.role ≡ server_side))
          ⊎ ((p.0.role ≡ server_side) × (p.1.role ≡ client_side)))
      × IsPlan p.0
      × IsPlan p.1

  mapped-cases :
      (r : DetectResult)
      → (mapped resolve_addr keys r ≡ panics)
        ⊎ ((p s : UdpAddr) × (mapped resolve_addr keys r ≡ ok (p, s))
            × (resolve_addr r.primary_mapped_addr ≡ some p)
            × (resolve_addr r.secondary_mapped_addr ≡ some s))
  unfolding mapped
  mapped-cases r = elim (Option-cases (resolve_addr r.primary_mapped_addr)) [
    | inl e ↦ inl (rw (e, mapped))
    | inr (p, e) ↦ elim (Option-cases (resolve_addr r.secondary_mapped_addr)) [
      | inl f ↦ inl (rw (e, mapped) (rw f))
      | inr (s, f) ↦ inr (p, s, rw (e, mapped) (rw f), e, f)
    ]
  ]

  widened_bounds :
      (r : DetectResult) (ls le : ℕ)
      → HasPorts
      → widened resolve_addr keys r ≡ ok (ls, le)
      → (ls ≤ 10000) × (65000 ≤ le) × (le ≤ 65535)
  unfolding widened ports_distance
  widened_bounds r ls le ports e = elim (mapped-cases r) [
    | inl m ↦ cc (rw m at e)
    | inr (p, s, m, hp, hs) ↦ ground (arith, rw m at e, ports _ p hp, ports _ s hs)
  ]

  analyze_has_easy-Plans :
      (l r : DetectResult) (p : Pair)
      → HasPorts
      → analyze_has_easy resolve_addr keys l r ≡ ok p
      → Plans l r p
  unfolding analyze_has_easy
  analyze_has_easy-Plans l r p ports e =
      let (addrs, e1, g1) = >>=-eq-ok (resolve resolve_addr keys (endpoints r)) _ e in
      let (start, e2, g2) = >>=-eq-ok (second_port addrs) _ g1 in
      let (range, e3, g3) = >>=-eq-ok (widened resolve_addr keys l) _ g2 in
      let w = widened_bounds l range.0 range.1 ports e3 in
      subst (Plans l r) (ok-injective g3) (refl, refl, inl (refl, refl), inl refl, inr (refl, w))

  analyze_has_easy_roles :
      (l r : DetectResult) (p : Pair) → analyze_has_easy resolve_addr keys l r ≡ ok p → AsHard p
  unfolding analyze_has_easy
  analyze_has_easy_roles l r p e =
      let (addrs, e1, g1) = >>=-eq-ok (resolve resolve_addr keys (endpoints r)) _ e in
      let (start, e2, g2) = >>=-eq-ok (second_port addrs) _ g1 in
      let (range, e3, g3) = >>=-eq-ok (widened resolve_addr keys l) _ g2 in
      subst AsHard (ok-injective g3) (refl, refl, refl, refl)

  analyze_double_hard-Plans :
      (l r : DetectResult) (p : Pair)
      → HasPorts
      → analyze_double_hard resolve_addr keys l r ≡ ok p
      → Plans l r p
  unfolding analyze_double_hard
  analyze_double_hard-Plans l r p ports e =
      let (range, f, g) = >>=-eq-ok (widened resolve_addr keys l) _ e in
      let w = widened_bounds l range.0 range.1 ports f in
      subst (Plans l r) (ok-injective g)
        (refl, refl, inl (refl, refl), inr (refl, omega arith), inr (refl, w))

  analyze_double_easy-Plans :
      (l r : DetectResult) (p : Pair)
      → analyze_double_easy resolve_addr keys l r ≡ ok p
      → Plans l r p
  unfolding analyze_double_easy
  analyze_double_easy-Plans l r p e =
      subst (Plans l r) (ok-injective e) (refl, refl, inl (refl, refl), inl refl, inl refl)

  swap-Plans : (l r : DetectResult) (p : Pair) → Plans r l p → Plans l r (swap p)
  swap-Plans l r (a, b) h = ground arith

  choose-Plans :
      (x y : Bool) (l r : DetectResult) (p : Pair)
      → HasPorts
      → choose resolve_addr keys x y l r ≡ ok p
      → Plans l r p
  unfolding choose
  choose-Plans false false l r p ports e = analyze_double_easy-Plans l r p e
  choose-Plans true false l r p ports e = analyze_has_easy-Plans l r p ports e
  choose-Plans false true l r p ports e =
      let (q, f, g) = >>=-eq-ok (analyze_has_easy resolve_addr keys r l) _ e in
      subst (Plans l r) (ok-injective g) (swap-Plans l r q (analyze_has_easy-Plans r l q ports f))
  choose-Plans true true l r p ports e = analyze_double_hard-Plans l r p ports e

  pub analyze-Plans :
      (l r : DetectResult) (p : Pair)
      → HasPorts
      → analyze resolve_addr keys l r ≡ ok p
      → Plans l r p
  unfolding analyze
  analyze-Plans l r p ports e =
      let (x, e1, g1) = >>=-eq-ok (is_hard resolve_addr keys l) _ e in
      let (y, e2, g2) = >>=-eq-ok (is_hard resolve_addr keys r) _ g1 in
      choose-Plans x y l r p ports g2

  analyze-choose :
      (x y : Bool) (l r : DetectResult)
      → is_hard resolve_addr keys l ≡ ok x
      → is_hard resolve_addr keys r ≡ ok y
      → analyze resolve_addr keys l r ≡ choose resolve_addr keys x y l r
  unfolding analyze
  analyze-choose x y l r e f = rw (e, analyze) (rw f)

  -- When one side is hard and the other easy, the order of the two makes no difference: what each is
  -- told is the same, an error or a panic included.
  pub analyze-swap :
      (l r : DetectResult)
      → is_hard resolve_addr keys l ≡ ok true
      → is_hard resolve_addr keys r ≡ ok false
      → analyze resolve_addr keys r l ≡ (analyze resolve_addr keys l r >>= λ p. ok (swap p))
  unfolding choose
  analyze-swap l r e f = rw (analyze-choose false true r l f e, analyze-choose true false l r e f)

  -- The hard side becomes the client, on 256 ports, and is probed by the easy one.
  analyze-AsHard :
      (l r : DetectResult) (p : Pair)
      → is_hard resolve_addr keys l ≡ ok true
      → is_hard resolve_addr keys r ≡ ok false
      → analyze resolve_addr keys l r ≡ ok p
      → AsHard p
  unfolding choose
  analyze-AsHard l r p e f h =
      analyze_has_easy_roles l r p (rw (analyze-choose true false l r e f) at h)

  is_hard_unresolved :
      (l : DetectResult)
      → resolve_addr l.primary_mapped_addr ≡ none
      → is_hard resolve_addr keys l ≡ panics
  unfolding is_hard is_random_port
  is_hard_unresolved l e = elim (mapped-cases l) [
    | inl m ↦ rw (m, is_hard, is_random_port)
    | inr (p, s, m, f, g) ↦ cc (e, f)
  ]

  -- A mapped address that does not resolve makes Analyze panic: the resolver's error is dropped.
  pub analyze_unresolved :
      (l r : DetectResult)
      → resolve_addr l.primary_mapped_addr ≡ none
      → analyze resolve_addr keys l r ≡ panics
  unfolding analyze
  analyze_unresolved l r e = rw (is_hard_unresolved l e, analyze)
