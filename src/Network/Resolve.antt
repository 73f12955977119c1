-- ===== src/Network/Resolve.antt =====
-- pkg/network/tools.go: ResolveUDPAddrs and ParseIPNets, loops that stop at the first failure. What
-- net.ResolveUDPAddr and net.ParseCIDR give is a parameter; an error names the text that failed.
use ptun.Base.{
  ◌≡◌, refl, ap, ◌↔◌, List, [], ◌∷◌, map, Option, none, some, Option-cases, inl, inr, Result, ok,
  err, panics, ◌>>=◌, >>=-eq-ok, ok-injective,
}
use ptun.Base.Text.{String}
use ptun.Network.{Ip, IpNet}

module _ {A : Type 0} (resolve : String → Option A) where
  unfoldable pub resolve_udp_addrs : List String → Result String (List A)
  resolve_udp_addrs [] = ok []
  resolve_udp_addrs (addr ∷ addrs) = elim (resolve addr) [
    | none ↦ err addr
    | some r ↦ resolve_udp_addrs addrs >>= λ results. ok (r ∷ results)
  ]

  -- The independent description: each text resolves, to the value at the same place.
  abbrev pub AllResolve : List String → List A → Type 0
  AllResolve addrs results = map resolve addrs ≡ map some results

  resolve_udp_addrs_sound :
      (addrs : List String) (results : List A)
      → resolve_udp_addrs addrs ≡ ok results
      → AllResolve addrs results
  unfolding resolve_udp_addrs
  resolve_udp_addrs_sound [] results e = ap (map some) (ok-injective e)
  resolve_udp_addrs_sound (addr ∷ addrs) results e = elim (Option-cases (resolve addr)) [
    | inl f ↦ cc (rw (f, resolve_udp_addrs) at e)
    | inr (r, f) ↦
        let (rest, g, h) = >>=-eq-ok (resolve_udp_addrs addrs) _ (rw (f, resolve_udp_addrs) at e) in
        rw (f, ← ok-injective h) (ap (λ rs. some r ∷ rs) (resolve_udp_addrs_sound addrs rest g))
  ]

  resolve_udp_addrs_complete :
      (addrs : List String) (results : List A)
      → AllResolve addrs results
      → resolve_udp_addrs addrs ≡ ok results
  unfolding resolve_udp_addrs
  resolve_udp_addrs_complete [] [] e = refl
  resolve_udp_addrs_complete [] (r ∷ rs) e = cc e
  resolve_udp_addrs_complete (addr ∷ addrs) [] e = cc e
  resolve_udp_addrs_complete (addr ∷ addrs) (r ∷ rs) e =
      let now : resolve addr ≡ some r = cc e in
      let later : AllResolve addrs rs = cc e in
      rw (now, resolve_udp_addrs) (rw (resolve_udp_addrs_complete addrs rs later) refl)

  -- ResolveUDPAddrs succeeds exactly if every address resolves, and gives what they resolve to, in
  -- their order.
  pub resolve_udp_addrs_ok :
      (addrs : List String) (results : List A)
      → resolve_udp_addrs addrs ≡ ok results ↔ AllResolve addrs results
  resolve_udp_addrs_ok addrs results =
      (resolve_udp_addrs_sound addrs results, resolve_udp_addrs_complete addrs results)

unfoldable pub parse_ip_nets :
    (String → Option (Ip × IpNet)) → List String → Result String (List Ip × List IpNet)
parse_ip_nets parse [] = ok ([], [])
parse_ip_nets parse (cidr ∷ cidrs) = elim (parse cidr) [
  | none ↦ err cidr
  | some p ↦ parse_ip_nets parse cidrs >>= λ rest. ok (p.0 ∷ rest.0, p.1 ∷ rest.1)
]

abbrev unzipped : List (Ip × IpNet) → Result String (List Ip × List IpNet)
unzipped pairs = ok (map (λ p. p.0) pairs, map (λ p. p.1) pairs)

cons_unzipped :
    (p : Ip × IpNet) (r : Result String (List (Ip × IpNet)))
    → ((r >>= unzipped) >>= λ rest. ok (p.0 ∷ rest.0, p.1 ∷ rest.1))
      ≡ ((r >>= λ results. ok (p ∷ results)) >>= unzipped)
cons_unzipped p (ok pairs) = refl
cons_unzipped p (err e) = refl
cons_unzipped p panics = refl

-- ParseIPNets gives the addresses and the networks of the texts in their order, and the first text
-- that is none as its error: what ResolveUDPAddrs would give with ParseCIDR for its resolver, unzipped.
pub parse_ip_nets-resolve_udp_addrs :
    (parse : String → Option (Ip × IpNet)) (cidrs : List String)
    → parse_ip_nets parse cidrs ≡ (resolve_udp_addrs parse cidrs >>= unzipped)
unfolding parse_ip_nets resolve_udp_addrs
parse_ip_nets-resolve_udp_addrs parse [] = refl
parse_ip_nets-resolve_udp_addrs parse (cidr ∷ cidrs) = elim (Option-cases (parse cidr)) [
  | inl f ↦ rw (f, parse_ip_nets, resolve_udp_addrs) refl
  | inr (p, f) ↦
      rw (f, parse_ip_nets, resolve_udp_addrs)
        (rw (parse_ip_nets-resolve_udp_addrs parse cidrs)
          (cons_unzipped p (resolve_udp_addrs parse cidrs)))
]
