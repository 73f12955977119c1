-- ===== src/App/Create/Routes.antt =====
-- The routes that CreateNet of app/network.go makes of the routers in its configuration.
use ptun.Base.{
  ◌≡◌, refl, sym, ap, ◌∙◌, inl, inr, List, [], ◌∷◌, ◌++◌, Option, none, some, ok, >>=-eq-ok,
  ok-injective, if◌then◌else◌, Bool-cases, Option-cases, arith,
}
use ptun.Base.Text.{String}
use ptun.Network.{Ip, IpNet}
use ptun.App.{Route, ip_equal, routes_of}
use ptun.App.Create.{Router, router_routes, peer_routes}

routes_of-append :
    (xs ys : List Route) (ip : Ip) → routes_of (xs ++ ys) ip ≡ routes_of xs ip ++ routes_of ys ip
routes_of-append [] ys ip = refl
routes_of-append (r ∷ xs) ys ip = elim (Bool-cases (ip_equal r.next ip)) [
  | inl e ↦ rw e (ap (λ l. r.network ∷ l) (routes_of-append xs ys ip))
  | inr e ↦ rw e (routes_of-append xs ys ip)
]

abbrev pub with_network : Option (Ip × IpNet) → List IpNet → List IpNet
with_network none ns = ns
with_network (some p) ns = p.1 ∷ ns

module _ (parse_cidr : String → Option (Ip × IpNet)) (parse_ip : String → Ip) where
  -- The independent description: the networks of the routers at an address, in their order.
  abbrev pub networks : List String → List IpNet
  networks [] = []
  networks (n ∷ ns) = with_network (parse_cidr n) (networks ns)

  abbrev pub behind : List Router → Ip → List IpNet
  behind [] ip = []
  behind (r ∷ rs) ip =
      (if ip_equal (parse_ip r.next) ip then networks r.networks else []) ++ behind rs ip

  router_routes-networks :
      (next ip : Ip) (ns : List String) (routes : List Route)
      → router_routes parse_cidr parse_ip next ns ≡ ok routes
      → routes_of routes ip ≡ (if ip_equal next ip then networks ns else [])
  unfolding router_routes
  router_routes-networks next ip [] routes e = rw (sym (ok-injective e)) (ground arith)
  router_routes-networks next ip (n ∷ ns) routes e = elim (Option-cases (parse_cidr n)) [
    | inl f ↦ cc (rw (f, router_routes) at e)
    | inr (p, f) ↦
        let (rest, g, h) =
          >>=-eq-ok (router_routes parse_cidr parse_ip next ns) _ (rw (f, router_routes) at e) in
        let later = router_routes-networks next ip ns rest g in
        rw (← ok-injective h) (elim (Bool-cases (ip_equal next ip)) [
          | inl t ↦ rw (t, f) (ap (λ l. p.1 ∷ l) (rw t at later))
          | inr t ↦ rw t (rw t at later)
        ])
  ]

  pub peer_routes-behind :
      (ip : Ip) (rs : List Router) (routes : List Route)
      → peer_routes parse_cidr parse_ip rs ≡ ok routes
      → routes_of routes ip ≡ behind rs ip
  unfolding peer_routes
  peer_routes-behind ip [] routes e = rw (sym (ok-injective e)) refl
  peer_routes-behind ip (r ∷ rs) routes e =
      let (now, e1, g1) =
        >>=-eq-ok (router_routes parse_cidr parse_ip (parse_ip r.next) r.networks) _ e in
      let (later, e2, g2) = >>=-eq-ok (peer_routes parse_cidr parse_ip rs) _ g1 in
      rw (← ok-injective g2) (
        routes_of-append now later ip
        ∙ rw
            (
              router_routes-networks (parse_ip r.next) ip r.networks now e1,
              peer_routes-behind ip rs later e2,
            )
            refl)
