-- ===== src/App/Create/Laws.antt =====
-- What a network that CreateNet of app/network.go makes is made of.
use ptun.Base.{
  ◌≡◌, refl, ap, ◌∙◌, Bool, true, false, List, [], map, Option, none, some, Result, ok, err, panics,
  >>=-eq-ok, ok-injective, arith,
}
use mathlib.Core.Path.{subst}
use ptun.Base.Text.{String}
use ptun.Network.{Ip, IpNet}
use ptun.Network.Resolve.{resolve_udp_addrs}
use ptun.Bridge.{new_bridge}
use ptun.Device.Setup.{Os, Effect, Made, set_ips, new_tun, parsed_addrs, parsed_routes, set_up}
use ptun.Device.Setup.Laws.{open_after, is_ok, set_up_effects}
use ptun.Device.Rules
use ptun.Device.Rules.{Rule, update_iptables}
use ptun.App.{Route, routes_of}
use ptun.App.Create.{
  P2pNetworkConfig, P2pNetwork, Error, parsing, peer_routes, updated, with_manager, with_veth,
  veth_made, routes_parsed, ip_parsed, create_net,
}
use ptun.App.Create.Routes.{behind, peer_routes-behind}

set_up-opens :
    (os : Os) (nets routes : List IpNet)
    → is_ok (set_up os nets routes).1 ≡ true
    → open_after false (set_up os nets routes).0 ≡ true
set_up-opens os nets routes e =
    let (s, made, left) = set_up_effects os nets routes in ground (arith, s, left)

parsed_routes-opens :
    (os : Os) (nets : List IpNet) (r : Result String (List Ip × List IpNet))
    → is_ok (parsed_routes os nets r).1 ≡ true
    → open_after false (parsed_routes os nets r).0 ≡ true
unfolding parsed_routes
parsed_routes-opens os nets (ok r) e = set_up-opens os nets r.1 e
parsed_routes-opens os nets (err x) e = cc e
parsed_routes-opens os nets panics e = cc e

parsed_addrs-opens :
    (os : Os) (a r : Result String (List Ip × List IpNet))
    → is_ok (parsed_addrs os a r).1 ≡ true
    → open_after false (parsed_addrs os a r).0 ≡ true
unfolding parsed_addrs
parsed_addrs-opens os (ok a) r e = parsed_routes-opens os (set_ips a.0 a.1) r e
parsed_addrs-opens os (err x) r e = cc e
parsed_addrs-opens os panics r e = cc e

module _ {T : Type 0} (parse_cidr : String → Option (Ip × IpNet)) (parse_ip : String → Ip)
    (text_of : IpNet → String) (os : Os) (new_manager : Option T) (exists : Rule → T → Option Bool)
    (append delete_rule : Rule → T → Option T) (order : List (String × Rule) → List (String × Rule))
    (nw : P2pNetwork T) where
  abbrev IsNew : List Route → Type 0
  IsNew routes = (nw.routes ≡ routes) × (nw.bridge ≡ new_bridge)

  updated-IsNew :
      (routes : List Route) (r : Rules.State exists append delete_rule order × Bool)
      → updated parse_cidr parse_ip text_of os new_manager exists append delete_rule order routes r
        ≡ ok nw
      → IsNew routes
  updated-IsNew routes (s, false) e = cc e
  updated-IsNew routes (s, true) e =
      subst (λ n. (n.routes ≡ routes) × (n.bridge ≡ new_bridge)) (ok-injective e) (refl, refl)

  with_manager-IsNew :
      (ipnet : IpNet) (routes : List Route) (allowed : List (Ip × IpNet)) (m : Option T)
      → with_manager parse_cidr parse_ip text_of os new_manager exists append delete_rule order
          ipnet routes allowed m
        ≡ ok nw
      → IsNew routes
  with_manager-IsNew ipnet routes allowed none e = cc e
  with_manager-IsNew ipnet routes allowed (some tables) e =
      updated-IsNew routes
        (update_iptables exists append delete_rule order (text_of ipnet)
          (map (λ p. text_of p.1) allowed) tables [])
        e

  with_veth-IsNew :
      (cfg : P2pNetworkConfig) (ipnet : IpNet) (routes : List Route)
      → with_veth parse_cidr parse_ip text_of os new_manager exists append delete_rule order cfg
          ipnet routes
        ≡ ok nw
      → IsNew routes
  with_veth-IsNew cfg ipnet routes e =
      let (allowed, f, g) = >>=-eq-ok (parsing (resolve_udp_addrs parse_cidr cfg.allow_nets)) _ e in
      with_manager-IsNew ipnet routes allowed new_manager g

  -- The network, and a device that was made and is open.
  abbrev Lives : List Route → List Effect → Type 0
  Lives routes effects =
      (nw.routes ≡ routes) × (nw.bridge ≡ new_bridge) × (open_after false effects ≡ true)

  veth_made-Lives :
      (cfg : P2pNetworkConfig) (ipnet : IpNet) (routes : List Route) (m : Made)
      → (is_ok m.1 ≡ true → open_after false m.0 ≡ true)
      → (veth_made parse_cidr parse_ip text_of os new_manager exists append delete_rule order cfg
          ipnet routes m).1
        ≡ ok nw
      → Lives routes
          (veth_made parse_cidr parse_ip text_of os new_manager exists append delete_rule order cfg
            ipnet routes m).0
  veth_made-Lives cfg ipnet routes (effects, ok veth) h e =
      let n = with_veth-IsNew cfg ipnet routes e in (n.0, n.1, h refl)
  veth_made-Lives cfg ipnet routes (effects, err x) h e = cc e
  veth_made-Lives cfg ipnet routes (effects, panics) h e = cc e

  abbrev IsMade : P2pNetworkConfig → List Effect × Result Error (P2pNetwork T) → Type 0
  IsMade cfg r =
      (routes : List Route) × (peer_routes parse_cidr parse_ip cfg.routers ≡ ok routes)
      × Lives routes r.0

  routes_parsed-IsMade :
      (cfg : P2pNetworkConfig) (ipnet : IpNet) (r : Result String (List Route))
      → peer_routes parse_cidr parse_ip cfg.routers ≡ r
      → (routes_parsed parse_cidr parse_ip text_of os new_manager exists append delete_rule order
          cfg ipnet r).1
        ≡ ok nw
      → IsMade cfg (
          routes_parsed parse_cidr parse_ip text_of os new_manager exists append delete_rule order
            cfg ipnet r)
  unfolding new_tun
  routes_parsed-IsMade cfg ipnet (ok routes) p e =
      (routes, p, veth_made-Lives cfg ipnet routes _ (parsed_addrs-opens os _ _) e)
  routes_parsed-IsMade cfg ipnet (err x) p e = cc e
  routes_parsed-IsMade cfg ipnet panics p e = cc e

  ip_parsed-IsMade :
      (cfg : P2pNetworkConfig) (o : Option (Ip × IpNet))
      → (ip_parsed parse_cidr parse_ip text_of os new_manager exists append delete_rule order cfg
          o).1
        ≡ ok nw
      → IsMade cfg (
          ip_parsed parse_cidr parse_ip text_of os new_manager exists append delete_rule order cfg
            o)
  ip_parsed-IsMade cfg none e = cc e
  ip_parsed-IsMade cfg (some p) e = routes_parsed-IsMade cfg p.1 _ refl e

  -- A network that CreateNet makes has no peers yet; the networks that a peer at an address gets are
  -- those of the routers at that address, in the configuration's order; and its device is open.
  pub create_net_ok :
      (cfg : P2pNetworkConfig) (ip : Ip)
      → (create_net parse_cidr parse_ip text_of os new_manager exists append delete_rule order
          cfg).1
        ≡ ok nw
      → (nw.bridge ≡ new_bridge)
        × (routes_of nw.routes ip ≡ behind parse_cidr parse_ip cfg.routers ip)
        × (open_after false
              (create_net parse_cidr parse_ip text_of os new_manager exists append delete_rule order
                cfg).0
            ≡ true)
  unfolding create_net
  create_net_ok cfg ip e =
      let (routes, p, lives) = ip_parsed-IsMade cfg (parse_cidr cfg.ip) e in
      (
        lives.1,
        ap (λ rs. routes_of rs ip) lives.0
            ∙ peer_routes-behind parse_cidr parse_ip ip cfg.routers routes p,
        lives.2,
      )
