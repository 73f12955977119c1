-- ===== src/App/Create.antt =====
-- CreateNet and OnShutdown of app/network.go: the network of a node, over NewTun, NewBridge and the
-- rules for iptables. net.ParseCIDR, net.ParseIP and IPNet.String are parameters, as are the kernel
-- and iptables.
pub mod Routes
pub mod Laws
pub mod Tests
use ptun.Base.{
  Bool, true, false, List, [], ◌∷◌, ◌++◌, map, Option, none, some, Result, ok, err, panics, ◌>>=◌,
  if◌then◌else◌,
}
use ptun.Base.Text.{String}
use ptun.Network.{Ip, IpNet}
use ptun.Network.Resolve.{resolve_udp_addrs}
use ptun.Bridge.{Bridge, new_bridge}
use ptun.Device.Setup
use ptun.Device.Setup.{Os, Effect, Made, new_tun}
use ptun.Device.Rules
use ptun.Device.Rules.{Rule, update_iptables, clear_all_rules}
use ptun.App.{Route}

pub record Router : Type 0 where
  pub next : String
  pub networks : List String

pub record P2pNetworkConfig : Type 0 where
  pub ip : String
  pub allow_nets : List String
  pub routers : List Router

pub record P2pNetwork (T : Type 0) : Type 0 where
  pub bridge : Bridge
  pub tables : T
  pub rules : List (String × Rule)
  pub routes : List Route

pub data Error : Type 0 where
  parse_failed : String → Error
  veth_failed : Setup.Error → Error
  rules_failed : Error

-- An error of ParseCIDR.
abbrev pub parsing : {A : Type 0} → Result String A → Result Error A
parsing (ok a) = ok a
parsing (err e) = err (parse_failed e)
parsing panics = panics

module _ (parse_cidr : String → Option (Ip × IpNet)) (parse_ip : String → Ip) where
  -- The networks of one router, each with the router's address; the first text that is none ends it.
  unfoldable pub router_routes : Ip → List String → Result String (List Route)
  router_routes next [] = ok []
  router_routes next (n ∷ ns) = elim (parse_cidr n) [
    | none ↦ err n
    | some p ↦ router_routes next ns >>= λ rest. ok (record { next = next; network = p.1 } ∷ rest)
  ]

  -- The loop over the routers: peerRoutes.
  unfoldable pub peer_routes : List Router → Result String (List Route)
  unfolding router_routes
  peer_routes [] = ok []
  peer_routes (r ∷ rs) = do
    routes ← router_routes (parse_ip r.next) r.networks
    rest ← peer_routes rs
    ok (routes ++ rest)

-- vethRoutes.
abbrev pub veth_routes : List Router → List String
veth_routes [] = []
veth_routes (r ∷ rs) = r.networks ++ veth_routes rs

module _ {T : Type 0} (parse_cidr : String → Option (Ip × IpNet)) (parse_ip : String → Ip)
    (text_of : IpNet → String) (os : Os) (new_manager : Option T) (exists : Rule → T → Option Bool)
    (append delete_rule : Rule → T → Option T)
    (order : List (String × Rule) → List (String × Rule)) where
  abbrev pub updated :
      List Route → Rules.State exists append delete_rule order × Bool → Result Error (P2pNetwork T)
  updated routes (s, false) = err rules_failed
  updated routes (s, true) =
      ok (record { bridge = new_bridge; tables = s.tables; rules = s.rules; routes = routes })

  -- The rest of CreateNet once the device is there.
  abbrev pub with_manager :
      IpNet → List Route → List (Ip × IpNet) → Option T → Result Error (P2pNetwork T)
  with_manager ipnet routes allowed none = err rules_failed
  with_manager ipnet routes allowed (some tables) = updated routes (
      update_iptables exists append delete_rule order (text_of ipnet)
        (map (λ p. text_of p.1) allowed) tables [])

  abbrev pub with_veth : P2pNetworkConfig → IpNet → List Route → Result Error (P2pNetwork T)
  with_veth cfg ipnet routes = do
    allowed ← parsing (resolve_udp_addrs parse_cidr cfg.allow_nets)
    with_manager ipnet routes allowed new_manager

  abbrev pub veth_made :
      P2pNetworkConfig → IpNet → List Route → Made → List Effect × Result Error (P2pNetwork T)
  veth_made cfg ipnet routes (effects, ok veth) = (effects, with_veth cfg ipnet routes)
  veth_made cfg ipnet routes (effects, err e) = (effects, err (veth_failed e))
  veth_made cfg ipnet routes (effects, panics) = (effects, panics)

  abbrev pub routes_parsed :
      P2pNetworkConfig
      → IpNet
      → Result String (List Route)
      → List Effect × Result Error (P2pNetwork T)
  routes_parsed cfg ipnet (err e) = ([], err (parse_failed e))
  routes_parsed cfg ipnet panics = ([], panics)
  routes_parsed cfg ipnet (ok routes) =
      veth_made cfg ipnet routes (new_tun os parse_cidr (cfg.ip ∷ []) (veth_routes cfg.routers))

  abbrev pub ip_parsed :
      P2pNetworkConfig → Option (Ip × IpNet) → List Effect × Result Error (P2pNetwork T)
  ip_parsed cfg none = ([], err (parse_failed cfg.ip))
  ip_parsed cfg (some p) = routes_parsed cfg p.1 (peer_routes parse_cidr parse_ip cfg.routers)

  -- CreateNet: what it did to the kernel, and the network or an error.
  unfoldable pub create_net : P2pNetworkConfig → List Effect × Result Error (P2pNetwork T)
  create_net cfg = ip_parsed cfg (parse_cidr cfg.ip)

  pub on_shutdown : P2pNetwork T → P2pNetwork T
  on_shutdown nw =
      let (tables, rules) = clear_all_rules exists append delete_rule order nw.tables nw.rules in
      record nw { tables = tables; rules = rules }
