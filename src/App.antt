-- ===== src/App.antt =====
-- app/network.go, app/node.go and app/config: the node that joins the parts, and its configuration.
-- What a library call gives is a parameter: net.ParseCIDR, the hole of MakeHole, the raw connection.
pub mod Laws
pub mod Rounds
pub mod Run
pub mod Create
pub mod Config
pub mod Tests
use ptun.Base.{
  ℕ, ◌≡◌, Bool, true, false, not, ◌&&◌, ◌||◌, List, [], ◌∷◌, ◌++◌, Option, none, some, Result, ok,
  err, panics, length, ◌==◌, if◌then◌else◌,
}
use ptun.Base.Text.{String, str_eq}
use ptun.Network.{Ip, IpNet, bytes_eq, v4_prefix}
use ptun.Bridge
use ptun.Bridge.{Peer, Bridge, has_peer, connect_peer}

-- net.IP.Equal.
abbrev pub ip_equal : Ip → Ip → Bool
ip_equal a b =
    if length a == length b
    then bytes_eq a b
    else if length a == 4 && length b == 16
    then bytes_eq (v4_prefix ++ a) b
    else if length a == 16 && length b == 4
    then bytes_eq a (v4_prefix ++ b)
    else false

pub record Route : Type 0 where
  pub next : Ip
  pub network : IpNet

-- The networks behind a peer, by the route's next hop.
abbrev pub routes_of : List Route → Ip → List IpNet
routes_of [] ip = []
routes_of (r ∷ routes) ip =
    let rest = routes_of routes ip in if ip_equal (r.next) ip then r.network ∷ rest else rest

pub data Error : Type 0 where
  parse_failed hole_failed conn_failed : Error
  bridge_failed : Bridge.Error → Error

abbrev pub connected : Result Bridge.Error Unit × Bridge → Result Error Unit × Bridge
connected (ok u, b) = (ok u, b)
connected (err e, b) = (err (bridge_failed e), b)
connected (panics, b) = (panics, b)

-- The peer that NewNatPeer makes: its address within its network, and the networks behind it.
abbrev pub nat_peer : List Route → String → Ip × IpNet → ℕ → Peer
nat_peer routes name p handle = record {
  name = name;
  ips = record { ip = p.0; mask = p.1.mask } ∷ [];
  routes = routes_of routes (p.0);
  handle = handle;
}

-- NewNatPeer; `hole` is whether MakeHole succeeds, `conn` the transport over the raw connection.
pub new_nat_peer :
    (String → Option (Ip × IpNet))
    → List Route
    → Bool
    → Option ℕ
    → String
    → String
    → Bridge
    → Result Error Unit × Bridge
new_nat_peer parse_cidr routes hole conn name remote_ip b = elim (parse_cidr remote_ip) [
  | none ↦ (err parse_failed, b)
  | some p ↦
      if hole
      then elim conn [
        | none ↦ (err conn_failed, b)
        | some handle ↦ connected (connect_peer (nat_peer routes name p handle) b)
      ]
      else (err hole_failed, b)
]

-- What Run does with one peer of the hub's list: the punches asked for, and this one unless the peer is
-- the node itself or the bridge has it.
unfoldable pub consider_peer : String → Bridge → String → List String → List String
consider_peer own b p asked = if str_eq p own || has_peer p b then asked else asked ++ p ∷ []

-- The peers of the hub's list that a punch is asked for while the bridge stays as it is.
pub to_punch : String → Bridge → List String → List String
to_punch own b [] = []
to_punch own b (p ∷ peers) =
    let rest = to_punch own b peers in if str_eq p own || has_peer p b then rest else p ∷ rest
