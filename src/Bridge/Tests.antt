-- ===== src/Bridge/Tests.antt =====
-- The theorems on the bridge at concrete inputs.
use ptun.Base.{ℕ, ◌/◌, ◌≡◌, ◌↔◌, ◌⊎◌, [], ◌∷◌, some, ok, if◌then◌else◌, arith}
use ptun.Base.Text.{str_eq, eq_iff, lookup}
use ptun.Network.{IpNet}
use ptun.Bridge.{Peer, Bridge, get_peer, all_peers, targets, connect_peer}
use ptun.Bridge.Peers.{IsKeyed, close_old, get_peer-connect_peer}
use ptun.Bridge.Routing.{In, InNets, targets-InNets}

abbrev lan : IpNet
lan = record { ip = 10 ∷ 0 ∷ 0 ∷ 0 ∷ []; mask = 255 ∷ 255 ∷ 255 ∷ 0 ∷ [] }

abbrev old : Peer
old = record { name = "a"; ips = lan ∷ []; routes = []; handle = 1 }

abbrev new : Peer
new = record { name = "a"; ips = lan ∷ []; routes = []; handle = 2 }

abbrev one : Bridge
one = record { peers = ("a", old) ∷ []; closed = []; written = [] }

one-IsKeyed : IsKeyed one
unfolding get_peer lookup
one-IsKeyed name p e = ground (arith, e, eq_iff "a" name)

abbrev seven : ℕ
seven = 7

targets-InNets_example :
    In old (targets (10 ∷ 0 ∷ 0 ∷ 7 ∷ []) one)
    ↔ In old (all_peers one)
      × (((10 / 16 ≡ 14) ⊎ (seven ≡ 255))
          ⊎ (InNets (10 ∷ 0 ∷ 0 ∷ 7 ∷ []) (lan ∷ []) ⊎ InNets (10 ∷ 0 ∷ 0 ∷ 7 ∷ []) []))
targets-InNets_example = targets-InNets 10 0 0 7 old one

get_peer-connect_peer_example :
    ((connect_peer new one).0 ≡ ok tt)
    × (get_peer "a" (connect_peer new one).1
        ≡ (if str_eq "a" "a" then some new else get_peer "a" one))
    × ((connect_peer new one).1.closed ≡ close_old (get_peer "a" one) [])
get_peer-connect_peer_example = get_peer-connect_peer new "a" one one-IsKeyed
