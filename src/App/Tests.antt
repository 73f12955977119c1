-- ===== src/App/Tests.antt =====
-- The theorems on the node at concrete inputs.
use ptun.Base.{◌++◌, none, ◌&&◌, not, if◌then◌else◌, ◌≡◌, refl, true, false, [], ◌∷◌, Option, some}
use ptun.Base.Text.{is_some, has, String, str_eq}
use ptun.Network.{Ip, IpNet}
use ptun.Bridge.{new_bridge, get_peer, has_peer}
use ptun.Hub.Sessions.{Session, Hub, load_session, enter, leave}
use ptun.App.Rounds.{asks_for, asks_for-enter-leave}
use ptun.App.{nat_peer, to_punch}
use ptun.App.Run.{
  Node, create_node, log_in, get_peers, consider, round, take_in, Reach, start, later, logs_in,
  gets_peers, Reach-take_in-round,
}

abbrev lan : IpNet
lan = record { ip = 10 ∷ 0 ∷ 0 ∷ 0 ∷ []; mask = 255 ∷ 255 ∷ 255 ∷ 0 ∷ [] }

abbrev parsed : Ip × IpNet
parsed = (10 ∷ 0 ∷ 0 ∷ 2 ∷ [], lan)

abbrev parse_cidr : String → Option (Ip × IpNet)
parse_cidr s = some parsed

-- A node that has logged in as "a", has lost its session and has made another.
abbrev node : Node
node =
    log_in parse_cidr [] (some "a")
      (round parse_cidr [] none (log_in parse_cidr [] (some "a") create_node))

node-Reach : Reach parse_cidr [] node
unfolding log_in round get_peers
node-Reach =
    later (later (later start (logs_in (some "a") refl)) (gets_peers none refl refl))
      (logs_in (some "a") refl)

Reach-take_in-round_example :
    let m = take_in parse_cidr [] true (some 4) "b" "10.0.0.2/24" node in
    (get_peer "b" m.bridge ≡ some (nat_peer [] "b" parsed 4))
    × ((round parse_cidr [] (some ("a" ∷ "b" ∷ "c" ∷ [])) m).asked
        ≡ node.asked ++ to_punch node.name m.bridge ("a" ∷ "b" ∷ "c" ∷ []))
    × (has "c" (to_punch node.name m.bridge ("a" ∷ "b" ∷ "c" ∷ [])) ≡ (
        has "c" ("a" ∷ "b" ∷ "c" ∷ [])
        && not (str_eq "c" node.name)
        && not (has_peer "c" m.bridge)))
    × (has "b" (to_punch node.name m.bridge ("a" ∷ "b" ∷ "c" ∷ [])) ≡ false)
    × ((consider parse_cidr [] (record m { todo = "b" ∷ "a" ∷ "b" ∷ "c" ∷ [] })).asked ≡ node.asked)
Reach-take_in-round_example =
    Reach-take_in-round parse_cidr [] node "b" "10.0.0.2/24" "c" parsed 4 ("a" ∷ "b" ∷ "c" ∷ [])
      node-Reach refl

abbrev other : Session
other = record { id = 2; name = "b" }

abbrev hub : Hub
hub = record { sessions = ("a", record { id = 1; name = "a" }) ∷ []; closed = λ i. false }

asks_for-enter-leave_example :
    (asks_for "a" "b" new_bridge hub
      ≡ (is_some (load_session "b" hub) && not (str_eq "b" "a") && not (has_peer "b" new_bridge)))
    × (asks_for "a" "b" new_bridge (enter other hub) ≡ (
        if str_eq "b" "b"
        then not (str_eq "b" "a") && not (has_peer "b" new_bridge)
        else asks_for "a" "b" new_bridge hub))
    × (asks_for "a" "b" new_bridge (leave other hub)
        ≡ (if str_eq "b" "b" then false else asks_for "a" "b" new_bridge hub))
asks_for-enter-leave_example = asks_for-enter-leave "a" "b" new_bridge other hub
