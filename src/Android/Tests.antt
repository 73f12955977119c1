-- ===== src/Android/Tests.antt =====
-- The theorems on the Android device and network at concrete inputs.
use ptun.Base.{◌≡◌, refl, List, [], ◌∷◌, map, Option, none, some, true, arith, ok, err}
use ptun.Base.Text.{String}
use ptun.Network.{Ip, IpNet}
use ptun.Bridge.{get_peer, all_peers}
use ptun.Android.{Memory, new_veth, returns, too_short}
use ptun.Android.Laws.{
  after, iface_write_all, read_all, Transfer, transferred, holding, iface_write_all-read_all,
  closed_all,
}
use ptun.Android.Node.{
  Node, create_node, take_in, shut_down, later, start, takes_in, Reach-shut_down,
}

-- The service writes two packets out of one buffer; the bridge reads both after the second write.
abbrev before : Memory
before a = 1 ∷ 2 ∷ 0 ∷ []

abbrev refilled : Memory
refilled a = 3 ∷ 4 ∷ 5 ∷ []

abbrev transfers : List Transfer
transfers =
    record { slice = record { address = 7; count = 2 }; at_write = before; at_read = refilled }
    ∷ record { slice = record { address = 7; count = 3 }; at_write = refilled; at_read = refilled }
    ∷ []

iface_write_all-read_all_example :
    after (iface_write_all transfers new_veth) (λ u w. read_all (0 ∷ 0 ∷ []) transfers w)
    ≡ returns (map (transferred (0 ∷ 0 ∷ [])) transfers) (holding [] new_veth)
iface_write_all-read_all_example =
    iface_write_all-read_all (0 ∷ 0 ∷ []) transfers new_veth (omega arith, (omega arith, tt)) refl
      refl (omega arith)

-- The first packet has become the front of the second one, which is too long for the slice.
overwritten : map (transferred (0 ∷ 0 ∷ [])) transfers ≡ ok (3 ∷ 4 ∷ [], 2) ∷ err too_short ∷ []
overwritten = refl

abbrev parse_cidr : String → Option (Ip × IpNet)
parse_cidr s =
    some (10 ∷ 0 ∷ 0 ∷ 2 ∷ [], record { ip = 10 ∷ 0 ∷ 0 ∷ 0 ∷ []; mask = 255 ∷ 0 ∷ 0 ∷ 0 ∷ [] })

-- A node that has a peer.
abbrev met : Node
met = take_in parse_cidr true (some 4) "b" "10.0.0.2/8" (create_node [])

Reach-shut_down_example :
    (get_peer "b" (shut_down parse_cidr met).network.bridge ≡ none)
    × ((shut_down parse_cidr met).network.bridge.closed
        ≡ closed_all (all_peers met.network.bridge) met.network.bridge.closed)
Reach-shut_down_example =
    Reach-shut_down parse_cidr [] met "b" (later start (takes_in true (some 4) "b" "10.0.0.2/8"))
