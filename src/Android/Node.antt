-- ===== src/Android/Node.antt =====
-- app_android/node.go: CreateNode and Run, over the network of app_android/network.go. What the loop,
-- the goroutine that takes in the hub's messages, the handlers of the peers and the service do are
-- steps that come in any order.
use ptun.Base.{ℕ, ◌≡◌, Bool, true, false, List, refl, sym, [], ◌∷◌, Option, none, some}
use mathlib.Core.Path.{subst}
use ptun.Base.Text.{String}
use ptun.Network.{Ip, IpNet}
use ptun.Bridge.{Peer, Bridge, new_bridge, get_peer, all_peers, disconnect_peer}
use ptun.Bridge.Peers.{IsKeyed, disconnect_peer-IsKeyed, new_bridge-IsKeyed}
use ptun.App.{Route, consider_peer}
use ptun.App.Laws.{new_nat_peer-IsKeyed}
use ptun.Android.{P2pNetwork, new_android_peer, shutdown, disconnect_all}
use ptun.Android.Laws.{closed_all, shutdown_lem}

-- `asked` are the punches that were asked for, oldest first; `in_session` says which of its two loops
-- Run is in, and `todo` the peers of the hub's list that it has yet to look at.
pub record Node : Type 0 where
  pub name : String
  pub network : P2pNetwork
  pub in_session : Bool
  pub todo : List String
  pub asked : List String

-- CreateNode, with the network that CreateNet makes of the routes.
abbrev pub create_node : List Route → Node
create_node routes = record {
  name = "";
  network = record { routers = routes; bridge = new_bridge };
  in_session = false;
  todo = [];
  asked = [];
}

-- NewExchanger gives a name or fails.
unfoldable pub log_in : Option String → Node → Node
log_in none n = n
log_in (some name) n = record n { name = name; in_session = true }

-- What GetPeers gives: an error leaves the inner loop.
unfoldable pub get_peers : Option (List String) → Node → Node
get_peers none n = record n { in_session = false }
get_peers (some peers) n = record n { todo = peers }

-- HasPeer and PunchPeer of one peer. PunchPeer blocks, so that other steps come before the next one.
abbrev look_at : List String → Node → Node
look_at [] n = n
look_at (p ∷ ps) n = record n { todo = ps; asked = consider_peer n.name n.network.bridge p n.asked }

unfoldable pub consider : Node → Node
consider n = look_at n.todo n

module _ (parse_cidr : String → Option (Ip × IpNet)) where
  -- A message of the hub; an error of newNatPeer is only logged.
  unfoldable pub take_in : Bool → Option ℕ → String → String → Node → Node
  unfolding new_android_peer
  take_in hole conn name remote_ip n = record n {
    network = (new_android_peer parse_cidr hole conn name remote_ip n.network).1;
  }

  -- DisconnectPeer, when the handler of a peer ends.
  unfoldable pub lose_peer : Peer → Node → Node
  lose_peer p n = record n {
    network = record n.network { bridge = disconnect_peer p n.network.bridge };
  }

  unfoldable pub shut_down : Node → Node
  shut_down n = record n { network = shutdown n.network }

  pub data Step (n : Node) : Node → Type 0 where
    logs_in : (o : Option String) → n.in_session ≡ false → Step n (log_in o n)
    gets_peers :
        (o : Option (List String)) → n.in_session ≡ true → n.todo ≡ [] → Step n (get_peers o n)
    considers : Step n (consider n)
    takes_in :
        (hole : Bool) (conn : Option ℕ) (name remote_ip : String)
        → Step n (take_in hole conn name remote_ip n)
    loses : (p : Peer) → Step n (lose_peer p n)
    shuts_down : Step n (shut_down n)

  pub data Reach (routes : List Route) : Node → Type 0 where
    start : Reach routes (create_node routes)
    later : {n m : Node} → Reach routes n → Step n m → Reach routes m

  disconnect_all-IsKeyed : (ps : List Peer) (b : Bridge) → IsKeyed b → IsKeyed (disconnect_all ps b)
  disconnect_all-IsKeyed [] b k = k
  disconnect_all-IsKeyed (p ∷ ps) b k =
      disconnect_all-IsKeyed ps (disconnect_peer p b) (disconnect_peer-IsKeyed p b k)

  look_at-bridge :
      (todo : List String) (n : Node) → (look_at todo n).network.bridge ≡ n.network.bridge
  look_at-bridge [] n = refl
  look_at-bridge (p ∷ ps) n = refl

  -- However the steps come, the peers of the bridge stand under their names.
  Reach-IsKeyed : {routes : List Route} {n : Node} → Reach routes n → IsKeyed n.network.bridge
  unfolding log_in get_peers consider take_in lose_peer shut_down shutdown new_android_peer
  Reach-IsKeyed start = new_bridge-IsKeyed
  Reach-IsKeyed (later r (logs_in none e)) = Reach-IsKeyed r
  Reach-IsKeyed (later r (logs_in (some name) e)) = Reach-IsKeyed r
  Reach-IsKeyed (later r (gets_peers none e d)) = Reach-IsKeyed r
  Reach-IsKeyed (later r (gets_peers (some peers) e d)) = Reach-IsKeyed r
  Reach-IsKeyed (later {n} r considers) =
      subst IsKeyed (sym (look_at-bridge n.todo n)) (Reach-IsKeyed r)
  Reach-IsKeyed (later {n} r (takes_in hole conn name remote_ip)) =
      new_nat_peer-IsKeyed parse_cidr n.network.routers hole conn name remote_ip n.network.bridge
        (Reach-IsKeyed r)
  Reach-IsKeyed (later {n} r (loses p)) =
      disconnect_peer-IsKeyed p n.network.bridge (Reach-IsKeyed r)
  Reach-IsKeyed (later {n} r shuts_down) =
      disconnect_all-IsKeyed (all_peers n.network.bridge) n.network.bridge (Reach-IsKeyed r)

  -- In whatever order the loop of Run, the goroutine that takes in the hub's messages, the handlers of
  -- the peers and earlier calls of Shutdown took their steps before: Shutdown leaves the node with no
  -- peer, and closes the connection of each that it had.
  pub Reach-shut_down :
      (routes : List Route) (n : Node) (name : String)
      → Reach routes n
      → (get_peer name (shut_down n).network.bridge ≡ none)
        × ((shut_down n).network.bridge.closed
            ≡ closed_all (all_peers n.network.bridge) n.network.bridge.closed)
  unfolding shut_down
  Reach-shut_down routes n name r = shutdown_lem name n.network (Reach-IsKeyed r)
