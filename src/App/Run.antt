-- ===== src/App/Run.antt =====
-- Node.Run of app/node.go, and Run of cmd/node/service/service.go, which is the same loop: what the
-- loop, the goroutine that takes in the hub's messages and the handlers of the peers do, as steps that
-- come in any order.
use ptun.Base.{
  ℕ, ◌+◌, ◌≡◌, refl, sym, ◌∙◌, append-nil, Bool, true, false, not, ◌&&◌, List, [], ◌∷◌, ◌++◌,
  Option, none, some,
}
use mathlib.Core.Path.{subst}
use ptun.Base.Text.{String, str_eq, has}
use ptun.Network.{Ip, IpNet}
use ptun.Bridge.{Peer, Bridge, new_bridge, has_peer, get_peer, disconnect_peer}
use ptun.Bridge.Peers.{IsKeyed, disconnect_peer-IsKeyed, new_bridge-IsKeyed}
use ptun.App.{Route, nat_peer, new_nat_peer, consider_peer, to_punch}
use ptun.App.Laws.{
  has-to_punch, consider_peer-to_punch, consider_peer-get_peer, new_nat_peer-to_punch,
  new_nat_peer-IsKeyed,
}

-- `asked` are the punches that were asked for, oldest first; `sessions` counts the exchangers that were
-- made, none of which Run closes; `in_session` says which of its two loops Run is in, and `todo` the
-- peers of the hub's list that it has yet to look at.
pub record Node : Type 0 where
  pub name : String
  pub bridge : Bridge
  pub in_session : Bool
  pub sessions : ℕ
  pub todo : List String
  pub asked : List String

-- CreateNode, over a network that CreateNet has made.
abbrev pub create_node : Node
create_node = record {
  name = "";
  bridge = new_bridge;
  in_session = false;
  sessions = 0;
  todo = [];
  asked = [];
}

module _ (parse_cidr : String → Option (Ip × IpNet)) (routes : List Route) where
  -- NewExchanger gives a name or fails.
  unfoldable pub log_in : Option String → Node → Node
  log_in none n = n
  log_in (some name) n = record n { name = name; in_session = true; sessions = n.sessions + 1 }

  -- What GetPeers gives: an error leaves the inner loop.
  unfoldable pub get_peers : Option (List String) → Node → Node
  get_peers none n = record n { in_session = false }
  get_peers (some peers) n = record n { todo = peers }

  -- HasPeer and PunchPeer of one peer. PunchPeer blocks, so that other steps come before the next one.
  abbrev look_at : List String → Node → Node
  look_at [] n = n
  look_at (p ∷ ps) n = record n { todo = ps; asked = consider_peer n.name n.bridge p n.asked }

  unfoldable pub consider : Node → Node
  consider n = look_at n.todo n

  abbrev pub consider_all : List String → Node → Node
  consider_all [] n = n
  consider_all (p ∷ ps) n = consider_all ps (consider n)

  -- A whole round of the inner loop with no other step in between.
  unfoldable pub round : Option (List String) → Node → Node
  round none n = get_peers none n
  round (some peers) n = consider_all peers (get_peers (some peers) n)

  -- A message of the hub; an error of NewNatPeer is only logged.
  unfoldable pub take_in : Bool → Option ℕ → String → String → Node → Node
  take_in hole conn name remote_ip n = record n {
    bridge = (new_nat_peer parse_cidr routes hole conn name remote_ip n.bridge).1;
  }

  unfoldable pub lose_peer : Peer → Node → Node
  lose_peer p n = record n { bridge = disconnect_peer p n.bridge }

  -- The loop is in one of its parts; the other two go on whatever it does.
  pub data Step (n : Node) : Node → Type 0 where
    logs_in : (o : Option String) → n.in_session ≡ false → Step n (log_in o n)
    gets_peers :
        (o : Option (List String)) → n.in_session ≡ true → n.todo ≡ [] → Step n (get_peers o n)
    considers : Step n (consider n)
    takes_in :
        (hole : Bool) (conn : Option ℕ) (name remote_ip : String)
        → Step n (take_in hole conn name remote_ip n)
    loses : (p : Peer) → Step n (lose_peer p n)

  pub data Reach : Node → Type 0 where
    start : Reach create_node
    later : {n m : Node} → Reach n → Step n m → Reach m

  look_at-bridge : (todo : List String) (n : Node) → (look_at todo n).bridge ≡ n.bridge
  look_at-bridge [] n = refl
  look_at-bridge (p ∷ ps) n = refl

  -- With no other step in between, the loop asks for the punches that `to_punch` lists.
  consider_all-to_punch :
      (peers : List String) (n : Node)
      → n.todo ≡ peers
      → (consider_all peers n).asked ≡ n.asked ++ to_punch n.name n.bridge peers
  unfolding consider to_punch
  consider_all-to_punch [] n e = sym (append-nil n.asked)
  consider_all-to_punch (p ∷ ps) n e = rw e (
      consider_all-to_punch ps (look_at (p ∷ ps) n) refl
      ∙ consider_peer-to_punch n.name n.bridge p ps n.asked)

  -- However the steps come, the peers of the bridge stand under their names.
  Reach-IsKeyed : {n : Node} → Reach n → IsKeyed n.bridge
  unfolding log_in get_peers consider take_in lose_peer
  Reach-IsKeyed start = new_bridge-IsKeyed
  Reach-IsKeyed (later r (logs_in none e)) = Reach-IsKeyed r
  Reach-IsKeyed (later r (logs_in (some name) e)) = Reach-IsKeyed r
  Reach-IsKeyed (later r (gets_peers none e d)) = Reach-IsKeyed r
  Reach-IsKeyed (later r (gets_peers (some peers) e d)) = Reach-IsKeyed r
  Reach-IsKeyed (later {n} r considers) =
      subst IsKeyed (sym (look_at-bridge n.todo n)) (Reach-IsKeyed r)
  Reach-IsKeyed (later {n} r (takes_in hole conn name remote_ip)) =
      new_nat_peer-IsKeyed parse_cidr routes hole conn name remote_ip n.bridge (Reach-IsKeyed r)
  Reach-IsKeyed (later {n} r (loses p)) = disconnect_peer-IsKeyed p n.bridge (Reach-IsKeyed r)

  -- In whatever order the loop of Run, the goroutine that takes in the hub's messages and the handlers
  -- of the peers took their steps before: a message of the hub with an address that parses, a hole and
  -- a connection leads to a bridge that has the peer under its name. A round with no other step in between
  -- then asks, of the peers that the hub lists, for exactly those that are not the node itself and that
  -- the bridge lacks; so not for this one. Nor does a round that was going on when the message came, and
  -- that looks at this peer next.
  pub Reach-take_in-round :
      (n : Node) (name remote_ip asked : String) (p : Ip × IpNet) (handle : ℕ)
      → (peers : List String) → Reach n
      → parse_cidr remote_ip ≡ some p
      → let m = take_in true (some handle) name remote_ip n in
        (get_peer name m.bridge ≡ some (nat_peer routes name p handle))
        × ((round (some peers) m).asked ≡ n.asked ++ to_punch n.name m.bridge peers)
        × (has asked (to_punch n.name m.bridge peers)
            ≡ (has asked peers && not (str_eq asked n.name) && not (has_peer asked m.bridge)))
        × (has name (to_punch n.name m.bridge peers) ≡ false)
        × ((consider (record m { todo = name ∷ peers })).asked ≡ n.asked)
  unfolding take_in round get_peers consider
  Reach-take_in-round n name remote_ip asked p handle peers r e =
      let made =
        new_nat_peer-to_punch parse_cidr routes name remote_ip p handle n.bridge n.name peers
          (Reach-IsKeyed r) e in
      (
        made.1,
        consider_all-to_punch peers _ refl,
        has-to_punch n.name asked _ peers,
        made.3,
        consider_peer-get_peer n.name name _ _ n.asked made.1,
      )
