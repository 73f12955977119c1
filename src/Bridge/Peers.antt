-- ===== src/Bridge/Peers.antt =====
-- ConnectPeer, DisconnectPeer and the handlers of pkg/bridge/bridge.go on the map of peers.
use ptun.Base.{
  ℕ, ◌≡◌, refl, inl, inr, true, false, List, ◌∷◌, Option, none, some, ok, arith, if◌then◌else◌,
  Option-cases,
}
use ptun.Base.Text.{String, str_eq, eq_iff, eq_refl, lookup-insert, lookup, lookup-delete}
use ptun.Bridge.{
  Peer, Bridge, get_peer, has_peer, new_bridge, add_peer, del_peer, disconnect_peer, connect_peer,
  handle_peer,
}

-- DisconnectPeer takes out whatever peer has the name, and closes its argument only.
pub get_peer-disconnect_peer :
    (p : Peer) (name : String) (b : Bridge)
    → (get_peer name (disconnect_peer p b) ≡ (if str_eq p.name name then none else get_peer name b))
      × ((disconnect_peer p b).closed ≡ p.handle ∷ b.closed)
unfolding get_peer disconnect_peer del_peer
get_peer-disconnect_peer p name b =
    ground (arith, lookup-delete p.name name b.peers, eq_iff p.name name)

-- Each peer stands under its own name.
abbrev pub IsKeyed : Bridge → Type 0
IsKeyed b = (name : String) (p : Peer) → get_peer name b ≡ some p → p.name ≡ name

pub disconnect_peer-IsKeyed : (p : Peer) (b : Bridge) → IsKeyed b → IsKeyed (disconnect_peer p b)
disconnect_peer-IsKeyed p b keyed name q e =
    ground (arith, get_peer-disconnect_peer p name b, keyed name q)

add_peer-fresh :
    (p : Peer) (name : String) (b : Bridge)
    → get_peer p.name b ≡ none
    → ((add_peer p b).0 ≡ ok tt)
      × (get_peer name (add_peer p b).1 ≡ (if str_eq p.name name then some p else get_peer name b))
      × ((add_peer p b).1.closed ≡ b.closed)
unfolding add_peer get_peer
add_peer-fresh p name b e = ground (arith, lookup-insert p.name name p b.peers)

abbrev pub close_old : Option Peer → List ℕ → List ℕ
close_old none closed = closed
close_old (some old) closed = old.handle ∷ closed

connect_peer-fresh :
    (p : Peer) (b : Bridge) → get_peer p.name b ≡ none → connect_peer p b ≡ add_peer p b
unfolding connect_peer
connect_peer-fresh p b e = rw (e, connect_peer)

connect_peer-over :
    (p old : Peer) (b : Bridge)
    → get_peer p.name b ≡ some old
    → connect_peer p b ≡ add_peer p (disconnect_peer old b)
unfolding connect_peer
connect_peer-over p old b e = rw (e, connect_peer)

-- ConnectPeer never fails on a bridge whose peers stand under their names: the peer takes the place
-- of one with its name, which is closed, and all other peers stay.
pub get_peer-connect_peer :
    (p : Peer) (name : String) (b : Bridge)
    → IsKeyed b
    → ((connect_peer p b).0 ≡ ok tt)
      × (get_peer name (connect_peer p b).1
          ≡ (if str_eq p.name name then some p else get_peer name b))
      × ((connect_peer p b).1.closed ≡ close_old (get_peer p.name b) b.closed)
get_peer-connect_peer p name b keyed = elim (Option-cases (get_peer p.name b)) [
  | inl e ↦ rw (connect_peer-fresh p b e, e) (add_peer-fresh p name b e)
  | inr (old, e) ↦
      rw (connect_peer-over p old b e, e)
        (ground (
          arith,
          keyed p.name old e,
          eq_refl p.name,
          get_peer-disconnect_peer old p.name b,
          get_peer-disconnect_peer old name b,
          add_peer-fresh p name (disconnect_peer old b),
        ))
]

pub connect_peer-IsKeyed : (p : Peer) (b : Bridge) → IsKeyed b → IsKeyed (connect_peer p b).1
connect_peer-IsKeyed p b keyed name q e =
    ground (arith, get_peer-connect_peer p name b keyed, keyed name q, eq_iff p.name name)

-- On a bridge whose peers stand under their names, when a peer connects again under its name, the
-- handler of its old connection fails, and takes the new connection out of the map without closing
-- it.
pub handle_peer_stale :
    (old new : Peer) (b : Bridge)
    → IsKeyed b
    → get_peer new.name b ≡ some old
    → let b' = (connect_peer new b).1 in
      let b'' = disconnect_peer old b' in
      (get_peer new.name b' ≡ some new)
      × (handle_peer old none b' ≡ ok (false, b''))
      × (get_peer new.name b'' ≡ none)
      × (b''.closed ≡ old.handle ∷ old.handle ∷ b.closed)
unfolding handle_peer
handle_peer_stale old new b keyed e = ground (
  arith,
  keyed new.name old e,
  eq_refl new.name,
  get_peer-connect_peer new new.name b keyed,
  get_peer-disconnect_peer old new.name (connect_peer new b).1,
)

pub has_peer-get_peer :
    (name : String) (p : Peer) (b : Bridge) → get_peer name b ≡ some p → has_peer name b ≡ true
unfolding has_peer
has_peer-get_peer name p b e = rw (e, has_peer) refl

pub new_bridge-IsKeyed : IsKeyed new_bridge
unfolding get_peer new_bridge lookup
new_bridge-IsKeyed name p e = cc e
