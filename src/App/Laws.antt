-- ===== src/App/Laws.antt =====
-- What a node does over time: app/network.go and app/node.go.
use ptun.Base.{
  ℕ, ◌≡◌, ◌≢◌, refl, ap, sym, ◌∙◌, Bool, true, false, not, ◌&&◌, List, [], ◌∷◌, ◌++◌, append_assoc,
  Option, none, some, Result, ok, err, arith, Bool-cases, Option-cases, inl, inr, ◌⊎◌,
}
use mathlib.Core.Path.{subst}
use ptun.Base.Text.{String, str_eq, eq_iff, eq_refl, has}
use ptun.Network.{Ip, IpNet}
use ptun.Bridge.{Peer, Bridge, has_peer, get_peer, connect_peer}
use ptun.Bridge.Peers.{IsKeyed, get_peer-connect_peer, connect_peer-IsKeyed, has_peer-get_peer}
use ptun.App.{
  Route, Error, parse_failed, connected, nat_peer, new_nat_peer, consider_peer, to_punch,
}

-- A round of Run asks for a punch to a peer just when the hub lists it, it is not the node itself, and
-- the bridge does not have it.
pub has-to_punch :
    (own p : String) (b : Bridge) (peers : List String)
    → has p (to_punch own b peers) ≡ (has p peers && not (str_eq p own) && not (has_peer p b))
unfolding to_punch has
has-to_punch own p b [] = ground arith
has-to_punch own p b (q ∷ peers) = elim (Bool-cases (str_eq q p)) [
  | inl e ↦ rw ((eq_iff q p).0 e) (ground (arith, eq_refl p, has-to_punch own p b peers))
  | inr e ↦ ground (arith, e, has-to_punch own p b peers)
]

pub consider_peer-to_punch :
    (own : String) (b : Bridge) (p : String) (peers asked : List String)
    → consider_peer own b p asked ++ to_punch own b peers ≡ asked ++ to_punch own b (p ∷ peers)
unfolding consider_peer to_punch
consider_peer-to_punch own b p peers asked =
    ground (arith, append_assoc asked (p ∷ []) (to_punch own b peers))

pub consider_peer-get_peer :
    (own p : String) (b : Bridge) (peer : Peer) (asked : List String)
    → get_peer p b ≡ some peer
    → consider_peer own b p asked ≡ asked
unfolding consider_peer
consider_peer-get_peer own p b peer asked e = ground (arith, has_peer-get_peer p peer b e)

pair_eq : {A B : Type 0} (p : A × B) (a : A) → p.0 ≡ a → p ≡ (a, p.1)
pair_eq (x, y) a e = ap (λ z. (z, y)) e

new_nat_peer_connects :
    (parse_cidr : String → Option (Ip × IpNet)) (routes : List Route) (name remote_ip : String)
    (p : Ip × IpNet) (handle : ℕ) (b : Bridge)
    → IsKeyed b
    → parse_cidr remote_ip ≡ some p
    → new_nat_peer parse_cidr routes true (some handle) name remote_ip b
      ≡ (ok tt, (connect_peer (nat_peer routes name p handle) b).1)
unfolding new_nat_peer
new_nat_peer_connects parse_cidr routes name remote_ip p handle b k e =
    ap
      (λ o. elim o as (λ _. Result Error Unit × Bridge) [
        | none ↦ (err parse_failed, b)
        | some p ↦ connected (connect_peer (nat_peer routes name p handle) b)
      ])
      e
    ∙ ap connected (
        pair_eq (connect_peer (nat_peer routes name p handle) b) (ok tt)
          (get_peer-connect_peer (nat_peer routes name p handle) name b k).0)

-- On a bridge whose peers stand under their names, NewNatPeer succeeds when the address parses, the
-- hole is made and there is a connection: the bridge then has the peer under its name, and the next
-- rounds of Run ask for no punch to it.
pub new_nat_peer-to_punch :
    (parse_cidr : String → Option (Ip × IpNet)) (routes : List Route) (name remote_ip : String)
    (p : Ip × IpNet) (handle : ℕ) (b : Bridge) (own : String) (peers : List String)
    → IsKeyed b
    → parse_cidr remote_ip ≡ some p
    → let r = new_nat_peer parse_cidr routes true (some handle) name remote_ip b in
      (r.0 ≡ ok tt)
      × (get_peer name (r.1) ≡ some (nat_peer routes name p handle))
      × IsKeyed (r.1)
      × (has name (to_punch own (r.1) peers) ≡ false)
new_nat_peer-to_punch parse_cidr routes name remote_ip p handle b own peers k e =
    subst Goal (sym (new_nat_peer_connects parse_cidr routes name remote_ip p handle b k e))
      (refl, there, connect_peer-IsKeyed peer b k, not_punched)
  where
    peer : Peer
    peer = nat_peer routes name p handle

    Goal : Result Error Unit × Bridge → Type 0
    Goal r =
        (r.0 ≡ ok tt)
        × (get_peer name (r.1) ≡ some (nat_peer routes name p handle))
        × IsKeyed (r.1)
        × (has name (to_punch own (r.1) peers) ≡ false)

    there : get_peer name ((connect_peer peer b).1) ≡ some peer
    there = rw (eq_refl name) at ((get_peer-connect_peer peer name b k).1)

    not_punched : has name (to_punch own ((connect_peer peer b).1) peers) ≡ false
    not_punched = ground (
      arith,
      has-to_punch own name ((connect_peer peer b).1) peers,
      there,
      has_peer-get_peer name peer ((connect_peer peer b).1) there,
    )

-- When a step fails, the bridge stays as it was.
pub new_nat_peer_failed :
    (parse_cidr : String → Option (Ip × IpNet)) (routes : List Route) (hole : Bool)
    (conn : Option ℕ) (name remote_ip : String) (b : Bridge)
    → (parse_cidr remote_ip ≡ none) ⊎ (hole ≡ false) ⊎ (conn ≡ none)
    → ((new_nat_peer parse_cidr routes hole conn name remote_ip b).0 ≢ ok tt)
      × ((new_nat_peer parse_cidr routes hole conn name remote_ip b).1 ≡ b)
unfolding new_nat_peer
new_nat_peer_failed parse_cidr routes hole conn name remote_ip b h = ground (arith, h)

-- NewNatPeer keeps the peers under their names, whether it succeeds or not.
pub new_nat_peer-IsKeyed :
    (parse_cidr : String → Option (Ip × IpNet)) (routes : List Route) (hole : Bool)
    (conn : Option ℕ) (name remote_ip : String) (b : Bridge)
    → IsKeyed b
    → IsKeyed (new_nat_peer parse_cidr routes hole conn name remote_ip b).1
new_nat_peer-IsKeyed parse_cidr routes hole conn name remote_ip b k =
    elim (Option-cases (parse_cidr remote_ip)) [
      | inl e ↦ same (inl e)
      | inr (p, e) ↦ made hole conn p e
    ]
  where
    same :
        {hole : Bool} {conn : Option ℕ}
        → (parse_cidr remote_ip ≡ none) ⊎ (hole ≡ false) ⊎ (conn ≡ none)
        → IsKeyed (new_nat_peer parse_cidr routes hole conn name remote_ip b).1
    same h = subst IsKeyed (sym (new_nat_peer_failed parse_cidr routes _ _ name remote_ip b h).1) k

    made :
        (hole : Bool) (conn : Option ℕ) (p : Ip × IpNet)
        → parse_cidr remote_ip ≡ some p
        → IsKeyed (new_nat_peer parse_cidr routes hole conn name remote_ip b).1
    made false conn p e = same (inr (inl refl))
    made true none p e = same (inr (inr refl))
    made true (some handle) p e =
        subst (λ r. IsKeyed r.1)
          (sym (new_nat_peer_connects parse_cidr routes name remote_ip p handle b k e))
          (connect_peer-IsKeyed (nat_peer routes name p handle) b k)
