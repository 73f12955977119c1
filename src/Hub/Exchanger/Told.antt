-- ===== src/Hub/Exchanger/Told.antt =====
-- A punch from one node over the hub to both nodes: PunchPeer, handleDetectNat and handlePunch of
-- pkg/hub/exchanger.go around handlePunch of pkg/hub/hub.go.
use ptun.Base.{
  ◌≡◌, refl, sym, ap, ◌⊎◌, inl, inr, Bool, List, [], ◌∷◌, Option, none, some, Result, ok, err,
  panics, ok-injective,
}
use mathlib.Core.Path.{subst}
use mathlib.Core.Option.{some-injective}
use ptun.Base.Text.{String}
use ptun.Network.Resolve.{resolve_udp_addrs}
use ptun.Nat.Analyze
use ptun.Nat.Analyze.{
  UdpAddr, DetectResult, Pair, AnalyzeResult, Role, client_side, server_side, analyze,
}
use ptun.Nat.Analyze.Roles.{HasPorts, analyze-Plans}
use ptun.Hub.Sessions.{Session, Hub, load_session}
use ptun.Hub.Punch.{
  PunchRequest, DetectNatResponse, PunchResponse, messages, told, asked, found, handle_punch,
}
use ptun.Hub.Exchanger.{
  Exchanger, ExchangeInfo, handle_detect_nat, punch_peer, or_nil, exchange_info,
}

module _ (resolve : String → Option UdpAddr) (keys : List (String × Bool) → List String) where
  -- What the hub went through when it has told both nodes.
  abbrev Told :
      Session
      → PunchRequest
      → (Session → Option DetectNatResponse)
      → Hub
      → List (Session × PunchResponse)
      → Type 0
  Told me req detect h sent =
      (remote : Session) × (d : DetectNatResponse) × (p : Pair) × (load_session req.peer_name h
        ≡ some remote)
      × (detect remote ≡ some d)
      × (analyze resolve keys req.local.mapping d.local.mapping ≡ ok p)
      × (sent ≡ messages me remote req d p)

  module _ (me : Session) (req : PunchRequest) (detect : Session → Option DetectNatResponse)
      (h : Hub) (sent : List (Session × PunchResponse)) where
    told-Told :
        (remote : Session) (d : DetectNatResponse) (r : Result Analyze.Error Pair)
        → load_session req.peer_name h ≡ some remote
        → detect remote ≡ some d
        → analyze resolve keys req.local.mapping d.local.mapping ≡ r
        → told me remote req d r ≡ ok sent
        → (sent ≡ []) ⊎ Told me req detect h sent
    told-Told remote d (err x) l k a e = inl (sym (ok-injective e))
    told-Told remote d panics l k a e = cc e
    told-Told remote d (ok p) l k a e = inr (remote, d, p, l, k, a, sym (ok-injective e))

    asked-Told :
        (remote : Session) (o : Option DetectNatResponse)
        → load_session req.peer_name h ≡ some remote
        → detect remote ≡ o
        → asked resolve keys me remote req o ≡ ok sent
        → (sent ≡ []) ⊎ Told me req detect h sent
    asked-Told remote none l k e = inl (sym (ok-injective e))
    asked-Told remote (some d) l k e = told-Told remote d _ l k refl e

    found-Told :
        (o : Option Session)
        → load_session req.peer_name h ≡ o
        → found resolve keys me req detect o ≡ ok sent
        → (sent ≡ []) ⊎ Told me req detect h sent
    found-Told none l e = inl (sym (ok-injective e))
    found-Told (some remote) l e = asked-Told remote (detect remote) l refl e

abbrev answer_of : Result Unit DetectNatResponse → Option DetectNatResponse
answer_of (ok d) = some d
answer_of (err e) = none
answer_of panics = none

-- The answer of the node at a session; a node whose Detect fails gives none.
abbrev pub answers :
    (Session → Exchanger) → (Session → Option DetectResult) → Session → Option DetectNatResponse
answers node nat s = answer_of (handle_detect_nat (node s) (nat s))

answer_of-handle_detect_nat :
    (e : Exchanger) (o : Option DetectResult) (d : DetectNatResponse)
    → answer_of (handle_detect_nat e o) ≡ some d
    → (n : DetectResult) × (o ≡ some n)
      × (record { ip = e.ip; local = record { name = e.session_name; mapping = n } } ≡ d)
unfolding handle_detect_nat
answer_of-handle_detect_nat e none d f = cc f
answer_of-handle_detect_nat e (some n) d f = (n, refl, some-injective _ _ f)

abbrev pub Opposed : Role → Role → Type 0
Opposed a b = ((a ≡ client_side) × (b ≡ server_side)) ⊎ ((a ≡ server_side) × (b ≡ client_side))

module _ (resolve : String → Option UdpAddr) (keys : List (String × Bool) → List String) where
  abbrev offered : PunchResponse → ExchangeInfo
  offered resp = exchange_info resolve resp

  -- What the two nodes take from the hub's messages: each the other's name and address in the tunnel
  -- and its own local address, and opposite roles.
  abbrev pub Met :
      Session
      → Session
      → Exchanger
      → String
      → DetectResult
      → DetectResult
      → ExchangeInfo
      → ExchangeInfo
      → Type 0
  Met me remote their local_ip m n a b =
      (a.peer_name ≡ remote.name)
      × (b.peer_name ≡ me.name)
      × (a.peer_ip ≡ their.ip)
      × (b.peer_ip ≡ local_ip)
      × Opposed a.nat_message.role b.nat_message.role
      × (a.nat_message.local_addrs ≡ or_nil (resolve_udp_addrs resolve (m.local_addr ∷ [])))
      × (b.nat_message.local_addrs ≡ or_nil (resolve_udp_addrs resolve (n.local_addr ∷ [])))

  -- The request and the answer, written out.
  abbrev request_of : Exchanger → String → String → DetectResult → PunchRequest
  request_of e name local_ip m = record {
    peer_name = name;
    local_ip = local_ip;
    local = record { name = e.session_name; mapping = m };
  }

  abbrev detected_of : Exchanger → DetectResult → DetectNatResponse
  detected_of e n = record { ip = e.ip; local = record { name = e.session_name; mapping = n } }

  -- What is asserted of the hub's messages when it tells both nodes.
  abbrev pub Meeting :
      Session
      → String
      → String
      → DetectResult
      → (Session → Exchanger)
      → (Session → Option DetectResult)
      → Hub
      → List (Session × PunchResponse)
      → Type 0
  Meeting me name local_ip m node nat h sent =
      (remote : Session) × (n : DetectResult) × (to_me to_them : PunchResponse) × (load_session name
          h
        ≡ some remote)
      × (nat remote ≡ some n)
      × (sent ≡ (me, to_me) ∷ (remote, to_them) ∷ [])
      × Met me remote (node remote) local_ip m n (offered to_me) (offered to_them)

  module _ (me : Session) (mine : Exchanger) (name local_ip : String) (m : DetectResult)
      (node : Session → Exchanger) (nat : Session → Option DetectResult) (h : Hub)
      (sent : List (Session × PunchResponse)) (ports : HasPorts resolve keys) where
    Told-Meeting :
        (remote : Session) (n : DetectResult) (p : Pair)
        → load_session name h ≡ some remote
        → nat remote ≡ some n
        → analyze resolve keys m n ≡ ok p
        → sent
          ≡ messages me remote (request_of mine name local_ip m) (detected_of (node remote) n) p
        → Meeting me name local_ip m node nat h sent
    unfolding exchange_info
    Told-Meeting remote n p l k a f =
        let plans = analyze-Plans resolve keys m n p ports a in
        (
          remote,
          n,
          _,
          _,
          l,
          k,
          f,
          (
            refl,
            refl,
            refl,
            refl,
            plans.2,
            ap (λ x. or_nil (resolve_udp_addrs resolve x)) plans.0,
            ap (λ x. or_nil (resolve_udp_addrs resolve x)) plans.1,
          ),
        )

    answered-Meeting :
        (remote : Session) (d : DetectNatResponse) (p : Pair)
        → load_session name h ≡ some remote
        → answers node nat remote ≡ some d
        → analyze resolve keys m d.local.mapping ≡ ok p
        → sent ≡ messages me remote (request_of mine name local_ip m) d p
        → Meeting me name local_ip m node nat h sent
    answered-Meeting remote d p l k a f =
        let (n, q, g) = answer_of-handle_detect_nat (node remote) (nat remote) d k in
        Told-Meeting remote n p l q
          (subst (λ x. analyze resolve keys m x.local.mapping ≡ ok p) (sym g) a)
          (subst (λ x. sent ≡ messages me remote (request_of mine name local_ip m) x p) (sym g) f)

  -- When a node asks for a punch with what it detected, and the other node answers the hub with what
  -- it detected, the hub tells neither node or both; if both, what they take from it names each other,
  -- gives the address in the tunnel of the other, and opposite roles, and each keeps its own local
  -- address, if that resolves, and has none if it does not. The resolver gives ports of at most 65535.
  pub punch_peer-exchange_info :
      (me : Session) (mine : Exchanger) (name local_ip : String) (m : DetectResult)
      (req : PunchRequest) (node : Session → Exchanger) (nat : Session → Option DetectResult)
      (h : Hub) (sent : List (Session × PunchResponse))
      → HasPorts resolve keys
      → punch_peer mine name local_ip (some m) ≡ ok req
      → handle_punch resolve keys me (some req) (answers node nat) h ≡ ok sent
      → (sent ≡ []) ⊎ Meeting me name local_ip m node nat h sent
  unfolding handle_punch punch_peer
  punch_peer-exchange_info me mine name local_ip m req node nat h sent ports asks e =
      elim (found-Told resolve keys me (request_of mine name local_ip m) (answers node nat) h sent _
        refl
        (subst (λ r. handle_punch resolve keys me (some r) (answers node nat) h ≡ ok sent)
          (sym (ok-injective asks)) e)) [
            | inl none_told ↦ inl none_told
            | inr (remote, d, p, l, k, a, f) ↦
                inr (
                  answered-Meeting me mine name local_ip m node nat h sent ports remote d p l k a f)
          ]
