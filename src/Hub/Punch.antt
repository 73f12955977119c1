-- ===== src/Hub/Punch.antt =====
-- handlePunch of pkg/hub/hub.go, which tells two nodes how to reach each other. The remote node's
-- answer to the question for its NAT is a parameter, with `none` for a failure.
use ptun.Base.{
  ◌≡◌, refl, Bool, List, [], ◌∷◌, Option, none, some, Result, ok, err, panics, ok-injective, inl,
  inr, ◌⊎◌, sym,
}
use ptun.Base.Text.{String}
use ptun.Nat.Analyze
use ptun.Nat.Analyze.{UdpAddr, DetectResult, AnalyzeResult, Role, Resource, Action, Pair, analyze}
use ptun.Hub.Sessions.{Session, Hub, load_session}

pub record PeerNatInfo : Type 0 where
  pub name : String
  pub mapping : DetectResult

pub record PunchRequest : Type 0 where
  pub peer_name : String
  pub local_ip : String
  pub local : PeerNatInfo

pub record DetectNatResponse : Type 0 where
  pub ip : String
  pub local : PeerNatInfo

pub record PunchResponse : Type 0 where
  pub local_ip : String
  pub remote_ip : String
  pub local_nat : AnalyzeResult
  pub remote_nat : AnalyzeResult
  pub remote_peer_name : String

-- The two messages, with the sessions they go to.
abbrev pub messages :
    Session → Session → PunchRequest → DetectNatResponse → Pair → List (Session × PunchResponse)
messages me remote req detected p =
    (
      me,
      record {
        local_ip = req.local_ip;
        remote_ip = detected.ip;
        local_nat = p.0;
        remote_nat = p.1;
        remote_peer_name = remote.name;
      },
    )
    ∷ (
      remote,
      record {
        local_ip = detected.ip;
        remote_ip = req.local_ip;
        local_nat = p.1;
        remote_nat = p.0;
        remote_peer_name = me.name;
      },
    )
    ∷ []

abbrev pub told :
    Session
    → Session
    → PunchRequest
    → DetectNatResponse
    → Result Analyze.Error Pair
    → Result Unit (List (Session × PunchResponse))
told me remote req detected (ok p) = ok (messages me remote req detected p)
told me remote req detected (err e) = ok []
told me remote req detected panics = panics

-- Both ends are told, or neither: what one is told about its own side is what the other is told about
-- the remote side.
abbrev pub IsMirror : Session → List (Session × PunchResponse) → Type 0
IsMirror me sent =
    (sent ≡ [])
    ⊎ ((remote : Session) × (mine : PunchResponse) × (theirs : PunchResponse) × (sent
          ≡ (me, mine) ∷ (remote, theirs) ∷ [])
        × (mine.local_nat ≡ theirs.remote_nat)
        × (mine.remote_nat ≡ theirs.local_nat)
        × (mine.local_ip ≡ theirs.remote_ip)
        × (mine.remote_ip ≡ theirs.local_ip)
        × (mine.remote_peer_name ≡ remote.name)
        × (theirs.remote_peer_name ≡ me.name))

module _ (resolve_addr : String → Option UdpAddr) (keys : List (String × Bool) → List String) where
  abbrev pub asked :
      Session
      → Session
      → PunchRequest
      → Option DetectNatResponse
      → Result Unit (List (Session × PunchResponse))
  asked me remote req none = ok []
  asked me remote req (some d) =
      told me remote req d (analyze resolve_addr keys (req.local.mapping) (d.local.mapping))

  abbrev pub found :
      Session
      → PunchRequest
      → (Session → Option DetectNatResponse)
      → Option Session
      → Result Unit (List (Session × PunchResponse))
  found me req detect none = ok []
  found me req detect (some remote) = asked me remote req (detect remote)

  -- handlePunch of the hub: what it sends. `request` is the payload, if it is one.
  unfoldable pub handle_punch :
      Session
      → Option PunchRequest
      → (Session → Option DetectNatResponse)
      → Hub
      → Result Unit (List (Session × PunchResponse))
  handle_punch me none detect h = ok []
  handle_punch me (some req) detect h = found me req detect (load_session (req.peer_name) h)

  told-IsMirror :
      (me remote : Session) (req : PunchRequest) (d : DetectNatResponse)
      (r : Result Analyze.Error Pair) (sent : List (Session × PunchResponse))
      → told me remote req d r ≡ ok sent
      → IsMirror me sent
  told-IsMirror me remote req d (err x) sent e = inl (sym (ok-injective e))
  told-IsMirror me remote req d panics sent e = cc e
  told-IsMirror me remote req d (ok p) sent e =
      inr (remote, _, _, sym (ok-injective e), refl, refl, refl, refl, refl, refl)

  asked-IsMirror :
      (me remote : Session) (req : PunchRequest) (o : Option DetectNatResponse)
      (sent : List (Session × PunchResponse))
      → asked me remote req o ≡ ok sent
      → IsMirror me sent
  asked-IsMirror me remote req none sent e = inl (sym (ok-injective e))
  asked-IsMirror me remote req (some d) sent e = told-IsMirror me remote req d _ sent e

  found-IsMirror :
      (me : Session) (req : PunchRequest) (detect : Session → Option DetectNatResponse)
      (o : Option Session) (sent : List (Session × PunchResponse))
      → found me req detect o ≡ ok sent
      → IsMirror me sent
  found-IsMirror me req detect none sent e = inl (sym (ok-injective e))
  found-IsMirror me req detect (some remote) sent e =
      asked-IsMirror me remote req (detect remote) sent e

  -- When a punch is asked for, the hub tells both nodes or neither: what one is told about its own
  -- side is what the other is told about the remote side, for the addresses and actions, for the
  -- addresses in the tunnel, and each is told the other's name.
  pub handle_punch-IsMirror :
      (me : Session) (request : Option PunchRequest) (detect : Session → Option DetectNatResponse)
      (h : Hub) (sent : List (Session × PunchResponse))
      → handle_punch me request detect h ≡ ok sent
      → IsMirror me sent
  unfolding handle_punch
  handle_punch-IsMirror me none detect h sent e = inl (sym (ok-injective e))
  handle_punch-IsMirror me (some req) detect h sent e = found-IsMirror me req detect _ sent e
