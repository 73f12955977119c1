-- ===== src/Hub/Handlers.antt =====
-- The handlers of a session in pkg/hub/hub.go: the dispatcher that handle fills, handlePeerList, and
-- what a request of the session leads to.
use ptun.Base.{◌≡◌, refl, Bool, List, [], ◌∷◌, map, Option, some, Result, ok, err, panics}
use ptun.Base.Text.{String, lookup, insert, is_some, has, has-keys}
use ptun.Message
use ptun.Message.Dispatcher.{Dispatcher, new_dispatcher, add_handler, dispatch}
use ptun.Nat.Analyze.{UdpAddr}
use ptun.Hub.Sessions.{Session, Hub, load_session, all_session_names}
use ptun.Hub.Punch.{PunchRequest, DetectNatResponse, PunchResponse, handle_punch, found}

pub data HubHandler : Type 0 where
  peer_list punch : HubHandler

-- handle, before it saves the session.
abbrev pub hub_dispatcher : Dispatcher HubHandler
hub_dispatcher =
    add_handler "PunchRequest" punch (add_handler "PeerListRequest" peer_list new_dispatcher)

-- A message with success, with the session that it goes to.
pub data Sent : Type 0 where
  peer_names : Session → List String → Sent
  punch_response : Session × PunchResponse → Sent

abbrev pub handle_peer_list : Session → Hub → List Sent
handle_peer_list me h = peer_names me (all_session_names h) ∷ []

abbrev pub all_sent : Result Unit (List (Session × PunchResponse)) → Result Unit (List Sent)
all_sent (ok sent) = ok (map punch_response sent)
all_sent (err e) = err e
all_sent panics = panics

abbrev pub names_of : Result Unit (List Sent) → List String
names_of (ok (peer_names s names ∷ [])) = names
names_of (ok []) = []
names_of (ok (punch_response m ∷ sent)) = []
names_of (ok (peer_names s names ∷ more ∷ sent)) = []
names_of (err e) = []
names_of panics = []

module _ (resolve_addr : String → Option UdpAddr) (keys : List (String × Bool) → List String) where
  abbrev pub handle_by :
      Result Message.Error HubHandler
      → Session
      → Option PunchRequest
      → (Session → Option DetectNatResponse)
      → Hub
      → Result Unit (List Sent)
  handle_by (ok peer_list) me request detect h = ok (handle_peer_list me h)
  handle_by (ok punch) me request detect h =
      all_sent (handle_punch resolve_addr keys me request detect h)
  handle_by (err e) me request detect h = ok []
  handle_by panics me request detect h = panics

  -- What a request of the session `me` leads to, by the name of its type. `request` is its payload, if
  -- that is a PunchRequest.
  unfoldable pub handle_request :
      String
      → Session
      → Option PunchRequest
      → (Session → Option DetectNatResponse)
      → Hub
      → Result Unit (List Sent)
  handle_request type me request detect h =
      handle_by (dispatch type hub_dispatcher) me request detect h

  -- The list of peers that a session gets has exactly the names that a punch finds a session for; a
  -- punch for any other name tells nobody anything.
  pub peer_list-punch :
      (me : Session) (req : PunchRequest) (request : Option PunchRequest)
      (detect : Session → Option DetectNatResponse) (h : Hub)
      → (has req.peer_name (names_of (handle_request "PeerListRequest" me request detect h))
          ≡ is_some (load_session req.peer_name h))
        × (handle_request "PunchRequest" me (some req) detect h
            ≡ all_sent (found resolve_addr keys me req detect (load_session req.peer_name h)))
  unfolding handle_request dispatch add_handler new_dispatcher handle_punch lookup insert
  peer_list-punch me req request detect h = (has-keys req.peer_name h.sessions, refl)
