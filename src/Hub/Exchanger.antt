-- ===== src/Hub/Exchanger.antt =====
-- pkg/hub/exchanger.go: what a node does with the hub's messages, and what it asks of the hub.
-- Detect is the parameter `detected`, with `none` for an error; the payload of a message is what
-- GetResponsePayload gives.
pub mod Told
pub mod Retry
pub mod Tests
use ptun.Base.{
  Bool, true, false, List, [], ◌∷◌, ◌++◌, Option, none, some, Result, ok, err, panics, ◌>>=◌,
  if◌then◌else◌,
}
use ptun.Base.Text.{String}
use ptun.Network.Resolve.{resolve_udp_addrs}
use ptun.Nat.Analyze.{UdpAddr, DetectResult, AnalyzeResult}
use ptun.Nat.Resolved.{Nat, nat_of}
use ptun.Message
use ptun.Message.Dispatcher.{Dispatcher, new_dispatcher, add_handler}
use ptun.Hub.Punch.{PunchRequest, PeerNatInfo, DetectNatResponse, PunchResponse}

-- The session's name, and the node's address in the tunnel.
pub record Exchanger : Type 0 where
  pub session_name : String
  pub ip : String

pub data RequestHandler : Type 0 where
  detect_nat : RequestHandler

pub data ResponseHandler : Type 0 where
  punch : ResponseHandler

-- The two dispatchers that NewExchanger fills, once tryLogin has given a session.
pub new_exchanger :
    {E : Type 0}
    → Result E String
    → String
    → Result E (Exchanger × Dispatcher RequestHandler × Dispatcher ResponseHandler)
unfolding add_handler new_dispatcher
new_exchanger login ip = do
  name ← login
  ok (
    record { session_name = name; ip = ip },
    add_handler "DetectNatRequest" detect_nat new_dispatcher,
    add_handler "PunchResponse" punch new_dispatcher,
  )

-- The error of Detect is only logged, so its nil result is dereferenced.
unfoldable pub handle_detect_nat :
    {E : Type 0} → Exchanger → Option DetectResult → Result E DetectNatResponse
handle_detect_nat e none = panics
handle_detect_nat e (some n) =
    ok (record { ip = e.ip; local = record { name = e.session_name; mapping = n } })

pub data Error : Type 0 where
  detect_failed : Error

-- The request that PunchPeer sends.
unfoldable pub punch_peer :
    Exchanger → String → String → Option DetectResult → Result Error PunchRequest
punch_peer e name local_ip none = err detect_failed
punch_peer e name local_ip (some m) = ok (record {
  peer_name = name;
  local_ip = local_ip;
  local = record { name = e.session_name; mapping = m };
})

-- GetPeers: an error of SendMessage or of the payload is passed on. The payload is a pointer, which
-- is dereferenced.
pub get_peers :
    {E R : Type 0} → Result E R → (R → Result E (Option (List String))) → Result E (List String)
get_peers sent payload = do
  raw ← sent
  resp ← payload raw
  elim resp [ none ↦ panics | some names ↦ ok names ]

pub record ExchangeInfo : Type 0 where
  pub nat_message : Nat
  pub peer_name : String
  pub peer_ip : String

-- An error of ResolveUDPAddrs leaves nil, and is otherwise dropped.
abbrev pub or_nil : {A : Type 0} → Result String (List A) → List A
or_nil (ok addrs) = addrs
or_nil (err e) = []
or_nil panics = []

module _ (resolve : String → Option UdpAddr) where
  unfoldable pub exchange_info : PunchResponse → ExchangeInfo
  exchange_info resp = record {
    nat_message =
        nat_of (or_nil (resolve_udp_addrs resolve resp.local_nat.local_addrs))
          (or_nil (resolve_udp_addrs resolve resp.local_nat.remote_mapped_addrs)) resp.local_nat;
    peer_name = resp.remote_peer_name;
    peer_ip = resp.remote_ip;
  }

  -- handlePunch, up to its select: what it offers on the channel `info`. The error of
  -- GetResponsePayload is dropped, and its nil result is dereferenced, as a nil pointer is.
  unfoldable pub handle_punch :
      Result Message.Error (Option PunchResponse) → Result Message.Error ExchangeInfo
  unfolding exchange_info
  handle_punch (err e) = panics
  handle_punch panics = panics
  handle_punch (ok none) = panics
  handle_punch (ok (some resp)) = ok (exchange_info resp)

-- The select of handlePunch: `taken` says whether a reader waits on `info`, `done` whether the
-- session is closed. Each ready case may be chosen, and none is if the list is empty.
pub data Offered : Type 0 where
  delivered : ExchangeInfo → Offered
  dropped : Offered

pub offer : Bool → Bool → ExchangeInfo → List Offered
offer taken done info =
    (if taken then delivered info ∷ [] else []) ++ (if done then dropped ∷ [] else [])
