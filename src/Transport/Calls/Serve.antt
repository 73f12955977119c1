-- ===== src/Transport/Calls/Serve.antt =====
-- The loops of RunDispatcher in pkg/proto/transport.go: the requester's, the responser's, and the
-- transport's own, which selects between both channels. `defer p.Release()` stands in the loop, so
-- the buffers go back to the pool only when the loop returns.
use ptun.Base.{
  ℕ, Bool, true, false, List, [], ◌∷◌, ◌++◌, Result, ok, err, panics, ◌==◌, if◌then◌else◌,
}
use ptun.Base.Text.{String}
use ptun.Packet.{Packet, Pool, bytes_of, release}
use ptun.Message
use ptun.Message.{GoType, Codec, Request, Response, accept_request, accept_response}
use ptun.Message.Dispatcher.{Dispatcher, dispatch}
use ptun.Transport.Channel.{Chan, Receive, received, drained, empty, receive}
use ptun.Transport.{Transport}

-- What a loop has done: `deferred` are the packets that it releases when it returns, newest first;
-- `requests` and `responses` are the handlers that it started, oldest first; `replyer` are the ids of
-- the calls that wait, and `answered` what they were given.
pub record Serving (H V : Type 0) : Type 0 where
  pub transport : Transport
  pub deferred : List Packet
  pub requests : List (H × Request V)
  pub responses : List (H × Response V)
  pub replyer : List ℕ
  pub answered : List (Response V)

-- How a round of a loop ends: it waits for a packet, is followed by another one, or is the last.
pub data Step (H V : Type 0) : Type 0 where
  waits : Step H V
  goes returns : Serving H V → Step H V

-- The deferred calls, the last one first.
unfoldable pub release_all : List Packet → Pool → Pool
release_all [] pool = pool
release_all (p ∷ ps) pool = release_all ps (release p pool)

abbrev pub remembers : ℕ → List ℕ → Bool
remembers id [] = false
remembers id (i ∷ is) = if i == id then true else remembers id is

abbrev pub forget : ℕ → List ℕ → List ℕ
forget id [] = []
forget id (i ∷ is) = if i == id then forget id is else i ∷ forget id is

module _ {H V : Type 0} where
  abbrev pub return_from : Serving H V → Serving H V
  return_from s = record s {
    transport = record s.transport { pool = release_all s.deferred s.transport.pool };
    deferred = [];
  }

  abbrev pub take_request : Packet → Chan Packet → Serving H V → Serving H V
  take_request p ch s = record s {
    transport = record s.transport { req_ch = ch };
    deferred = p ∷ s.deferred;
  }

  abbrev pub take_response : Packet → Chan Packet → Serving H V → Serving H V
  take_response p ch s = record s {
    transport = record s.transport { resp_ch = ch };
    deferred = p ∷ s.deferred;
  }

  module _ (c : Codec V) (registry : List (String × GoType)) (d : Dispatcher H) where
    -- The handler that a packet starts: an error of Unpack or of Dispatch is skipped.
    abbrev pub dispatch_request : Request V → Result Message.Error H → List (H × Request V)
    dispatch_request req (ok h) = (h, req) ∷ []
    dispatch_request req (err e) = []
    dispatch_request req panics = []

    abbrev pub start_request : Result Message.Error (Request V) → List (H × Request V)
    start_request (ok req) = dispatch_request req (dispatch req.key d)
    start_request (err e) = []
    start_request panics = []

    -- A round of the requester's loop.
    abbrev pub serve_received : Serving H V → Receive Packet → Step H V
    serve_received s empty = waits
    serve_received s drained = returns (return_from s)
    serve_received s (received p ch) = goes (record (take_request p ch s) {
      requests = s.requests ++ start_request (accept_request c registry (bytes_of p.body));
    })

    unfoldable pub serve_request : Serving H V → Step H V
    serve_request s = serve_received s (receive s.transport.req_ch)

    abbrev pub dispatch_response : Response V → Result Message.Error H → List (H × Response V)
    dispatch_response resp (ok h) = (h, resp) ∷ []
    dispatch_response resp (err e) = []
    dispatch_response resp panics = []

    -- A response goes to the call that waits for its id, if there is one; SendMessage then takes the
    -- id out of `replyer`. All else goes to the dispatcher.
    abbrev pub answer : Result Message.Error (Response V) → Serving H V → Serving H V
    answer (err e) s = s
    answer panics s = s
    answer (ok resp) s =
        if remembers resp.id s.replyer
        then record s { replyer = forget resp.id s.replyer; answered = s.answered ++ resp ∷ [] }
        else record s { responses = s.responses ++ dispatch_response resp (dispatch resp.key d) }

    abbrev pub serve_response_received : Serving H V → Receive Packet → Step H V
    serve_response_received s empty = waits
    serve_response_received s drained = returns (return_from s)
    serve_response_received s (received p ch) =
        goes (answer (accept_response c registry (bytes_of p.body)) (take_response p ch s))

    -- A round of the responser's loop.
    unfoldable pub serve_response : Serving H V → Step H V
    serve_response s = serve_response_received s (receive s.transport.resp_ch)

  abbrev pub ready : Step H V → List (Step H V)
  ready waits = []
  ready (goes s) = goes s ∷ []
  ready (returns s) = returns s ∷ []

  -- A round of Transport.RunDispatcher: every ready case of its select may be chosen; none is ready
  -- when the list is empty.
  pub serve_either :
      Codec V → List (String × GoType) → Dispatcher H → Dispatcher H → Serving H V → List (Step H V)
  unfolding serve_request serve_response
  serve_either c registry requests responses s =
      ready (serve_request c registry requests s) ++ ready (serve_response c registry responses s)
