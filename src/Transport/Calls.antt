-- ===== src/Transport/Calls.antt =====
-- pkg/proto/transport.go: the requester and the responser of a Transport, with their three dispatcher
-- loops. encoding/json is the parameter `Codec`; a handler that a loop starts is recorded with the
-- message that it is started on.
pub mod Serve
pub mod Reads
pub mod Loop
pub mod Crossing
pub mod Tests
use ptun.Base.{
  ℕ, suc, zero, Bool, true, false, ◌||◌, List, [], ◌∷◌, ◌++◌, Option, none, some, Result, ok, err,
  panics, ◌==◌, if◌then◌else◌,
}
use ptun.Base.Text.{String}
use ptun.Base.Int.{ℤ, pos}
use ptun.Packet
use ptun.Packet.{Packet, Pool, bytes_of, release}
use ptun.Packet.Tag
use ptun.Message
use ptun.Message.{
  GoType, Any, Codec, Request, Response, next, new_request, new_id_response, pack_request,
  pack_response, accept_request, accept_response,
}
use ptun.Message.Dispatcher.{Dispatcher, dispatch}
use ptun.Transport.Channel.{Receive, received, drained, empty, receive}
use ptun.Transport.{Transport, pack_to_conn}

pub data Failure : Type 0 where
  message_failed : Message.Error → Failure
  packet_failed : Packet.Error → Failure
  timeout : Failure

abbrev pub from_message : {A : Type 0} → Result Message.Error A → Result Failure A
from_message (ok a) = ok a
from_message (err e) = err (message_failed e)
from_message panics = panics

abbrev pub from_packet : {A : Type 0} → Result Packet.Error A → Result Failure A
from_packet (ok a) = ok a
from_packet (err e) = err (packet_failed e)
from_packet panics = panics

abbrev pub Sent : Type 0
Sent = Result Failure (Unit {0}) × Transport

-- Pack, then PackInto.
abbrev pub write_packed : ℕ → Result Message.Error (List ℕ) → Transport → Sent
write_packed tag (ok p) t = let (r, t') = pack_to_conn tag (some p) t in (from_packet r, t')
write_packed tag (err e) t = (err (message_failed e), t)
write_packed tag panics t = (panics, t)

module _ {V : Type 0} (c : Codec V) where
  unfoldable pub write_request : Request V → Transport → Sent
  write_request req t = write_packed Tag.req (pack_request c req) t

  unfoldable pub write_response : Response V → Transport → Sent
  write_response resp t = write_packed Tag.resp (pack_response c resp) t

  abbrev pub write_made : Result Message.Error (Request V × ℕ) → ℕ → Transport → Sent × ℕ
  write_made (ok made) sequence t = (write_request made.0 t, made.1)
  write_made (err e) sequence t = ((err (message_failed e), t), sequence)
  write_made panics sequence t = ((panics, t), sequence)

  -- Send of the requester, with the counter of Next.
  unfoldable pub send_request : Any V → ℕ → Transport → Sent × ℕ
  unfolding write_request
  send_request data_ sequence t = write_made (new_request data_ sequence) sequence t

  abbrev pub write_made_response : Result Message.Error (Response V) → Transport → Sent
  write_made_response (ok resp) t = write_response resp t
  write_made_response (err e) t = (err (message_failed e), t)
  write_made_response panics t = (panics, t)

  -- SendWithID of the responser.
  unfoldable pub send_with_id : ℕ → ℤ → String → Any V → Transport → Sent
  unfolding write_response
  send_with_id id code message data_ t =
      write_made_response (new_id_response id code message data_) t

  -- SendSuccessWithID, Reply and ReplySuccess are SendWithID with some arguments filled in.
  unfoldable pub send_success_with_id : ℕ → Any V → Transport → Sent
  unfolding send_with_id
  send_success_with_id id data_ t = send_with_id id (pos 0) "success" data_ t

  unfoldable pub reply : Request V → ℤ → String → Any V → Transport → Sent
  unfolding send_with_id
  reply req code message data_ t = send_with_id req.id code message data_ t

  unfoldable pub reply_success : Request V → Any V → Transport → Sent
  unfolding send_success_with_id
  reply_success req data_ t = send_success_with_id req.id data_ t

  -- Send and SendSuccess take a new id.
  pub send_response : ℤ → String → Any V → ℕ → Transport → Sent × ℕ
  unfolding send_with_id
  send_response code message data_ sequence t =
      (send_with_id (next sequence) code message data_ t, next sequence)

  pub send_success : Any V → ℕ → Transport → Sent × ℕ
  unfolding send_success_with_id
  send_success data_ sequence t = (send_success_with_id (next sequence) data_ t, next sequence)

-- What a Read with a time limit may end with: the clock is always a case of its select.
abbrev pub Outcomes : Type 0 → Type 0
Outcomes A = List (Result Failure A × Transport)

module _ {V : Type 0} (c : Codec V) (registry : List (String × GoType)) where
  -- A closed and drained channel gives a nil packet, whose body Read of the requester looks at.
  abbrev pub request_outcomes : Transport → Receive Packet → Outcomes (Request V)
  request_outcomes t empty = (err timeout, t) ∷ []
  request_outcomes t drained = (panics, t) ∷ (err timeout, t) ∷ []
  request_outcomes t (received p ch) =
      (
        from_message (accept_request c registry (bytes_of p.body)),
        record t { req_ch = ch; pool = release p t.pool },
      )
      ∷ (err timeout, t)
      ∷ []

  unfoldable pub read_request : Transport → Outcomes (Request V)
  read_request t = request_outcomes t (receive t.req_ch)

  -- Read of the responser tests for nil, and reports a timeout.
  abbrev pub response_outcomes : Transport → Receive Packet → Outcomes (Response V)
  response_outcomes t empty = (err timeout, t) ∷ []
  response_outcomes t drained = (err timeout, t) ∷ (err timeout, t) ∷ []
  response_outcomes t (received p ch) =
      (
        from_message (accept_response c registry (bytes_of p.body)),
        record t { resp_ch = ch; pool = release p t.pool },
      )
      ∷ (err timeout, t)
      ∷ []

  unfoldable pub read_response : Transport → Outcomes (Response V)
  read_response t = response_outcomes t (receive t.resp_ch)
