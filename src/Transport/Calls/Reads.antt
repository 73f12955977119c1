-- ===== src/Transport/Calls/Reads.antt =====
-- How Read of the requester and of the responser in pkg/proto/transport.go may end.
use ptun.Base.{◌≡◌, refl, ◌≢◌, ◌⊎◌, ◌↔◌, inl, inr, List, [], ◌∷◌, Result, ok, err, panics, arith}
use ptun.Base.Text.{String}
use ptun.Packet.{Packet, bytes_of}
use ptun.Message
use ptun.Message.{GoType, Codec, accept_request, accept_response}
use ptun.Message.Errors.{accept_request-ne-panics, accept_response-ne-panics}
use ptun.Transport.Channel.{Receive, received, drained, empty, receive}
use ptun.Transport.{Transport}
use ptun.Transport.Calls.{
  Outcomes, from_message, request_outcomes, response_outcomes, read_request, read_response,
}

abbrev pub MayPanic : {A : Type 0} → Outcomes A → Type 0
MayPanic [] = ⊥
MayPanic (o ∷ os) = (o.0 ≡ panics) ⊎ MayPanic os

from_message-ne-panics :
    {A : Type 0} (r : Result Message.Error A) → r ≢ panics → from_message r ≢ panics
from_message-ne-panics (ok a) h e = cc e
from_message-ne-panics (err x) h e = cc e
from_message-ne-panics panics h e = h refl

module _ {V : Type 0} (c : Codec V) (registry : List (String × GoType)) (t : Transport) where
  request_outcomes-MayPanic :
      (r : Receive Packet) → MayPanic (request_outcomes c registry t r) ↔ r ≡ drained
  request_outcomes-MayPanic empty = (λ m. ground (arith, m), λ e. cc e)
  request_outcomes-MayPanic drained = (λ m. refl, λ e. inl refl)
  request_outcomes-MayPanic (received p ch) = (
    λ m. absurd (elim m [
      | inl e ↦ from_message-ne-panics _ (accept_request-ne-panics c registry (bytes_of p.body)) e
      | inr late ↦ ground (arith, late)
    ]),
    λ e. cc e,
  )

  response_outcomes-MayPanic : (r : Receive Packet) → ¬ MayPanic (response_outcomes c registry t r)
  response_outcomes-MayPanic empty m = ground (arith, m)
  response_outcomes-MayPanic drained m = ground (arith, m)
  response_outcomes-MayPanic (received p ch) (inl e) =
      from_message-ne-panics _ (accept_response-ne-panics c registry (bytes_of p.body)) e
  response_outcomes-MayPanic (received p ch) (inr late) = ground (arith, late)

  -- Read of the requester may panic exactly when its channel is closed and drained; Read of the
  -- responser never does.
  pub read_panics :
      (MayPanic (read_request c registry t) ↔ receive t.req_ch ≡ drained)
      × ¬ MayPanic (read_response c registry t)
  unfolding read_request read_response
  read_panics =
      (request_outcomes-MayPanic (receive t.req_ch), response_outcomes-MayPanic (receive t.resp_ch))
