-- ===== src/Message/Errors.antt =====
-- Unpack of pkg/proto/message.go reports what it cannot read as an error, and never panics.
use ptun.Base.{ℕ, ◌≢◌, List, Option, none, some, panics}
use ptun.Base.Text.{String, lookup}
use ptun.Message.{
  GoType, Codec, Error, RequestJson, ResponseJson, unpack_request, unpack_response, value_of,
  request_payload, request_data, request_typed, request_read, response_payload, response_typed,
  response_read, accept_request, accept_response, raw_bytes,
}

-- With no error there is a value.
with_value-ne-panics : {A : Type 0} (v : A) (e : Option Error) → value_of (some v, e) ≢ panics
with_value-ne-panics v none = λ x. cc x
with_value-ne-panics v (some e) = λ x. cc x

module _ {V : Type 0} (c : Codec V) (registry : List (String × GoType)) where
  request_payload-ne-panics :
      (t : GoType) (w : RequestJson) (raw : List ℕ) (o : Option V)
      → value_of (request_payload c t w raw o) ≢ panics
  request_payload-ne-panics t w raw none = λ x. cc x
  request_payload-ne-panics t w raw (some v) = λ x. cc x

  request_data-ne-panics :
      (t : GoType) (w : RequestJson) (o : Option (List ℕ))
      → value_of (request_data c t w o) ≢ panics
  request_data-ne-panics t w none = λ x. cc x
  request_data-ne-panics t w (some raw) = request_payload-ne-panics t w raw (c.unmarshal t raw)

  request_typed-ne-panics :
      (w : RequestJson) (o : Option GoType) → value_of (request_typed c w o) ≢ panics
  request_typed-ne-panics w none = λ x. cc x
  request_typed-ne-panics w (some t) = request_data-ne-panics t w w.data_raw

  request_read-ne-panics : (o : Option RequestJson) → value_of (request_read c registry o) ≢ panics
  request_read-ne-panics none = λ x. cc x
  request_read-ne-panics (some w) = request_typed-ne-panics w (lookup w.key registry)

  pub accept_request-ne-panics : (p : List ℕ) → accept_request c registry p ≢ panics
  unfolding accept_request unpack_request
  accept_request-ne-panics p = request_read-ne-panics (c.unmarshal_request p)

  response_payload-ne-panics :
      (t : GoType) (w : ResponseJson) (o : Option V) → value_of (response_payload t w o) ≢ panics
  response_payload-ne-panics t w none = λ x. cc x
  response_payload-ne-panics t w (some v) = with_value-ne-panics _ _

  response_typed-ne-panics :
      (w : ResponseJson) (o : Option GoType) → value_of (response_typed c w o) ≢ panics
  response_typed-ne-panics w none = λ x. cc x
  response_typed-ne-panics w (some t) =
      response_payload-ne-panics t w (c.unmarshal t (raw_bytes w.data_raw))

  response_read-ne-panics :
      (o : Option ResponseJson) → value_of (response_read c registry o) ≢ panics
  response_read-ne-panics none = λ x. cc x
  response_read-ne-panics (some w) = response_typed-ne-panics w (lookup w.key registry)

  pub accept_response-ne-panics : (p : List ℕ) → accept_response c registry p ≢ panics
  unfolding accept_response unpack_response
  accept_response-ne-panics p = response_read-ne-panics (c.unmarshal_response p)
