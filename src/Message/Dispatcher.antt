-- ===== src/Message/Dispatcher.antt =====
-- pkg/proto/dispatcher.go, and GetResponsePayload of message.go: handlers by key, and the payload
-- of a message at a type. `H` is the type of handlers; the goroutine that Dispatch starts is the
-- handler that `dispatch` returns, at the message.
use ptun.Base.{
  ◌≡◌, ◌↔◌, refl, List, [], Option, none, some, Result, ok, err, panics, ◌>>=◌, arith,
  if◌then◌else◌,
}
use ptun.Base.Text.{String, str_eq, eq_iff, lookup, insert, lookup-insert}
use ptun.Message.{
  GoType, Value, Any, Error, no_payload, no_handler, invalid_message, check_type, pointer_to,
  or_fail,
}

pub record Dispatcher (H : Type 0) : Type 0 where
  pub handlers : List (String × H)

module _ {H : Type 0} where
  unfoldable pub new_dispatcher : Dispatcher H
  new_dispatcher = record { handlers = [] }

  unfoldable pub add_handler : String → H → Dispatcher H → Dispatcher H
  add_handler r h d = record { handlers = insert r h d.handlers }

  unfoldable pub dispatch : String → Dispatcher H → Result Error H
  dispatch key d = or_fail (lookup key d.handlers) no_handler

  -- A message goes to the handler that was added last for its key, and to no other.
  pub dispatch-add_handler :
      (r key : String) (h : H) (d : Dispatcher H)
      → dispatch key (add_handler r h d) ≡ (if str_eq r key then ok h else dispatch key d)
  unfolding dispatch add_handler
  dispatch-add_handler r key h d = rw (lookup-insert r key h d.handlers) (ground arith)

  pub dispatch-new_dispatcher : (key : String) → dispatch key new_dispatcher ≡ err no_handler
  unfolding dispatch new_dispatcher lookup
  dispatch-new_dispatcher key = refl

module _ {V : Type 0} where
  -- The type assertion to a pointer: a bare struct does not pass it.
  assert_pointer : Value V → Result Error (Option V)
  assert_pointer v = if v.pointer then ok v.target else panics

  pub get_payload : GoType → Any V → Result Error V
  unfolding assert_pointer check_type
  get_payload t none = err no_payload
  get_payload t (some v) = do
    checked ← check_type t (some v)
    result ← assert_pointer v
    or_fail result invalid_message

  assert_any : Any V → Result Error (Option V)
  unfolding assert_pointer
  assert_any none = panics
  assert_any (some v) = assert_pointer v

  -- A nil pointer is passed on here.
  abbrev pub get_response_payload : GoType → Any V → Result Error (Option V)
  unfolding assert_any check_type
  get_response_payload t payload = do checked ← check_type t payload; assert_any payload

  -- GetPayload returns a value exactly when the message holds a non-nil pointer of the type.
  pub get_payload_ok :
      (t : GoType) (payload : Any V) (v : V)
      → get_payload t payload ≡ ok v ↔ payload ≡ pointer_to t v
  unfolding get_payload
  get_payload_ok t none v = (λ e. cc, λ e. cc)
  get_payload_ok t (some x) v = (
    λ e. ground (arith, eq_iff x.type.package_path t.package_path, eq_iff x.type.name t.name),
    λ e. ground (arith, eq_iff x.type.package_path t.package_path, eq_iff x.type.name t.name),
  )
