-- ===== src/Message.antt =====
-- pkg/proto/message.go, message_tpl.go (the registry, and Generate) and tools.go: requests and responses as JSON
-- inside JSON, with the payload's type found by name.
-- encoding/json is the parameter `Codec`; a Go value in an `any` is a `Value`, nil is `none`.
pub mod Dispatcher
pub mod Laws
pub mod Errors
pub mod Generate
pub mod Model
pub mod Reply
pub mod Sample
pub mod Tests
use ptun.Base.{
  ℕ, ◌+◌, ◌%◌, ◌≡◌, Bool, true, false, ◌&&◌, List, [], ◌∷◌, Option, none, some, Result, ok, err,
  panics, ◌>>=◌, if◌then◌else◌,
}
use ptun.Base.Text.{String, str_eq, lookup, insert}
use ptun.Base.Int.{ℤ, pos, negsuc, is_negative}

-- reflect.Type of a struct: its package and its name.
pub record GoType : Type 0 where
  pub package_path : String
  pub name : String

-- A value of the type or a pointer to it; the target of a nil pointer is `none`.
pub record Value (V : Type 0) : Type 0 where
  pub type : GoType
  pub pointer : Bool
  pub target : Option V

abbrev pub Any : Type 0 → Type 0
Any V = Option (Value V)

pub data Error : Type 0 where
  bad_json invalid_message wrong_type no_payload no_handler : Error
  remote : String → Error

-- typeOf: reflect.TypeOf(nil) has no Kind.
pub type_of : {V : Type 0} → Any V → Result Error GoType
type_of none = panics
type_of (some v) = ok v.type

abbrev pub same_type : GoType → GoType → Bool
same_type a b = str_eq a.package_path b.package_path && str_eq a.name b.name

-- CheckType against the type parameter.
pub check_type : {V : Type 0} → GoType → Any V → Result Error (Unit {0})
check_type t none = panics
check_type t (some v) = if same_type v.type t then ok tt else err wrong_type

-- What RegisterMessage is called with: a type, or a type whose kind is a pointer, with its element.
pub data ReflectType : Type 0 where
  plain_type pointer_type : GoType → ReflectType

abbrev pub elem_of : ReflectType → GoType
elem_of (plain_type t) = t
elem_of (pointer_type t) = t

-- RegisterMessage keys a type by its name alone.
pub register_message : ReflectType → List (String × GoType) → List (String × GoType)
register_message t r = insert (elem_of t).name (elem_of t) r

-- The atomic counter behind the ids.
unfoldable pub next : ℕ → ℕ
next sequence = (sequence + 1) % 4294967296

-- What is on the wire of a request and a response; `data_raw` is the field DataRaw.
pub record RequestJson : Type 0 where
  pub key : String
  pub id : ℕ
  pub data_raw : Option (List ℕ)

pub record ResponseJson : Type 0 where
  pub key : String
  pub id : ℕ
  pub code : ℤ
  pub message : String
  pub data_raw : Option (List ℕ)

-- encoding/json, as far as it is used. Unmarshal of a payload goes into a new value of the type, and
-- `left_over` is what it leaves there when it fails.
pub record Codec (V : Type 0) : Type 0 where
  pub marshal : Value V → Option (List ℕ)
  pub unmarshal : GoType → List ℕ → Option V
  pub left_over : GoType → List ℕ → V
  pub marshal_request : RequestJson → Option (List ℕ)
  pub unmarshal_request : List ℕ → Option RequestJson
  pub marshal_response : ResponseJson → Option (List ℕ)
  pub unmarshal_response : List ℕ → Option ResponseJson

pub record Request (V : Type 0) : Type 0 where
  pub key : String
  pub id : ℕ
  pub data_raw : Option (List ℕ)
  pub payload : Any V

pub record Response (V : Type 0) : Type 0 where
  pub key : String
  pub id : ℕ
  pub code : ℤ
  pub message : String
  pub data_raw : Option (List ℕ)
  pub payload : Any V

abbrev pub or_fail : {A : Type 0} → Option A → Error → Result Error A
or_fail none e = err e
or_fail (some a) e = ok a

-- What Unpack returns: a value or nil, and an error or nil; some errors come with a value.
abbrev pub Returned : Type 0 → Type 0
Returned A = Option A × Option Error

-- What the callers go on with, which look at the error first.
abbrev pub value_of : {A : Type 0} → Returned A → Result Error A
value_of (v, some e) = err e
value_of (some v, none) = ok v
value_of (none, none) = panics

abbrev pub raw_bytes : Option (List ℕ) → List ℕ
raw_bytes none = []
raw_bytes (some raw) = raw

module _ {V : Type 0} where
  -- NewRequest, with the counter's new state.
  unfoldable pub new_request : Any V → ℕ → Result Error (Request V × ℕ)
  unfolding type_of
  new_request data_ sequence = do
    t ← type_of data_
    ok (
      record { key = t.name; id = next sequence; data_raw = none; payload = data_ },
      next sequence,
    )

  unfoldable pub new_id_response : ℕ → ℤ → String → Any V → Result Error (Response V)
  unfolding type_of
  new_id_response id code message data_ = do
    t ← type_of data_
    ok (record {
      key = t.name;
      id = id;
      code = code;
      message = message;
      data_raw = none;
      payload = data_;
    })

  -- json.Marshal of the payload; a nil interface is the text null.
  abbrev pub marshal_any : Codec V → Any V → Option (List ℕ)
  marshal_any c none = some (b'n' ∷ b'u' ∷ b'l' ∷ b'l' ∷ [])
  marshal_any c (some v) = c.marshal v

  pub pack_request : Codec V → Request V → Result Error (List ℕ)
  pack_request c req = do
    p ← or_fail (marshal_any c req.payload) bad_json
    or_fail (c.marshal_request (record { key = req.key; id = req.id; data_raw = some p })) bad_json

  pub pack_response : Codec V → Response V → Result Error (List ℕ)
  pack_response c resp = do
    p ← or_fail (marshal_any c resp.payload) bad_json
    or_fail
        (c.marshal_response (record {
          key = resp.key;
          id = resp.id;
          code = resp.code;
          message = resp.message;
          data_raw = some p;
        }))
        bad_json

  -- A new value of the registered type, behind a pointer.
  abbrev pub pointer_to : GoType → V → Any V
  pointer_to t v = some (record { type = t; pointer = true; target = some v })

  abbrev pub request_with : RequestJson → Any V → Request V
  request_with w payload = record {
    key = w.key;
    id = w.id;
    data_raw = w.data_raw;
    payload = payload;
  }

  -- A request whose payload cannot be read is returned with the error.
  abbrev pub request_payload :
      Codec V → GoType → RequestJson → List ℕ → Option V → Returned (Request V)
  request_payload c t w raw (some v) = (some (request_with w (pointer_to t v)), none)
  request_payload c t w raw none =
      (some (request_with w (pointer_to t (c.left_over t raw))), some bad_json)

  -- With no DataRaw the request has no payload, and is accepted.
  abbrev pub request_data : Codec V → GoType → RequestJson → Option (List ℕ) → Returned (Request V)
  request_data c t w none = (some (request_with w none), none)
  request_data c t w (some raw) = request_payload c t w raw (c.unmarshal t raw)

  abbrev pub request_typed : Codec V → RequestJson → Option GoType → Returned (Request V)
  request_typed c w none = (none, some invalid_message)
  request_typed c w (some t) = request_data c t w w.data_raw

  abbrev pub request_read :
      Codec V → List (String × GoType) → Option RequestJson → Returned (Request V)
  request_read c registry none = (none, some bad_json)
  request_read c registry (some w) = request_typed c w (lookup w.key registry)

  unfoldable pub unpack_request : Codec V → List (String × GoType) → List ℕ → Returned (Request V)
  unpack_request c registry p = request_read c registry (c.unmarshal_request p)

  -- A response with a negative code is returned with its message as the error.
  abbrev pub response_payload : GoType → ResponseJson → Option V → Returned (Response V)
  response_payload t w none = (none, some bad_json)
  response_payload t w (some v) = (
    some (record {
      key = w.key;
      id = w.id;
      code = w.code;
      message = w.message;
      data_raw = w.data_raw;
      payload = pointer_to t v;
    }),
    if is_negative w.code then some (remote w.message) else none,
  )

  abbrev pub response_typed : Codec V → ResponseJson → Option GoType → Returned (Response V)
  response_typed c w none = (none, some invalid_message)
  response_typed c w (some t) = response_payload t w (c.unmarshal t (raw_bytes w.data_raw))

  abbrev pub response_read :
      Codec V → List (String × GoType) → Option ResponseJson → Returned (Response V)
  response_read c registry none = (none, some bad_json)
  response_read c registry (some w) = response_typed c w (lookup w.key registry)

  unfoldable pub unpack_response : Codec V → List (String × GoType) → List ℕ → Returned (Response V)
  unpack_response c registry p = response_read c registry (c.unmarshal_response p)

  unfoldable pub accept_request :
      Codec V → List (String × GoType) → List ℕ → Result Error (Request V)
  unfolding unpack_request
  accept_request c registry p = value_of (unpack_request c registry p)

  unfoldable pub accept_response :
      Codec V → List (String × GoType) → List ℕ → Result Error (Response V)
  unfolding unpack_response
  accept_response c registry p = value_of (unpack_response c registry p)
