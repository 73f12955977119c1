-- ===== src/Message/Laws.antt =====
-- Pack and Unpack of pkg/proto/message.go against each other, and the ids of Next.
use ptun.Base.{
  ℕ, zero, suc, ◌+◌, ◌%◌, ◌<◌, ◌≡◌, refl, ◌↔◌, Bool, List, some, none, ok, ◌>>=◌, arith,
  if◌then◌else◌,
}
use ptun.Base.Text.{String, str_eq, lookup, lookup-insert}
use ptun.Base.Int.{ℤ, is_negative}
use ptun.Message.{
  GoType, remote, register_message, next, RequestJson, ResponseJson, Codec, new_request,
  new_id_response, pack_request, pack_response, unpack_request, unpack_response, ReflectType,
  elem_of, pointer_to,
}

-- What is relied on of encoding/json: Unmarshal reads back what Marshal wrote.
pub record IsCodec {V : Type 0} (c : Codec V) : Type 0 where
  pub unmarshal-marshal :
      (t : GoType) (pointer : Bool) (v : V) (p : List ℕ)
      → c.marshal (record { type = t; pointer = pointer; target = some v }) ≡ some p
      → c.unmarshal t p ≡ some v
  pub unmarshal_request-marshal_request :
      (w : RequestJson) (p : List ℕ) → c.marshal_request w ≡ some p → c.unmarshal_request p ≡ some w
  pub unmarshal_response-marshal_response :
      (w : ResponseJson) (p : List ℕ)
      → c.marshal_response w ≡ some p
      → c.unmarshal_response p ≡ some w

module _ {V : Type 0} (c : Codec V) (laws : IsCodec c) where
  -- A request that NewRequest makes is packed if its payload and the whole can be marshalled, and
  -- is read back with its key and id, and with a pointer to an equal payload, if the payload's type
  -- is registered.
  pub unpack_request-pack_request :
      (t : GoType) (pointer : Bool) (v : V) (sequence : ℕ) (registry : List (String × GoType))
      → (raw p : List ℕ) → lookup t.name registry ≡ some t
      → c.marshal (record { type = t; pointer = pointer; target = some v }) ≡ some raw
      → c.marshal_request (record { key = t.name; id = next sequence; data_raw = some raw })
        ≡ some p
      → ((new_request (some (record { type = t; pointer = pointer; target = some v })) sequence
            >>= λ made. pack_request c made.0)
          ≡ ok p)
        × (unpack_request c registry p ≡ (
          some (record {
            key = t.name;
            id = next sequence;
            data_raw = some raw;
            payload = pointer_to t v;
          }),
          none,
        ))
  unfolding new_request pack_request unpack_request
  unpack_request-pack_request t pointer v sequence registry raw p known e f = (
    rw (e) (rw f),
    rw (laws.unmarshal_request-marshal_request _ p f)
        (rw (known) (rw (laws.unmarshal-marshal t pointer v raw e) refl)),
  )

  -- A response of a registered type that can be marshalled, payload and whole, is read back, with a
  -- pointer to an equal payload; with it Unpack returns no error if the code is not negative, and the
  -- response's message as an error if it is.
  pub unpack_response-pack_response :
      (t : GoType) (pointer : Bool) (v : V) (id : ℕ) (code : ℤ) (message : String)
      → (registry : List (String × GoType)) (raw p : List ℕ) → lookup t.name registry ≡ some t
      → c.marshal (record { type = t; pointer = pointer; target = some v }) ≡ some raw
      → c.marshal_response
          (record { key = t.name; id = id; code = code; message = message; data_raw = some raw })
        ≡ some p
      → ((new_id_response id code message
              (some (record { type = t; pointer = pointer; target = some v }))
            >>= pack_response c)
          ≡ ok p)
        × (unpack_response c registry p ≡ (
          some (record {
            key = t.name;
            id = id;
            code = code;
            message = message;
            data_raw = some raw;
            payload = pointer_to t v;
          }),
          if is_negative code then some (remote message) else none,
        ))
  unfolding new_id_response pack_response unpack_response
  unpack_response-pack_response t pointer v id code message registry raw p known e f = (
    rw (e) (rw f),
    rw (laws.unmarshal_response-marshal_response _ p f)
        (rw (known) (rw (laws.unmarshal-marshal t pointer v raw e) refl)),
  )

-- A type that is registered is found, unless one of the same name was registered after it.
pub lookup-register_message :
    (t : ReflectType) (name : String) (registry : List (String × GoType))
    → lookup name (register_message t registry)
      ≡ (if str_eq (elem_of t).name name then some (elem_of t) else lookup name registry)
unfolding register_message
lookup-register_message t name registry = lookup-insert (elem_of t).name name (elem_of t) registry

pub nexts : ℕ → ℕ → ℕ
nexts zero sequence = sequence
nexts (suc n) sequence = nexts n (next sequence)

nexts_lem : (n s : ℕ) → s < 4294967296 → nexts n s ≡ (s + n) % 4294967296
unfolding next nexts
nexts_lem zero s h = omega arith
nexts_lem (suc n) s h = omega (arith, nexts_lem n ((s + 1) % 4294967296) (omega arith))

-- After n calls of Next the counter is where it was exactly if n is a multiple of 2 ^ 32: until then
-- no id comes twice.
pub nexts-eq : (n s : ℕ) → s < 4294967296 → nexts n s ≡ s ↔ n % 4294967296 ≡ 0
nexts-eq n s h = (λ e. omega (arith, nexts_lem n s h), λ e. omega (arith, nexts_lem n s h))
