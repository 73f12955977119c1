-- ===== src/Message/Tests.antt =====
-- The theorems on messages at concrete inputs.
use ptun.Base.{
  ℕ, ◌↔◌, Option, ◌≡◌, refl, true, false, List, [], ◌∷◌, ◌++◌, none, some, ok, ◌>>=◌, arith,
  if◌then◌else◌,
}
use ptun.Base.Text.{String, lookup}
use ptun.Base.Int.{pos, is_negative}
use ptun.Message.Laws.{unpack_response-pack_response}
use ptun.Message.Sample.{ping, known, plain, plain-IsCodec}
use ptun.Message.Generate.{Entry, File, gen_decl, other_decl, type_spec, other_spec}
use ptun.Message.Dispatcher.{get_payload, get_payload_ok}
use ptun.Message.Reply.{arrives, registers, run, sending, run_answered}
use ptun.Message.{
  ReflectType, pointer_type, Any, remote, Response, new_id_response, pack_response, unpack_response,
  pointer_to,
}

unpack_response-pack_response_example :
    ((new_id_response 8
          (pos 0)
          "success"
          (some (record { type = ping; pointer = true; target = some (1 ∷ []) }))
        >>= pack_response plain)
      ≡ ok (1 ∷ []))
    × (unpack_response plain known (1 ∷ []) ≡ (
      some (record {
        key = "Ping";
        id = 8;
        code = pos 0;
        message = "success";
        data_raw = some (1 ∷ []);
        payload = pointer_to ping (1 ∷ []);
      }),
      if is_negative (pos 0) then some (remote "success") else none,
    ))
unfolding lookup
unpack_response-pack_response_example =
    unpack_response-pack_response plain plain-IsCodec ping true (1 ∷ []) 8 (pos 0) "success" known
      (1 ∷ []) (1 ∷ []) refl refl refl

abbrev answer : ℕ → Response (List ℕ)
answer id = record {
  key = "Ping";
  id = id;
  code = pos 0;
  message = "";
  data_raw = none;
  payload = none;
}

run_answered_example :
    (run
      (registers ∷ (arrives (ok (answer 3)) ∷ []) ++ arrives (ok (answer 8)) ∷ [])
      (sending 8)).outcome
    ≡ some (ok (answer 8))
run_answered_example =
    run_answered 8 (arrives (ok (answer 3)) ∷ []) (answer 8) ((λ e. absurd (omega (arith, e))), tt)
      refl

-- One file that declares a type among other things, and one file that is not read.
abbrev entries : List Entry
entries =
    record { name = "message.go"; is_dir = false }
    ∷ record { name = "init.gen.go"; is_dir = false }
    ∷ []

abbrev parse_file : String → Option File
parse_file f = some (record {
  package_name = "model";
  decls = other_decl ∷ gen_decl (type_spec "Ping" ∷ other_spec ∷ []) ∷ [];
})

-- A pointer type is registered as what it points to.
abbrev type_for : String → ReflectType
type_for n = pointer_type (record { package_path = "model"; name = "Ping" })

abbrev pinged : Any (List ℕ)
pinged = pointer_to ping (1 ∷ [])

get_payload_ok_example : get_payload ping pinged ≡ ok (1 ∷ []) ↔ pinged ≡ pointer_to ping (1 ∷ [])
get_payload_ok_example = get_payload_ok ping pinged (1 ∷ [])
