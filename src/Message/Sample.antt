-- ===== src/Message/Sample.antt =====
-- A codec that meets what is relied on of encoding/json, for the tests.
use ptun.Base.{ℕ, sym, ◌&&◌, List, [], ◌∷◌, none, some, arith, ◌==◌, if◌then◌else◌}
use ptun.Base.Text.{String, str_eq, eq_iff}
use ptun.Base.Int.{pos, negsuc}
use ptun.Message.Laws.{IsCodec}
use ptun.Message.{GoType, Codec}

abbrev pub ping : GoType
ping = record { package_path = "model"; name = "Ping" }

abbrev pub known : List (String × GoType)
known = ("Ping", ping) ∷ []

-- Payloads are lists of bytes, written as they are; of the messages it writes those with one key, one
-- id and, for responses, one code, by their payloads.
abbrev pub plain_for : String → Codec (List ℕ)
plain_for key = record {
  marshal = λ v. v.target;
  unmarshal = λ t p. some p;
  left_over = λ t p. [];
  marshal_request = λ w. elim w.data_raw [
    | none ↦ none
    | some raw ↦ if str_eq w.key key && w.id == 8 then some raw else none
  ];
  unmarshal_request = λ p. some (record { key = key; id = 8; data_raw = some p });
  marshal_response = λ w. elim w.data_raw [
    | none ↦ none
    | some raw ↦ elim w.code [
      | negsuc n ↦ none
      | pos n ↦
          if str_eq w.key key && w.id == 8 && n == 0 && str_eq w.message "success"
          then some raw
          else none
    ]
  ];
  unmarshal_response = λ p.
      some (record { key = key; id = 8; code = pos 0; message = "success"; data_raw = some p });
}

pub plain_for-IsCodec : (key : String) → IsCodec (plain_for key)
plain_for-IsCodec key = record {
  unmarshal-marshal = λ t pointer v p e. sym e;
  unmarshal_request-marshal_request = λ w p e. ground (arith, e, eq_iff w.key key);
  unmarshal_response-marshal_response =
      λ w p e. ground (arith, e, eq_iff w.key key, eq_iff w.message "success");
}

abbrev pub plain : Codec (List ℕ)
plain = plain_for "Ping"

pub plain-IsCodec : IsCodec plain
plain-IsCodec = plain_for-IsCodec "Ping"
