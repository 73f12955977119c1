-- ===== src/Message/Model.antt =====
-- model/message.go and model/peer.go as GenMessageMethod reads them, and model/init.gen.go, which it
-- wrote: the registry of the types that the program sends.
use ptun.Base.{
  ◌≡◌, ◌∙◌, refl, ap, ◌⊎◌, inl, inr, true, false, Bool-cases, List, [], ◌∷◌, ◌++◌, map, Option,
  none, some, arith, if◌then◌else◌,
}
use ptun.Base.Text.{String, str_eq, eq_iff, lookup, has, lookup-insert}
use ptun.Message.{GoType, plain_type, register_message}
use ptun.Message.Generate.{
  Entry, type_spec, other_spec, gen_decl, File, gen_message_method, source_files, write_files,
  run_inits,
}

abbrev pub message_names : List String
message_names =
    "LoginRequest" ∷ "LoginResponse" ∷ "PeerListRequest" ∷ "PeerListResponse" ∷ "PeerNatInfo"
    ∷ "ExchangeNatRequest" ∷ "ExchangeNatResponse" ∷ "DetectNatRequest" ∷ "DetectNatResponse"
    ∷ "PunchRequest" ∷ "PunchResponse" ∷ []

abbrev pub peer_names : List String
peer_names = "UpdateIP" ∷ "UpdateRoute" ∷ []

-- The two files begin with an import declaration.
abbrev pub declaring : List String → File
declaring names = record {
  package_name = "model";
  decls = gen_decl (other_spec ∷ []) ∷ map (λ n. gen_decl (type_spec n ∷ [])) names;
}

abbrev pub model_files : String → Option File
model_files name =
    if str_eq name "message.go"
    then some (declaring message_names)
    else if str_eq name "peer.go"
    then some (declaring peer_names)
    else none

abbrev pub model_entries : List Entry
model_entries =
    record { name = "init.gen.go"; is_dir = false }
    ∷ record { name = "message.go"; is_dir = false }
    ∷ record { name = "peer.go"; is_dir = false }
    ∷ []

-- The package's path, and its init functions in the order in which they stand.
abbrev pub model_path : String
model_path = "github.com/withz/ptun/model"

-- They are struct types, no aliases.
abbrev pub model_type : String → GoType
model_type name = record { package_path = model_path; name = name }

abbrev pub register_all : List String → List (String × GoType) → List (String × GoType)
register_all [] registry = registry
register_all (name ∷ names) registry =
    register_all names (register_message (plain_type (model_type name)) registry)

abbrev pub init_registry : List (String × GoType)
unfolding register_message
init_registry =
    register_all
      ("LoginRequest" ∷ "LoginResponse" ∷ "PeerListRequest" ∷ "PeerListResponse" ∷ "PeerNatInfo"
        ∷ "ExchangeNatRequest" ∷ "ExchangeNatResponse" ∷ "DetectNatRequest" ∷ "DetectNatResponse"
        ∷ "PunchRequest" ∷ "PunchResponse" ∷ "UpdateIP" ∷ "UpdateRoute" ∷ [])
      []

-- The generated file is what GenMessageMethod writes for the two files: its run ends without an error,
-- and its init functions fill the same registry.
pub gen_message_method-init_registry :
    let d = gen_message_method (λ n. true) model_files (λ c. true) (some model_entries) true in
    (d.1 ≡ true) × (run_inits (λ n. plain_type (model_type n)) d.0 [] ≡ init_registry)
unfolding gen_message_method source_files write_files register_message
gen_message_method-init_registry = (refl, refl)

register_message_named :
    (name n : String) (r : List (String × GoType))
    → str_eq n name ≡ true
    → lookup name (register_message (plain_type (model_type n)) r) ≡ some (model_type name)
unfolding register_message
register_message_named name n r e =
    lookup-insert n name (model_type n) r ∙ ground (arith, e, ap model_type ((eq_iff n name).0 e))

register_message_keeps :
    (name n : String) (r : List (String × GoType))
    → lookup name r ≡ some (model_type name)
    → lookup name (register_message (plain_type (model_type n)) r) ≡ some (model_type name)
unfolding register_message
register_message_keeps name n r e = elim (Bool-cases (str_eq n name)) [
  | inl same ↦ register_message_named name n r same
  | inr other ↦ lookup-insert n name (model_type n) r ∙ ground (arith, e, other)
]

-- A name that is registered, or was before, is looked up as its type of the package.
register_all-lookup :
    (name : String) (names : List String) (r : List (String × GoType))
    → (has name names ≡ true) ⊎ (lookup name r ≡ some (model_type name))
    → lookup name (register_all names r) ≡ some (model_type name)
unfolding has
register_all-lookup name [] r (inl e) = cc e
register_all-lookup name [] r (inr e) = e
register_all-lookup name (n ∷ names) r (inr e) =
    register_all-lookup name names _ (inr (register_message_keeps name n r e))
register_all-lookup name (n ∷ names) r (inl e) = elim (Bool-cases (str_eq n name)) [
  | inl same ↦ register_all-lookup name names _ (inr (register_message_named name n r same))
  | inr other ↦ register_all-lookup name names _ (inl (ground (arith, e, other)))
]

-- Every type that the package declares is registered.
pub init_registry-lookup :
    (name : String)
    → has name (message_names ++ peer_names) ≡ true
    → lookup name init_registry ≡ some (model_type name)
unfolding init_registry register_message
init_registry-lookup name e = register_all-lookup name (message_names ++ peer_names) [] (inl e)
