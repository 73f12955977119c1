-- ===== src/Message/Generate.antt =====
-- GenMessageMethod of pkg/proto/message_tpl.go, which writes init.gen.go: a header, and for each type
-- that the package declares an init function that registers it. The listing of the directory, the
-- parser, the file and the templates are libraries: parameters, or data that they give. The two
-- templates are constants, which parse.
pub mod Laws
use ptun.Base.{
  ◌≡◌, refl, ap, ◌∙◌, sym, Bool, true, false, not, ◌&&◌, ◌||◌, List, [], ◌∷◌, ◌++◌, map, Option,
  none, some, if◌then◌else◌, append-nil, append_assoc, arith, Bool-cases, inl, inr,
}
use ptun.Base.Text.{String, str_eq, eq_iff, lookup, lookup-insert}
use ptun.Message.{GoType, ReflectType, register_message}

pub record Entry : Type 0 where
  pub name : String
  pub is_dir : Bool

-- The parts of a file's syntax that are looked at.
pub data Spec : Type 0 where
  type_spec : String → Spec
  other_spec : Spec

pub data Decl : Type 0 where
  gen_decl : List Spec → Decl
  other_decl : Decl

pub record File : Type 0 where
  pub package_name : String
  pub decls : List Decl

-- What is written: templateHeader at a package, templateRow at a name.
pub data Chunk : Type 0 where
  header row : String → Chunk

-- The chunks written, and whether no error was returned.
abbrev pub Done : Type 0
Done = List Chunk × Bool

abbrev pub then_write : Done → Done → Done
then_write (chunks, true) rest = (chunks ++ rest.0, rest.1)
then_write (chunks, false) rest = (chunks, false)

module _ (is_go : String → Bool) (parse_file : String → Option File) (execute : Chunk → Bool) where
  -- The files that are read: directories, the generated file and other files are passed over.
  unfoldable pub source_files : List Entry → List String
  source_files [] = []
  source_files (e ∷ es) =
      let rest = source_files es in
      if e.is_dir
      then rest
      else if str_eq e.name "init.gen.go"
      then rest
      else if is_go e.name
      then e.name ∷ rest
      else rest

  abbrev pub write : Chunk → Done
  write chunk = if execute chunk then (chunk ∷ [], true) else ([], false)

  abbrev pub write_specs : List Spec → Done
  write_specs [] = ([], true)
  write_specs (type_spec name ∷ specs) = then_write (write (row name)) (write_specs specs)
  write_specs (other_spec ∷ specs) = write_specs specs

  abbrev pub write_decls : List Decl → Done
  write_decls [] = ([], true)
  write_decls (gen_decl specs ∷ decls) = then_write (write_specs specs) (write_decls decls)
  write_decls (other_decl ∷ decls) = write_decls decls

  -- The header goes before the first file.
  abbrev pub write_header : Bool → String → Done
  write_header true package_name = ([], true)
  write_header false package_name = write (header package_name)

  abbrev pub write_parsed : Bool → Option File → Done → Done
  write_parsed set none rest = ([], false)
  write_parsed set (some f) rest =
      then_write (write_header set f.package_name) (then_write (write_decls f.decls) rest)

  unfoldable pub write_files : Bool → List String → Done
  write_files set [] = ([], true)
  write_files set (f ∷ files) = write_parsed set (parse_file f) (write_files true files)

  -- `opened` says whether the generated file can be opened; `none` is a directory that cannot be read.
  unfoldable pub gen_message_method : Option (List Entry) → Bool → Done
  unfolding source_files write_files
  gen_message_method none opened = ([], false)
  gen_message_method (some entries) opened =
      if opened then write_files false (source_files entries) else ([], false)

abbrev pub spec_names : List Spec → List String
spec_names [] = []
spec_names (type_spec name ∷ specs) = name ∷ spec_names specs
spec_names (other_spec ∷ specs) = spec_names specs

abbrev pub decl_names : List Decl → List String
decl_names [] = []
decl_names (gen_decl specs ∷ decls) = spec_names specs ++ decl_names decls
decl_names (other_decl ∷ decls) = decl_names decls

-- What the init functions of the generated file do to the registry, in their order. `type_for` is
-- reflect.TypeFor at the type of a name, which is another type if the name is an alias.
abbrev pub run_inits :
    (String → ReflectType) → List Chunk → List (String × GoType) → List (String × GoType)
run_inits type_for [] registry = registry
run_inits type_for (header p ∷ chunks) registry = run_inits type_for chunks registry
run_inits type_for (row name ∷ chunks) registry =
    run_inits type_for chunks (register_message (type_for name) registry)
