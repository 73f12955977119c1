-- ===== src/Message/Generate/Laws.antt =====
-- The registry that the code generated by pkg/proto/message_tpl.go fills.
use ptun.Base.{◌≡◌, Bool, List, [], ◌∷◌, ◌++◌, map, Option, none, some, if◌then◌else◌}
use ptun.Base.Text.{String, str_eq}
use ptun.Message.{GoType, ReflectType, elem_of}
use ptun.Message.Generate.{File, Chunk, header, row, Done, decl_names}

-- The names of the rows among the chunks.
abbrev row_names : List Chunk → List String
row_names [] = []
row_names (header p ∷ chunks) = row_names chunks
row_names (row name ∷ chunks) = name ∷ row_names chunks

-- Chunks that were all written, with the names of their rows.
abbrev Rows : Done → List String → Type 0
Rows d names = (row_names d.0 ≡ names)

module _ (is_go : String → Bool) (parse_file : String → Option File) (execute : Chunk → Bool) where
  -- The independent description: the types that the files declare, in their order.
  abbrev pub file_names : Option File → List String
  file_names none = []
  file_names (some f) = decl_names f.decls

  abbrev pub declared : List String → List String
  declared [] = []
  declared (f ∷ files) = file_names (parse_file f) ++ declared files

-- The independent description: the last of the types whose own name it is, or what was there before.
abbrev pub last_named : String → List GoType → Option GoType → Option GoType
last_named n [] old = old
last_named n (t ∷ ts) old = last_named n ts (if str_eq t.name n then some t else old)

-- The types of some names, a pointer type standing for what it points to.
abbrev pub types_of : (String → ReflectType) → List String → List GoType
types_of type_for names = map (λ n. elem_of (type_for n)) names
