-- ===== src/Base/Text.antt =====
-- Texts as keys: equality, and association lists for the maps that the program keys by texts.
pub use Prim.Native.String.{String}
pub use text.Mathlib.Text.{◌==◌ as str_eq}
pub use text.Mathlib.TextEquality.{eq_iff}
pub use text.Mathlib.TextPositions.{eq_refl}
use ptun.Base.{
  Bool, true, false, map, ◌||◌, ◌≡◌, refl, List, [], ◌∷◌, Option, none, some, arith, if◌then◌else◌,
}

-- Whether a text is in a list.
unfoldable pub has : String → List String → Bool
has x [] = false
has x (y ∷ ys) = str_eq y x || has x ys

module _ {ℓ} {V : Type ℓ} where
  unfoldable pub lookup : String → List (String × V) → Option V
  lookup k [] = none
  lookup k ((j, v) ∷ m) = if str_eq j k then some v else lookup k m

  unfoldable pub insert : String → V → List (String × V) → List (String × V)
  insert key new [] = (key, new) ∷ []
  insert key new ((other, old) ∷ entries) =
      if str_eq other key then (key, new) ∷ entries else (other, old) ∷ insert key new entries

  unfoldable pub delete : String → List (String × V) → List (String × V)
  delete k [] = []
  delete k ((j, w) ∷ m) = if str_eq j k then delete k m else (j, w) ∷ delete k m

  pub lookup-insert :
      (key other : String) (new : V) (entries : List (String × V))
      → lookup other (insert key new entries)
        ≡ (if str_eq key other then some new else lookup other entries)
  unfolding insert lookup
  lookup-insert key other new [] = refl
  lookup-insert key other new ((first, old) ∷ entries) =
      let rest = lookup-insert key other new entries in
      ground (arith, rest, eq_iff first other, eq_iff first key, eq_iff key other)

  pub lookup-delete :
      (k j : String) (m : List (String × V))
      → lookup j (delete k m) ≡ (if str_eq k j then none else lookup j m)
  unfolding lookup delete
  lookup-delete k j [] = ground arith
  lookup-delete k j ((i, w) ∷ m) =
      ground (arith, eq_iff k j, eq_iff i k, eq_iff i j, lookup-delete k j m)

  pub lookup-insert_self :
      (k : String) (v : V) (m : List (String × V)) → lookup k (insert k v m) ≡ some v
  lookup-insert_self k v m = simp (lookup-insert, eq_refl)

  pub lookup-delete_self : (k : String) (m : List (String × V)) → lookup k (delete k m) ≡ none
  lookup-delete_self k m = simp (lookup-delete, eq_refl)

abbrev pub is_some : {A : Type 0} → Option A → Bool
is_some none = false
is_some (some a) = true

-- The keys of a map hold what can be looked up.
pub has-keys :
    {V : Type 0} (p : String) (m : List (String × V))
    → has p (map (λ e. e.0) m) ≡ is_some (lookup p m)
unfolding has lookup
has-keys p [] = refl
has-keys p ((k, v) ∷ m) = ground (arith, has-keys p m)
