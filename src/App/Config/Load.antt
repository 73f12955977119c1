-- ===== src/App/Config/Load.antt =====
-- app/config: InitFile of common.go, InitServerPath of server.go and InitClientPath of client.go. The
-- library viper is a parameter: `document` is what ReadInConfig found under the name, and the functions
-- give what Unmarshal makes of it.
use ptun.Base.{
  ◌≡◌, ◌≢◌, ◌⊎◌, refl, ap, Bool, true, Option, none, some, Result, ok, err, panics, ◌>>=◌,
  if◌then◌else◌, arith,
}
use mathlib.Core.Path.{subst}
use ptun.Base.Text.{String}
use ptun.App.Config
use ptun.App.Config.{Server, check_server_config, check_server_config_iff}

pub record Common : Type 0 where
  pub name : String
  pub token : String

pub data LoadError : Type 0 where
  not_read invalid_config_variable not_unmarshalled : LoadError
  rejected : Config.Error → LoadError

abbrev pub found : {A : Type 0} → Option A → LoadError → Result LoadError A
found none e = err e
found (some a) e = ok a

abbrev pub checked : {A : Type 0} → A → Result Config.Error Unit → Result LoadError A
checked a (ok u) = ok a
checked a (err e) = err (rejected e)
checked a panics = panics

-- The two calls of Unmarshal.
abbrev pub both_of : {A B : Type 0} → Option A → Option B → Result LoadError (A × B)
both_of o p = do a ← found o not_unmarshalled; b ← found p not_unmarshalled; ok (a, b)

module _ {Doc : Type 0} (common_of : Doc → Option Common) where
  -- InitFile, with the common part and the variable `v` that it fills.
  pub init_file :
      {V : Type 0} → Option Doc → Bool → (Doc → Option V) → Result LoadError (Common × V)
  init_file document is_pointer unmarshal = do
    doc ← found document not_read
    u ← if is_pointer then ok tt else err invalid_config_variable
    both_of (common_of doc) (unmarshal doc)

  pub init_server_path : Option Doc → (Doc → Option Server) → Result LoadError (Common × Server)
  unfolding init_file check_server_config
  init_server_path document unmarshal =
      init_file document true unmarshal >>= λ r. checked r (check_server_config (r.1))

  -- InitClientPath; checkClientConfig accepts every configuration.
  pub init_client_path :
      {Client : Type 0} → Option Doc → (Doc → Option Client) → Result LoadError (Common × Client)
  unfolding init_file
  init_client_path document unmarshal = init_file document true unmarshal

  checked_ok :
      {A : Type 0} (a b : A) (r : Result Config.Error Unit)
      → checked a r ≡ ok b
      → (a ≡ b) × (r ≡ ok tt)
  checked_ok a b (ok tt) e = (ground arith, refl)
  checked_ok a b (err x) e = cc e
  checked_ok a b panics e = cc e

  loaded :
      (o : Option Common) (p : Option Server) (shared : Common) (s : Server)
      → (both_of o p >>= λ r. checked r (check_server_config (r.1))) ≡ ok (shared, s)
      → (o ≡ some shared) × (p ≡ some s) × (check_server_config s ≡ ok tt)
  loaded none p shared s e = cc e
  loaded (some c) none shared s e = cc e
  loaded (some c) (some v) shared s e =
      let both = checked_ok (c, v) (shared, s) (check_server_config v) e in
      (
        ap (λ r. some (r.0)) (both.0),
        ap (λ r. some (r.1)) (both.0),
        subst (λ x. check_server_config x ≡ ok tt) (ap (λ r. r.1) (both.0)) (both.1),
      )

  -- A configuration that InitServerPath has loaded is what the file's document says, has one of the two
  -- types, and two ports that differ.
  pub init_server_path_ok :
      (document : Option Doc) (unmarshal : Doc → Option Server) (shared : Common) (s : Server)
      → init_server_path document unmarshal ≡ ok (shared, s)
      → ((doc : Doc) × (document ≡ some doc)
          × (common_of doc ≡ some shared)
          × (unmarshal doc ≡ some s))
        × ((s.stun_type ≡ "simple") ⊎ (s.stun_type ≡ "standard"))
        × (s.primary_port ≢ s.secondary_port)
  unfolding init_server_path init_file
  init_server_path_ok none unmarshal shared s e = cc e
  init_server_path_ok (some doc) unmarshal shared s e =
      let (c, v, accepted) = loaded (common_of doc) (unmarshal doc) shared s e in
      let valid = (check_server_config_iff s).0 accepted in ((doc, refl, c, v), valid.0, valid.1)
