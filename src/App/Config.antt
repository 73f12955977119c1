-- ===== src/App/Config.antt =====
-- app/config: validateStunServerType and checkServerConfig.
pub mod Load
use ptun.Base.{ℕ, ◌≡◌, ◌≢◌, Result, ok, err, ◌>>=◌, arith, ◌==◌, if◌then◌else◌, ◌↔◌, ◌⊎◌}
use ptun.Base.Text.{String, str_eq, eq_iff}

pub record Server : Type 0 where
  pub stun_type : String
  pub primary_port : ℕ
  pub secondary_port : ℕ

pub data Error : Type 0 where
  invalid_stun_server_type cannot_use_same_stun_ports : Error

pub validate_stun_server_type : String → Result Error Unit
validate_stun_server_type t =
    if str_eq t "simple"
    then ok tt
    else if str_eq t "standard"
    then ok tt
    else err invalid_stun_server_type

pub check_server_config : Server → Result Error Unit
unfolding validate_stun_server_type
check_server_config s = validate_stun_server_type (s.stun_type) >>= λ _.
    if s.primary_port == s.secondary_port then err cannot_use_same_stun_ports else ok tt

-- The configuration is accepted just when the type is one of the two, and the ports differ.
pub check_server_config_iff :
    (s : Server)
    → (check_server_config s ≡ ok tt) ↔ (
        ((s.stun_type ≡ "simple") ⊎ (s.stun_type ≡ "standard"))
        × (s.primary_port ≢ s.secondary_port))
unfolding check_server_config validate_stun_server_type
check_server_config_iff s =
    ground (arith, eq_iff (s.stun_type) "simple", eq_iff (s.stun_type) "standard")
