-- ===== src/Hub/Login.antt =====
-- pkg/hub/hub_tcp.go: handleLogin of the server and Login of the client. GenUUID is the parameter
-- `uuid`; what a read of a message gives, and whether a send succeeds, are the transport's.
use ptun.Base.{◌≡◌, refl, Bool, true, Option, none, some, if◌then◌else◌, Bool-cases, inl, inr}
use ptun.Base.Text.{String, str_eq}

pub record LoginRequest : Type 0 where
  pub name : String
  pub token : String

pub record LoginResponse : Type 0 where
  pub name : String

-- What becomes of a connection: the session's name, or the transport is closed, or handleLogin panics
-- and takes the process with it.
pub data Outcome : Type 0 where
  accepted : String → Outcome
  closed crashed : Outcome

-- What Requester.Read and GetPayload give: a login, an error, or the panic of Read, which dereferences
-- the nil packet of a channel that the other side's hanging up has closed.
pub data Received : Type 0 where
  login_read : LoginRequest → Received
  read_error read_panic : Received

abbrev pub name_of : String → LoginRequest → String
name_of uuid r = if str_eq (r.name) "" then uuid else r.name

-- The answer that is sent, and the outcome.
unfoldable pub handle_login : String → String → Received → Bool → Option LoginResponse × Outcome
handle_login token uuid read_error sent = (none, closed)
handle_login token uuid read_panic sent = (none, crashed)
handle_login token uuid (login_read r) sent =
    if str_eq (r.token) token
    then (
      some (record { name = name_of uuid r }),
      if sent then accepted (name_of uuid r) else closed,
    )
    else (none, closed)

pub data LoginError : Type 0 where
  dial_failed send_failed read_failed : LoginError

pub data Login : Type 0 where
  session : String → Login
  failed : LoginError → Login

abbrev pub login_request : String → String → LoginRequest
login_request client_name token = record { name = client_name; token = token }

-- Login of the client, whose connection can be dialled or not, and whose request is sent or not;
-- `reply` maps what it sent to the payload that it then reads, if there is one.
pub login : Bool → Bool → (LoginRequest → Option LoginResponse) → String → String → Login
login dialled sent reply client_name token =
    if dialled
    then (if sent
        then elim (reply (login_request client_name token)) [
          | none ↦ failed read_failed
          | some r ↦ session (r.name)
        ]
        else failed send_failed)
    else failed dial_failed

-- A client and the server at the two ends of a connection that carries their messages: the client
-- gets a session just when its token is the server's, under the name that it asked for, or under a
-- new one if it asked for none; the server then has a session of the same name.
pub login-handle_login :
    (token uuid client_name client_token : String)
    → let server : LoginRequest → Option LoginResponse × Outcome =
        λ r. handle_login token uuid (login_read r) true in
      let name : String = if str_eq client_name "" then uuid else client_name in
      (login true true (λ r. (server r).0) client_name client_token
        ≡ (if str_eq client_token token then session name else failed read_failed))
      × ((server (login_request client_name client_token)).1
          ≡ (if str_eq client_token token then accepted name else closed))
unfolding login handle_login
login-handle_login token uuid client_name client_token =
    elim (Bool-cases (str_eq client_token token)) [
      | inl e ↦ (rw (e, login, handle_login) refl, rw (e, handle_login) refl)
      | inr e ↦ (rw (e, login, handle_login) refl, rw (e, handle_login) refl)
    ]
