-- ===== src/Hub/Tests.antt =====
-- The theorems on the hub at concrete inputs.
use ptun.Base.{
  ◌≡◌, refl, true, false, List, [], ◌∷◌, ◌++◌, Option, none, some, map, Bool, if◌then◌else◌,
}
use ptun.Base.Text.{String, str_eq}
use ptun.Nat.Analyze.{UdpAddr, Pair, client_side, server_side}
use ptun.Hub.Sessions.{Session, Hub}
use ptun.Hub.Sessions.Visits.{Visits}
use ptun.Hub.Server.{Server, connects, logs_in, closes, run}
use ptun.Hub.Server.Laws.{Keeps, run_close}
use ptun.Hub.Login.{
  handle_login, login, login_request, login-handle_login, LoginRequest, LoginResponse, Outcome,
  login_read, read_panic, accepted, closed, session, failed, read_failed,
}
use ptun.Hub.Punch.{PunchRequest, DetectNatResponse}

abbrev old : Session
old = record { id = 1; name = "a" }

abbrev new : Session
new = record { id = 2; name = "a" }

abbrev one : Hub
one = record { sessions = ("a", old) ∷ []; closed = λ i. false }

login-handle_login_example :
    let server : LoginRequest → Option LoginResponse × Outcome =
      λ r. handle_login "secret" "uuid" (login_read r) true in
    let name : String = if str_eq "" "" then "uuid" else "" in
    (login true true (λ r. (server r).0) "" "secret"
      ≡ (if str_eq "secret" "secret" then session name else failed read_failed))
    × ((server (login_request "" "secret")).1
        ≡ (if str_eq "secret" "secret" then accepted name else closed))
login-handle_login_example = login-handle_login "secret" "uuid" "" "secret"

-- Two ports of one address, and one port of it.
abbrev resolver : String → Option UdpAddr
resolver a = some (record { ip = 1 ∷ 2 ∷ 3 ∷ 4 ∷ []; port = if str_eq a "p" then 4000 else 4001 })

abbrev keys : List (String × Bool) → List String
keys m = map (λ e. e.0) m

abbrev plan : Pair
plan = (
  record {
    local_addrs = "h" ∷ [];
    remote_local_addrs = "e" ∷ [];
    remote_mapped_addrs = "p" ∷ [];
    role = client_side;
    resource = record {
      remote_port_start = 4000;
      remote_port_end = 0;
      remote_port_count = 1;
      local_port_count = 256;
    };
    actions =
        record { wait = 1000; try_remote = false; low_ttl = false; repeat = false }
        ∷ record { wait = 0; try_remote = true; low_ttl = false; repeat = true }
        ∷ [];
  },
  record {
    local_addrs = "e" ∷ [];
    remote_local_addrs = "h" ∷ [];
    remote_mapped_addrs = "p" ∷ "q" ∷ [];
    role = server_side;
    resource = record {
      remote_port_start = 4000;
      remote_port_end = 65000;
      remote_port_count = 1024;
      local_port_count = 1;
    };
    actions =
        record { wait = 0; try_remote = true; low_ttl = true; repeat = false }
        ∷ record { wait = 0; try_remote = true; low_ttl = true; repeat = true }
        ∷ [];
  },
)

abbrev asking : Session
asking = record { id = 7; name = "b" }

abbrev wanted : PunchRequest
wanted = record {
  peer_name = "a";
  local_ip = "10.0.0.1";
  local = record {
    name = "a";
    mapping = record { local_addr = "h"; primary_mapped_addr = "p"; secondary_mapped_addr = "q" };
  };
}

abbrev detected : DetectNatResponse
detected = record {
  ip = "10.0.0.2";
  local = record {
    name = "b";
    mapping = record { local_addr = "e"; primary_mapped_addr = "p"; secondary_mapped_addr = "p" };
  };
}

-- A server with one login going on.
abbrev busy : Server
busy = record { listening = true; channel_closed = false; logging_in = 7 ∷ []; handled = [] }

run_close_example :
    Keeps [] (run (connects 8 ∷ logs_in 8 closed ∷ []) busy)
    × (run (logs_in 7 (handle_login "secret" "uuid" read_panic true).1 ∷ []) busy ≡ none)
    × (run (closes ∷ (connects 9 ∷ []) ++ logs_in 7 (accepted "a") ∷ []) busy ≡ none)
run_close_example =
    run_close "secret" "uuid" true (connects 8 ∷ logs_in 8 closed ∷ []) (connects 9 ∷ []) [] busy 7
      "a" refl (tt, (tt, tt)) (tt, tt) refl
