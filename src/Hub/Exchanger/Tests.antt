-- ===== src/Hub/Exchanger/Tests.antt =====
-- The theorems on the exchanger at concrete inputs.
use ptun.Base.{
  ℕ, suc, zero, ◌+◌, ◌-◌, ◌≤◌, ◌<◌, ◌≡◌, ◌≢◌, ◌⊎◌, inl, inr, refl, false, Bool, List, [], ◌∷◌, map,
  Option, none, some, arith, Option-cases, sym, ap, ltb, ◌∙◌, if◌then◌else◌,
}
use mathlib.Core.Path.{subst}
use ptun.Base.Text.{String, lookup, insert}
use ptun.Nat.Analyze.Roles.{HasPorts}
use ptun.Network.{reparse}
use ptun.Nat.Analyze.{
  UdpAddr, DetectResult, AnalyzeResult, Role, client_side, server_side, Resource, Action,
  wait_second, try_often, try_low, try_low_often, analyze, is_hard, is_random_port,
  is_multi_extern_ip, mapped, choose, analyze_double_easy, filter,
}
use ptun.Hub.Sessions.{Session, Hub}
use ptun.Hub.Login.{Login, LoginError, session, failed, dial_failed}
use ptun.Hub.Punch.{PunchRequest, PunchResponse, messages, handle_punch}
use ptun.Hub.Exchanger.{Exchanger, punch_peer, handle_detect_nat}
use ptun.Hub.Exchanger.Told.{Meeting, punch_peer-exchange_info}
use ptun.Hub.Exchanger.Retry.{Retried, IsRetry, AllFail, error_of, try_login, try_login_first}

-- A library that meets what is relied on of it.
retrying : {X : Type 0} → (ℕ → Option X) → ℕ → ℕ → Retried X
retrying op i zero = record { calls = i + 1; error = op i }
retrying op i (suc most) = elim (op i) [
  | none ↦ record { calls = i + 1; error = none }
  | some e ↦ retrying op (i + 1) most
]

record Retries {X : Type 0} (op : ℕ → Option X) (i most : ℕ) (r : Retried X) : Type 0 where
  started : i < r.calls
  within : r.calls ≤ i + most + 1
  last : r.error ≡ op (r.calls - 1)
  before : AllFail op (r.calls - 1)
  gives_up : r.error ≢ none → r.calls ≡ i + most + 1

retrying-Retries :
    {X : Type 0} (op : ℕ → Option X) (i most : ℕ)
    → AllFail op i
    → Retries op i most (retrying op i most)
unfolding retrying
retrying-Retries op i zero fails = record {
  started = omega arith;
  within = omega arith;
  last = ap op (omega arith);
  before = subst (AllFail op) (omega arith) fails;
  gives_up = λ e. omega arith;
}
retrying-Retries op i (suc most) fails = elim (Option-cases (op i)) [
  | inl e ↦
      rw (e, retrying)
        (record {
          started = omega arith;
          within = omega arith;
          last = sym e ∙ ap op (omega arith);
          before = subst (AllFail op) (omega arith) fails;
          gives_up = λ f. absurd (f refl);
        })
  | inr (x, e) ↦
      let all : AllFail op (suc i) = (λ f. cc (e, f), fails) in
      let next : suc i ≡ i + 1 = omega arith in
      let r = retrying-Retries op (i + 1) most (subst (AllFail op) next all) in
      rw (e, retrying)
        (record {
          started = omega (arith, r.started);
          within = omega (arith, r.within);
          last = r.last;
          before = r.before;
          gives_up = λ f. omega (arith, r.gives_up f);
        })
]

abbrev retry : (ℕ → Option LoginError) → ℕ → Retried LoginError
retry op most = retrying op 0 most

retry-IsRetry : IsRetry retry
retry-IsRetry = record {
  calls_once = λ op most. (retrying-Retries op 0 most tt).started;
  within = λ op most. omega (arith, (retrying-Retries op 0 most tt).within);
  last = λ op most. (retrying-Retries op 0 most tt).last;
  before = λ op most. (retrying-Retries op 0 most tt).before;
  gives_up = λ op most f. omega (arith, (retrying-Retries op 0 most tt).gives_up f);
}

-- The first two logins fail.
abbrev logins : ℕ → Login
logins i = if ltb i 2 then failed dial_failed else session "a"

try_login_first_example :
    ((i : ℕ) × (name : String) × (i ≤ 3)
      × AllFail (λ j. error_of (logins j)) i
      × (logins i ≡ session name)
      × (try_login retry logins ≡ (some name, none)))
    ⊎ ((e : LoginError) × AllFail (λ j. error_of (logins j)) 4
        × (logins 3 ≡ failed e)
        × (try_login retry logins ≡ (none, some e)))
try_login_first_example = try_login_first retry logins retry-IsRetry

abbrev resolver : String → Option UdpAddr
resolver a = some (record { ip = 1 ∷ 2 ∷ 3 ∷ 4 ∷ []; port = 4000 })

abbrev keys : List (String × Bool) → List String
keys m = map (λ e. e.0) m

resolver_ports : HasPorts resolver keys
resolver_ports a u e = ground (arith, e)

abbrev easy : DetectResult
easy = record { local_addr = "h"; primary_mapped_addr = "p"; secondary_mapped_addr = "p" }

abbrev at_a : Exchanger
at_a = record { session_name = "a"; ip = "10.0.0.1/24" }

abbrev at_b : Exchanger
at_b = record { session_name = "b"; ip = "10.0.0.2/24" }

abbrev other : Session
other = record { id = 2; name = "b" }

abbrev hub : Hub
hub = record { sessions = ("b", other) ∷ []; closed = λ i. false }

abbrev wanted : PunchRequest
wanted = record {
  peer_name = "b";
  local_ip = "10.0.0.1/24";
  local = record { name = "a"; mapping = easy };
}

abbrev asking : Session
asking = record { id = 1; name = "a" }

abbrev once : Resource
once = record {
  remote_port_start = 0;
  remote_port_end = 0;
  remote_port_count = 1;
  local_port_count = 1;
}

abbrev sided : Role → List Action → AnalyzeResult
sided role actions = record {
  local_addrs = "h" ∷ [];
  remote_local_addrs = "h" ∷ [];
  remote_mapped_addrs = "p" ∷ [];
  role = role;
  resource = once;
  actions = actions;
}

abbrev told : List (Session × PunchResponse)
told =
    messages asking other wanted
      (record { ip = "10.0.0.2/24"; local = record { name = "b"; mapping = easy } })
      (
        sided client_side (wait_second ∷ try_often ∷ []),
        sided server_side (try_low ∷ try_low_often ∷ []),
      )

punch_peer-exchange_info_example :
    (told ≡ [])
    ⊎ Meeting resolver keys asking "b" "10.0.0.1/24" easy (λ s. at_b) (λ s. some easy) hub told
unfolding handle_punch punch_peer handle_detect_nat lookup analyze is_hard is_random_port
    is_multi_extern_ip mapped choose analyze_double_easy filter insert reparse
punch_peer-exchange_info_example =
    punch_peer-exchange_info resolver keys asking at_a "b" "10.0.0.1/24" easy wanted (λ s. at_b)
      (λ s. some easy) hub told resolver_ports refl refl
