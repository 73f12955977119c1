-- ===== src/Nat/Stun/Tests.antt =====
-- The theorems on the STUN tests at concrete inputs.
use ptun.Base.{
  Option, ℕ, ◌≡◌, refl, Bool, true, List, [], ◌∷◌, ◌++◌, map, some, none, ok, ◌==◌, if◌then◌else◌,
}
use ptun.Base.Text.{String}
use ptun.Nat.Analyze.{UdpAddr}
use ptun.Nat.Stun.{
  binding, exchange, Outcome, message, silent, StunConn, mapping_tests, filter_tests,
}
use ptun.Nat.Stun.Connect.{outcome, arrived, taken, pending}
use ptun.Nat.Stun.Order.{exchange-arrived}
use ptun.Nat.Stun.Laws.{sent_and_result}
use ptun.Nat.Stun.Mapping.{classify, requests, mapping_tests-classify}
use ptun.Nat.Stun.Filter.{verdict, filter_requests, filter_tests-verdict}

abbrev addr : ℕ → UdpAddr
addr n = record { ip = 1 ∷ 2 ∷ 3 ∷ 4 ∷ []; port = n }

abbrev show : UdpAddr → String
show a = if a.port == 5 then "five" else "other"

-- A message is the port that the server saw.
abbrev answers : ℕ → Outcome ℕ
answers n = record { built = true; has_id = true; written = true; incoming = message n }

abbrev start : StunConn
start = record {
  local_addr = addr 5;
  remote_addr = addr 3478;
  other_addr = none;
  mapped_addrs = [];
  sent = [];
  step = 4;
}

mapping_tests-classify_example :
    sent_and_result
      (mapping_tests answers (λ m. some (addr m)) (λ m. some (addr 3479)) some show show start)
    ≡ (
      requests (addr 3478) (addr 3479) "five" "other" "five",
      ok (classify "five" "other" "five" "other"),
    )
mapping_tests-classify_example =
    mapping_tests-classify answers (λ m. some (addr m)) (λ m. some (addr 3479)) some show show start
      4 5 6 (addr 4) (addr 5) (addr 6) (addr 3479) (addr 3479) refl refl refl refl refl refl refl
      refl

-- The first request is answered only.
abbrev once : ℕ → Outcome ℕ
once n = record {
  built = true;
  has_id = true;
  written = true;
  incoming = if n == 4 then message n else silent;
}

filter_tests-verdict_example :
    sent_and_result
      (filter_tests once (λ m. some (addr m)) (λ m. some (addr 3479)) some show show start)
    ≡ (filter_requests {Msg = ℕ} (addr 3478) silent, verdict {Msg = ℕ} silent silent)
filter_tests-verdict_example =
    filter_tests-verdict once (λ m. some (addr m)) (λ m. some (addr 3479)) some show show start 4
      (addr 4) (addr 3479) (addr 3479) silent silent refl refl refl refl refl refl

-- The second message has no mapped address.
abbrev xor_of : ℕ → Option UdpAddr
xor_of m = if m == 5 then none else some (addr m)

-- Two datagrams come during the first exchange, and none later.
abbrev arrivals : ℕ → List (Option ℕ)
arrivals n = if n == 4 then some 7 ∷ some 8 ∷ [] else []

abbrev yes : ℕ → Bool
yes n = true

abbrev fifth : StunConn
fifth = record start { step = 5 }

-- The second exchange returns the datagram that came first after the one that the first one took.
exchange-arrived_example :
    arrived yes yes yes arrivals 6
    ≡ map some (taken yes yes yes arrivals 5) ++ some 8 ∷ pending yes yes yes arrivals 6
unfolding exchange outcome
exchange-arrived_example =
    exchange-arrived yes yes yes arrivals (λ m. some (addr m)) (λ m. none) some show show binding
      (addr 3478) fifth 8 refl
