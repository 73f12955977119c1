-- ===== src/Nat/Tests.antt =====
-- The theorems on the traversal at concrete inputs.
use ptun.Base.{
  not, ◌||◌, ℕ, ◌+◌, ◌*◌, ◌%◌, ◌≤◌, ◌<◌, ◌≡◌, refl, Bool, true, false, List, [], ◌∷◌, ◌++◌, map,
  Option, none, some, Result, ok, length, All, arith, min, ◌==◌, if◌then◌else◌,
}
use ptun.Base.Text.{String, eq_iff, str_eq}
use ptun.Nat.Analyze.{
  UdpAddr, client_side, server_side, Action, Resource, DetectResult, Pair, is_hard,
  mapped as mapped_addrs,
}
use ptun.Network.{reparse, bytes_eq}
use ptun.Nat.Detect.{handle_connection, detect, detect-is_hard}
use ptun.Nat.Ports.{
  no_repeat_rand_ints, draw_loop, remember, contains, IsDistinct, InRange, lower, distance,
  no_repeat_rand_ints_sound,
}
use ptun.Nat.Ports.Coverage.{no_repeat_rand_ints_returns}
use ptun.Nat.Hole.{Reply, World, make_hole, first_reply, remote_addrs, add_ports, random_one}
use ptun.Nat.Hole.Laws.{waits_for, make_hole-first_reply}
use ptun.Nat.Hole.Endpoints.{HasMappedIp, further, remote_addrs_sound}

-- Every third number, from 7 on.
abbrev random : ℕ → ℕ
random i = 3 * i + 7

no_repeat_rand_ints_sound_example :
    IsDistinct (12 ∷ 10 ∷ [])
    × All (InRange (lower 10 15) (distance 10 15)) (12 ∷ 10 ∷ [])
    × (length {A = ℕ} (12 ∷ 10 ∷ []) ≡ min 2 (distance 10 15))
unfolding no_repeat_rand_ints draw_loop remember contains
no_repeat_rand_ints_sound_example = no_repeat_rand_ints_sound 9 random 10 15 2 (12 ∷ 10 ∷ []) refl

covered : (k : ℕ) → k < 5 → (j : ℕ) × (j < 5) × (j % 5 ≡ k)
covered k h = (k, h, omega arith)

no_repeat_rand_ints_returns_example :
    (r : List ℕ) × (no_repeat_rand_ints 6 (λ i. i) 10 15 3 ≡ some r)
no_repeat_rand_ints_returns_example = no_repeat_rand_ints_returns 5 (λ i. i) 10 15 3 covered

abbrev try : Action
try = record { wait = 0; try_remote = true; low_ttl = true; repeat = true }

-- The third wait is answered.
abbrev replies : ℕ → Option (Reply ℕ ℕ)
replies n = if n == 2 then some (record { conn = 4; raddr = 9 }) else none

abbrev begun : World ℕ ℕ
begun = record { trace = []; waits = 0 }

make_hole-first_reply_example :
    ((make_hole (λ c. some 64) (λ c. true) replies (4 ∷ []) (9 ∷ []) (try ∷ []) begun).1
      ≡ first_reply (λ c. some 64) (λ c. true) replies (4 ∷ []) (9 ∷ []) (waits_for (try ∷ [])) 0)
    × ((make_hole (λ c. some 64) (λ c. true) replies (4 ∷ []) (9 ∷ []) (try ∷ []) begun).0.waits
        ≤ 0 + waits_for (try ∷ []))
make_hole-first_reply_example =
    make_hole-first_reply (λ c. some 64) (λ c. true) replies (4 ∷ []) (9 ∷ []) (try ∷ []) begun

abbrev mapped : UdpAddr
mapped = record { ip = 1 ∷ 2 ∷ 3 ∷ 4 ∷ []; port = 4000 }

abbrev scan : Resource
scan = record {
  remote_port_start = 10;
  remote_port_end = 15;
  remote_port_count = 2;
  local_port_count = 1;
}

abbrev drawn : ℕ → UdpAddr
drawn port = record { ip = 1 ∷ 2 ∷ 3 ∷ 4 ∷ []; port = port }

remote_addrs_sound_example :
    (more : List UdpAddr) × ◌≡◌ {A = Result Unit (List UdpAddr)}
      (ok (mapped ∷ drawn 12 ∷ drawn 10 ∷ []))
      (ok ((mapped ∷ []) ++ more))
    × All (λ a. HasMappedIp (mapped ∷ []) (a.ip)) more
    × All (InRange (lower 10 15) (distance 10 15)) (map (λ a. a.port) more)
    × IsDistinct (map (λ a. a.port) more)
    × (length more ≡ further scan)
unfolding no_repeat_rand_ints draw_loop remember contains remote_addrs add_ports random_one
remote_addrs_sound_example =
    remote_addrs_sound 9 random (λ n. n) mapped [] scan (ok (mapped ∷ drawn 12 ∷ drawn 10 ∷ []))
      refl

-- Two ports of one address, and one port of it.
abbrev resolver : String → Option UdpAddr
resolver a = some (record { ip = 1 ∷ 2 ∷ 3 ∷ 4 ∷ []; port = if str_eq a "p" then 4000 else 4001 })

abbrev keys : List (String × Bool) → List String
keys m = map (λ e. e.0) m

abbrev hard : DetectResult
hard = record { local_addr = "h"; primary_mapped_addr = "p"; secondary_mapped_addr = "q" }

abbrev easy : DetectResult
easy = record { local_addr = "e"; primary_mapped_addr = "p"; secondary_mapped_addr = "p" }

abbrev plan : Pair
plan = (
  record {
    local_addrs = "h" ∷ [];
    remote_local_addrs = "e" ∷ [];
    remote_mapped_addrs = "p" ∷ [];
    role = client_side;
    resource = record {
      remote_port_start = 4000;
      remote_port_end = 0;
      remote_port_count = 1;
      local_port_count = 256;
    };
    actions =
        record { wait = 1000; try_remote = false; low_ttl = false; repeat = false }
        ∷ record { wait = 0; try_remote = true; low_ttl = false; repeat = true }
        ∷ [];
  },
  record {
    local_addrs = "e" ∷ [];
    remote_local_addrs = "h" ∷ [];
    remote_mapped_addrs = "p" ∷ "q" ∷ [];
    role = server_side;
    resource = record {
      remote_port_start = 4000;
      remote_port_end = 65000;
      remote_port_count = 1024;
      local_port_count = 1;
    };
    actions =
        record { wait = 0; try_remote = true; low_ttl = true; repeat = false }
        ∷ record { wait = 0; try_remote = true; low_ttl = true; repeat = true }
        ∷ [];
  },
)

-- A NAT that shows another port to another destination, and a server of two ports.
abbrev seen : UdpAddr → UdpAddr
seen d = if d.port == 1 then drawn 4000 else drawn 4001

abbrev text : UdpAddr → String
text a = if a.port == 4000 then "p" else "q"

abbrev marshal : String → Option (List ℕ)
marshal s = if str_eq s "p" then some (1 ∷ []) else if str_eq s "q" then some (2 ∷ []) else none

abbrev unmarshal : List ℕ → Option String
unmarshal [] = none
unmarshal (x ∷ xs) = if x == 1 then some "p" else some "q"

reads_back : (s : String) (q : List ℕ) → marshal s ≡ some q → unmarshal q ≡ some s
reads_back s q e = ground (arith, e, eq_iff s "p", eq_iff s "q")

detect-is_hard_example :
    let d : DetectResult = record {
      local_addr = "l";
      primary_mapped_addr = "p";
      secondary_mapped_addr = "q";
    } in
    (detect marshal unmarshal text
        (λ h. some [])
        (λ h. some (9 ∷ 9 ∷ 9 ∷ 9 ∷ []))
        (some "l")
        (λ a. handle_connection marshal unmarshal text (seen a))
        "hub"
        1
        2
      ≡ ok d)
    × (is_hard resolver keys d
        ≡ ok (
            not (4000 == 4001)
            || not (bytes_eq (reparse (1 ∷ 2 ∷ 3 ∷ 4 ∷ [])) (reparse (1 ∷ 2 ∷ 3 ∷ 4 ∷ [])))))
detect-is_hard_example =
    detect-is_hard marshal unmarshal text resolver keys (λ h. some [])
      (λ h. some (9 ∷ 9 ∷ 9 ∷ 9 ∷ [])) seen "hub" "l" 1 2 [] (9 ∷ 9 ∷ 9 ∷ 9 ∷ []) (1 ∷ []) (2 ∷ [])
      reads_back refl refl refl refl refl refl
