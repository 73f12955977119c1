-- ===== src/Nat/Analyze.antt =====
-- pkg/nat/analyze.go: from what two nodes detected to what each shall do.
-- `resolve` is net.ResolveUDPAddr, which may ask a name server; `keys` is pie.Keys, which gives the
-- keys of a map in some order.
pub mod Roles
use ptun.Base.{
  ℕ, ◌+◌, ◌-◌, ◌*◌, ◌≤◌, ◌<◌, ◌≡◌, refl, Bool, true, false, not, ◌&&◌, ◌||◌, List, [], ◌∷◌, ◌++◌,
  Option, none, some, Result, ok, err, panics, ◌>>=◌, map, ltb, ◌==◌, if◌then◌else◌,
}
use ptun.Base.Text.{String, insert}
use ptun.Network.{Ip, bytes_eq, reparse}

pub record UdpAddr : Type 0 where
  pub ip : Ip
  pub port : ℕ

pub data Role : Type 0 where
  server_side client_side : Role

-- `wait` in milliseconds.
pub record Action : Type 0 where
  pub wait : ℕ
  pub try_remote : Bool
  pub low_ttl : Bool
  pub repeat : Bool

pub record Resource : Type 0 where
  pub remote_port_start : ℕ
  pub remote_port_end : ℕ
  pub remote_port_count : ℕ
  pub local_port_count : ℕ

pub record DetectResult : Type 0 where
  pub local_addr : String
  pub primary_mapped_addr : String
  pub secondary_mapped_addr : String

pub record AnalyzeResult : Type 0 where
  pub local_addrs : List String
  pub remote_local_addrs : List String
  pub remote_mapped_addrs : List String
  pub role : Role
  pub resource : Resource
  pub actions : List Action

pub data Error : Type 0 where
  unresolved : String → Error

abbrev pub Pair : Type 0
Pair = AnalyzeResult × AnalyzeResult

-- The map of filter, and its keys.
abbrev pub address_map : List String → List (String × Bool) → List (String × Bool)
address_map [] m = m
address_map (a ∷ addrs) m = address_map addrs (insert a true m)

abbrev pub wait_second : Action
wait_second = record { wait = 1000; try_remote = false; low_ttl = false; repeat = false }

abbrev pub try_often : Action
try_often = record { wait = 0; try_remote = true; low_ttl = false; repeat = true }

abbrev pub try_low : Action
try_low = record { wait = 0; try_remote = true; low_ttl = true; repeat = false }

abbrev pub try_low_often : Action
try_low_often = record { wait = 0; try_remote = true; low_ttl = true; repeat = true }

-- remoteAddrs[1]
abbrev pub second_port : List UdpAddr → Result Error ℕ
second_port (a ∷ b ∷ addrs) = ok b.port
second_port _ = panics

abbrev pub swap : Pair → Pair
swap (a, b) = (b, a)

module _ (resolve_addr : String → Option UdpAddr) (keys : List (String × Bool) → List String) where
  unfoldable pub filter : List String → List String
  filter addrs = keys (address_map addrs [])

  -- The first address that does not resolve is the error.
  unfoldable pub resolve : List String → Result Error (List UdpAddr)
  resolve [] = ok []
  resolve (a ∷ addrs) = elim (resolve_addr a) [
    | none ↦ err (unresolved a)
    | some r ↦ resolve addrs >>= λ results. ok (r ∷ results)
  ]

  -- The resolver's errors are dropped here, so an address that does not resolve is a nil pointer.
  unfoldable pub mapped : DetectResult → Result Error (UdpAddr × UdpAddr)
  mapped r = elim (resolve_addr r.primary_mapped_addr) [
    | none ↦ panics
    | some primary ↦ elim (resolve_addr r.secondary_mapped_addr) [
      | none ↦ panics
      | some secondary ↦ ok (primary, secondary)
    ]
  ]

  unfoldable pub is_multi_extern_ip : DetectResult → Result Error Bool
  unfolding mapped
  is_multi_extern_ip r = do
    (primary, secondary) ← mapped r
    ok (not (bytes_eq (reparse primary.ip) (reparse secondary.ip)))

  unfoldable pub is_random_port : DetectResult → Result Error Bool
  unfolding mapped
  is_random_port r = do (primary, secondary) ← mapped r; ok (not (primary.port == secondary.port))

  -- `||` looks at the addresses only if the ports agree.
  unfoldable pub is_hard : DetectResult → Result Error Bool
  unfolding is_random_port is_multi_extern_ip
  is_hard r = do random ← is_random_port r; if random then ok true else is_multi_extern_ip r

  -- The lower port, the higher one and their distance.
  unfoldable pub ports_distance : DetectResult → Result Error (ℕ × ℕ × ℕ)
  unfolding mapped
  ports_distance r = do
    (primary, secondary) ← mapped r
    ok (
        if ltb primary.port secondary.port
        then (primary.port, secondary.port, secondary.port - primary.port)
        else (secondary.port, primary.port, primary.port - secondary.port))

  -- The port range of the other side, widened to 10000 .. 65000 at least.
  unfoldable pub widened : DetectResult → Result Error (ℕ × ℕ)
  unfolding ports_distance
  widened r = do
    (ls, le, distance) ← ports_distance r
    ok (if ltb 10000 ls then 10000 else ls, if ltb le 65000 then 65000 else le)

  unfoldable pub analyze_double_easy : DetectResult → DetectResult → Result Error Pair
  unfolding filter
  analyze_double_easy local remote =
      let resource : Resource = record {
        remote_port_start = 0;
        remote_port_end = 0;
        remote_port_count = 1;
        local_port_count = 1;
      } in
      ok (
        record {
          local_addrs = local.local_addr ∷ [];
          remote_local_addrs = filter (remote.local_addr ∷ []);
          remote_mapped_addrs =
              filter (remote.primary_mapped_addr ∷ remote.secondary_mapped_addr ∷ []);
          role = client_side;
          resource = resource;
          actions = wait_second ∷ try_often ∷ [];
        },
        record {
          local_addrs = remote.local_addr ∷ [];
          remote_local_addrs = filter (local.local_addr ∷ []);
          remote_mapped_addrs =
              filter (local.primary_mapped_addr ∷ local.secondary_mapped_addr ∷ []);
          role = server_side;
          resource = resource;
          actions = try_low ∷ try_low_often ∷ [];
        },
      )

  -- The local side is hard, the remote one easy.
  unfoldable pub analyze_has_easy : DetectResult → DetectResult → Result Error Pair
  unfolding resolve filter widened
  analyze_has_easy local remote = do
    remote_addrs ←
        resolve (remote.local_addr ∷ remote.primary_mapped_addr ∷ remote.secondary_mapped_addr ∷ [])
    start ← second_port remote_addrs
    (ls, le) ← widened local
    ok (
      record {
        local_addrs = local.local_addr ∷ [];
        remote_local_addrs = filter (remote.local_addr ∷ []);
        remote_mapped_addrs =
            filter (remote.primary_mapped_addr ∷ remote.secondary_mapped_addr ∷ []);
        role = client_side;
        resource = record {
          remote_port_start = start;
          remote_port_end = 0;
          remote_port_count = 1;
          local_port_count = 256;
        };
        actions = wait_second ∷ try_often ∷ [];
      },
      record {
        local_addrs = remote.local_addr ∷ [];
        remote_local_addrs = filter (local.local_addr ∷ []);
        remote_mapped_addrs = filter (local.primary_mapped_addr ∷ local.secondary_mapped_addr ∷ []);
        role = server_side;
        resource = record {
          remote_port_start = ls;
          remote_port_end = le;
          remote_port_count = 1024;
          local_port_count = 1;
        };
        actions = try_low ∷ try_low_often ∷ [];
      },
    )

  pub analyze_double_hard : DetectResult → DetectResult → Result Error Pair
  unfolding filter widened
  analyze_double_hard local remote = do
    (ls, le) ← widened local
    ok (
      record {
        local_addrs = local.local_addr ∷ [];
        remote_local_addrs = [];
        remote_mapped_addrs =
            filter
              (remote.local_addr ∷ remote.primary_mapped_addr ∷ remote.secondary_mapped_addr ∷ []);
        role = client_side;
        resource = record {
          remote_port_start = 10000;
          remote_port_end = 65000;
          remote_port_count = 1024;
          local_port_count = 256;
        };
        actions = try_low ∷ try_often ∷ [];
      },
      record {
        local_addrs = remote.local_addr ∷ [];
        remote_local_addrs = [];
        remote_mapped_addrs =
            filter
              (local.local_addr ∷ local.primary_mapped_addr ∷ local.secondary_mapped_addr ∷ []);
        role = server_side;
        resource = record {
          remote_port_start = ls;
          remote_port_end = le;
          remote_port_count = 1024;
          local_port_count = 256;
        };
        actions = try_low ∷ try_often ∷ [];
      },
    )

  -- The switch of Analyze. The result is for the local and the remote side, in this order.
  unfoldable pub choose : Bool → Bool → DetectResult → DetectResult → Result Error Pair
  unfolding analyze_double_easy analyze_has_easy analyze_double_hard
  choose false false local remote = analyze_double_easy local remote
  choose true false local remote = analyze_has_easy local remote
  choose false true local remote = analyze_has_easy remote local >>= λ p. ok (swap p)
  choose true true local remote = analyze_double_hard local remote

  unfoldable pub analyze : DetectResult → DetectResult → Result Error Pair
  unfolding is_hard choose
  analyze local remote = do
    hard_local ← is_hard local
    hard_remote ← is_hard remote
    choose hard_local hard_remote local remote
