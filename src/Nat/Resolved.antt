-- ===== src/Nat/Resolved.antt =====
-- pkg/nat: the Nat of nat.go, which MakeHole takes, and GetNatFromAnalyze of analyze.go.
use ptun.Base.{List, [], Option, Result, ok, ◌>>=◌}
use ptun.Base.Text.{String}
use ptun.Network.Resolve.{resolve_udp_addrs}
use ptun.Nat.Analyze.{UdpAddr, Role, Resource, Action, AnalyzeResult}

pub record Nat : Type 0 where
  pub local_addrs : List UdpAddr
  pub remote_local_addrs : List UdpAddr
  pub remote_mapped_addrs : List UdpAddr
  pub role : Role
  pub resource : Resource
  pub actions : List Action

-- No caller fills in RemoteLocalAddrs.
abbrev pub nat_of : List UdpAddr → List UdpAddr → AnalyzeResult → Nat
nat_of local_addrs remote_addrs r = record {
  local_addrs = local_addrs;
  remote_local_addrs = [];
  remote_mapped_addrs = remote_addrs;
  role = r.role;
  resource = r.resource;
  actions = r.actions;
}

unfoldable pub get_nat_from_analyze :
    (String → Option UdpAddr) → AnalyzeResult → AnalyzeResult → Result String (Nat × Nat)
get_nat_from_analyze resolve lresult rresult = do
  local_addrs ← resolve_udp_addrs resolve lresult.local_addrs
  remote_addrs ← resolve_udp_addrs resolve lresult.remote_mapped_addrs
  r_local_addrs ← resolve_udp_addrs resolve rresult.local_addrs
  r_remote_addrs ← resolve_udp_addrs resolve rresult.remote_mapped_addrs
  ok (nat_of local_addrs remote_addrs lresult, nat_of r_local_addrs r_remote_addrs rresult)
