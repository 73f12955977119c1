-- ===== src/Nat/Stun/Analyze.antt =====
-- AnalyzeStunBehavior of pkg/nat/service_stun.go. `show_ip` is net.IP.String, and `connect` what
-- connectStun gives.
use ptun.Base.{
  ℕ, Bool, false, ◌||◌, List, [], ◌∷◌, ◌++◌, Option, Result, ok, err, panics, if◌then◌else◌,
}
use ptun.Base.Text.{String, str_eq}
use ptun.Network.{Ip}
use ptun.Nat.Ports.{contains}
use ptun.Nat.Analyze.{UdpAddr}
use ptun.Nat.Stun.{
  Behavior, Error, test_failure, Outcome, StunConn, mapping_tests, filter_tests, is_unknown, bind,
}

pub record StunBehavior : Type 0 where
  pub mapping_behavior : Behavior
  pub filter_behavior : Behavior
  pub local_addrs : List UdpAddr
  pub mapped_addrs : List UdpAddr
  pub mapped_ip_list : List String
  pub mapped_port_list : List ℕ

-- slices.Contains on texts.
pub contains_text : String → List String → Bool
contains_text x [] = false
contains_text x (y ∷ ys) = str_eq y x || contains_text x ys

abbrev pub ip_list : (Ip → String) → List UdpAddr → List String → List String
unfolding contains_text
ip_list show_ip [] ips = ips
ip_list show_ip (a ∷ addrs) ips =
    ip_list show_ip addrs
      (if contains_text (show_ip (a.ip)) ips then ips else ips ++ show_ip (a.ip) ∷ [])

abbrev pub port_list : List UdpAddr → List ℕ → List ℕ
port_list [] ports = ports
port_list (a ∷ addrs) ports =
    port_list addrs (if contains (a.port) ports then ports else ports ++ a.port ∷ [])

module _ {Msg : Type 0} (outcome : ℕ → Outcome Msg) (xor_of other_of : Msg → Option UdpAddr)
    (resolve : UdpAddr → Option UdpAddr) (show_stun show_udp : UdpAddr → String)
    (show_ip : Ip → String) where
  abbrev pub behavior_of : Behavior → Behavior → StunConn → Result Error StunBehavior
  behavior_of m f s =
      if is_unknown m || is_unknown f
      then err test_failure
      else ok (record {
        mapping_behavior = m;
        filter_behavior = f;
        local_addrs = s.local_addr ∷ [];
        mapped_addrs = s.mapped_addrs;
        mapped_ip_list = ip_list show_ip (s.mapped_addrs) [];
        mapped_port_list = port_list (s.mapped_addrs) [];
      })

  abbrev pub analyze_stun_behavior : Result Error StunConn → Result Error StunBehavior
  analyze_stun_behavior (err e) = err e
  analyze_stun_behavior panics = panics
  analyze_stun_behavior (ok s) =
      (bind (mapping_tests outcome xor_of other_of resolve show_stun show_udp)
        (λ m.
          bind (filter_tests outcome xor_of other_of resolve show_stun show_udp)
            (λ f s'. (s', behavior_of m f s')))
        s).1
