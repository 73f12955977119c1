-- ===== src/Nat/Detect.antt =====
-- pkg/nat/service_simple.go: handleConnection of the server, and Detect with udpDetect of a node.
-- encoding/json on a mappedInfo, the names of hosts, and the text of an address are parameters.
pub mod Server
use ptun.Base.{
  ℕ, ◌≡◌, refl, Bool, true, false, not, ◌||◌, List, [], ◌∷◌, Option, none, some, Result, ok, err,
  ◌>>=◌, ◌==◌, if◌then◌else◌,
}
use ptun.Base.Text.{String}
use ptun.Network.{Ip, bytes_eq, reparse}
use ptun.Nat.Analyze
use ptun.Nat.Analyze.{UdpAddr, DetectResult, is_hard, is_random_port, is_multi_extern_ip, mapped}

pub data Error : Type 0 where
  lookup_failed no_ip listen_failed exchange_failed bad_json : Error

abbrev pub needs : {A B : Type 0} → Option A → Error → (A → Result Error B) → Result Error B
needs none e f = err e
needs (some a) e f = f a

-- The host, or its first address.
abbrev pub first_of : String → List String → String
first_of host [] = host
first_of host (a ∷ addrs) = a

module _ (marshal : String → Option (List ℕ)) (unmarshal : List ℕ → Option String)
    (show : UdpAddr → String) where
  -- What the server sends back to the address that a datagram came from.
  pub handle_connection : UdpAddr → Option (List ℕ)
  handle_connection addr = marshal (show addr)

  -- `exchange` gives the answer to a datagram to an address, if one comes in time.
  pub udp_detect : (UdpAddr → Option (List ℕ)) → Ip → ℕ → Result Error String
  udp_detect exchange ip port =
      needs (exchange (record { ip = ip; port = port })) exchange_failed
        (λ p. needs (unmarshal p) bad_json ok)

  -- `local` is the address of the socket, if there is one.
  pub detect :
      (String → Option (List String))
      → (String → Option Ip)
      → Option String
      → (UdpAddr → Option (List ℕ))
      → String
      → ℕ
      → ℕ
      → Result Error DetectResult
  unfolding udp_detect
  detect lookup_host parse_ip local exchange host primary secondary =
      needs (lookup_host host) lookup_failed (λ addrs.
        needs (parse_ip (first_of host addrs)) no_ip (λ ip. needs local listen_failed (λ l.
          udp_detect exchange ip primary >>= λ s1. udp_detect exchange ip secondary >>= λ s2.
          ok (record { local_addr = l; primary_mapped_addr = s1; secondary_mapped_addr = s2 }))))

abbrev pub at : Ip → ℕ → UdpAddr
at ip port = record { ip = ip; port = port }

udp_detect_ok :
    (marshal : String → Option (List ℕ)) (unmarshal : List ℕ → Option String)
    (show : UdpAddr → String) (seen : UdpAddr → UdpAddr) (ip : Ip) (port : ℕ) (p : List ℕ)
    → ((s : String) (q : List ℕ) → marshal s ≡ some q → unmarshal q ≡ some s)
    → marshal (show (seen (at ip port))) ≡ some p
    → udp_detect marshal unmarshal show
        (λ d. handle_connection marshal unmarshal show (seen d))
        ip
        port
      ≡ ok (show (seen (at ip port)))
unfolding udp_detect handle_connection
udp_detect_ok marshal unmarshal show seen ip port p law e =
    rw (e, needs) (rw (law (show (seen (at ip port))) p e, needs) refl)

either :
    (c d : Bool) → ◌≡◌ {A = Result Analyze.Error Bool} (if c then ok true else ok d) (ok (c || d))
either true d = refl
either false d = refl

mapped_eq :
    (resolve_addr : String → Option UdpAddr) (keys : List (String × Bool) → List String)
    (r : DetectResult) (a b : UdpAddr)
    → resolve_addr (r.primary_mapped_addr) ≡ some a
    → resolve_addr (r.secondary_mapped_addr) ≡ some b
    → mapped resolve_addr keys r ≡ ok (a, b)
unfolding mapped
mapped_eq resolve_addr keys r a b e f = rw (e, mapped) (rw (f, mapped) refl)

random_eq :
    (resolve_addr : String → Option UdpAddr) (keys : List (String × Bool) → List String)
    (r : DetectResult) (a b : UdpAddr)
    → mapped resolve_addr keys r ≡ ok (a, b)
    → is_random_port resolve_addr keys r ≡ ok (not (a.port == b.port))
unfolding is_random_port
random_eq resolve_addr keys r a b m = rw (m, is_random_port) refl

multi_eq :
    (resolve_addr : String → Option UdpAddr) (keys : List (String × Bool) → List String)
    (r : DetectResult) (a b : UdpAddr)
    → mapped resolve_addr keys r ≡ ok (a, b)
    → is_multi_extern_ip resolve_addr keys r ≡ ok (not (bytes_eq (reparse a.ip) (reparse b.ip)))
unfolding is_multi_extern_ip
multi_eq resolve_addr keys r a b m = rw (m, is_multi_extern_ip) refl

is_hard_eq :
    (resolve_addr : String → Option UdpAddr) (keys : List (String × Bool) → List String)
    (r : DetectResult) (a b : UdpAddr)
    → resolve_addr (r.primary_mapped_addr) ≡ some a
    → resolve_addr (r.secondary_mapped_addr) ≡ some b
    → is_hard resolve_addr keys r
      ≡ ok (not (a.port == b.port) || not (bytes_eq (reparse a.ip) (reparse b.ip)))
unfolding is_hard
is_hard_eq resolve_addr keys r a b e f =
    let m = mapped_eq resolve_addr keys r a b e f in
    rw (random_eq resolve_addr keys r a b m, multi_eq resolve_addr keys r a b m, is_hard)
      (either (not (a.port == b.port)) (not (bytes_eq (reparse a.ip) (reparse b.ip))))

-- A node behind a NAT that shows its socket to a destination as `seen` says, and a server that
-- answers at both ports, where the texts of both addresses resolve to them: Detect returns the two
-- addresses that the server saw, and Analyze takes the node for a hard one just when they differ in the port
-- or the IP.
pub detect-is_hard :
    (marshal : String → Option (List ℕ)) (unmarshal : List ℕ → Option String)
    (show : UdpAddr → String) (resolve_addr : String → Option UdpAddr)
    (keys : List (String × Bool) → List String) (lookup_host : String → Option (List String))
    (parse_ip : String → Option Ip) (seen : UdpAddr → UdpAddr) (host local : String)
    (primary secondary : ℕ) (addrs : List String) (ip : Ip) (p1 p2 : List ℕ)
    → ((s : String) (q : List ℕ) → marshal s ≡ some q → unmarshal q ≡ some s)
    → resolve_addr (show (seen (at ip primary))) ≡ some (seen (at ip primary))
    → resolve_addr (show (seen (at ip secondary))) ≡ some (seen (at ip secondary))
    → lookup_host host ≡ some addrs
    → parse_ip (first_of host addrs) ≡ some ip
    → marshal (show (seen (at ip primary))) ≡ some p1
    → marshal (show (seen (at ip secondary))) ≡ some p2
    → let d : DetectResult = record {
      local_addr = local;
      primary_mapped_addr = show (seen (at ip primary));
      secondary_mapped_addr = show (seen (at ip secondary));
    } in
      (detect marshal unmarshal show lookup_host parse_ip
          (some local)
          (λ a. handle_connection marshal unmarshal show (seen a))
          host
          primary
          secondary
        ≡ ok d)
      × (is_hard resolve_addr keys d
          ≡ ok (
              not ((seen (at ip primary)).port == (seen (at ip secondary)).port)
              || not (
                  bytes_eq
                    (reparse (seen (at ip primary)).ip)
                    (reparse (seen (at ip secondary)).ip))))
unfolding detect
detect-is_hard marshal unmarshal show resolve_addr keys lookup_host parse_ip seen host local primary
      secondary addrs ip p1 p2 law t1 t2 h i e1 e2 =
    (
      rw (h, needs)
          (rw (i, needs)
            (rw (udp_detect_ok marshal unmarshal show seen ip primary p1 law e1)
              (rw (udp_detect_ok marshal unmarshal show seen ip secondary p2 law e2) refl))),
      is_hard_eq resolve_addr keys _ _ _ t1 t2,
    )
