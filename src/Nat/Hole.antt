-- ===== src/Nat/Hole.antt =====
-- pkg/nat/nat.go: MakeHole with send, wait and echoTo, and genEndpoint. The sockets are the world's:
-- what a wait receives is read from the stream `replies`, and what goes out is a list of effects.
pub mod Laws
pub mod Endpoints
pub mod Ttl
pub mod Bind
use ptun.Nat.Ports.{no_repeat_rand_ints}
use ptun.Base.Int.{ℤ, pos, sub_ℕ}
use ptun.Nat.Analyze.{Action, UdpAddr, Resource}
use ptun.Base.{
  ℕ, zero, suc, ◌+◌, ◌*◌, ◌≤◌, ◌<◌, ◌≡◌, refl, ap, ◌⊎◌, inl, inr, Bool, true, false, List, [], ◌∷◌,
  ◌++◌, map, Option, none, some, length, length-append, get_elem?, replicate, Result, ok, err,
  panics, ◌>>=◌, ◌%◌, ◌-◌, arith, ltb, if◌then◌else◌, Bool-cases, Option-cases, append_assoc,
  append-nil,
}

abbrev pub max_repeat_times : ℕ
max_repeat_times = 5

-- A socket bound by the process, and the address of a peer.
pub record Reply (Conn Addr : Type 0) : Type 0 where
  pub conn : Conn
  pub raddr : Addr

pub data Effect (Conn Addr : Type 0) : Type 0 where
  sleep : ℕ → Effect Conn Addr
  set_ttl : Conn → ℤ → Effect Conn Addr
  sent : Conn → Addr → Effect Conn Addr
  waited : List Conn → Effect Conn Addr

module _ {Conn Addr : Type 0} where
  -- ModifyTTL of pkg/network/tools.go: its effects, and whether it succeeds. `origin` reads the TTL
  -- or the hop limit of a socket, if it can be read, and `settable` says whether it can be set. The
  -- deferred call sets it back.
  pub modify_ttl : (Conn → Option ℕ) → (Conn → Bool) → Conn → ℕ → List (Effect Conn Addr) × Bool
  modify_ttl origin settable c minus = elim (origin c) [
    | none ↦ ([], false)
    | some o ↦
        if settable c
        then (set_ttl c (sub_ℕ o minus) ∷ set_ttl c (pos o) ∷ [], true)
        else ([], false)
  ]

  -- sendPair. A write that fails is only logged.
  pub send_pair : (Conn → Option ℕ) → (Conn → Bool) → Bool → Conn → Addr → List (Effect Conn Addr)
  unfolding modify_ttl
  send_pair origin settable low local remote =
      let m = modify_ttl origin settable local 8 in
      if low then (if m.1 then m.0 ++ sent local remote ∷ [] else m.0) else sent local remote ∷ []

  pub send_from :
      (Conn → Option ℕ) → (Conn → Bool) → Bool → Conn → List Addr → List (Effect Conn Addr)
  unfolding send_pair
  send_from origin settable low local [] = []
  send_from origin settable low local (remote ∷ remotes) =
      send_pair origin settable low local remote ++ send_from origin settable low local remotes

  unfoldable pub send :
      (Conn → Option ℕ) → (Conn → Bool) → Bool → List Conn → List Addr → List (Effect Conn Addr)
  unfolding send_from
  send origin settable low [] remotes = []
  send origin settable low (local ∷ locals) remotes =
      send_from origin settable low local remotes ++ send origin settable low locals remotes

-- What has happened, and how many waits: the n-th wait receives the n-th item of the stream.
pub record World (Conn Addr : Type 0) : Type 0 where
  pub trace : List (Effect Conn Addr)
  pub waits : ℕ

abbrev pub emit : {Conn Addr : Type 0} → List (Effect Conn Addr) → World Conn Addr → World Conn Addr
emit es w = record { trace = w.trace ++ es; waits = w.waits }

module _ {Conn Addr : Type 0} (origin : Conn → Option ℕ) (settable : Conn → Bool)
    (replies : ℕ → Option (Reply Conn Addr)) (locals : List Conn) (remotes : List Addr) where
  abbrev pub wait : World Conn Addr → World Conn Addr
  wait w = record { trace = w.trace ++ waited locals ∷ []; waits = suc (w.waits) }

  abbrev pub echo_to : Reply Conn Addr → List (Effect Conn Addr)
  echo_to r = sent (r.conn) (r.raddr) ∷ []

  abbrev pub echoed : Action → Reply Conn Addr → World Conn Addr → World Conn Addr
  echoed a r w = if a.try_remote then emit (echo_to r) w else w

  -- One action's loop, with i rounds to go.
  pub attempts : ℕ → Action → World Conn Addr → World Conn Addr × Option (Reply Conn Addr)
  unfolding send
  attempts zero a w = (w, none)
  attempts (suc i) a w =
      let w' = wait (emit (send origin settable (a.low_ttl) locals remotes) w) in
      let rest = attempts i a w' in
      elim (replies (w.waits)) [ none ↦ rest | some r ↦ (echoed a r w', some r) ]

  abbrev pub repeat_times : Action → ℕ
  repeat_times a = if a.repeat then max_repeat_times else 1

  abbrev pub begin : Action → World Conn Addr → World Conn Addr
  begin a w =
      let slept = if ltb 0 (a.wait) then emit (sleep (a.wait) ∷ []) w else w in
      if a.try_remote then emit (send origin settable (a.low_ttl) locals remotes) slept else slept

  -- `none` is the error "make hole error".
  pub make_hole : List Action → World Conn Addr → World Conn Addr × Option (Reply Conn Addr)
  unfolding attempts send
  make_hole [] w = (w, none)
  make_hole (a ∷ actions) w =
      let here = attempts (repeat_times a) a (begin a w) in
      let rest = make_hole actions (here.0) in elim (here.1) [ none ↦ rest | some r ↦ here ]

  -- A reference: the first reply that the next n waits receive.
  pub first_reply : ℕ → ℕ → Option (Reply Conn Addr)
  first_reply zero at = none
  first_reply (suc n) at = elim (replies at) [ none ↦ first_reply n (suc at) | some r ↦ some r ]

  abbrev pub budget : List Action → ℕ
  budget [] = 0
  budget (a ∷ actions) = repeat_times a + budget actions

module _ {Conn : Type 0} (listen : Option UdpAddr → ℕ → Option Conn) where
  -- net.ListenUDP on one address after another; an address that fails is passed over. `none` is an
  -- address and a port of the system's choice, and n counts the calls.
  abbrev pub listen_all : List (Option UdpAddr) → ℕ → List Conn
  listen_all [] n = []
  listen_all (l ∷ ls) n =
      let rest = listen_all ls (suc n) in elim (listen l n) [ none ↦ rest | some c ↦ c ∷ rest ]

-- The ports are the further ones of the remote side; `pick` is rand.Int at each call of RandomOne,
-- which divides by the length of its list.
unfoldable pub random_one : {A : Type 0} → ℕ → List A → Result Unit A
random_one n [] = panics
random_one n (x ∷ xs) = elim (get_elem? (x ∷ xs) (n % length (x ∷ xs))) [
  | some y ↦ ok y
  | none ↦ panics
]

unfoldable pub add_ports :
    (ℕ → ℕ) → List UdpAddr → List ℕ → ℕ → List UdpAddr → Result Unit (List UdpAddr)
unfolding random_one
add_ports pick mapped [] n addrs = ok addrs
add_ports pick mapped (port ∷ ports) n addrs =
    random_one (pick n) (map (λ a. a.ip) mapped) >>= λ ip.
    add_ports pick mapped ports (suc n) (addrs ++ record { ip = ip; port = port } ∷ [])

-- The addresses that genEndpoint listens on, and the remote addresses. `none`: the search for ports
-- ran out of fuel.
abbrev pub local_ports : List UdpAddr → Resource → List (Option UdpAddr)
local_ports addrs r = map some addrs ++ replicate (r.local_port_count - 1) none

unfoldable pub remote_addrs :
    ℕ → (ℕ → ℕ) → (ℕ → ℕ) → List UdpAddr → Resource → Option (Result Unit (List UdpAddr))
unfolding add_ports
remote_addrs fuel random pick mapped r =
    if ltb 1 (r.remote_port_count)
    then elim (no_repeat_rand_ints fuel random (r.remote_port_start) (r.remote_port_end)
        (r.remote_port_count)) [
          | none ↦ none
          | some ports ↦ some (add_ports pick mapped ports 0 mapped)
        ]
    else some (ok mapped)
