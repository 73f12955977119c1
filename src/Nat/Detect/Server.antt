-- ===== src/Nat/Detect/Server.antt =====
-- The server of pkg/nat/service_simple.go: Start, Stop, and the loop of its two goroutines.
use ptun.Base.{
  ℕ, ◌≡◌, refl, ap, ◌∙◌, Bool, true, false, List, [], ◌∷◌, ◌++◌, map, Option, none, some,
}
use ptun.Base.Text.{String}
use ptun.Nat.Analyze.{UdpAddr}
use ptun.Nat.Detect.{handle_connection}

pub data Listener : Type 0 where
  not_made listens stopped : Listener

pub record Server : Type 0 where
  pub primary_port : ℕ
  pub secondary_port : ℕ
  pub primary_listener : Listener
  pub secondary_listener : Listener
  -- How many of the two goroutines were started.
  pub goroutines : ℕ

abbrev pub new_simple_server : ℕ → ℕ → Server
new_simple_server p1 p2 = record {
  primary_port = p1;
  secondary_port = p2;
  primary_listener = not_made;
  secondary_listener = not_made;
  goroutines = 0;
}

-- Whether Start works, by whether the two ports can be listened on.
unfoldable pub start : Bool → Bool → Server → Server × Bool
start false second s = (s, false)
start true false s = (record s { primary_listener = listens }, false)
start true true s =
    (record s { primary_listener = listens; secondary_listener = listens; goroutines = 2 }, true)

-- Close of a listener; on nil it returns an error, which Stop drops.
abbrev pub close_listener : Listener → Listener
close_listener not_made = not_made
close_listener listens = stopped
close_listener stopped = stopped

unfoldable pub stop : Server → Server
stop s = record s {
  primary_listener = close_listener s.primary_listener;
  secondary_listener = close_listener s.secondary_listener;
}

-- What a ReadFromUDP gives: a datagram, with whether the answer to it can be written, or an error.
pub data Arrival : Type 0 where
  datagram : UdpAddr → Bool → Arrival
  eof failed : Arrival

-- What the loop has sent, what it has not read, and whether it has stopped.
pub record Loop : Type 0 where
  pub answers : List (UdpAddr × List ℕ)
  pub unread : List Arrival
  pub has_stopped : Bool

abbrev pub stop_at : List Arrival → Loop
stop_at rest = record { answers = []; unread = rest; has_stopped = true }

abbrev pub answering : UdpAddr → List ℕ → Loop → Loop
answering addr p l = record l { answers = (addr, p) ∷ l.answers }

-- One answer, and what comes after it if it was sent.
abbrev pub after : UdpAddr → Option (List ℕ) → Bool → List Arrival → Loop → Loop
after addr none works rest later = stop_at rest
after addr (some p) false rest later = stop_at rest
after addr (some p) true rest later = answering addr p later

module _ (marshal : String → Option (List ℕ)) (unmarshal : List ℕ → Option String)
    (show : UdpAddr → String) where
  unfoldable pub handler : List Arrival → Loop
  unfolding handle_connection
  handler [] = record { answers = []; unread = []; has_stopped = false }
  handler (eof ∷ rest) = stop_at rest
  handler (failed ∷ rest) = stop_at rest
  handler (datagram addr works ∷ rest) =
      let later = handler rest in
      after addr (handle_connection marshal unmarshal show addr) works rest later

  abbrev pub asking : List UdpAddr → List Arrival
  asking addrs = map (λ a. datagram a true) addrs

  abbrev pub answers_to : (String → List ℕ) → List UdpAddr → List (UdpAddr × List ℕ)
  answers_to text addrs = map (λ a. (a, text (show a))) addrs

  abbrev answered : List (UdpAddr × List ℕ) → Loop → Loop
  answered sent l = record l { answers = sent ++ l.answers }

  -- As long as answers can be marshalled and sent, each node that asks gets its address as the server
  -- sees it, in the order in which they ask.
  pub handler-asking :
      (text : String → List ℕ) (addrs : List UdpAddr) (rest : List Arrival)
      → ((s : String) → marshal s ≡ some (text s))
      → handler (asking addrs ++ rest) ≡ answered (answers_to text addrs) (handler rest)
  unfolding handler handle_connection
  handler-asking text [] rest law = refl
  handler-asking text (a ∷ addrs) rest law =
      ap (λ o. after a o true (asking addrs ++ rest) (handler (asking addrs ++ rest)))
        (law (show a))
      ∙ ap (answering a (text (show a))) (handler-asking text addrs rest law)

  -- The first error of a read or a write ends the loop, whatever comes later.
  pub handler_stops :
      (addr : UdpAddr) (rest : List Arrival)
      → (handler (failed ∷ rest) ≡ stop_at rest)
        × (handler (datagram addr false ∷ rest) ≡ stop_at rest)
  unfolding handler handle_connection
  handler_stops addr rest = (refl, after_unsent addr _ rest)
    where
      after_unsent :
          (a : UdpAddr) (o : Option (List ℕ)) (rest : List Arrival)
          → after a o false rest (handler rest) ≡ stop_at rest
      after_unsent a none rest = refl
      after_unsent a (some p) rest = refl

-- A Start that fails on the second port leaves the first one in use, and starts nothing that reads it.
pub start_half :
    (p1 p2 : ℕ)
    → let s = (start true false (new_simple_server p1 p2)).0 in
      (s.primary_listener ≡ listens) × (s.goroutines ≡ 0)
unfolding start
start_half p1 p2 = (refl, refl)
