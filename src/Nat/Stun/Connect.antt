-- ===== src/Nat/Stun/Connect.antt =====
-- connectStun of pkg/nat/service_stun.go with the goroutine that reads its socket, and MappingTests and
-- FilterTests. `arrivals n` are the datagrams that come after exchange n - 1 and before exchange n has
-- its answer, `none` for a failed read and for one that does not decode. The channel has no buffer, so
-- the goroutine holds what nobody has taken, and the socket what comes after it.
use ptun.Base.{
  ℕ, zero, suc, Bool, true, false, ◌&&◌, List, [], ◌∷◌, ◌++◌, Option, none, some, Result, ok, err,
  panics,
}
use ptun.Base.Text.{String}
use ptun.Nat.Analyze.{UdpAddr}
use ptun.Nat.Stun.{
  Behavior, Error, unresolved, Incoming, message, closed, silent, Outcome, StunConn, mapping_tests,
  filter_tests,
}

-- What the channel gives, and what is left: it stays closed.
abbrev pub take_message : {Msg : Type 0} → List (Option Msg) → Incoming Msg × List (Option Msg)
take_message [] = (silent, [])
take_message (none ∷ queue) = (closed, none ∷ queue)
take_message (some m ∷ queue) = (message m, queue)

abbrev pub taken_of : {Msg : Type 0} → Incoming Msg → List Msg
taken_of (message m) = m ∷ []
taken_of closed = []
taken_of silent = []

-- Do, as the channel sees it: it waits for a message only once the request is written.
abbrev pub turn : {Msg : Type 0} → Bool → List (Option Msg) → Incoming Msg × List (Option Msg)
turn true queue = take_message queue
turn false queue = (silent, queue)

-- connectStun: `addr` is the server's address, `local` that of the socket, if they are there.
abbrev pub connect_stun : Option UdpAddr → Option UdpAddr → Error → Result Error StunConn
connect_stun none local listen_failed = err unresolved
connect_stun (some addr) none listen_failed = err listen_failed
connect_stun (some addr) (some local) listen_failed = ok (record {
  local_addr = local;
  remote_addr = addr;
  other_addr = none;
  mapped_addrs = [];
  sent = [];
  step = 0;
})

-- A test on a connection, which is closed afterwards.
abbrev pub test_on :
    Result Error StunConn → (StunConn → StunConn × Result Error Behavior) → Result Error Behavior
test_on (ok s) test = (test s).1
test_on (err e) test = err e
test_on panics test = panics

module _ {Msg : Type 0} (built has_id written : ℕ → Bool) (arrivals : ℕ → List (Option Msg)) where
  -- What was not taken before exchange n.
  unfoldable pub pending : ℕ → List (Option Msg)
  pending zero = []
  pending (suc n) = (turn (has_id n && written n) (pending n ++ arrivals n)).1

  unfoldable pub incoming_of : ℕ → Incoming Msg
  unfolding pending
  incoming_of n = (turn (has_id n && written n) (pending n ++ arrivals n)).0

  unfoldable pub outcome : ℕ → Outcome Msg
  unfolding incoming_of
  outcome n = record {
    built = built n;
    has_id = has_id n;
    written = written n;
    incoming = incoming_of n;
  }

  abbrev pub arrived : ℕ → List (Option Msg)
  arrived zero = []
  arrived (suc n) = arrived n ++ arrivals n

  -- The messages that the exchanges before n have taken.
  abbrev pub taken : ℕ → List Msg
  unfolding incoming_of
  taken zero = []
  taken (suc n) = taken n ++ taken_of (incoming_of n)

  -- MappingTests and FilterTests.
  unfoldable pub mapping_tests_at :
      (xor_of other_of : Msg → Option UdpAddr) (resolve : UdpAddr → Option UdpAddr)
      (show_stun show_udp : UdpAddr → String)
      → Result Error StunConn
      → Result Error Behavior
  mapping_tests_at xor_of other_of resolve show_stun show_udp conn =
      test_on conn (mapping_tests outcome xor_of other_of resolve show_stun show_udp)

  unfoldable pub filter_tests_at :
      (xor_of other_of : Msg → Option UdpAddr) (resolve : UdpAddr → Option UdpAddr)
      (show_stun show_udp : UdpAddr → String)
      → Result Error StunConn
      → Result Error Behavior
  filter_tests_at xor_of other_of resolve show_stun show_udp conn =
      test_on conn (filter_tests outcome xor_of other_of resolve show_stun show_udp)
