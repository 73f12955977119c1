-- ===== src/Network/Conns/Quic.antt =====
-- pkg/network/quic.go. What the library's calls give is a parameter; the connection's stream is a Conn.
use ptun.Base.{ℕ, ◌≡◌, refl, Bool, true, false, ◌&&◌, Option, none, some, if◌then◌else◌}
use ptun.Base.Text.{String, str_eq}
use ptun.Network.Conns.{Conn, set_deadline, set_read_deadline, close_conn}

-- quicConn, with the methods that act on its stream; `listener` says whether it has one that is open.
pub record QuicConn : Type 0 where
  pub listener : Option Bool
  pub stream : Conn

abbrev pub close_listener : Option Bool → Option Bool
close_listener none = none
close_listener (some is_open) = some false

-- What the library gives NewQuicConn: each call may fail.
pub record QuicCalls : Type 0 where
  pub listens : Bool
  pub accepts : Bool
  pub accept_stream : Option Conn
  pub dials : Bool
  pub open_stream : Option Conn

-- What NewQuicConn leaves: whether the socket is closed, whether a listener is open, and the connection
-- if it made one.
pub record Made : Type 0 where
  pub socket_closed : Bool
  pub listener_open : Bool
  pub made : Option QuicConn

abbrev pub made_of : Option Bool → Option Conn → Option QuicConn
made_of listener none = none
made_of listener (some stream) = some (record { listener = listener; stream = stream })

-- The listener stays open when Accept or AcceptStream fails.
unfoldable pub new_quic_conn : String → QuicCalls → Made
new_quic_conn role calls =
    if str_eq role "server"
    then record {
      socket_closed = true;
      listener_open = calls.listens;
      made =
          if calls.listens && calls.accepts then made_of (some true) calls.accept_stream else none;
    }
    else record {
      socket_closed = false;
      listener_open = false;
      made = if calls.dials then made_of none calls.open_stream else none;
    }

unfoldable pub close : QuicConn → QuicConn
close c = record { listener = close_listener c.listener; stream = close_conn c.stream }

abbrev pub set_deadline_of : ℕ → QuicConn → QuicConn
set_deadline_of t c = record c { stream = set_deadline t c.stream }

abbrev pub set_read_deadline_of : ℕ → QuicConn → QuicConn
set_read_deadline_of t c = record c { stream = set_read_deadline t c.stream }

-- It sets both deadlines.
unfoldable pub set_write_deadline_of : ℕ → QuicConn → QuicConn
set_write_deadline_of t c = record c { stream = set_deadline t c.stream }

-- SetWriteDeadline also sets the deadline of reads.
pub set_write_deadline_of-read_deadline :
    (t : ℕ) (c : QuicConn) → (set_write_deadline_of t c).stream.read_deadline ≡ t
unfolding set_write_deadline_of
set_write_deadline_of-read_deadline t c = refl
