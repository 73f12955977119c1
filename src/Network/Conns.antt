-- ===== src/Network/Conns.antt =====
-- pkg/network/raw.go, and what the connections of libraries keep that raw.go, quic.go and cypto.go wrap.
pub mod Quic
pub mod Encrypted
use ptun.Base.{
  ℕ, ◌≡◌, refl, ap, ◌∙◌, Bool, true, false, List, [], ◌∷◌, ◌++◌, Option, none, some, Result, ok,
  err,
}
use ptun.Base.Text.{String}
use ptun.Nat.Analyze.{UdpAddr}

-- A connection that carries chunks: `incoming` are those that are still to be read, `outgoing` those
-- that were written, oldest first. Deadlines are times.
pub record Conn : Type 0 where
  pub incoming : List (List ℕ)
  pub outgoing : List (List ℕ)
  pub read_deadline : ℕ
  pub write_deadline : ℕ
  pub closed : Bool

abbrev pub set_read_deadline : ℕ → Conn → Conn
set_read_deadline t c = record c { read_deadline = t }

abbrev pub set_deadline : ℕ → Conn → Conn
set_deadline t c = record c { read_deadline = t; write_deadline = t }

abbrev pub set_write_deadline : ℕ → Conn → Conn
set_write_deadline t c = record c { write_deadline = t }

abbrev pub close_conn : Conn → Conn
close_conn c = record c { closed = true }

-- NewRawConn: closes the socket, and dials from the address that it had. `dial` is net.DialUDP.
pub data RawError : Type 0 where
  unresolved not_dialed : RawError

abbrev pub dialed : Option Conn → Result RawError Conn
dialed none = err not_dialed
dialed (some c) = ok c

abbrev pub from_address : (UdpAddr → Option Conn) → Option UdpAddr → Result RawError Conn
from_address dial none = err unresolved
from_address dial (some laddr) = dialed (dial laddr)

unfoldable pub new_raw_conn :
    (String → Option UdpAddr)
    → (UdpAddr → UdpAddr → Option Conn)
    → String
    → UdpAddr
    → Conn
    → Conn × Result RawError Conn
new_raw_conn resolve dial local_addr raddr conn =
    (close_conn conn, from_address (λ laddr. dial laddr raddr) (resolve local_addr))
