-- ===== src/Nat/Hole/Bind.antt =====
-- bind and echo of pkg/nat/nat.go, which bind a socket anew to one peer, and write to it.
use ptun.Base.{
  ◌≡◌, refl, Bool, true, false, [], ◌∷◌, ◌++◌, Option, none, some, Result, ok, err, panics,
}
use ptun.Base.Text.{String}
use ptun.Nat.Analyze.{UdpAddr}
use ptun.Network.Conns.{Conn, RawError, unresolved, dialed, close_conn, new_raw_conn}

-- A Close that fails leaves the socket to the caller.
pub data BindError : Type 0 where
  not_closed : BindError
  raw : RawError → BindError

abbrev pub bound : Conn → Result RawError Conn → Conn × Result BindError Conn
bound conn (ok c) = (conn, ok c)
bound conn (err e) = (conn, err (raw e))
bound conn panics = (conn, panics)

-- bind, from the address of the socket: `closes` says whether its Close works.
abbrev pub closed_bind :
    (UdpAddr → UdpAddr → Option Conn)
    → UdpAddr
    → Bool
    → Conn
    → Option UdpAddr
    → Conn × Result BindError Conn
closed_bind dial addr closes conn none = (conn, err (raw unresolved))
closed_bind dial addr false conn (some local) = (conn, err not_closed)
closed_bind dial addr true conn (some local) = bound (close_conn conn) (dialed (dial local addr))

unfoldable pub bind :
    (String → Option UdpAddr)
    → (UdpAddr → UdpAddr → Option Conn)
    → Bool
    → String
    → UdpAddr
    → Conn
    → Conn × Result BindError Conn
bind resolve dial closes local_addr addr conn =
    closed_bind dial addr closes conn (resolve local_addr)

-- The datagram "a".
unfoldable pub echo : Conn → Conn
echo conn = record conn { outgoing = conn.outgoing ++ (97 ∷ []) ∷ [] }

-- When the socket's address resolves and its Close works, bind leaves the socket and gives the result
-- that NewRawConn leaves and gives.
pub bind-new_raw_conn :
    (resolve : String → Option UdpAddr) (dial : UdpAddr → UdpAddr → Option Conn)
    (local_addr : String) (local addr : UdpAddr) (conn : Conn)
    → resolve local_addr ≡ some local
    → bind resolve dial true local_addr addr conn
      ≡ bound (close_conn conn) (new_raw_conn resolve dial local_addr addr conn).1
unfolding bind new_raw_conn
bind-new_raw_conn resolve dial local_addr local addr conn e = rw e refl
