-- ===== src/Packet/Readers.antt =====
-- The io.Readers that frames are read from: a bytes.Reader, and a bufio.Reader over a connection.
use ptun.Base.{ℕ, Bool, List, [], ◌∷◌, take, drop, leb, if◌then◌else◌}

pub data ReadError : Type 0 where
  eof net other : ReadError

pub data ReadResult : Type 0 where
  got : List ℕ → ReadResult
  fails : ReadError → ReadResult

-- bytes.Reader.Read into a slice of the given length.
unfoldable pub read_bytes : ℕ → List ℕ → ReadResult × List ℕ
read_bytes n [] = (fails eof, [])
read_bytes n (b ∷ bs) = (got (take n (b ∷ bs)), drop n (b ∷ bs))

-- A connection delivers segments. What does not fit the reader's slice is kept by a stream, and
-- dropped by a datagram socket. `at_end` is the error once nothing more comes.
pub record Conn : Type 0 where
  pub segments : List (List ℕ)
  pub datagram : Bool
  pub at_end : ReadError

unfoldable pub rest_of : Bool → List ℕ → List (List ℕ) → List (List ℕ)
rest_of datagram [] more = more
rest_of datagram (b ∷ bs) more = if datagram then more else (b ∷ bs) ∷ more

pub read_segments : ℕ → List (List ℕ) → Conn → ReadResult × Conn
unfolding rest_of
read_segments n [] c = (fails c.at_end, c)
read_segments n (s ∷ more) c =
    (got (take n s), record c { segments = rest_of c.datagram (drop n s) more })

unfoldable pub read_conn : ℕ → Conn → ReadResult × Conn
unfolding read_segments
read_conn n c = read_segments n c.segments c

-- bufio.Reader with its default size.
abbrev pub buffer_size : ℕ
buffer_size = 4096

pub record BufReader : Type 0 where
  pub buffered : List ℕ
  pub conn : Conn

-- Read with an empty buffer: one read of the connection, straight into a slice that is no
-- shorter than the buffer, else through the buffer.
fill : ℕ → Conn → ReadResult × BufReader
fill n c =
    let (r, c') = read_conn (if leb buffer_size n then n else buffer_size) c in
    elim r [
      | fails e ↦ (fails e, record { buffered = []; conn = c' })
      | got p ↦ (got (take n p), record { buffered = drop n p; conn = c' })
    ]

pub read_buffered : ℕ → List ℕ → Conn → ReadResult × BufReader
unfolding fill
read_buffered n [] c = fill n c
read_buffered n (b ∷ bs) c =
    (got (take n (b ∷ bs)), record { buffered = drop n (b ∷ bs); conn = c })

unfoldable pub read_buf : ℕ → BufReader → ReadResult × BufReader
unfolding read_buffered
read_buf n r = read_buffered n r.buffered r.conn
