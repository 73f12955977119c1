-- ===== src/Packet.antt =====
-- pkg/proto/packet.go: the frame format, and how frames are written and read.
-- A byte slice is an `Option (List ℕ)` where the code tells nil from empty, a `List ℕ` elsewhere.
-- The io.Reader that a frame is read from is an argument (Packet/Readers has the two in use).
pub mod Tag
pub mod Writers
pub mod Readers
pub mod Laws
pub mod Bytes
pub mod Stream
pub mod Tests
use ptun.Base.{
  ℕ, ◌+◌, ◌*◌, ◌/◌, ◌%◌, ◌≡◌, Bool, true, false, List, [], ◌∷◌, ◌++◌, Option, none, some, Result,
  ok, err, panics, length, take, drop, ltb, ◌==◌, if◌then◌else◌,
}
use Writers.{Sink, BufWriter, buf_writer, write, flush}
use Readers.{ReadError, ReadResult, got, fails}

abbrev pub max_payload_size : ℕ
max_payload_size = 8180

abbrev pub header_size : ℕ
header_size = 4

pub record Header : Type 0 where
  pub tag : ℕ
  pub length : ℕ

-- `buf` says whether the packet holds a buffer of the pool.
pub record Packet : Type 0 where
  pub header : Header
  pub body : Option (List ℕ)
  pub buf : Bool

pub data Error : Type 0 where
  too_long malformed write_failed : Error
  read_failed : ReadError → Error

-- A slice's length and bytes; nil has none.
abbrev pub bytes_of : Option (List ℕ) → List ℕ
bytes_of none = []
bytes_of (some p) = p

abbrev pub u16 : ℕ → ℕ
u16 n = n % 65536

-- SetBody: the body is replaced also when the call fails.
pub set_body : Packet → Option (List ℕ) → Result Error Packet
set_body pkt p =
    if ltb (max_payload_size + header_size) (length (bytes_of p))
    then err too_long
    else ok (record pkt {
      body = p;
      header = record { tag = pkt.header.tag; length = u16 (length (bytes_of p)) };
    })

pub pack_raw : ℕ → Option (List ℕ) → Result Error Packet
pack_raw pt p =
    if ltb max_payload_size (length (bytes_of p))
    then err too_long
    else ok (record {
      header = record {
        tag = pt;
        length = if ltb 0 (length (bytes_of p)) then u16 (length (bytes_of p)) else 0;
      };
      body = p;
      buf = false;
    })

-- binary.BigEndian on a uint16.
abbrev pub put_u16 : ℕ → List ℕ
put_u16 n = (n / 256) ∷ (n % 256) ∷ []

abbrev pub get_u16 : List ℕ → ℕ
get_u16 (a ∷ b ∷ _) = a * 256 + b
get_u16 _ = 0

-- A packet as PackInto writes it: the two header fields, then the body unless it is nil.
abbrev write_packet : Packet → BufWriter → BufWriter
write_packet pkt w =
    let head = write (write w (put_u16 pkt.header.tag)) (put_u16 pkt.header.length) in
    flush (elim pkt.body [ none ↦ head | some p ↦ write head p ])

pub record Written : Type 0 where
  pub result : Result Error (Unit {0})
  pub sink : Sink

finish : BufWriter → Written
finish w = record { result = if w.failed then err write_failed else ok tt; sink = w.sink }

pub pack_into : ℕ → Option (List ℕ) → Sink → Written
unfolding finish
pack_into pt payload sink = elim (pack_raw pt payload) [
  | ok pkt ↦ finish (write_packet pkt (buf_writer (header_size + max_payload_size) sink))
  | err e ↦ record { result = err e; sink = sink }
  | panics ↦ record { result = panics; sink = sink }
]

-- The buffer pool: how many buffers were taken from it, and how many were put back.
pub record Pool : Type 0 where
  pub gets : ℕ
  pub puts : ℕ

abbrev pub put : Pool → Pool
put pool = record pool { puts = pool.puts + 1 }

unfoldable pub release : Packet → Pool → Pool
release pkt pool = if pkt.buf then put pool else pool

pub record Unpacked (S : Type 0) : Type 0 where
  pub result : Result Error Packet
  pub reader : S
  pub pool : Pool

module _ {S : Type 0} (read : ℕ → S → ReadResult × S) where
  -- The second read, once the header has announced a body.
  pub read_body : Header → S → Pool → Unpacked S
  read_body h s pool =
      let (r, s') = read h.length s in
      elim r [
        | fails e ↦ record { result = err (read_failed e); reader = s'; pool = put pool }
        | got p ↦
            if length p == h.length
            then record {
              result = ok (record { header = h; body = some p; buf = true });
              reader = s';
              pool = pool;
            }
            else record { result = err malformed; reader = s'; pool = put pool }
      ]

  -- What is done with a header of the full size.
  pub read_rest : Header → S → Pool → Unpacked S
  unfolding read_body
  read_rest h s pool =
      if h.length == 0
      then record {
        result = ok (record { header = h; body = none; buf = true });
        reader = s;
        pool = pool;
      }
      else if ltb max_payload_size h.length
      then record { result = err malformed; reader = s; pool = put pool }
      else read_body h s pool

  -- What is done with the outcome of the first read.
  pub after_read : ReadResult → S → Pool → Unpacked S
  unfolding read_rest
  after_read (fails e) s pool = record { result = err (read_failed e); reader = s; pool = pool }
  after_read (got h) s pool =
      if length h == header_size
      then read_rest (record { tag = get_u16 h; length = get_u16 (drop 2 h) }) s pool
      else record { result = err malformed; reader = s; pool = pool }

  pub unpack_from : S → Pool → Unpacked S
  unfolding after_read
  unpack_from s pool =
      let (r, s') = read header_size s in after_read r s' (record pool { gets = pool.gets + 1 })

pub unpack : List ℕ → Pool → Unpacked (List ℕ)
unfolding unpack_from
unpack p pool = unpack_from Readers.read_bytes p pool
