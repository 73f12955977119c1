-- ===== src/Packet/Tests.antt =====
-- Concrete frames, and the theorems at concrete inputs.
use ptun.Base.{ℕ, ◌≡◌, refl, true, List, [], ◌∷◌, ◌++◌, some, ok, length, arith}
use ptun.Packet.Tag
use ptun.Packet.Writers.{Sink}
use ptun.Packet.Readers.{eof, Conn, read_bytes}
use ptun.Packet.Laws.{
  encoding, sent, frame, IsFrame, take_buffer, Accounted, full_header, pack_into-encoding,
  unpack_from-pool,
}
use ptun.Packet.Bytes.{unpack-encoding, unpack_sound}
use ptun.Packet.{pack_into, Pool, unpack_from, unpack}

abbrev hello : List ℕ
hello = 104 ∷ 105 ∷ []

abbrev wire : Sink
wire = record { calls = []; works = true }

abbrev fresh : Pool
fresh = record { gets = 0; puts = 0 }

abbrev quiet : Conn
quiet = record { segments = []; datagram = true; at_end = eof }

pack_into-encoding_example :
    pack_into Tag.req (some hello) wire
    ≡ record { result = ok tt; sink = sent wire (0 ∷ 12 ∷ 0 ∷ 2 ∷ 104 ∷ 105 ∷ []) }
pack_into-encoding_example = pack_into-encoding Tag.req (some hello) wire (omega arith)

unpack-encoding_example :
    unpack (0 ∷ 12 ∷ 0 ∷ 2 ∷ 104 ∷ 105 ∷ 9 ∷ []) fresh
    ≡ record { result = ok (frame 12 hello); reader = 9 ∷ []; pool = take_buffer fresh }
unpack-encoding_example = unpack-encoding 12 hello (9 ∷ []) fresh (omega arith)

unpack_sound_example :
    IsFrame 12 hello
    × ◌≡◌ {A = ℕ} 2 (length hello)
    × (0 ∷ 12 ∷ 0 ∷ 2 ∷ 104 ∷ 105 ∷ 9 ∷ []
        ≡ encoding 12 hello ++ (unpack (0 ∷ 12 ∷ 0 ∷ 2 ∷ 104 ∷ 105 ∷ 9 ∷ []) fresh).reader)
unfolding unpack unpack_from read_bytes
unpack_sound_example =
    unpack_sound (0 ∷ 12 ∷ 0 ∷ 2 ∷ 104 ∷ 105 ∷ 9 ∷ []) fresh (frame 12 hello) (omega arith) refl

unpack_from-pool_example :
    Accounted
      (take_buffer fresh)
      (full_header (read_bytes 4 (1 ∷ [])).0)
      (unpack_from read_bytes (1 ∷ []) fresh)
unpack_from-pool_example = unpack_from-pool read_bytes (1 ∷ []) fresh
