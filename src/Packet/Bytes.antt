-- ===== src/Packet/Bytes.antt =====
-- Unpack of pkg/proto/packet.go: frames in a byte slice, through a bytes.Reader.
use ptun.Base.{
  ℕ, ◌+◌, ◌*◌, ◌≤◌, ◌<◌, ◌≡◌, refl, ◌≢◌, List, [], ◌∷◌, ◌++◌, some, ok, err, length, All, arith,
  take-append, drop-append, take-append-drop, length-take,
}
use ptun.Packet.Readers.{got, read_bytes}
use ptun.Packet.Laws.{encoding, frame, IsFrame, take_buffer, unpack_from-frame}
use ptun.Packet.{
  Header, Packet, malformed, bytes_of, set_body, put_u16, Pool, read_rest, after_read, unpack_from,
  unpack, max_payload_size, header_size,
}

read_bytes-append : (p rest : List ℕ) → p ≢ [] → read_bytes (length p) (p ++ rest) ≡ (got p, rest)
unfolding read_bytes
read_bytes-append [] rest h = absurd (h refl)
read_bytes-append (b ∷ p) rest h = cc (take-append p rest, drop-append p rest)

-- Unpack reads back the encoding of a frame, which has a tag of 16 bits and at most 8180 bytes of
-- payload, whatever follows it, leaves what follows, and takes one buffer.
pub unpack-encoding :
    (tag : ℕ) (p rest : List ℕ) (pool : Pool)
    → IsFrame tag p
    → unpack (encoding tag p ++ rest) pool
      ≡ record { result = ok (frame tag p); reader = rest; pool = take_buffer pool }
unfolding unpack
unpack-encoding tag p rest pool h =
    unpack_from-frame read_bytes tag p _ (p ++ rest) rest pool h
      (read_bytes-append (put_u16 tag ++ put_u16 (length p)) (p ++ rest) (λ e. cc))
      (read_bytes-append p rest) (λ e. rw e)

abbrev pub IsByte : ℕ → Type 0
IsByte b = b < 256

read_rest_sound :
    (h : Header) (p : List ℕ) (pool : Pool) (pkt : Packet)
    → (read_rest read_bytes h p pool).result ≡ ok pkt
    → (pkt.header ≡ h)
      × (length (bytes_of pkt.body) ≡ h.length)
      × (h.length ≤ max_payload_size)
      × (p ≡ bytes_of pkt.body ++ (read_rest read_bytes h p pool).reader)
unfolding read_rest read_bytes
read_rest_sound h [] pool pkt e = ground arith
read_rest_sound h (b ∷ p) pool pkt e =
    ground (arith, take-append-drop h.length (b ∷ p), length-take h.length (b ∷ p))

-- What Unpack accepts of a list of bytes is a frame whose length field is its length: its bytes are
-- those of `encoding`, and the rest is left over.
pub unpack_sound :
    (p : List ℕ) (pool : Pool) (pkt : Packet)
    → All IsByte p
    → (unpack p pool).result ≡ ok pkt
    → IsFrame pkt.header.tag (bytes_of pkt.body)
      × (pkt.header.length ≡ length (bytes_of pkt.body))
      × (p ≡ encoding pkt.header.tag (bytes_of pkt.body) ++ (unpack p pool).reader)
unfolding unpack unpack_from after_read read_bytes
unpack_sound [] pool pkt bytes e = cc
unpack_sound (a ∷ []) pool pkt bytes e = cc
unpack_sound (a ∷ b ∷ []) pool pkt bytes e = cc
unpack_sound (a ∷ b ∷ c ∷ []) pool pkt bytes e = cc
unpack_sound (a ∷ b ∷ c ∷ d ∷ p) pool pkt (ha, (hb, (hc, (hd, _)))) e = ground (
  arith,
  read_rest_sound (record { tag = a * 256 + b; length = c * 256 + d }) p (take_buffer pool) pkt e,
)

-- SetBody takes up to four bytes more than a frame may carry: what it lets through then, Unpack
-- refuses.
pub set_body_too_long :
    (pkt : Packet) (p rest : List ℕ) (pool : Pool)
    → max_payload_size < length p
    → length p ≤ max_payload_size + header_size
    → (set_body pkt (some p)
        ≡ ok (record pkt {
          body = some p;
          header = record { tag = pkt.header.tag; length = length p };
        }))
      × ((unpack (encoding pkt.header.tag p ++ rest) pool).result ≡ err malformed)
unfolding set_body unpack unpack_from after_read read_rest read_bytes
set_body_too_long pkt p rest pool h k = (ground arith, ground arith)
