-- ===== src/Packet/Laws.antt =====
-- The frame format of pkg/proto/packet.go in plain arithmetic, and the two directions against it.
use ptun.Base.{
  ℕ, ◌+◌, ◌*◌, ◌/◌, ◌%◌, ◌≤◌, ◌<◌, ◌≡◌, refl, ◌≢◌, inl, inr, Bool, true, false, List, [], ◌∷◌, ◌++◌,
  Option, none, some, Result, ok, err, panics, length, drop, arith, ◌==◌, Bool-cases, if◌then◌else◌,
}
use ptun.Packet.Writers.{
  Sink, buf_writer, flush, holding, write-holding, flush-holding, flush-holding_failed,
}
use ptun.Packet.Readers.{ReadResult, got, fails}
use ptun.Packet.{
  Header, Packet, Error, too_long, write_failed, bytes_of, pack_raw, put_u16, get_u16, write_packet,
  finish, pack_into, Pool, put, Unpacked, read_body, read_rest, after_read, unpack_from,
  max_payload_size, header_size,
}

-- A frame: the tag and the length of the body, each in two bytes, high byte first; then the body.
abbrev pub encoding : ℕ → List ℕ → List ℕ
encoding tag p = (tag / 256) ∷ (tag % 256) ∷ (length p / 256) ∷ (length p % 256) ∷ p

abbrev pub sent : Sink → List ℕ → Sink
sent sink frame = record { calls = sink.calls ++ frame ∷ []; works = sink.works }

abbrev frame_packet : ℕ → Option (List ℕ) → Packet
frame_packet tag p = record {
  header = record { tag = tag; length = length (bytes_of p) };
  body = p;
  buf = false;
}

pack_raw-fits :
    (tag : ℕ) (p : Option (List ℕ))
    → length (bytes_of p) ≤ max_payload_size
    → pack_raw tag p ≡ ok (frame_packet tag p)
unfolding pack_raw
pack_raw-fits tag p h = ground arith

-- A frame fits the buffer, so it is held whole until the flush.
write_packet-holding :
    (tag : ℕ) (p : Option (List ℕ)) (sink : Sink)
    → length (bytes_of p) ≤ max_payload_size
    → write_packet (frame_packet tag p) (buf_writer (header_size + max_payload_size) sink)
      ≡ flush (holding (header_size + max_payload_size) sink (encoding tag (bytes_of p)))
write_packet-holding tag none sink h = cc (
  write-holding 8184 sink [] (put_u16 tag) (omega arith),
  write-holding 8184 sink (put_u16 tag) (put_u16 0) (omega arith),
)
write_packet-holding tag (some p) sink h = cc (
  write-holding 8184 sink [] (put_u16 tag) (omega arith),
  write-holding 8184 sink (put_u16 tag) (put_u16 (length p)) (omega arith),
  write-holding 8184 sink (put_u16 tag ++ put_u16 (length p)) p (omega arith),
)

-- PackInto of at most 8180 bytes makes one call of Write, which holds the whole frame, and fails if
-- that call does.
pub pack_into-encoding :
    (tag : ℕ) (payload : Option (List ℕ)) (sink : Sink)
    → length (bytes_of payload) ≤ max_payload_size
    → pack_into tag payload sink ≡ (
        if sink.works
        then record { result = ok tt; sink = sent sink (encoding tag (bytes_of payload)) }
        else record { result = err write_failed; sink = sink })
unfolding pack_into finish
pack_into-encoding tag p sink h =
    rw (pack_raw-fits tag p h, pack_into)
      (rw (write_packet-holding tag p sink h) (elim (Bool-cases sink.works) [
        | inl w ↦
            rw (flush-holding 8184 sink (encoding tag (bytes_of p)) (omega arith) w) (ground arith)
        | inr w ↦
            rw (flush-holding_failed 8184 sink (encoding tag (bytes_of p)) (omega arith) w)
              (ground arith)
      ]))

-- Nothing is written of a payload that is too long.
pub pack_into_too_long :
    (tag : ℕ) (payload : Option (List ℕ)) (sink : Sink)
    → max_payload_size < length (bytes_of payload)
    → pack_into tag payload sink ≡ record { result = err too_long; sink = sink }
unfolding pack_into pack_raw
pack_into_too_long tag payload sink h = ground arith

-- A reader hands over exactly the bytes asked for.
abbrev pub Delivers : {S : Type 0} → (ℕ → S → ReadResult × S) → S → List ℕ → S → Type 0
Delivers read s p s' = read (length p) s ≡ (got p, s')

-- What UnpackFrom makes of a frame.
abbrev pub frame_body : List ℕ → Option (List ℕ)
frame_body [] = none
frame_body (b ∷ p) = some (b ∷ p)

abbrev pub frame : ℕ → List ℕ → Packet
frame tag p = record {
  header = record { tag = tag; length = length p };
  body = frame_body p;
  buf = true;
}

abbrev pub IsFrame : ℕ → List ℕ → Type 0
IsFrame tag p = (tag < 65536) × (length p ≤ max_payload_size)

abbrev pub take_buffer : Pool → Pool
take_buffer pool = record pool { gets = pool.gets + 1 }

-- How a call of UnpackFrom ends, over the pool with its buffer taken: `full` says whether the whole
-- header was read.
abbrev pub Outcome : Pool → Bool → Result Error Packet → Pool → Type 0
Outcome taken full (ok pkt) after = (pkt.buf ≡ true) × (after ≡ taken)
Outcome taken full (err e) after = after ≡ (if full then put taken else taken)
Outcome taken full panics after = ⊥

abbrev pub Accounted : {S : Type 0} → Pool → Bool → Unpacked S → Type 0
Accounted taken full u = Outcome taken full u.result u.pool

abbrev pub full_header : ReadResult → Bool
full_header (fails e) = false
full_header (got h) = length h == header_size

module _ {S : Type 0} (read : ℕ → S → ReadResult × S) where
  -- The two bytes of each header field are read back, and the header is acted on.
  pub after_read-header :
      (tag n : ℕ) (s : S) (pool : Pool)
      → after_read read (got (put_u16 tag ++ put_u16 n)) s pool
        ≡ read_rest read (record { tag = tag; length = n }) s pool
  unfolding after_read
  after_read-header tag n s pool = cc (tag_lem tag, tag_lem n)
    where
      tag_lem : (k : ℕ) → k / 256 * 256 + k % 256 ≡ k
      tag_lem k = omega arith

  pub read_rest-body :
      (tag n : ℕ) (s : S) (pool : Pool)
      → 0 < n
      → n ≤ max_payload_size
      → read_rest read (record { tag = tag; length = n }) s pool
        ≡ read_body read (record { tag = tag; length = n }) s pool
  unfolding read_rest
  read_rest-body tag n s pool h k = ground arith

  read_rest-frame :
      (tag : ℕ) (p : List ℕ) (s s' : S) (pool : Pool)
      → length p ≤ max_payload_size
      → (p ≢ [] → Delivers read s p s')
      → (p ≡ [] → s ≡ s')
      → read_rest read (record { tag = tag; length = length p }) s pool
        ≡ record { result = ok (frame tag p); reader = s'; pool = pool }
  unfolding read_rest
  read_rest-frame tag [] s s' pool h body none_left = cc (none_left refl)
  read_rest-frame tag (b ∷ p) s s' pool h body none_left = ground (arith, body (λ e. cc))

  -- UnpackFrom over any reader that delivers the header, and then the body if there is one.
  pub unpack_from-frame :
      (tag : ℕ) (p : List ℕ) (s s1 s2 : S) (pool : Pool)
      → IsFrame tag p
      → Delivers read s (put_u16 tag ++ put_u16 (length p)) s1
      → (p ≢ [] → Delivers read s1 p s2)
      → (p ≡ [] → s1 ≡ s2)
      → unpack_from read s pool
        ≡ record { result = ok (frame tag p); reader = s2; pool = take_buffer pool }
  unfolding unpack_from
  unpack_from-frame tag p s s1 s2 pool (ht, hp) head body none_left = ground (
    arith,
    header_lem,
    length_lem,
    read_rest-frame tag p s1 s2 (take_buffer pool) hp body none_left,
  )
    where
      header_lem : tag / 256 * 256 + tag % 256 ≡ tag
      header_lem = omega arith

      length_lem : length p / 256 * 256 + length p % 256 ≡ length p
      length_lem = omega arith

  read_rest-pool :
      (h : Header) (s : S) (pool : Pool) → Accounted pool true (read_rest read h s pool)
  unfolding read_rest
  read_rest-pool h s pool = ground arith

  after_read-pool :
      (r : ReadResult) (s : S) (pool : Pool)
      → Accounted (take_buffer pool) (full_header r) (after_read read r s (take_buffer pool))
  unfolding after_read
  after_read-pool (fails e) s pool = refl
  after_read-pool (got h) s pool = ground (
    arith,
    read_rest-pool (record { tag = get_u16 h; length = get_u16 (drop 2 h) }) s (take_buffer pool),
  )

  -- Every call takes one buffer and does not panic. A packet that is returned holds the buffer; on
  -- an error the buffer is put back exactly when the header was read in full, else it is dropped.
  pub unpack_from-pool :
      (s : S) (pool : Pool)
      → Accounted (take_buffer pool) (full_header (read header_size s).0) (unpack_from read s pool)
  unfolding unpack_from
  unpack_from-pool s pool = after_read-pool (read header_size s).0 (read header_size s).1 pool
