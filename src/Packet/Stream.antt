-- ===== src/Packet/Stream.antt =====
-- UnpackFrom of pkg/proto/packet.go over the bufio.Reader of Transport.readloop: what arrives when
-- frames come as datagrams, several in one buffer, or cut into segments by a stream.
use ptun.Base.{
  ℕ, ◌≤◌, ◌<◌, ◌≡◌, refl, ◌∙◌, drop_of_length-le, ◌≢◌, Bool, true, false, List, [], ◌∷◌, ◌++◌, ok,
  err, length, take, drop, arith, take-append, drop-append, take_of_length-le, length-take,
}
use ptun.Packet.Readers.{rest_of, got, Conn, BufReader, buffer_size, read_buf, read_conn}
use ptun.Packet.Laws.{
  encoding, frame, IsFrame, take_buffer, unpack_from-frame, after_read-header, read_rest-body,
}
use ptun.Packet.{Header, malformed, put_u16, Pool, after_read, read_body, unpack_from, header_size}

abbrev pub reader : List ℕ → Conn → BufReader
reader held conn = record { buffered = held; conn = conn }

read_buf-held :
    (p rest : List ℕ) (c : Conn)
    → p ≢ []
    → read_buf (length p) (reader (p ++ rest) c) ≡ (got p, reader rest c)
unfolding read_buf
read_buf-held [] rest c h = absurd (h refl)
read_buf-held (b ∷ p) rest c h = cc (take-append p rest, drop-append p rest)

-- A frame that lies in the buffer is read whole, and what follows it stays in the buffer.
pub unpack_from-held :
    (tag : ℕ) (p rest : List ℕ) (c : Conn) (pool : Pool)
    → IsFrame tag p
    → unpack_from read_buf (reader (encoding tag p ++ rest) c) pool
      ≡ record { result = ok (frame tag p); reader = reader rest c; pool = take_buffer pool }
unpack_from-held tag p rest c pool h =
    unpack_from-frame read_buf tag p _ (reader (p ++ rest) c) (reader rest c) pool h
      (read_buf-held (put_u16 tag ++ put_u16 (length p)) (p ++ rest) c (λ e. cc))
      (read_buf-held p rest c) (λ e. rw e)

abbrev pub conn_of : Bool → List (List ℕ) → Conn → Conn
conn_of datagram segments c = record { segments = segments; datagram = datagram; at_end = c.at_end }

read_conn-fits :
    (m : ℕ) (datagram : Bool) (s : List ℕ) (more : List (List ℕ)) (c : Conn)
    → length s ≤ m
    → read_conn m (conn_of datagram (s ∷ more) c) ≡ (got s, conn_of datagram more c)
unfolding read_conn rest_of
read_conn-fits m datagram s more c h = rw (take_of_length-le m s h, drop_of_length-le m s h)

-- With the buffer empty, a segment that fits it is read as if it had lain there.
read_buf-segment :
    (n : ℕ) (datagram : Bool) (b : ℕ) (s : List ℕ) (more : List (List ℕ)) (c : Conn)
    → length (b ∷ s) ≤ buffer_size
    → n < buffer_size
    → read_buf n (reader [] (conn_of datagram ((b ∷ s) ∷ more) c))
      ≡ read_buf n (reader (b ∷ s) (conn_of datagram more c))
unfolding read_buf
read_buf-segment n datagram b s more c h k =
    ground (arith, read_conn-fits buffer_size datagram (b ∷ s) more c h)

unpack_from-segment :
    (datagram : Bool) (b : ℕ) (s : List ℕ) (more : List (List ℕ)) (c : Conn) (pool : Pool)
    → length (b ∷ s) ≤ buffer_size
    → unpack_from read_buf (reader [] (conn_of datagram ((b ∷ s) ∷ more) c)) pool
      ≡ unpack_from read_buf (reader (b ∷ s) (conn_of datagram more c)) pool
unfolding unpack_from
unpack_from-segment datagram b s more c pool h =
    cc (read_buf-segment header_size datagram b s more c h (omega arith))

-- A segment of at most 4096 bytes that begins with a frame, on either kind of connection: the frame
-- is read whole, and what follows it in the segment waits in the buffer.
pub unpack_from-first :
    (datagram : Bool) (tag : ℕ) (p rest : List ℕ) (more : List (List ℕ)) (c : Conn) (pool : Pool)
    → IsFrame tag p
    → length (encoding tag p ++ rest) ≤ buffer_size
    → unpack_from read_buf (reader [] (conn_of datagram ((encoding tag p ++ rest) ∷ more) c)) pool
      ≡ record {
        result = ok (frame tag p);
        reader = reader rest (conn_of datagram more c);
        pool = take_buffer pool;
      }
unpack_from-first datagram tag p rest more c pool f h =
    unpack_from-segment datagram _ _ more c pool h
    ∙ unpack_from-held tag p rest (conn_of datagram more c) pool f

rest_of-datagram : (s : List ℕ) (more : List (List ℕ)) → rest_of true s more ≡ more
unfolding rest_of
rest_of-datagram [] more = refl
rest_of-datagram (b ∷ s) more = refl

read_conn-datagram :
    (m : ℕ) (s : List ℕ) (more : List (List ℕ)) (c : Conn)
    → read_conn m (conn_of true (s ∷ more) c) ≡ (got (take m s), conn_of true more c)
unfolding read_conn
read_conn-datagram m s more c = rw (rest_of-datagram (drop m s) more)

-- The header of a datagram, and as much of the body as the buffer has room for.
read_buf-header :
    (tag : ℕ) (p : List ℕ) (more : List (List ℕ)) (c : Conn)
    → read_buf header_size (reader [] (conn_of true (encoding tag p ∷ more) c))
      ≡ (got (put_u16 tag ++ put_u16 (length p)), reader (take 4092 p) (conn_of true more c))
unfolding read_buf
read_buf-header tag p more c =
    ground (arith, read_conn-datagram buffer_size (encoding tag p) more c)

read_body-cut :
    (h : Header) (b : ℕ) (q : List ℕ) (c : Conn) (pool : Pool)
    → length (b ∷ q) < h.length
    → let u = read_body read_buf h (reader (b ∷ q) c) pool in
      (u.result ≡ err malformed) × (u.reader ≡ reader [] c)
unfolding read_body read_buf
read_body-cut h b q c pool k =
    ground (arith, take_of_length-le h.length (b ∷ q), drop_of_length-le h.length (b ∷ q))

-- A datagram with a frame of more than 4096 bytes is lost: the buffer cuts it off, the packet counts
-- as malformed, and the next datagram is read from its start.
pub unpack_from-datagram_too_long :
    (tag : ℕ) (p : List ℕ) (more : List (List ℕ)) (c : Conn) (pool : Pool)
    → IsFrame tag p
    → buffer_size < length (encoding tag p)
    → let u = unpack_from read_buf (reader [] (conn_of true (encoding tag p ∷ more) c)) pool in
      (u.result ≡ err malformed) × (u.reader ≡ reader [] (conn_of true more c))
unfolding unpack_from
unpack_from-datagram_too_long tag [] more c pool f h = absurd (omega arith)
unpack_from-datagram_too_long tag (b ∷ p) more c pool f h =
    rw (read_buf-header tag (b ∷ p) more c) (
      rw (after_read-header read_buf tag (length (b ∷ p)) _ _) (
        rw (read_rest-body read_buf tag (length (b ∷ p)) _ _ (omega arith) f.1) (
          read_body-cut (record { tag = tag; length = length (b ∷ p) }) b (take 4091 p)
            (conn_of true more c) (take_buffer pool) (omega (arith, length-take 4091 p)))))

-- A stream segment of one to three bytes, read with nothing buffered, is taken for a malformed
-- packet, and is gone: the next read begins at the bytes after it.
pub unpack_from-short_header :
    (b : ℕ) (s : List ℕ) (more : List (List ℕ)) (c : Conn) (pool : Pool)
    → length (b ∷ s) < header_size
    → let u = unpack_from read_buf (reader [] (conn_of false ((b ∷ s) ∷ more) c)) pool in
      (u.result ≡ err malformed) × (u.reader ≡ reader [] (conn_of false more c))
unfolding unpack_from after_read read_buf
unpack_from-short_header b s more c pool h =
    rw (unpack_from-segment false b s more c pool (omega arith))
      (ground (arith, take_of_length-le header_size (b ∷ s), drop_of_length-le header_size (b ∷ s)))
