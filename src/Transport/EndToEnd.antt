-- ===== src/Transport/EndToEnd.antt =====
-- A payload from Transport.Write on one side to Transport.Read on the other
-- (pkg/proto/transport.go), over a connection that carries each write as one datagram.
use ptun.Base.{
  ℕ, ◌≤◌, ◌<◌, ◌≡◌, refl, ap, true, false, not, ◌&&◌, List, [], ◌∷◌, ◌++◌, some, ok, length, arith,
  append-nil,
}
use ptun.Base.Int.{pos}
use ptun.Packet.{Packet, Pool, bytes_of, release, unpack_from, put}
use ptun.Packet.Readers.{Conn, read_buf}
use ptun.Packet.Laws.{encoding, frame, frame_body, pack_into-encoding, take_buffer}
use ptun.Packet.Stream.{reader, conn_of, unpack_from-first}
use ptun.Packet.Tag
use ptun.Transport.Channel.{send, receive, receive_from}
use ptun.Transport.{
  Transport, pack_to_conn, continues, deliver, deliver_raw, check, round, reads, read,
  read_received, write, max_alive_count,
}

-- The transport once it has written a frame.
abbrev pub wrote : ℕ → List ℕ → Transport → Transport
wrote tag b t = record t {
  sink = record { calls = t.sink.calls ++ encoding tag b ∷ []; works = t.sink.works };
}

pub pack_to_conn-encoding :
    (tag : ℕ) (b : List ℕ) (t : Transport)
    → t.sink.works ≡ true
    → t.conn_closed ≡ false
    → length b ≤ 8180
    → pack_to_conn tag (some b) t ≡ (ok tt, wrote tag b t)
unfolding pack_to_conn
pack_to_conn-encoding tag b t w c h = ground (
  arith,
  pack_into-encoding tag (some b)
      (record { calls = t.sink.calls; works = t.sink.works && not t.conn_closed }) h,
)

-- Write sends the frame of the payload in one datagram, and reports its length.
write-encoding :
    (b : List ℕ) (t : Transport)
    → t.sink.works ≡ true
    → t.conn_closed ≡ false
    → length b ≤ 8180
    → write b t ≡ ((length b, ok tt), wrote Tag.raw b t)
unfolding write
write-encoding b t w c h = rw (pack_to_conn-encoding Tag.raw b t w c h) refl

-- The receiving transport once the frame is queued, and once it is read.
abbrev pub queued : List ℕ → Transport → Transport
queued b r = record r {
  alive_count = pos max_alive_count;
  raw_ch = record {
    cap = r.raw_ch.cap;
    queue = r.raw_ch.queue ++ frame Tag.raw b ∷ [];
    closed = r.raw_ch.closed;
  };
}

round-queued :
    (b : List ℕ) (r : Transport)
    → r.done ≡ false
    → r.raw_ch.closed ≡ false
    → length r.raw_ch.queue < r.raw_ch.cap
    → round (ok (frame Tag.raw b)) r ≡ continues (queued b r) ∷ []
unfolding round check deliver deliver_raw send
round-queued b r d c h = ground arith

pub bytes_of-frame_body : (b : List ℕ) → bytes_of (frame_body b) ≡ b
bytes_of-frame_body [] = refl
bytes_of-frame_body (x ∷ b) = refl

read_first :
    (b : List ℕ) (n : ℕ) (r : Transport) (rest : List Packet)
    → r.raw_ch.queue ≡ frame Tag.raw b ∷ rest
    → length b ≤ n
    → read n r
      ≡ reads (ok b) (record r {
        raw_ch = record { cap = r.raw_ch.cap; queue = rest; closed = r.raw_ch.closed };
        pool = put r.pool;
      })
unfolding read receive receive_from read_received release
read_first b n r rest e h = rw (e, receive) (ground (arith, bytes_of-frame_body b))

pub first_datagram :
    (tag : ℕ) (b : List ℕ) (more : List (List ℕ)) (c : Conn) (pool : Pool)
    → tag < 65536
    → length b ≤ 4092
    → unpack_from read_buf (reader [] (conn_of true (encoding tag b ∷ more) c)) pool ≡ record {
      result = ok (frame tag b);
      reader = reader [] (conn_of true more c);
      pool = take_buffer pool;
    }
first_datagram tag b more c pool k h = rw append-nil at (
    unpack_from-first true tag b [] more c pool (k, omega arith)
      (omega (arith, ap length (append-nil (encoding tag b)))))

-- A payload of at most 4092 bytes that is written to an open transport, whose connection works, goes
-- out as one datagram; an open transport with nothing waiting that reads this datagram queues it,
-- and its Read with a slice that is long enough returns the same bytes and puts the buffer back.
pub read-write :
    (b : List ℕ) (n : ℕ) (s r : Transport) (more : List (List ℕ)) (c : Conn) (pool : Pool)
    → length b ≤ 4092
    → length b ≤ n
    → s.sink.works ≡ true
    → s.conn_closed ≡ false
    → r.done ≡ false
    → r.raw_ch.closed ≡ false
    → r.raw_ch.cap ≡ 100
    → r.raw_ch.queue ≡ []
    → let u = unpack_from read_buf (reader [] (conn_of true (encoding Tag.raw b ∷ more) c)) pool in
      ((write b s).1.sink.calls ≡ s.sink.calls ++ encoding Tag.raw b ∷ [])
      × ((write b s).0 ≡ (length b, ok tt))
      × (u.reader ≡ reader [] (conn_of true more c))
      × (round u.result r ≡ continues (queued b r) ∷ [])
      × (read n (queued b r)
          ≡ reads (ok b) (record r {
            alive_count = pos max_alive_count;
            raw_ch = record { cap = r.raw_ch.cap; queue = []; closed = r.raw_ch.closed };
            pool = put r.pool;
          }))
read-write b n s r more c pool h k w o d l room idle =
    rw (first_datagram Tag.raw b more c pool (omega arith) h) (
      rw (write-encoding b s w o (omega arith)) (
        refl,
        refl,
        refl,
        round-queued b r d l (ground arith),
        read_first b n (queued b r) [] (rw idle) k,
      ))
