-- ===== src/Transport/Tests.antt =====
-- The theorems on the transport at concrete inputs.
use ptun.Base.{ℕ, ◌≡◌, refl, true, false, List, [], ◌∷◌, ◌++◌, ok, arith, All}
use ptun.Base.Int.{pos}
use ptun.Packet.{Pool, put, unpack_from}
use ptun.Packet.Writers.{Sink}
use ptun.Packet.Readers.{Conn, eof, read_buf}
use ptun.Packet.Stream.{reader, conn_of}
use ptun.Packet.Laws.{encoding, frame}
use ptun.Packet.Tag
use ptun.Transport.Invariant.{Inv}
use ptun.Transport.Rounds.{IsSafe, round-IsSafe}
use ptun.Transport.Steps.{here, next, closing, writing, Reach-Inv, new_transport-Inv}
use ptun.Transport.EndToEnd.{queued, read-write}
use ptun.Transport.{
  Transport, new_transport, close_transport, continues, round, read, reads, write, max_alive_count,
}

abbrev hello : List ℕ
hello = 104 ∷ 105 ∷ []

abbrev wire : Sink
wire = record { calls = []; works = true }

abbrev fresh : Pool
fresh = record { gets = 0; puts = 0 }

abbrev quiet : Conn
quiet = record { segments = []; datagram = true; at_end = eof }

abbrev idle : Transport
idle = new_transport wire fresh

read-write_example :
    let u =
      unpack_from read_buf (reader [] (conn_of true (encoding Tag.raw hello ∷ []) quiet)) fresh in
    ((write hello idle).1.sink.calls ≡ [] ++ encoding Tag.raw hello ∷ [])
    × ((write hello idle).0 ≡ (2, ok tt))
    × (u.reader ≡ reader [] (conn_of true [] quiet))
    × (round u.result idle ≡ continues (queued hello idle) ∷ [])
    × (read 10 (queued hello idle)
        ≡ reads (ok hello) (record idle {
          alive_count = pos max_alive_count;
          raw_ch = record { cap = 100; queue = []; closed = false };
          pool = put fresh;
        }))
unfolding new_transport
read-write_example =
    read-write hello 10 idle idle [] quiet fresh (omega arith) (omega arith) refl refl refl refl
      refl refl

Reach-Inv_example : Inv (close_transport (write hello idle).1)
Reach-Inv_example =
    Reach-Inv (next (next here (writing hello)) closing) (new_transport-Inv wire fresh)

round-IsSafe_example : All IsSafe (round (ok (frame Tag.req hello)) idle)
round-IsSafe_example =
    round-IsSafe (ok (frame Tag.req hello)) idle (λ e. cc e) (new_transport-Inv wire fresh)
