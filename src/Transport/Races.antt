-- ===== src/Transport/Races.antt =====
-- What pkg/proto/transport.go leaves to chance: a Close between two lines of readloop.
use ptun.Base.{◌≤◌, ◌<◌, ◌≡◌, false, [], ◌∷◌, ◌++◌, length, ok, arith}
use ptun.Packet.{Packet}
use ptun.Packet.Tag
use ptun.Transport.Channel.{send}
use ptun.Transport.{
  Transport, close_transport, continues, returns, crashes, switches, deliver, deliver_raw, check,
  alive,
}

-- If Close runs after readloop has seen an open transport, with a raw packet in hand, and before its
-- select, the select finds two ready cases: it may return, and it may send on the closed channel,
-- which panics.
pub deliver-close_transport :
    (pkt : Packet) (t : Transport)
    → t.done ≡ false
    → pkt.header.tag ≡ Tag.raw
    → (check (ok pkt) t ≡ switches pkt (alive t))
      × (deliver pkt (close_transport (alive t))
          ≡ returns (close_transport (alive t)) ∷ crashes ∷ [])
unfolding check deliver deliver_raw close_transport send
deliver-close_transport pkt t d e = ground arith

-- With no Close in between, a raw packet is queued behind the others if there is room, and the loop
-- waits, with nothing dropped, exactly if there is none.
pub deliver-open :
    (pkt : Packet) (t : Transport)
    → t.done ≡ false
    → t.raw_ch.closed ≡ false
    → pkt.header.tag ≡ Tag.raw
    → (length t.raw_ch.queue < t.raw_ch.cap
        → deliver pkt t
          ≡ continues (record t {
            raw_ch = record {
              cap = t.raw_ch.cap;
              queue = t.raw_ch.queue ++ pkt ∷ [];
              closed = t.raw_ch.closed;
            };
          })
            ∷ [])
      × (t.raw_ch.cap ≤ length t.raw_ch.queue → deliver pkt t ≡ [])
unfolding deliver deliver_raw send
deliver-open pkt t d c e = ground arith
