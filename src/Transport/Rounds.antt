-- ===== src/Transport/Rounds.antt =====
-- A round of readloop in pkg/proto/transport.go, as a whole: it keeps the invariant of a Transport.
use ptun.Base.{
  ◌≡◌, refl, ◌∙◌, inl, inr, ◌≢◌, false, List, [], ◌∷◌, none, Result, ok, err, panics, All, arith,
}
use ptun.Base.Int.{pos}
use ptun.Packet.{Packet, Error}
use ptun.Packet.Tag
use ptun.Transport.Channel.{Chan, Send, sent, full, panicked, send}
use ptun.Transport.Invariant.{
  IsRaw, IsMessage, Inv, HasRound, send-Holds, close_transport-Inv, pack_to_conn-Inv,
}
use ptun.Transport.{
  Transport, Round, continues, returns, crashes, deliver, deliver_raw, deliver_req, deliver_resp,
  select_send, check, round,
}
use mathlib.Core.Path.{subst}

-- A round that does not crash, and ends in a good state.
abbrev pub IsSafe : Round → Type 0
IsSafe (continues u) = Inv u
IsSafe (returns u) = Inv u
IsSafe crashes = ⊥

send-closed : (pkt : Packet) (c : Chan Packet) → c.closed ≡ false → send pkt c ≢ panicked
unfolding send
send-closed pkt c h = ground arith

-- While the channels are as `done` says, a switch that starts with `done` unset cannot crash.
select_send-IsSafe :
    (t : Transport) (s : Send Packet) (with_chan : Chan Packet → Transport)
    → Inv t
    → s ≢ panicked
    → ((c : Chan Packet) → s ≡ sent c → Inv (with_chan c))
    → All IsSafe (select_send t s with_chan)
select_send-IsSafe t (sent c) with_chan v open_ keep = ground (arith, keep c refl)
select_send-IsSafe t full with_chan v open_ keep = ground arith
select_send-IsSafe t panicked with_chan v open_ keep = absurd (open_ refl)

with_raw-Inv :
    (pkt : Packet) (t : Transport) (c : Chan Packet)
    → Inv t
    → pkt.header.tag ≡ Tag.raw
    → send pkt t.raw_ch ≡ sent c
    → Inv (record t { raw_ch = c })
with_raw-Inv pkt t c v tag e = record {
  raw = send-Holds pkt t.raw_ch c 100 t.done IsRaw e v.raw tag;
  req = v.req;
  resp = v.resp;
  conn = v.conn;
  count = v.count;
  interval = v.interval;
  keepers = v.keepers;
}

with_req-Inv :
    (pkt : Packet) (t : Transport) (c : Chan Packet)
    → Inv t
    → IsMessage Tag.req pkt
    → send pkt t.req_ch ≡ sent c
    → Inv (record t { req_ch = c })
with_req-Inv pkt t c v m e = record {
  raw = v.raw;
  req = send-Holds pkt t.req_ch c 10 t.done (IsMessage Tag.req) e v.req m;
  resp = v.resp;
  conn = v.conn;
  count = v.count;
  interval = v.interval;
  keepers = v.keepers;
}

with_resp-Inv :
    (pkt : Packet) (t : Transport) (c : Chan Packet)
    → Inv t
    → IsMessage Tag.resp pkt
    → send pkt t.resp_ch ≡ sent c
    → Inv (record t { resp_ch = c })
with_resp-Inv pkt t c v m e = record {
  raw = v.raw;
  req = v.req;
  resp = send-Holds pkt t.resp_ch c 10 t.done (IsMessage Tag.resp) e v.resp m;
  conn = v.conn;
  count = v.count;
  interval = v.interval;
  keepers = v.keepers;
}

deliver_raw-IsSafe :
    (pkt : Packet) (t : Transport)
    → Inv t
    → t.done ≡ false
    → pkt.header.tag ≡ Tag.raw
    → All IsSafe (deliver_raw pkt t)
unfolding deliver_raw
deliver_raw-IsSafe pkt t v d tag =
    select_send-IsSafe t (send pkt t.raw_ch) _ v (send-closed pkt t.raw_ch (v.raw.closed_with ∙ d))
      (λ c e. with_raw-Inv pkt t c v tag e)

deliver_req-IsSafe :
    (pkt : Packet) (t : Transport)
    → Inv t
    → t.done ≡ false
    → IsMessage Tag.req pkt
    → All IsSafe (deliver_req pkt t)
unfolding deliver_req
deliver_req-IsSafe pkt t v d m =
    select_send-IsSafe t (send pkt t.req_ch) _ v (send-closed pkt t.req_ch (v.req.closed_with ∙ d))
      (λ c e. with_req-Inv pkt t c v m e)

deliver_resp-IsSafe :
    (pkt : Packet) (t : Transport)
    → Inv t
    → t.done ≡ false
    → IsMessage Tag.resp pkt
    → All IsSafe (deliver_resp pkt t)
unfolding deliver_resp
deliver_resp-IsSafe pkt t v d m =
    select_send-IsSafe t (send pkt t.resp_ch) _ v
      (send-closed pkt t.resp_ch (v.resp.closed_with ∙ d)) (λ c e. with_resp-Inv pkt t c v m e)

deliver-IsSafe :
    (pkt : Packet) (t : Transport) → Inv t → t.done ≡ false → All IsSafe (deliver pkt t)
unfolding deliver
deliver-IsSafe pkt t v d = ground (
  arith,
  deliver_raw-IsSafe pkt t v d,
  deliver_req-IsSafe pkt t v d,
  deliver_resp-IsSafe pkt t v d,
  pack_to_conn-Inv Tag.pong none t v,
)

alive-Inv : (t : Transport) → Inv t → Inv (record t { alive_count = pos 5 })
alive-Inv t v = record {
  raw = v.raw;
  req = v.req;
  resp = v.resp;
  conn = v.conn;
  count = omega arith;
  interval = v.interval;
  keepers = v.keepers;
}

-- A round of readloop with nothing in between does not crash, whatever UnpackFrom returned short of
-- a panic, and leaves a transport that was in a good state in one.
pub round-IsSafe :
    (r : Result Error Packet) (t : Transport) → r ≢ panics → Inv t → All IsSafe (round r t)
unfolding round check
round-IsSafe (ok pkt) t h v =
    ground
      (arith, alive-Inv t v, deliver-IsSafe pkt (record t { alive_count = pos 5 }) (alive-Inv t v))
round-IsSafe (err e) t h v = ground (arith, close_transport-Inv t v)
round-IsSafe panics t h v = absurd (h refl)

pub HasRound-IsSafe : (r : Round) (rs : List Round) → HasRound r rs → All IsSafe rs → IsSafe r
HasRound-IsSafe r [] h s = absurd h
HasRound-IsSafe r (x ∷ rs) (inl e) s = subst IsSafe e s.0
HasRound-IsSafe r (x ∷ rs) (inr h) s = HasRound-IsSafe r rs h s.1
