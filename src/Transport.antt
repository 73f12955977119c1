-- ===== src/Transport.antt =====
-- pkg/proto/transport.go: the state of a Transport and its methods. The connection's read side is
-- a reader as in Packet/Readers; its write side is a Sink. A method that can block says so.
pub mod Channel
pub mod Invariant
pub mod Rounds
pub mod Steps
pub mod Keepalive
pub mod EndToEnd
pub mod Calls
pub mod Races
pub mod Tests
use ptun.Base.{
  ℕ, ◌+◌, ◌≡◌, Bool, true, false, not, ◌&&◌, List, [], ◌∷◌, ◌++◌, Option, none, some, Result, ok,
  err, panics, length, ltb, ◌==◌, if◌then◌else◌,
}
use ptun.Base.Int.{ℤ, pos, is_negative, decrement}
use ptun.Packet.{
  Packet, Pool, Unpacked, Written, Error, read_failed, bytes_of, pack_into, release, unpack_from,
}
use ptun.Packet.Readers.{ReadError, eof, net, other, BufReader, read_buf}
use ptun.Packet.Writers.{Sink}
use ptun.Packet.Tag
use Channel.{
  Chan, make, Send, sent, full, panicked, send, Receive, received, drained, empty, receive, close,
}

abbrev pub max_alive_count : ℕ
max_alive_count = 5

-- `interrupt` is the field aliveInterupt, `next_interrupt` names the next channel that is made.
-- `pingers` and `watchers` are the goroutines of SetKeepalive that still run, by the interrupt channel
-- they were given; a channel of theirs that `interrupt` does not hold is closed.
pub record Transport : Type 0 where
  pub raw_ch : Chan Packet
  pub req_ch : Chan Packet
  pub resp_ch : Chan Packet
  pub alive_count : ℤ
  pub alive_interval : ℕ
  pub interrupt : Option ℕ
  pub pingers : List ℕ
  pub watchers : List ℕ
  pub next_interrupt : ℕ
  pub done : Bool
  pub conn_closed : Bool
  pub sink : Sink
  pub pool : Pool

unfoldable pub new_transport : Sink → Pool → Transport
new_transport sink pool = record {
  raw_ch = make 100;
  req_ch = make 10;
  resp_ch = make 10;
  alive_count = pos max_alive_count;
  alive_interval = 0;
  interrupt = none;
  pingers = [];
  watchers = [];
  next_interrupt = 0;
  done = false;
  conn_closed = false;
  sink = sink;
  pool = pool;
}

-- Close: the channels once, the connection each time.
pub close_transport : Transport → Transport
close_transport t = if t.done then record t { conn_closed = true } else record t {
  raw_ch = close t.raw_ch;
  req_ch = close t.req_ch;
  resp_ch = close t.resp_ch;
  done = true;
  conn_closed = true;
}

-- A write to the connection, as PackInto makes it; a closed connection refuses it.
pub pack_to_conn : ℕ → Option (List ℕ) → Transport → Result Error (Unit {0}) × Transport
pack_to_conn tag payload t =
    let w =
      pack_into tag payload
        (record { calls = t.sink.calls; works = t.sink.works && not t.conn_closed }) in
    (w.result, record t { sink = record { calls = w.sink.calls; works = t.sink.works } })

-- How one round of readloop may end.
pub data Round : Type 0 where
  continues returns : Transport → Round
  crashes : Round

abbrev pub is_stop : Packet → Bool
is_stop pkt = elim pkt.body [ none ↦ true | some p ↦ false ]

abbrev stopped : Transport → List Round → List Round
stopped t rounds = if t.done then returns t ∷ rounds else rounds

-- `select` between `done` and a send: every ready case may be chosen, and a send on a closed channel
-- counts as ready. No round at all means that the loop waits.
abbrev select_send : Transport → Send Packet → (Chan Packet → Transport) → List Round
select_send t (sent c) with_chan = stopped t (continues (with_chan c) ∷ [])
select_send t full with_chan = stopped t []
select_send t panicked with_chan = stopped t (crashes ∷ [])

deliver_raw : Packet → Transport → List Round
deliver_raw pkt t = select_send t (send pkt t.raw_ch) (λ c. record t { raw_ch = c })

deliver_req : Packet → Transport → List Round
deliver_req pkt t = select_send t (send pkt t.req_ch) (λ c. record t { req_ch = c })

deliver_resp : Packet → Transport → List Round
deliver_resp pkt t = select_send t (send pkt t.resp_ch) (λ c. record t { resp_ch = c })

-- The switch on the packet's tag. A request or response with no body is skipped, and so is a packet
-- with any other tag.
pub deliver : Packet → Transport → List Round
unfolding deliver_raw deliver_req deliver_resp
deliver pkt t =
    if pkt.header.tag == Tag.raw
    then deliver_raw pkt t
    else if pkt.header.tag == Tag.req
    then (if is_stop pkt then continues t ∷ [] else deliver_req pkt t)
    else if pkt.header.tag == Tag.resp
    then (if is_stop pkt then continues t ∷ [] else deliver_resp pkt t)
    else if pkt.header.tag == Tag.ping
    then continues (pack_to_conn Tag.pong none t).1 ∷ []
    else continues t ∷ []

-- The part of a round between the read and the switch: a packet is passed on to the switch.
pub data Checked : Type 0 where
  switches : Packet → Transport → Checked
  ends : Round → Checked

abbrev alive : Transport → Transport
alive t = record t { alive_count = pos max_alive_count }

-- io.EOF and every net.Error end the loop; any other error is skipped.
abbrev is_fatal : Error → Bool
is_fatal (read_failed eof) = true
is_fatal (read_failed net) = true
is_fatal _ = false

pub check : Result Error Packet → Transport → Checked
check (err e) t = ends (if is_fatal e then returns (close_transport t) else continues t)
check panics t = ends crashes
check (ok pkt) t = if t.done then ends (returns (alive t)) else switches pkt (alive t)

-- One round of readloop with nothing in between, on the outcome of UnpackFrom.
pub round : Result Error Packet → Transport → List Round
unfolding check deliver
round r t = elim (check r t) [ ends last ↦ last ∷ [] | switches pkt t' ↦ deliver pkt t' ]

-- Read takes the oldest raw packet, and loses it if it is longer than the slice.
pub data ReadFailure : Type 0 where
  channel_closed too_short : ReadFailure

pub data Reading : Type 0 where
  waits : Reading
  reads : Result ReadFailure (List ℕ) → Transport → Reading

read_received : ℕ → Packet → Transport → Reading
read_received n p t =
    let t' = record t { pool = release p t.pool } in
    if ltb n (length (bytes_of p.body))
    then reads (err too_short) t'
    else reads (ok (bytes_of p.body)) t'

pub read : ℕ → Transport → Reading
unfolding read_received
read n t = elim (receive t.raw_ch) [
  | empty ↦ waits
  | drained ↦ reads (err channel_closed) t
  | received p c ↦ read_received n p (record t { raw_ch = c })
]

-- Write reports the length of the slice with any error.
pub write : List ℕ → Transport → (ℕ × Result Error (Unit {0})) × Transport
write b t = let (r, t') = pack_to_conn Tag.raw (some b) t in ((length b, r), t')

-- A goroutine ends once it has seen its interrupt closed, or `done`.
unfoldable pub drop_keeper : ℕ → List ℕ → List ℕ
drop_keeper i [] = []
drop_keeper i (k ∷ ks) = if k == i then drop_keeper i ks else k ∷ drop_keeper i ks

-- SetKeepalive. It compares with aliveInterval, which no method assigns. The goroutines of an
-- interrupt that it closes run on until they look at it.
abbrev stop_keeper : Transport → Option ℕ → Transport
stop_keeper t none = t
stop_keeper t (some i) = record t { interrupt = none }

start_keeper : Transport → Transport
start_keeper t = record t {
  interrupt = some t.next_interrupt;
  pingers = t.next_interrupt ∷ t.pingers;
  watchers = t.next_interrupt ∷ t.watchers;
  next_interrupt = t.next_interrupt + 1;
  alive_count = pos max_alive_count;
}

pub set_keepalive : ℕ → Transport → Transport
unfolding start_keeper
set_keepalive v t =
    if v == t.alive_interval
    then t
    else let t' = stop_keeper t t.interrupt in if v == 0 then t' else start_keeper t'

-- A round of the first keepalive goroutine: count down and send a ping.
pub ping : Transport → Transport
ping t = (pack_to_conn Tag.ping none (record t { alive_count = decrement t.alive_count })).1

-- A round of the second one: close once the count is below zero.
pub watch : Transport → Transport
watch t = if is_negative t.alive_count then close_transport t else t
