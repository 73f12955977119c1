-- ===== src/Transport/Calls/Crossing.antt =====
-- A request from the requester of one transport to the dispatcher of another, and a response back
-- (pkg/proto/transport.go), over connections that carry each write as one datagram.
use ptun.Base.{
  ℕ, ◌≤◌, ◌<◌, ◌≡◌, refl, ap, Bool, true, false, List, [], ◌∷◌, ◌++◌, some, ok, length, arith,
  Result,
}
use ptun.Base.Text.{String, lookup}
use ptun.Base.Int.{pos}
use ptun.Packet.{Packet, Pool, bytes_of, unpack_from}
use ptun.Packet.Readers.{Conn, read_buf}
use ptun.Packet.Laws.{encoding, frame}
use ptun.Packet.Stream.{reader, conn_of}
use ptun.Packet
use ptun.Packet.Tag
use ptun.Message.{
  GoType, Value, Codec, Request, Response, new_request, new_id_response, next, pointer_to,
  accept_request, accept_response, value_of,
}
use ptun.Message.Laws.{IsCodec, unpack_request-pack_request, unpack_response-pack_response}
use ptun.Message.Dispatcher.{Dispatcher, dispatch}
use ptun.Transport.Channel.{Chan, send, receive, receive_from}
use ptun.Transport.{
  Transport, continues, deliver, deliver_req, deliver_resp, check, round, max_alive_count,
}
use ptun.Transport.EndToEnd.{wrote, pack_to_conn-encoding, bytes_of-frame_body, first_datagram}
use ptun.Transport.Calls.Serve.{Serving, goes, remembers, forget, serve_request, serve_response}
use ptun.Transport.Calls.{
  write_request, send_request, write_response, send_with_id, send_success_with_id, reply_success,
}

-- A transport that can send, and one that can take in a message of the kind whose channel is named.
pub record Sends (t : Transport) : Type 0 where
  pub works : t.sink.works ≡ true
  pub open_conn : t.conn_closed ≡ false

pub record Listens (t : Transport) (ch : Chan Packet) : Type 0 where
  pub not_done : t.done ≡ false
  pub not_closed : ch.closed ≡ false
  pub idle : ch.queue ≡ []
  pub room : 0 < ch.cap

abbrev pub fill : Packet → Chan Packet → Chan Packet
fill pkt ch = record { cap = ch.cap; queue = pkt ∷ []; closed = ch.closed }

abbrev pub queued_req : List ℕ → Transport → Transport
queued_req b r = record r {
  alive_count = pos max_alive_count;
  req_ch = fill (frame Tag.req b) r.req_ch;
}

abbrev pub queued_resp : List ℕ → Transport → Transport
queued_resp b r = record r {
  alive_count = pos max_alive_count;
  resp_ch = fill (frame Tag.resp b) r.resp_ch;
}

-- The datagram at the head of a connection.
abbrev pub arriving : ℕ → List ℕ → Conn → Pool → Result Packet.Error Packet
arriving tag p k pool =
    (unpack_from read_buf (reader [] (conn_of true (encoding tag p ∷ []) k)) pool).result

arriving-frame :
    (tag : ℕ) (p : List ℕ) (k : Conn) (pool : Pool)
    → tag < 65536
    → length p ≤ 4092
    → arriving tag p k pool ≡ ok (frame tag p)
arriving-frame tag p k pool small h = ap (λ u. u.result) (first_datagram tag p [] k pool small h)

round-queued_req :
    (b : List ℕ) (r : Transport)
    → 0 < length b
    → Listens r r.req_ch
    → round (ok (frame Tag.req b)) r ≡ continues (queued_req b r) ∷ []
unfolding round check deliver deliver_req send
round-queued_req [] r h l = absurd (omega (arith, h))
round-queued_req (x ∷ b) r h l = ground (arith, l)

round-queued_resp :
    (b : List ℕ) (r : Transport)
    → 0 < length b
    → Listens r r.resp_ch
    → round (ok (frame Tag.resp b)) r ≡ continues (queued_resp b r) ∷ []
unfolding round check deliver deliver_resp send
round-queued_resp [] r h l = absurd (omega (arith, h))
round-queued_resp (x ∷ b) r h l = ground (arith, l)

module _ {H V : Type 0} where
  -- The loops' states once the only packet is handled.
  abbrev pub with_request : List ℕ → H → Request V → Serving H V → Serving H V
  with_request p h req srv = record srv {
    transport = record (queued_req p srv.transport) {
      req_ch = record {
        cap = srv.transport.req_ch.cap;
        queue = [];
        closed = srv.transport.req_ch.closed;
      };
    };
    deferred = frame Tag.req p ∷ srv.deferred;
    requests = srv.requests ++ (h, req) ∷ [];
  }

  abbrev pub with_answer : List ℕ → Response V → Serving H V → Serving H V
  with_answer p resp srv = record srv {
    transport = record (queued_resp p srv.transport) {
      resp_ch = record {
        cap = srv.transport.resp_ch.cap;
        queue = [];
        closed = srv.transport.resp_ch.closed;
      };
    };
    deferred = frame Tag.resp p ∷ srv.deferred;
    replyer = forget resp.id srv.replyer;
    answered = srv.answered ++ resp ∷ [];
  }

-- A value of a type, or a pointer to it, as NewRequest takes it.
abbrev pub data_value : {V : Type 0} → GoType → Bool → V → Value V
data_value t pointer v = record { type = t; pointer = pointer; target = some v }

module _ {H V : Type 0} (c : Codec V) (registry : List (String × GoType)) (d : Dispatcher H) where
  -- The round of the requester's loop on a queued request.
  serve_queued_req :
      (p : List ℕ) (req : Request V) (h : H) (srv : Serving H V)
      → accept_request c registry p ≡ ok req
      → dispatch req.key d ≡ ok h
      → serve_request c registry d (record srv { transport = queued_req p srv.transport })
        ≡ goes (with_request p h req srv)
  unfolding serve_request receive receive_from
  serve_queued_req p req h srv e f = rw (bytes_of-frame_body p) (rw e (rw f refl))

  serve_queued_resp :
      (p : List ℕ) (resp : Response V) (srv : Serving H V)
      → accept_response c registry p ≡ ok resp
      → remembers resp.id srv.replyer ≡ true
      → serve_response c registry d (record srv { transport = queued_resp p srv.transport })
        ≡ goes (with_answer p resp srv)
  unfolding serve_response receive receive_from
  serve_queued_resp p resp srv e f = rw (bytes_of-frame_body p) (rw e (rw f refl))

  module _ (laws : IsCodec c) (t : GoType) (pointer : Bool) (v : V) (raw p : List ℕ) where
    -- A request that is sent on a transport that can send goes out as one datagram, under the next id;
    -- the receiving side, when nothing is queued, queues it, and its loop starts the handler that the
    -- dispatcher has for the type on it, with the same id and an equal payload. This holds if the
    -- payload and the request can be marshalled, to at most 4092 bytes, and the type is registered
    -- and has a handler.
    pub send_request-serve_request :
        (sequence : ℕ) (h : H) (s : Transport) (srv : Serving H V) (k : Conn) (pool : Pool)
        → lookup t.name registry ≡ some t
        → dispatch t.name d ≡ ok h
        → c.marshal (data_value t pointer v) ≡ some raw
        → c.marshal_request (record { key = t.name; id = next sequence; data_raw = some raw })
          ≡ some p
        → 0 < length p
        → length p ≤ 4092
        → Sends s
        → Listens srv.transport srv.transport.req_ch
        → let req : Request V = record {
          key = t.name;
          id = next sequence;
          data_raw = some raw;
          payload = pointer_to t v;
        } in
          (send_request c (some (data_value t pointer v)) sequence s
            ≡ ((ok tt, wrote Tag.req p s), next sequence))
          × (round (arriving Tag.req p k pool) srv.transport
              ≡ continues (queued_req p srv.transport) ∷ [])
          × (serve_request c registry d (record srv { transport = queued_req p srv.transport })
              ≡ goes (with_request p h req srv))
    unfolding send_request write_request new_request accept_request
    send_request-serve_request sequence h s srv k pool known handler e f some_bytes fits out into =
        let law =
          unpack_request-pack_request c laws t pointer v sequence registry raw p known e f in
        (
          rw law.0
              (rw (pack_to_conn-encoding Tag.req p s out.works out.open_conn (omega arith)) refl),
          rw (arriving-frame Tag.req p k pool (omega arith) fits)
              (round-queued_req p srv.transport some_bytes into),
          serve_queued_req p _ h srv (ap value_of law.1) handler,
        )

    -- A reply with success to a request goes out as one datagram, and the side that made the request,
    -- when nothing is queued, queues it and hands it to the call that waits for the request's id, with
    -- an equal payload. The conditions are those of a request, but for the handler.
    pub reply_success-serve_response :
        (req : Request V) (s : Transport) (srv : Serving H V) (k : Conn) (pool : Pool)
        → lookup t.name registry ≡ some t
        → remembers req.id srv.replyer ≡ true
        → c.marshal (data_value t pointer v) ≡ some raw
        → c.marshal_response (record {
          key = t.name;
          id = req.id;
          code = pos 0;
          message = "success";
          data_raw = some raw;
        })
          ≡ some p
        → 0 < length p
        → length p ≤ 4092
        → Sends s
        → Listens srv.transport srv.transport.resp_ch
        → let resp : Response V = record {
          key = t.name;
          id = req.id;
          code = pos 0;
          message = "success";
          data_raw = some raw;
          payload = pointer_to t v;
        } in
          (reply_success c req (some (data_value t pointer v)) s ≡ (ok tt, wrote Tag.resp p s))
          × (round (arriving Tag.resp p k pool) srv.transport
              ≡ continues (queued_resp p srv.transport) ∷ [])
          × (serve_response c registry d (record srv { transport = queued_resp p srv.transport })
              ≡ goes (with_answer p resp srv))
    unfolding reply_success send_success_with_id send_with_id write_response new_id_response
        accept_response
    reply_success-serve_response req s srv k pool known waiting e f some_bytes fits out into =
        let law =
          unpack_response-pack_response c laws t pointer v req.id (pos 0) "success" registry raw p
            known e f in
        (
          rw law.0
              (rw (pack_to_conn-encoding Tag.resp p s out.works out.open_conn (omega arith)) refl),
          rw (arriving-frame Tag.resp p k pool (omega arith) fits)
              (round-queued_resp p srv.transport some_bytes into),
          serve_queued_resp p _ srv (ap value_of law.1) waiting,
        )
