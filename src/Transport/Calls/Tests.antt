-- ===== src/Transport/Calls/Tests.antt =====
-- The theorems on the requester and the responser at concrete inputs.
use ptun.Base.{ℕ, ◌+◌, ◌≡◌, refl, true, List, [], ◌∷◌, some, ok, suc, length, arith}
use ptun.Base.Int.{pos}
use ptun.Base.Text.{lookup}
use ptun.Packet.{Pool}
use ptun.Packet.Readers.{Conn, eof}
use ptun.Packet.Tag
use ptun.Packet.Laws.{frame}
use ptun.Message.{Request, Response, next, pointer_to}
use ptun.Message.Sample.{ping, known, plain, plain-IsCodec}
use ptun.Message.Dispatcher.{Dispatcher, dispatch}
use ptun.Transport.{Transport, new_transport, continues, round}
use ptun.Transport.EndToEnd.{wrote}
use ptun.Transport.Calls.{send_request, reply_success}
use ptun.Transport.Calls.Serve.{Serving, goes, serve_request, serve_response, return_from}
use ptun.Transport.Calls.Loop.{served, stop, held, serve_requests, serve_requests_stops}
use ptun.Transport.Calls.Crossing.{
  arriving, queued_req, queued_resp, with_request, with_answer, send_request-serve_request,
  reply_success-serve_response, data_value,
}

abbrev idle : Transport
idle = new_transport (record { calls = []; works = true }) (record { gets = 0; puts = 0 })

abbrev quiet : Conn
quiet = record { segments = []; datagram = true; at_end = eof }

abbrev pool : Pool
pool = record { gets = 0; puts = 0 }

-- The handlers are numbers.
abbrev handlers : Dispatcher ℕ
handlers = record { handlers = ("Ping", 5) ∷ [] }

abbrev serving : List ℕ → Transport → Serving ℕ (List ℕ)
serving replyer t = record {
  transport = t;
  deferred = [];
  requests = [];
  responses = [];
  replyer = replyer;
  answered = [];
}

abbrev asked : Request (List ℕ)
asked = record {
  key = "Ping";
  id = next 7;
  data_raw = some (1 ∷ []);
  payload = pointer_to ping (1 ∷ []);
}

send_request-serve_request_example :
    (send_request plain (some (data_value ping true (1 ∷ []))) 7 idle
      ≡ ((ok tt, wrote Tag.req (1 ∷ []) idle), next 7))
    × (round (arriving Tag.req (1 ∷ []) quiet pool) idle
        ≡ continues (queued_req (1 ∷ []) idle) ∷ [])
    × (serve_request plain known handlers
          (record (serving [] idle) { transport = queued_req (1 ∷ []) idle })
        ≡ goes (with_request (1 ∷ []) 5 asked (serving [] idle)))
unfolding new_transport lookup dispatch next
send_request-serve_request_example =
    send_request-serve_request plain known handlers plain-IsCodec ping true (1 ∷ []) (1 ∷ [])
      (1 ∷ []) 7 5 idle (serving [] idle) quiet pool refl refl refl refl (omega arith) (omega arith)
      (record { works = refl; open_conn = refl })
      (record { not_done = refl; not_closed = refl; idle = refl; room = omega arith })

abbrev answered : Response (List ℕ)
answered = record {
  key = "Ping";
  id = next 7;
  code = pos 0;
  message = "success";
  data_raw = some (1 ∷ []);
  payload = pointer_to ping (1 ∷ []);
}

reply_success-serve_response_example :
    (reply_success plain asked (some (data_value ping true (1 ∷ []))) idle
      ≡ (ok tt, wrote Tag.resp (1 ∷ []) idle))
    × (round (arriving Tag.resp (1 ∷ []) quiet pool) idle
        ≡ continues (queued_resp (1 ∷ []) idle) ∷ [])
    × (serve_response plain known handlers
          (record (serving (8 ∷ []) idle) { transport = queued_resp (1 ∷ []) idle })
        ≡ goes (with_answer (1 ∷ []) answered (serving (8 ∷ []) idle)))
unfolding new_transport lookup next
reply_success-serve_response_example =
    reply_success-serve_response plain known handlers plain-IsCodec ping true (1 ∷ []) (1 ∷ [])
      (1 ∷ []) asked idle (serving (8 ∷ []) idle) quiet pool refl refl refl refl (omega arith)
      (omega arith) (record { works = refl; open_conn = refl })
      (record { not_done = refl; not_closed = refl; idle = refl; room = omega arith })

-- Two requests of which one is known, on a channel that is closed.
abbrev closing : Serving ℕ (List ℕ)
closing = serving [] (record idle {
  req_ch = record {
    cap = 10;
    queue = frame Tag.req (1 ∷ []) ∷ frame Tag.req (2 ∷ []) ∷ [];
    closed = true;
  };
})

serve_requests_stops_example :
    let q = closing.transport.req_ch.queue in
    (serve_requests plain known handlers (suc (length q)) closing
      ≡ some (stop plain known handlers (served plain known handlers q closing)))
    × ((served plain known handlers q closing).transport.pool ≡ closing.transport.pool)
    × ((return_from (served plain known handlers q closing)).transport.pool.puts
        ≡ closing.transport.pool.puts + held closing.deferred + held q)
serve_requests_stops_example = serve_requests_stops plain known handlers closing
