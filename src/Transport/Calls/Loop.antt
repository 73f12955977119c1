-- ===== src/Transport/Calls/Loop.antt =====
-- requester.RunDispatcher of pkg/proto/transport.go as a whole: all its rounds, on what is queued.
use ptun.Base.{
  ℕ, suc, zero, ◌+◌, ◌≡◌, refl, ap, ◌∙◌, List, [], ◌∷◌, ◌++◌, Option, none, some, length,
  append-nil, append_assoc, if◌then◌else◌, arith,
}
use ptun.Base.Text.{String}
use ptun.Packet.{Packet, Pool, bytes_of, release}
use ptun.Message.{GoType, Codec, Request, accept_request}
use ptun.Message.Dispatcher.{Dispatcher}
use ptun.Transport.Channel.{receive, receive_from}
use ptun.Transport.Calls.Serve.{
  Serving, waits, goes, returns, release_all, return_from, take_request, start_request,
  serve_request,
}

pub data Stop (H V : Type 0) : Type 0 where
  blocked returned : Serving H V → Stop H V

-- The packets whose buffer is of the pool.
abbrev pub held : List Packet → ℕ
held [] = 0
held (p ∷ ps) = (if p.buf then 1 else 0) + held ps

abbrev pub newest_first : List Packet → List Packet → List Packet
newest_first [] before = before
newest_first (p ∷ ps) before = newest_first ps (p ∷ before)

puts-release_all :
    (ps : List Packet) (pool : Pool) → (release_all ps pool).puts ≡ pool.puts + held ps
unfolding release_all release
puts-release_all [] pool = omega arith
puts-release_all (p ∷ ps) pool = ground (arith, puts-release_all ps (release p pool))

held-newest_first :
    (ps before : List Packet) → held (newest_first ps before) ≡ held before + held ps
held-newest_first [] before = omega arith
held-newest_first (p ∷ ps) before = ground (arith, held-newest_first ps (p ∷ before))

module _ {H V : Type 0} (c : Codec V) (registry : List (String × GoType)) (d : Dispatcher H) where
  -- The rounds on fuel, until the loop waits for a packet or returns.
  pub serve_requests : ℕ → Serving H V → Option (Stop H V)
  unfolding serve_request
  serve_requests zero s = none
  serve_requests (suc fuel) s = elim (serve_request c registry d s) [
    | waits ↦ some (blocked s)
    | returns s' ↦ some (returned s')
    | goes s' ↦ serve_requests fuel s'
  ]

  -- The handlers that the packets start, each with its request, in the packets' order.
  abbrev pub accepted : List Packet → List (H × Request V)
  accepted [] = []
  accepted (p ∷ ps) =
      start_request c registry d (accept_request c registry (bytes_of p.body)) ++ accepted ps

  abbrev pub served : List Packet → Serving H V → Serving H V
  served ps s = record s {
    transport = record s.transport { req_ch = record s.transport.req_ch { queue = [] } };
    deferred = newest_first ps s.deferred;
    requests = s.requests ++ accepted ps;
  }

  abbrev pub stop : Serving H V → Stop H V
  stop s = if s.transport.req_ch.closed then returned (return_from s) else blocked s

  -- The state once the oldest packet is handled.
  abbrev first_served : Packet → List Packet → Serving H V → Serving H V
  first_served p q s = record (take_request p (record s.transport.req_ch { queue = q }) s) {
    requests =
        s.requests ++ start_request c registry d (accept_request c registry (bytes_of p.body));
  }

  serve_queue :
      (q : List Packet) (s : Serving H V)
      → s.transport.req_ch.queue ≡ q
      → serve_requests (suc (length q)) s ≡ some (stop (served q s))
  unfolding serve_requests serve_request receive receive_from
  serve_queue [] s e = ground (arith, e, append-nil s.requests)
  serve_queue (p ∷ q) s e =
      rw (e, receive)
        (serve_queue q (first_served p q s) refl
          ∙ ap (λ rs. some (stop (record (served (p ∷ q) s) { requests = rs })))
              (append_assoc s.requests _ (accepted q)))

  -- The requester's loop, run on the packets that are queued, starts in their order the handlers of
  -- those that hold a known request with a handler, and no others. On an open channel it then waits,
  -- and has put no buffer back; on a closed one it returns, and puts back the buffers of all packets
  -- that it took, those of earlier rounds included. One round more than there are packets is enough.
  pub serve_requests_stops :
      (s : Serving H V)
      → let q = s.transport.req_ch.queue in
        (serve_requests (suc (length q)) s ≡ some (stop (served q s)))
        × ((served q s).transport.pool ≡ s.transport.pool)
        × ((return_from (served q s)).transport.pool.puts
            ≡ s.transport.pool.puts + held s.deferred + held q)
  serve_requests_stops s =
      let q = s.transport.req_ch.queue in
      (
        serve_queue q s refl,
        refl,
        puts-release_all (newest_first q s.deferred) s.transport.pool
            ∙ omega (arith, held-newest_first q s.deferred),
      )
