-- ===== src/Transport/Steps.antt =====
-- The goroutines that share a Transport (pkg/proto/transport.go), as steps; each keeps the invariant.
use ptun.Base.{ℕ, ◌≡◌, refl, ◌≢◌, ◌⊎◌, true, List, some, Result, panics, arith}
use ptun.Packet.{Packet, Pool, Error, release}
use ptun.Packet.Writers.{Sink}
use ptun.Packet.Tag
use ptun.Transport.Channel.{Chan, Receive, received, drained, empty, receive}
use ptun.Transport.Invariant.{
  Holds, IsRaw, IsMessage, Runs, Kept, drop_pinger-Kept, drop_watcher-Kept, Inv, HasRound,
  receive-Holds, close_transport-Inv, pack_to_conn-Inv, set_keepalive-Inv, ping-Inv,
}
use ptun.Transport.{
  Transport, new_transport, close_transport, continues, returns, round, reads, read, read_received,
  ReadFailure, write, set_keepalive, drop_keeper, ping, watch,
}
use ptun.Transport.Rounds.{round-IsSafe, HasRound-IsSafe}

-- The steps of the goroutines that share a Transport.
pub data Step (t : Transport) : Transport → Type 0 where
  loops :
      (r : Result Error Packet) {u : Transport}
      → r ≢ panics
      → HasRound (continues u) (round r t)
      → Step t u
  stops :
      (r : Result Error Packet) {u : Transport}
      → r ≢ panics
      → HasRound (returns u) (round r t)
      → Step t u
  reading :
      (n : ℕ) {x : Result ReadFailure (List ℕ)} {u : Transport} → read n t ≡ reads x u → Step t u
  writing : (b : List ℕ) → Step t (write b t).1
  closing : Step t (close_transport t)
  setting : (v : ℕ) → Step t (set_keepalive v t)
  -- A keepalive goroutine may make a round with its interrupt closed, or `done`: its timer may be chosen.
  pinging : (i : ℕ) → Runs i t.pingers → Step t (ping t)
  watching : (i : ℕ) → Runs i t.watchers → Step t (watch t)
  ends_pinger :
      (i : ℕ)
      → (t.interrupt ≢ some i) ⊎ (t.done ≡ true)
      → Step t (record t { pingers = drop_keeper i t.pingers })
  ends_watcher :
      (i : ℕ)
      → (t.interrupt ≢ some i) ⊎ (t.done ≡ true)
      → Step t (record t { watchers = drop_keeper i t.watchers })
  -- Requester and Responder receive, and release what they have received.
  requesting :
      (p : Packet) {c : Chan Packet}
      → receive t.req_ch ≡ received p c
      → Step t (record t { req_ch = c })
  responding :
      (p : Packet) {c : Chan Packet}
      → receive t.resp_ch ≡ received p c
      → Step t (record t { resp_ch = c })
  releasing : (p : Packet) → Step t (record t { pool = release p t.pool })

pub data Reach (s : Transport) : Transport → Type 0 where
  here : Reach s s
  next : {t u : Transport} → Reach s t → Step t u → Reach s u

with_read-Inv :
    (t : Transport) (c : Chan Packet) (pool : Pool)
    → Inv t
    → Holds c 100 t.done IsRaw
    → Inv (record t { raw_ch = c; pool = pool })
with_read-Inv t c pool v h = record {
  raw = h;
  req = v.req;
  resp = v.resp;
  conn = v.conn;
  count = v.count;
  interval = v.interval;
  keepers = v.keepers;
}

with_req-Inv :
    (t : Transport) (c : Chan Packet)
    → Inv t
    → Holds c 10 t.done (IsMessage Tag.req)
    → Inv (record t { req_ch = c })
with_req-Inv t c v h = record {
  raw = v.raw;
  req = h;
  resp = v.resp;
  conn = v.conn;
  count = v.count;
  interval = v.interval;
  keepers = v.keepers;
}

with_resp-Inv :
    (t : Transport) (c : Chan Packet)
    → Inv t
    → Holds c 10 t.done (IsMessage Tag.resp)
    → Inv (record t { resp_ch = c })
with_resp-Inv t c v h = record {
  raw = v.raw;
  req = v.req;
  resp = h;
  conn = v.conn;
  count = v.count;
  interval = v.interval;
  keepers = v.keepers;
}

with_keepers-Inv :
    (t : Transport) (ps ws : List ℕ)
    → Inv t
    → Kept t.interrupt t.done ps ws
    → Inv (record t { pingers = ps; watchers = ws })
with_keepers-Inv t ps ws v k = record {
  raw = v.raw;
  req = v.req;
  resp = v.resp;
  conn = v.conn;
  count = v.count;
  interval = v.interval;
  keepers = k;
}

read_received-Inv :
    (n : ℕ) (p : Packet) (t u : Transport) (c : Chan Packet) (x : Result ReadFailure (List ℕ))
    → Inv t
    → Holds c 100 t.done IsRaw
    → read_received n p (record t { raw_ch = c }) ≡ reads x u
    → Inv u
unfolding read_received
read_received-Inv n p t u c x v h e = ground (arith, with_read-Inv t c (release p t.pool) v h)

read-Inv :
    (n : ℕ) (t u : Transport) (x : Result ReadFailure (List ℕ))
    → Inv t
    → read n t ≡ reads x u
    → Inv u
unfolding read
read-Inv n t u x v = by_receive (receive t.raw_ch) refl
  where
    by_receive : (r : Receive Packet) → receive t.raw_ch ≡ r → read n t ≡ reads x u → Inv u
    by_receive empty r e = cc (rw (r, read) at e)
    by_receive drained r e = ground (arith, rw (r, read) at e)
    by_receive (received p c) r e =
        read_received-Inv n p t u c x v (receive-Holds p t.raw_ch c 100 t.done IsRaw r v.raw).0
          (rw (r, read) at e)

-- Every step keeps the invariant.
pub Step-Inv : {t u : Transport} → Step t u → Inv t → Inv u
unfolding write watch
Step-Inv {t} {u} (loops r h m) v = HasRound-IsSafe (continues u) _ m (round-IsSafe r t h v)
Step-Inv {t} {u} (stops r h m) v = HasRound-IsSafe (returns u) _ m (round-IsSafe r t h v)
Step-Inv {t} {u} (reading n e) v = read-Inv n t u _ v e
Step-Inv {t} (writing b) v = pack_to_conn-Inv Tag.raw (some b) t v
Step-Inv {t} closing v = close_transport-Inv t v
Step-Inv {t} (setting n) v = set_keepalive-Inv n t v
Step-Inv {t} (pinging i k) v = ping-Inv t v
Step-Inv {t} (watching i k) v = ground (arith, close_transport-Inv t v)
Step-Inv {t} (ends_pinger i e) v =
    with_keepers-Inv t _ _ v (drop_pinger-Kept t.interrupt t.done _ _ i e v.keepers)
Step-Inv {t} (ends_watcher i e) v =
    with_keepers-Inv t _ _ v (drop_watcher-Kept t.interrupt t.done _ _ i e v.keepers)
Step-Inv {t} (requesting p {c} e) v =
    with_req-Inv t c v (receive-Holds p t.req_ch c 10 t.done (IsMessage Tag.req) e v.req).0
Step-Inv {t} (responding p {c} e) v =
    with_resp-Inv t c v (receive-Holds p t.resp_ch c 10 t.done (IsMessage Tag.resp) e v.resp).0
Step-Inv {t} (releasing p) v = with_read-Inv t t.raw_ch (release p t.pool) v v.raw

-- Whatever the read loop, the readers of the three channels, the writers, the callers of Close and
-- SetKeepalive and the keepalive goroutines do, in whatever order, each of them in one step, a
-- transport that was in a good state stays in one: its channels hold messages of their kinds and no
-- more than they have room for, they and the connection are closed just when it is done, the count is
-- at most 5, and, unless it is done, both goroutines of the interrupt that it holds run.
pub Reach-Inv : {s t : Transport} → Reach s t → Inv s → Inv t
Reach-Inv here v = v
Reach-Inv (next r st) v = Step-Inv st (Reach-Inv r v)

pub new_transport-Inv : (sink : Sink) (pool : Pool) → Inv (new_transport sink pool)
unfolding new_transport
new_transport-Inv sink pool = ground arith
