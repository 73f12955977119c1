-- ===== src/Transport/Keepalive.antt =====
-- SetKeepalive of pkg/proto/transport.go and the two goroutines that it starts.
use ptun.Base.{ℕ, zero, suc, ◌+◌, ◌≡◌, refl, ◌≢◌, false, ◌∷◌, some, ok, arith, ltb}
use ptun.Base.Int.{pos, decrement, sub_ℕ}
use ptun.Packet.{Packet}
use ptun.Transport.Invariant.{Inv, HasRound}
use ptun.Transport.{
  Transport, close_transport, pack_to_conn, continues, deliver, deliver_raw, deliver_req,
  deliver_resp, check, round, set_keepalive, ping, watch, max_alive_count,
}

-- SetKeepalive cannot switch the keepalive off: as aliveInterval stays 0, a call with 0 changes
-- nothing, and any other call adds a pair of goroutines with an interrupt of their own, which from then
-- on is the open one, and puts the count at its start.
pub set_keepalive_runs :
    (v : ℕ) (t : Transport)
    → Inv t
    → (set_keepalive 0 t ≡ t)
      × (v ≢ 0
          → ((set_keepalive v t).pingers ≡ t.next_interrupt ∷ t.pingers)
            × ((set_keepalive v t).watchers ≡ t.next_interrupt ∷ t.watchers)
            × ((set_keepalive v t).interrupt ≡ some t.next_interrupt)
            × ((set_keepalive v t).alive_count ≡ pos max_alive_count))
unfolding set_keepalive
set_keepalive_runs v t h = ground arith

-- Rounds of the first goroutine while no packet arrives.
abbrev pub pings : ℕ → Transport → Transport
pings zero t = t
pings (suc n) t = pings n (ping t)

ping_fields :
    (t : Transport) → ((ping t).alive_count ≡ decrement t.alive_count) × ((ping t).done ≡ t.done)
unfolding ping pack_to_conn
ping_fields t = (refl, refl)

pings_fields :
    (n m : ℕ) (t : Transport)
    → t.alive_count ≡ sub_ℕ 5 m
    → ((pings n t).alive_count ≡ sub_ℕ 5 (m + n)) × ((pings n t).done ≡ t.done)
pings_fields zero m t h = ground arith
pings_fields (suc n) m t h = ground (arith, ping_fields t, pings_fields n (m + 1) (ping t))

-- Without a packet from the peer, the watcher keeps an open transport with the full count open over
-- five pings, and has it closed after the sixth.
pub watch-pings :
    (n : ℕ) (t : Transport)
    → t.alive_count ≡ pos max_alive_count
    → t.done ≡ false
    → (watch (pings n t)).done ≡ ltb max_alive_count n
unfolding watch close_transport
watch-pings n t h d = ground (arith, pings_fields n 0 t)

-- Any packet puts the count back to its start, whatever its tag.
pub round-alive_count :
    (pkt : Packet) (t u : Transport)
    → HasRound (continues u) (round (ok pkt) t)
    → u.alive_count ≡ pos max_alive_count
unfolding round check deliver deliver_raw deliver_req deliver_resp pack_to_conn
round-alive_count pkt t u h = ground arith
