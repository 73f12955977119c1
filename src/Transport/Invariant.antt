-- ===== src/Transport/Invariant.antt =====
-- What holds of a Transport (pkg/proto/transport.go) between the steps of its goroutines.
use ptun.Base.{
  ℕ, zero, suc, Bool-cases, ap, ◌≢◌, ◌≤◌, ◌≡◌, refl, ◌⊎◌, inl, inr, Bool, true, false, List, [],
  ◌∷◌, ◌++◌, Option, none, some, length, length-append, All, arith,
}
use ptun.Base.Int.{ℤ, pos, negsuc, decrement}
use ptun.Packet.{Packet}
use ptun.Packet.Tag
use ptun.Transport.Channel.{Chan, sent, send, received, receive, receive_from, close}
use ptun.Transport.{
  Transport, close_transport, pack_to_conn, Round, set_keepalive, drop_keeper, ping, is_stop,
}

-- A channel within its capacity, closed exactly when `done` says so, and its items all good.
pub record Holds (c : Chan Packet) (room : ℕ) (done : Bool) (P : Packet → Type 0) : Type 0 where
  pub cap_kept : c.cap ≡ room
  pub within : length c.queue ≤ room
  pub closed_with : c.closed ≡ done
  pub good : All P c.queue

abbrev pub IsRaw : Packet → Type 0
IsRaw pkt = pkt.header.tag ≡ Tag.raw

-- A request or response packet always has a body, which is what its reader unpacks.
abbrev pub IsMessage : ℕ → Packet → Type 0
IsMessage tag pkt = (pkt.header.tag ≡ tag) × (is_stop pkt ≡ false)

abbrev pub AtMost : ℕ → ℤ → Type 0
AtMost n (pos m) = m ≤ n
AtMost n (negsuc m) = Unit {0}

abbrev pub Runs : ℕ → List ℕ → Type 0
Runs i [] = ⊥
Runs i (k ∷ ks) = (k ≡ i) ⊎ Runs i ks

-- As long as the transport is open, both goroutines of the interrupt that it holds run.
abbrev pub Kept : Option ℕ → Bool → List ℕ → List ℕ → Type 0
Kept none done ps ws = Unit {0}
Kept (some i) true ps ws = Unit {0}
Kept (some i) false ps ws = Runs i ps × Runs i ws

pub record Inv (t : Transport) : Type 0 where
  pub raw : Holds t.raw_ch 100 t.done IsRaw
  pub req : Holds t.req_ch 10 t.done (IsMessage Tag.req)
  pub resp : Holds t.resp_ch 10 t.done (IsMessage Tag.resp)
  pub conn : t.conn_closed ≡ t.done
  pub count : AtMost 5 t.alive_count
  pub interval : t.alive_interval ≡ 0
  pub keepers : Kept t.interrupt t.done t.pingers t.watchers

abbrev pub HasRound : Round → List Round → Type 0
HasRound r [] = ⊥
HasRound r (x ∷ xs) = (x ≡ r) ⊎ HasRound r xs

All-append :
    {A : Type 0} (P : A → Type 0) (xs : List A) (a : A) → All P xs → P a → All P (xs ++ a ∷ [])
All-append P [] a hs h = (h, tt)
All-append P (x ∷ xs) a hs h = (hs.0, All-append P xs a hs.1 h)

pub send-Holds :
    (pkt : Packet) (c c' : Chan Packet) (room : ℕ) (done : Bool) (P : Packet → Type 0)
    → send pkt c ≡ sent c'
    → Holds c room done P
    → P pkt
    → Holds c' room done P
unfolding send
send-Holds pkt c c' room done P e v p =
    ground (arith, All-append P c.queue pkt v.good p, length-append c.queue (pkt ∷ []))

close-Holds :
    (c : Chan Packet) (room : ℕ) (done : Bool) (P : Packet → Type 0)
    → Holds c room done P
    → Holds (close c) room true P
close-Holds c room done P v = record {
  cap_kept = v.cap_kept;
  within = v.within;
  closed_with = refl;
  good = v.good;
}

receive_from-Holds :
    (q : List Packet) (pkt : Packet) (c c' : Chan Packet) (room : ℕ) (done : Bool)
    → (P : Packet → Type 0) → receive_from q c ≡ received pkt c'
    → length q ≤ room
    → All P q
    → c.cap ≡ room
    → c.closed ≡ done
    → Holds c' room done P × P pkt
unfolding receive_from
receive_from-Holds [] pkt c c' room done P e h ps k d = ground arith
receive_from-Holds (x ∷ q) pkt c c' room done P e h ps k d = ground arith

pub receive-Holds :
    (pkt : Packet) (c c' : Chan Packet) (room : ℕ) (done : Bool) (P : Packet → Type 0)
    → receive c ≡ received pkt c'
    → Holds c room done P
    → Holds c' room done P × P pkt
unfolding receive
receive-Holds pkt c c' room done P e v =
    receive_from-Holds c.queue pkt c c' room done P e v.within v.good v.cap_kept v.closed_with

done-Kept : (o : Option ℕ) (ps ws : List ℕ) → Kept o true ps ws
done-Kept none ps ws = tt
done-Kept (some i) ps ws = tt

drop_keeper-Runs : (i j : ℕ) (ks : List ℕ) → i ≢ j → Runs i ks → Runs i (drop_keeper j ks)
unfolding drop_keeper
drop_keeper-Runs i j [] n h = absurd h
drop_keeper-Runs i j (k ∷ ks) n (inl e) = ground (arith, e, n)
drop_keeper-Runs i j (k ∷ ks) n (inr h) = ground (arith, drop_keeper-Runs i j ks n h)

-- A goroutine that ends because its interrupt is closed, or the transport is, is not one of those that
-- an open transport needs.
pub drop_pinger-Kept :
    (o : Option ℕ) (d : Bool) (ps ws : List ℕ) (j : ℕ)
    → (o ≢ some j) ⊎ (d ≡ true)
    → Kept o d ps ws
    → Kept o d (drop_keeper j ps) ws
drop_pinger-Kept none d ps ws j e h = tt
drop_pinger-Kept (some i) true ps ws j e h = tt
drop_pinger-Kept (some i) false ps ws j (inl n) h =
    (drop_keeper-Runs i j ps (λ e. n (ap (λ k. some k) e)) h.0, h.1)
drop_pinger-Kept (some i) false ps ws j (inr e) h = cc e

pub drop_watcher-Kept :
    (o : Option ℕ) (d : Bool) (ps ws : List ℕ) (j : ℕ)
    → (o ≢ some j) ⊎ (d ≡ true)
    → Kept o d ps ws
    → Kept o d ps (drop_keeper j ws)
drop_watcher-Kept none d ps ws j e h = tt
drop_watcher-Kept (some i) true ps ws j e h = tt
drop_watcher-Kept (some i) false ps ws j (inl n) h =
    (h.0, drop_keeper-Runs i j ws (λ e. n (ap (λ k. some k) e)) h.1)
drop_watcher-Kept (some i) false ps ws j (inr e) h = cc e

pub close_transport-Inv : (t : Transport) → Inv t → Inv (close_transport t)
unfolding close_transport
close_transport-Inv t v = elim (Bool-cases t.done) [
  | inl d ↦ ground arith
  | inr d ↦ rw d (record {
    raw = close-Holds _ _ _ _ v.raw;
    req = close-Holds _ _ _ _ v.req;
    resp = close-Holds _ _ _ _ v.resp;
    conn = refl;
    count = v.count;
    interval = v.interval;
    keepers = done-Kept t.interrupt t.pingers t.watchers;
  })
]

pub pack_to_conn-Inv :
    (tag : ℕ) (p : Option (List ℕ)) (t : Transport) → Inv t → Inv (pack_to_conn tag p t).1
unfolding pack_to_conn
pack_to_conn-Inv tag p t v = record {
  raw = v.raw;
  req = v.req;
  resp = v.resp;
  conn = v.conn;
  count = v.count;
  interval = v.interval;
  keepers = v.keepers;
}

pub set_keepalive-Inv : (n : ℕ) (t : Transport) → Inv t → Inv (set_keepalive n t)
unfolding set_keepalive
set_keepalive-Inv n t v = ground arith

decrement-AtMost : (n : ℕ) (z : ℤ) → AtMost n z → AtMost n (decrement z)
decrement-AtMost n (pos zero) h = tt
decrement-AtMost n (pos (suc m)) h = omega arith
decrement-AtMost n (negsuc m) h = tt

pub ping-Inv : (t : Transport) → Inv t → Inv (ping t)
unfolding ping
ping-Inv t v =
    pack_to_conn-Inv Tag.ping none (record t { alive_count = decrement t.alive_count })
      (record {
        raw = v.raw;
        req = v.req;
        resp = v.resp;
        conn = v.conn;
        count = decrement-AtMost 5 t.alive_count v.count;
        interval = v.interval;
        keepers = v.keepers;
      })
