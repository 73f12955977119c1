-- ===== src/Android/Laws.antt =====
-- What the Android service and the bridge get from each other through veth.go, and what Shutdown of
-- network.go leaves (app_android).
use ptun.Base.{
  ℕ, All, ◌+◌, ◌≤◌, ◌<◌, ◌≡◌, refl, ap, sym, ◌∙◌, Bool, true, false, ◌||◌, List, [], ◌∷◌, ◌++◌, map,
  Option, none, some, Result, ok, err, length, length-append, ltb, if◌then◌else◌, append_assoc,
  append-nil, arith, le→leb,
}
use ptun.Base.Text.{String, str_eq, eq_refl, lookup}
use ptun.Transport.Channel.{send, receive, receive_from}
use ptun.Bridge.{Peer, Bridge, get_peer, all_peers, disconnect_peer}
use ptun.Bridge.Peers.{IsKeyed, get_peer-disconnect_peer}
use ptun.Android.{
  Memory, Slice, bytes_in, Veth, Called, waits, crashes, returns, ReadError, too_short, copy,
  Filled, read, iface_write, P2pNetwork, disconnect_all, shutdown,
}

abbrev pub after : {A B : Type 0} → Called A → (A → Veth → Called B) → Called B
after waits f = waits
after crashes f = crashes
after (returns a v) f = f a v

-- A packet that the service writes and the bridge reads: the memory as it is at the write, and at the
-- read.
pub record Transfer : Type 0 where
  pub slice : Slice
  pub at_write : Memory
  pub at_read : Memory

-- The service writes packets one after the other, and the bridge reads as often.
pub iface_write_all : List Transfer → Veth → Called Unit
iface_write_all [] v = returns tt v
iface_write_all (t ∷ ts) v =
    after (iface_write t.at_write t.slice.address t.slice.count v) λ n. iface_write_all ts

pub read_all : List ℕ → List Transfer → Veth → Called (List (Result ReadError Filled))
read_all dest [] v = returns [] v
read_all dest (t ∷ ts) v =
    after (read t.at_read dest v) λ r v1. after (read_all dest ts v1) λ rs v2. returns (r ∷ rs) v2

abbrev pub holding : List Slice → Veth → Veth
holding ss v = record v {
  recv_from = record { cap = v.recv_from.cap; queue = ss; closed = v.recv_from.closed };
}

abbrev pub slices : List Transfer → List Slice
slices ts = map (λ t. t.slice) ts

abbrev pub IsWithin : Transfer → Type 0
IsWithin t = t.slice.count ≤ length (t.at_write t.slice.address)

-- What a Read of some bytes gives.
abbrev pub read_of : List ℕ → List ℕ → Result ReadError Filled
read_of dest p = if ltb (length dest) (length p) then err too_short else ok (copy dest p, length p)

-- What the Read of a packet gives: the bytes that its slice has at the read.
abbrev pub transferred : List ℕ → Transfer → Result ReadError Filled
transferred dest t = read_of dest (bytes_in t.at_read t.slice)

iface_write-holding :
    (t : Transfer) (v : Veth)
    → IsWithin t
    → v.recv_from.closed ≡ false
    → length v.recv_from.queue < v.recv_from.cap
    → iface_write t.at_write t.slice.address t.slice.count v
      ≡ returns t.slice.count (holding (v.recv_from.queue ++ t.slice ∷ []) v)
unfolding iface_write send
iface_write-holding t v within open_ room =
    rw (le→leb t.slice.count (length (t.at_write t.slice.address)) within) (ground arith)

iface_write_all-holding :
    (ts : List Transfer) (v : Veth)
    → All IsWithin ts
    → v.recv_from.closed ≡ false
    → length v.recv_from.queue + length ts ≤ v.recv_from.cap
    → iface_write_all ts v ≡ returns tt (holding (v.recv_from.queue ++ slices ts) v)
unfolding iface_write_all
iface_write_all-holding [] v within open_ room =
    ap (λ q. returns tt (holding q v)) (sym (append-nil v.recv_from.queue))
iface_write_all-holding (t ∷ ts) v within open_ room =
    rw (iface_write-holding t v within.0 open_ (omega arith)) (
      iface_write_all-holding ts (holding (v.recv_from.queue ++ t.slice ∷ []) v) within.1 open_
        (omega (arith, length-append v.recv_from.queue (t.slice ∷ [])))
      ∙ ap (λ q. returns tt (holding q v))
          (append_assoc v.recv_from.queue (t.slice ∷ []) (slices ts)))

read_all-holding :
    (dest : List ℕ) (ts : List Transfer) (v : Veth)
    → read_all dest ts (holding (slices ts) v) ≡ returns (map (transferred dest) ts) (holding [] v)
unfolding read_all read receive receive_from
read_all-holding dest [] v = refl
read_all-holding dest (t ∷ ts) v = rw (read_all-holding dest ts v) refl

-- Slices that the service writes to an open device with nothing queued, none longer than its array and at
-- most as many as the channel holds, do not block it; the same number of Reads into one slice gives for
-- each, in the order in which they were written, the bytes that it has at the time of the Read, which are
-- the written ones only if its array was left alone; one longer than the reader's slice is lost. Nothing
-- stays queued.
pub iface_write_all-read_all :
    (dest : List ℕ) (ts : List Transfer) (v : Veth)
    → All IsWithin ts
    → v.recv_from.closed ≡ false
    → v.recv_from.queue ≡ []
    → length ts ≤ v.recv_from.cap
    → after (iface_write_all ts v) (λ u w. read_all dest ts w)
      ≡ returns (map (transferred dest) ts) (holding [] v)
iface_write_all-read_all dest ts v within open_ idle room =
    ap (λ c. after c (λ u w. read_all dest ts w))
      (iface_write_all-holding ts v within open_ (rw idle (omega arith)))
    ∙ rw idle (read_all-holding dest ts v)

abbrev pub names : List Peer → String → Bool
names [] name = false
names (p ∷ ps) name = str_eq p.name name || names ps name

-- The handles of the peers, the last one first, before those that were closed earlier.
abbrev pub closed_all : List Peer → List ℕ → List ℕ
closed_all [] closed = closed
closed_all (p ∷ ps) closed = closed_all ps (p.handle ∷ closed)

get_peer-disconnect_all :
    (ps : List Peer) (name : String) (b : Bridge)
    → (get_peer name (disconnect_all ps b) ≡ (if names ps name then none else get_peer name b))
      × ((disconnect_all ps b).closed ≡ closed_all ps b.closed)
get_peer-disconnect_all [] name b = (refl, refl)
get_peer-disconnect_all (p ∷ ps) name b =
    let later = get_peer-disconnect_all ps name (disconnect_peer p b) in
    let now = get_peer-disconnect_peer p name b in
    (ground (arith, later.0, now.0), later.1 ∙ ap (closed_all ps) now.1)

lookup-names :
    (name : String) (p : Peer) (m : List (String × Peer))
    → lookup name m ≡ some p
    → p.name ≡ name
    → names (map (λ e. e.1) m) name ≡ true
unfolding lookup
lookup-names name p [] e f = cc e
lookup-names name p ((k, q) ∷ m) e f = ground (arith, lookup-names name p m, eq_refl name)

-- Shutdown of a network whose bridge keeps its peers under their names leaves no peer, and closes the
-- connection of each that there was.
pub shutdown_lem :
    (name : String) (nw : P2pNetwork)
    → IsKeyed nw.bridge
    → (get_peer name (shutdown nw).bridge ≡ none)
      × ((shutdown nw).bridge.closed ≡ closed_all (all_peers nw.bridge) nw.bridge.closed)
unfolding shutdown get_peer all_peers
shutdown_lem name nw keyed =
    let all = get_peer-disconnect_all (all_peers nw.bridge) name nw.bridge in
    (all.0 ∙ gone (get_peer name nw.bridge) refl, all.1)
  where
    gone :
        (o : Option Peer)
        → get_peer name nw.bridge ≡ o
        → (if names (all_peers nw.bridge) name then none else get_peer name nw.bridge) ≡ none
    gone none e = rw e (ground arith)
    gone (some p) e = rw (lookup-names name p nw.bridge.peers e (keyed name p e)) refl
