-- ===== src/Bridge.antt =====
-- pkg/bridge: bridge.go and peer.go. The map of peers is an association list, and Range goes through
-- it in its order. A peer's transport is a number, `handle`; `closed` holds those that were closed.
pub mod Peers
pub mod Routing
pub mod Tests
use ptun.Base.{
  ℕ, ◌+◌, ◌≡◌, Bool, true, false, ◌||◌, List, [], ◌∷◌, ◌++◌, Option, none, some, Result, ok, err,
  panics, ◌>>=◌, map, if◌then◌else◌,
}
use ptun.Base.Text.{String, lookup, insert, delete}
use ptun.Network.{Ip, IpNet, contains, reparse, is_broadcast, Slice, contents, Parsed, parse_packet}

pub record Peer : Type 0 where
  pub name : String
  pub ips : List IpNet
  pub routes : List IpNet
  pub handle : ℕ

-- `written` are the packets that went to the tunnel device, oldest first.
pub record Bridge : Type 0 where
  pub peers : List (String × Peer)
  pub closed : List ℕ
  pub written : List (List ℕ)

pub data Error : Type 0 where
  already_exists not_exist : Error

pub new_bridge : Bridge
new_bridge = record { peers = []; closed = []; written = [] }

pub any_contains : List IpNet → Ip → Bool
any_contains [] ip = false
any_contains (n ∷ ns) ip = contains n ip || any_contains ns ip

-- HasIP gets the address as a text, and parses it.
pub has_ip : Peer → Ip → Bool
unfolding any_contains
has_ip p ip =
    let dst = reparse ip in if any_contains p.ips dst then true else any_contains p.routes dst

unfoldable pub get_peer : String → Bridge → Option Peer
get_peer name b = lookup name b.peers

pub has_peer : String → Bridge → Bool
unfolding get_peer
has_peer name b = elim (get_peer name b) [ none ↦ false | some p ↦ true ]

add_peer : Peer → Bridge → Result Error (Unit {0}) × Bridge
unfolding get_peer
add_peer p b = elim (get_peer p.name b) [
  | some old ↦ (err already_exists, b)
  | none ↦ (ok tt, record b { peers = insert p.name p b.peers })
]

del_peer : String → Bridge → Result Error Peer × Bridge
unfolding get_peer
del_peer name b = elim (get_peer name b) [
  | none ↦ (err not_exist, b)
  | some p ↦ (ok p, record b { peers = delete name b.peers })
]

unfoldable pub disconnect_peer : Peer → Bridge → Bridge
unfolding del_peer
disconnect_peer p b = (del_peer p.name (record b { closed = p.handle ∷ b.closed })).1

-- ConnectPeer starts the handler of the peer with the result.
pub connect_peer : Peer → Bridge → Result Error (Unit {0}) × Bridge
unfolding get_peer disconnect_peer add_peer
connect_peer p b = elim (get_peer p.name b) [
  | none ↦ add_peer p b
  | some old ↦ add_peer p (disconnect_peer old b)
]

unfoldable pub all_peers : Bridge → List Peer
all_peers b = map (λ e. e.1) b.peers

abbrev pub keep_with_ip : Ip → List Peer → List Peer
keep_with_ip ip [] = []
keep_with_ip ip (p ∷ ps) = if has_ip p ip then p ∷ keep_with_ip ip ps else keep_with_ip ip ps

-- The peers that a packet from the tunnel device is written to.
pub targets : Ip → Bridge → List Peer
unfolding all_peers
targets dst b = if is_broadcast dst then all_peers b else keep_with_ip dst (all_peers b)

-- A round of handleVeth on a packet that was read; the buffer of the pool has 8192 bytes.
pub handle_veth : Slice → Bridge → Result Error (List (Peer × List ℕ))
unfolding targets
handle_veth s b = do parsed ← parse_packet s; ok (map (λ p. (p, contents s)) (targets parsed.dst b))

-- A round of handlePeer: what the peer's transport read goes to the tunnel device, an error ends the
-- handler. `true` says that it goes on.
pub handle_peer : Peer → Option Slice → Bridge → Result Error (Bool × Bridge)
unfolding disconnect_peer
handle_peer p none b = ok (false, disconnect_peer p b)
handle_peer p (some s) b = do
  parsed ← parse_packet s
  ok (true, record b { written = b.written ++ contents s ∷ [] })
