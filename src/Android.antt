-- ===== src/Android.antt =====
-- app_android: veth.go, the device that the Android service reads and writes packets of through two
-- channels, and network.go, the network over it, and node.go, which drives it.
pub mod Laws
pub mod Node
pub mod Tests
use ptun.Base.{
  ℕ, Bool, true, false, List, [], ◌∷◌, ◌++◌, map, Option, none, some, Result, ok, err, panics,
  length, take, drop, leb, ltb, if◌then◌else◌,
}
use ptun.Base.Text.{String}
use ptun.Network.{Ip, IpNet}
use ptun.Transport.Channel.{
  Chan, make, Send, sent, full, panicked, send, Receive, received, drained, empty, receive,
}
use ptun.Bridge.{Peer, Bridge, new_bridge, all_peers, disconnect_peer}
use ptun.App
use ptun.App.{Route, new_nat_peer}

-- The arrays behind the service's slices, by their address. The service may refill one at any time,
-- which keeps its length.
abbrev pub Memory : Type 0
Memory = ℕ → List ℕ

-- The front of an array: a slice, which does not hold the bytes.
pub record Slice : Type 0 where
  pub address : ℕ
  pub count : ℕ

abbrev pub bytes_in : Memory → Slice → List ℕ
bytes_in m s = take s.count (m s.address)

-- recvFromChannel and sendToChannel. The first passes on slices of the service, the second copies.
pub record Veth : Type 0 where
  pub recv_from : Chan Slice
  pub send_to : Chan (List ℕ)

abbrev pub new_veth : Veth
new_veth = record { recv_from = make 65536; send_to = make 65536 }

-- A call that may block; a packet that is longer than the slice is lost to Read.
pub data Called (A : Type 0) : Type 0 where
  waits crashes : Called A
  returns : A → Veth → Called A

pub data ReadError : Type 0 where
  too_short : ReadError

abbrev pub copy : List ℕ → List ℕ → List ℕ
copy dst src = take (length dst) src ++ drop (length src) dst

-- What a Read or IfaceRead leaves in the caller's slice, and its length.
abbrev pub Filled : Type 0
Filled = List ℕ × ℕ

abbrev pub read_received : Memory → List ℕ → Veth → Receive Slice → Called (Result ReadError Filled)
read_received m p v empty = waits
read_received m p v drained = crashes
read_received m p v (received s ch) =
    let b = bytes_in m s in
    returns (if ltb (length p) (length b) then err too_short else ok (copy p b, length b))
      (record v { recv_from = ch })

-- Read takes the bytes that the slice has by then.
unfoldable pub read : Memory → List ℕ → Veth → Called (Result ReadError Filled)
read m p v = read_received m p v (receive v.recv_from)

abbrev pub written : {A : Type 0} → ℕ → (Chan A → Veth) → Send A → Called ℕ
written n with_chan (sent ch) = returns n (with_chan ch)
written n with_chan full = waits
written n with_chan panicked = crashes

-- Write sends a copy.
unfoldable pub write : List ℕ → Veth → Called ℕ
write p v = written (length p) (λ ch. record v { send_to = ch }) (send p v.send_to)

-- IfaceRead cuts off what does not fit.
abbrev pub iface_received : List ℕ → Veth → Receive (List ℕ) → Called Filled
iface_received p v empty = waits
iface_received p v drained = crashes
iface_received p v (received b ch) =
    let n = if ltb (length p) (length b) then length p else length b in
    returns (copy p (take n b), n) (record v { send_to = ch })

unfoldable pub iface_read : List ℕ → Veth → Called Filled
iface_read p v = iface_received p v (receive v.send_to)

-- IfaceWrite passes on the front of the caller's slice, which is a whole array here, and no copy of it.
unfoldable pub iface_write : Memory → ℕ → ℕ → Veth → Called ℕ
iface_write m p n v =
    if leb n (length (m p))
    then written n (λ ch. record v { recv_from = ch })
        (send (record { address = p; count = n }) v.recv_from)
    else crashes

-- AddRoute: a destination that is no network is refused.
abbrev pub route_added : Ip → Option (Ip × IpNet) → List Route → List Route × Bool
route_added next none routes = (routes, false)
route_added next (some d) routes = (routes ++ record { next = next; network = d.1 } ∷ [], true)

unfoldable pub add_route :
    (String → Option (Ip × IpNet))
    → (String → Ip)
    → String
    → String
    → List Route
    → List Route × Bool
add_route parse_cidr parse_ip next dest routes =
    route_added (parse_ip next) (parse_cidr dest) routes

pub record P2pNetwork : Type 0 where
  pub routers : List Route
  pub bridge : Bridge

-- CreateNet: with no configuration there is no network.
pub create_net : Option (List Route) → Option P2pNetwork
create_net none = none
create_net (some routers) = some (record { routers = routers; bridge = new_bridge })

-- newNatPeer is NewNatPeer of the other node, with the configuration's routes.
pub new_android_peer :
    (String → Option (Ip × IpNet))
    → Bool
    → Option ℕ
    → String
    → String
    → P2pNetwork
    → Result App.Error Unit × P2pNetwork
new_android_peer parse_cidr hole conn name remote_ip nw =
    let (r, b) = new_nat_peer parse_cidr nw.routers hole conn name remote_ip nw.bridge in
    (r, record nw { bridge = b })

-- Shutdown disconnects the peers that it listed at its start.
abbrev pub disconnect_all : List Peer → Bridge → Bridge
disconnect_all [] b = b
disconnect_all (p ∷ ps) b = disconnect_all ps (disconnect_peer p b)

unfoldable pub shutdown : P2pNetwork → P2pNetwork
shutdown nw = record nw { bridge = disconnect_all (all_peers nw.bridge) nw.bridge }
