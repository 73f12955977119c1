-- ===== src/Lib.antt =====
-- ptun: a peer-to-peer tunnel. A hub keeps a session for each node; two nodes learn from it how to
-- reach each other, punch a hole through their NATs, and then carry IP packets between their TUN
-- devices over a framed transport.
--
-- How the program's parts stand in the files:
--   Base        texts and maps by texts, signed numbers, lists, and the result of a Go call: a value,
--               an error or a panic.
--   Packet      pkg/proto/packet.go. `pack_into`, `unpack_from`, `unpack`, `set_body` are PackInto,
--               UnpackFrom, Unpack, SetBody; Writers and Readers are bufio and bytes of the standard
--               library, over a stream or a datagram connection that gives its segments one by one.
--               The pool of buffers counts what is taken and put back.
--   Transport   pkg/proto/transport.go. The state is one record: the channels, `done`, the count of
--               the keepalive, what was written. A round of readloop gives the list of its possible
--               ends, since a `select` chooses among ready cases; no end at all is a loop that
--               waits. Rounds is about one round, Steps has the goroutines, callers and timers as
--               steps in any order; what SetKeepalive interrupts ends in steps of its own. Calls has
--               the requester and the responser, Calls/Serve the loops of the three RunDispatchers
--               with what they defer, Calls/Crossing what one side's call is on the other side.
--   Message     pkg/proto/message.go, message_tpl.go, tools.go and dispatcher.go. Reply has SendMessage
--               with RunDispatcher as a sequence of events of one call; Generate is GenMessageMethod,
--               over the syntax that the parser gives, and Model what it wrote for the directory model.
--   Network     pkg/network/tools.go: addresses, broadcast, and the headers of a packet; Resolve has
--               ResolveUDPAddrs and ParseIPNets; Conns has raw.go, quic.go and cypto.go.
--   Bridge      pkg/bridge: the map of peers, and one round of handlePeer and handleVeth.
--   Nat         pkg/nat: Analyze (analyze.go), Ports (NoRepeatRandInts), Hole (MakeHole, send, wait,
--               genEndpoint, and ModifyTTL of pkg/network), Stun (the tests of service_stun.go, with
--               Connect for connectStun and the goroutine that reads its socket), Detect and
--               Detect/Server (service_simple.go), Resolved (GetNatFromAnalyze).
--   Device      pkg/device: Tun has Read and WriteRaw of tun.go, Setup has NewTun and Close of it and
--               tun_linux.go, Rules has rule.go. What NewTun does to the kernel is a list of effects.
--   Hub         pkg/hub: Sessions and Punch are hub.go, Login and Server are hub_tcp.go, Exchanger
--               is exchanger.go with the login that it tries again (Retry). Sessions/Visits and
--               Server have arrivals, departures, logins, transports that close themselves and Close
--               in any order. Handlers is what a session's requests lead to, Requests how they come
--               to it; Service is cmd/hub/service/service.go.
--   App         app/network.go and app/node.go: Create is CreateNet, Run is Node.Run as steps in any
--               order, one for each peer that it looks at, also that of cmd/node/service/service.go;
--               Rounds joins it with the hub's sessions. Config is app/config, with the loading in
--               Config/Load.
--   Android     app_android: the device of two channels, one of which passes on slices of the
--               service's memory, the network over it, and in Node the loop of node.go as steps in
--               any order.
-- The transport writes and reads frames; messages are bodies of frames; the bridge and the hub hold
-- transports by name; what the hub sends is what Analyze gives, and MakeHole acts on that.
--
-- Numbers are natural; lengths are below 2 ^ 16 and ids below 2 ^ 32, with the wrap written out. What
-- Go subtracts below zero is an integer of Base/Int. Times are only compared or passed on.
-- Fuel: the loop of NoRepeatRandInts has as many rounds as its fuel; one more than the draws that meet
-- every number of the range are enough. The loops of RunDispatcher have as many rounds as their fuel;
-- one more than there are packets queued is enough. The loop over extension headers runs on the
-- packet's length, which it cannot use up. All other loops are structural.
-- Parameters stand for code elsewhere: net.ResolveUDPAddr, net.ParseCIDR, encoding/json by the
-- law that Unmarshal reads back what Marshal wrote, the STUN and iptables libraries, the
-- retrying library, viper, the cipher and the connections that pkg/network wraps, the TUN
-- device and the kernel behind netlink, the parser of Go source and the templates of messages,
-- the random source, and the order in which Go walks over a map.
--
-- Not modelled: the KCP connection, which only passes calls on and which nothing uses; the certificate
-- of the QUIC connection; command lines, the search for configuration files, signals and logging.
pub mod Base
pub mod Packet
pub mod Transport
pub mod Message
pub mod Network
pub mod Bridge
pub mod Nat
pub mod Device
pub mod Hub
pub mod App
pub mod Android
