-- ===== src/Hub/Requests.antt =====
-- The requests of a node to the hub, from the transport of the one (pkg/proto/transport.go) to the
-- handlers of the other (pkg/hub/hub.go), with the registry of model/init.gen.go.
pub mod Tests
use ptun.Base.Text.{String}
use ptun.Packet.Tag
use ptun.Message.{GoType}
use ptun.Message.Model.{model_type}
use ptun.Transport.{Transport}
use ptun.Hub.Handlers.{HubHandler, peer_list, punch}

-- The type whose requests a handler gets.
abbrev pub type_of : HubHandler → GoType
type_of peer_list = model_type "PeerListRequest"
type_of punch = model_type "PunchRequest"
