-- ===== src/Hub/Requests/Tests.antt =====
-- The theorem on the requests of a node at a concrete input.
use ptun.Base.{true, List, [], ◌∷◌, some, ℕ}
use ptun.Packet.{Pool}
use ptun.Packet.Tag
use ptun.Packet.Readers.{Conn, eof}
use ptun.Message.{Request, next, pointer_to}
use ptun.Transport.{Transport, new_transport}
use ptun.Transport.Calls.Serve.{Serving}
use ptun.Hub.Handlers.{HubHandler, punch}
use ptun.Hub.Requests.{type_of}

abbrev idle : Transport
idle = new_transport (record { calls = []; works = true }) (record { gets = 0; puts = 0 })

abbrev quiet : Conn
quiet = record { segments = []; datagram = true; at_end = eof }

abbrev pool : Pool
pool = record { gets = 0; puts = 0 }

abbrev session : Serving HubHandler (List ℕ)
session = record {
  transport = idle;
  deferred = [];
  requests = [];
  responses = [];
  replyer = [];
  answered = [];
}

abbrev asked : Request (List ℕ)
asked = record {
  key = "PunchRequest";
  id = next 7;
  data_raw = some (1 ∷ []);
  payload = pointer_to (type_of punch) (1 ∷ []);
}
