-- ===== src/Packet/Tag.antt =====
-- The values of PacketTag that pkg/proto/packet.go knows. A tag on the wire is any uint16.
use ptun.Base.{ℕ}

abbrev pub empty : ℕ
empty = 10

abbrev pub raw : ℕ
raw = 11

abbrev pub req : ℕ
req = 12

abbrev pub resp : ℕ
resp = 13

abbrev pub ping : ℕ
ping = 14

abbrev pub pong : ℕ
pong = 15
