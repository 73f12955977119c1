-- ===== src/Network.antt =====
-- pkg/network/tools.go: addresses, and the packets that the tunnel carries. An address is a list of
-- bytes as net.IP is, nil the empty list; net's own functions are those of the standard library.
-- A slice is its backing array up to the capacity, with a length.
pub mod Laws
pub mod Resolve
pub mod Conns
pub mod Tests
use Prim.Native.Nat.{bit_and}
use ptun.Base.{
  ℕ, zero, suc, ◌+◌, ◌-◌, ◌*◌, ◌/◌, ◌%◌, ◌≡◌, Bool, true, false, ◌&&◌, ◌||◌, List, [], ◌∷◌, ◌++◌,
  Option, none, some, Result, ok, err, panics, ◌>>=◌, length, take, drop, get_elem?, replicate, ltb,
  leb, ◌==◌, if◌then◌else◌,
}

abbrev pub Ip : Type 0
Ip = List ℕ

abbrev pub bytes_eq : List ℕ → List ℕ → Bool
bytes_eq [] [] = true
bytes_eq [] (y ∷ ys) = false
bytes_eq (x ∷ xs) [] = false
bytes_eq (x ∷ xs) (y ∷ ys) = x == y && bytes_eq xs ys

-- The prefix ::ffff:0:0/96 of an IPv4 address in 16 bytes.
abbrev pub v4_prefix : List ℕ
v4_prefix = 0 ∷ 0 ∷ 0 ∷ 0 ∷ 0 ∷ 0 ∷ 0 ∷ 0 ∷ 0 ∷ 0 ∷ 255 ∷ 255 ∷ []

-- net.IP.To4; nil is the empty list.
pub to4 : Ip → Ip
to4 ip =
    if length ip == 4
    then ip
    else if length ip == 16 && bytes_eq (take 12 ip) v4_prefix
    then drop 12 ip
    else []

-- net.ParseIP of net.IP.String: the address in 16 bytes; an address of a wrong length gives nil.
unfoldable pub reparse : Ip → Ip
reparse ip = if length ip == 4 then v4_prefix ++ ip else if length ip == 16 then ip else []

pub record IpNet : Type 0 where
  pub ip : Ip
  pub mask : List ℕ

-- net.IPNet.Contains.
network_ip : IpNet → Ip
unfolding to4
network_ip n =
    if leb 1 (length (to4 n.ip)) then to4 n.ip else if length n.ip == 16 then n.ip else []

pub network_number : IpNet → Ip × List ℕ
unfolding network_ip
network_number n =
    if length n.mask == 4
    then (if length (network_ip n) == 4 then (network_ip n, n.mask) else ([], []))
    else if length n.mask == 16
    then (network_ip n, if length (network_ip n) == 4 then drop 12 n.mask else n.mask)
    else ([], [])

pub masked_eq : Ip → List ℕ → Ip → Bool
masked_eq (x ∷ xs) (m ∷ ms) (y ∷ ys) = bit_and x m == bit_and y m && masked_eq xs ms ys
masked_eq xs ms ys = true

-- An IPv4 address in 16 bytes is compared in four.
pub shortest : Ip → Ip
unfolding to4
shortest ip = if leb 1 (length (to4 ip)) then to4 ip else ip

in_network : IpNet → Ip → Bool
unfolding network_number masked_eq
in_network n x =
    let (nn, m) = network_number n in if length x == length nn then masked_eq nn m x else false

pub contains : IpNet → Ip → Bool
unfolding shortest in_network
contains n ip = in_network n (shortest ip)

abbrev pub byte_at : List ℕ → ℕ → ℕ
byte_at xs i = elim (get_elem? xs i) [ none ↦ 0 | some b ↦ b ]

-- net.IP.IsMulticast.
pub is_multicast : Ip → Bool
unfolding to4
is_multicast ip =
    if leb 1 (length (to4 ip))
    then byte_at (to4 ip) 0 / 16 == 14
    else length ip == 16 && byte_at ip 0 == 255

pub is_broadcast : Ip → Bool
unfolding is_multicast to4
is_broadcast ip =
    if is_multicast ip
    then true
    else if leb 1 (length (to4 ip))
    then bytes_eq (to4 ip) (255 ∷ 255 ∷ 255 ∷ 255 ∷ []) || byte_at (to4 ip) 3 == 255
    else false

pub record Slice : Type 0 where
  pub backing : List ℕ
  pub len : ℕ

abbrev pub contents : Slice → List ℕ
contents s = take s.len s.backing

-- data[from : to], which may reach past the length, up to the capacity.
pub sub_slice : {E : Type 0} → Slice → ℕ → ℕ → Result E (List ℕ)
sub_slice s from to =
    if leb to (length s.backing) then ok (take (to - from) (drop from s.backing)) else panics

pub record Parsed : Type 0 where
  pub version : ℕ
  pub src : Ip
  pub dst : Ip

module _ {E : Type 0} where
  pub endpoints : ℕ → Slice → ℕ → ℕ → Result E Parsed
  endpoints version s offset size = do
    src ← sub_slice s offset (offset + size)
    dst ← sub_slice s (offset + size) (offset + size + size)
    ok (record { version = version; src = src; dst = dst })

  pub parse_packet : Slice → Result E Parsed
  unfolding endpoints sub_slice
  parse_packet s =
      let version = byte_at s.backing 0 / 16 in
      if s.len == 0
      then ok (record { version = 0; src = []; dst = [] })
      else if version == 4
      then endpoints 4 s 12 4
      else if version == 6
      then endpoints 6 s 8 16
      else ok (record { version = 0; src = []; dst = [] })

  abbrev pub index : List ℕ → ℕ → Result E ℕ
  index xs i = elim (get_elem? xs i) [ none ↦ panics | some b ↦ ok b ]

  -- data[from :]
  abbrev pub slice_from : List ℕ → ℕ → Result E (List ℕ)
  slice_from xs from = if leb from (length xs) then ok (drop from xs) else panics

pub is_extension : ℕ → Bool
is_extension h = h == 41 || h == 0 || h == 43 || h == 44 || h == 50 || h == 51 || h == 60

-- The loop of skipIPv6ExtensionHeaders on fuel; `stuck` is a loop that runs out of it.
pub data Stuck : Type 0 where
  stuck : Stuck

pub skip_loop : ℕ → List ℕ → ℕ → ℕ → Result Stuck (ℕ × ℕ)
skip_loop zero p offset h = err stuck
skip_loop (suc fuel) p offset h = elim (is_extension h) [
  | false ↦ ok (offset, h)
  | true ↦ index p offset >>= λ next_header.
      index p (offset + 1) >>= λ len. skip_loop fuel p (offset + (len + 1) * 8) next_header
]

-- Each round moves on by eight bytes at least, so as many rounds as bytes are enough.
pub skip_extension_headers : List ℕ → ℕ → Result Stuck (ℕ × ℕ)
unfolding skip_loop is_extension
skip_extension_headers p h = skip_loop (suc (length p)) p 0 h

payload4 : List ℕ → Result Stuck (ℕ × List ℕ)
payload4 p = do
  protocol ← index p 9
  payload ← slice_from p (byte_at p 0 % 16 * 4)
  ok (protocol, payload)

payload6 : List ℕ → Result Stuck (ℕ × List ℕ)
unfolding skip_extension_headers
payload6 p = do
  first ← index p 6
  rest ← slice_from p 40
  found ← skip_extension_headers rest first
  payload ← slice_from p (40 + found.0)
  ok (found.1, payload)

abbrev pub packet_get_payload : List ℕ → Result Stuck (ℕ × List ℕ)
unfolding payload4 payload6
packet_get_payload p =
    let version = byte_at p 0 / 16 in
    if length p == 0
    then ok (0, [])
    else if version == 4
    then payload4 p
    else if version == 6
    then payload6 p
    else ok (0, [])
