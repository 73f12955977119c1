-- ===== src/Device/Setup.antt =====
-- NewTun and Close of pkg/device/tun.go, and tunIface of tun_linux.go. The kernel, behind netlink and
-- the WireGuard library, is the parameter `Os`; what was done to it is a list of effects.
pub mod Laws
use ptun.Base.{
  ℕ, zero, suc, ◌≡◌, refl, ap, sym, ◌∙◌, ◌⊎◌, inl, inr, Bool, true, false, ◌&&◌, List, [], ◌∷◌,
  ◌++◌, Option, none, some, Result, ok, err, panics, ◌>>=◌, replicate, if◌then◌else◌, arith,
  append_assoc, append-nil, Bool-cases,
}
use ptun.Base.Text.{String}
use ptun.Network.{Ip, IpNet}
use ptun.Network.Resolve.{parse_ip_nets}
use ptun.Device.Tun.{Tun}

-- Whether each call succeeds. `batch_size` is what the device says of itself.
pub record Os : Type 0 where
  pub create_tun : Bool
  pub link_by_name : Bool
  pub addr_add : IpNet → Bool
  pub link_set_up : Bool
  pub link_set_down : Bool
  pub route_add : IpNet → Bool
  pub addr_del : IpNet → Bool
  pub route_del : IpNet → Bool
  pub device_close : Bool
  pub batch_size : ℕ

pub data Effect : Type 0 where
  created link_up link_down device_closed : Effect
  addr_added addr_deleted route_added route_deleted : IpNet → Effect

-- What a method of the interface did, and whether it returned no error.
abbrev pub Done : Type 0
Done = List Effect × Bool

-- The loops of AddAddr, DelAddr, AddRoute and DelRoute: the first error ends them.
abbrev pub each : (IpNet → Bool) → (IpNet → Effect) → List IpNet → Done
each works effect [] = ([], true)
each works effect (n ∷ ns) =
    let rest = each works effect ns in if works n then (effect n ∷ rest.0, rest.1) else ([], false)

-- LinkByName comes first in every method.
abbrev pub with_link : Os → Done → Done
with_link os d = if os.link_by_name then d else ([], false)

pub add_addr : Os → List IpNet → Done
add_addr os nets = with_link os (each os.addr_add addr_added nets)

pub del_addr : Os → List IpNet → Done
del_addr os nets = with_link os (each os.addr_del addr_deleted nets)

pub add_route : Os → List IpNet → Done
add_route os nets = with_link os (each os.route_add route_added nets)

pub del_route : Os → List IpNet → Done
del_route os nets = with_link os (each os.route_del route_deleted nets)

pub up : Os → Done
up os = with_link os (if os.link_set_up then (link_up ∷ [], true) else ([], false))

pub down : Os → Done
down os = with_link os (if os.link_set_down then (link_down ∷ [], true) else ([], false))

-- Each network gets the whole address of its text.
abbrev pub set_ips : List Ip → List IpNet → List IpNet
set_ips (ip ∷ ips) (n ∷ nets) = record { ip = ip; mask = n.mask } ∷ set_ips ips nets
set_ips _ nets = nets

pub data Error : Type 0 where
  parse_failed : String → Error
  create_failed addr_failed up_failed route_failed : Error

-- The buffers are made once the addresses are set.
abbrev pub fresh_tun : ℕ → Tun
fresh_tun batch_size = record {
  read_bufs = replicate batch_size (replicate 4096 0);
  buf_sizes = replicate batch_size 0;
  count = 0;
  current = 0;
}

-- A step whose error is returned, after the effects of the steps before it.
abbrev pub Made : Type 0
Made = List Effect × Result Error Tun

abbrev pub then_do : Done → Error → Made → Made
then_do (effects, true) e rest = (effects ++ rest.0, rest.1)
then_do (effects, false) e rest = (effects, err e)

-- NewTun once the texts are parsed, from CreateTUN on.
abbrev pub create : Os → Done
create os = if os.create_tun then (created ∷ [], true) else ([], false)

pub set_up : Os → List IpNet → List IpNet → Made
unfolding add_addr up add_route
set_up os nets routes = then_do (create os) create_failed (
    then_do (add_addr os nets) addr_failed (
      then_do (up os) up_failed
        (then_do (add_route os routes) route_failed ([], ok (fresh_tun os.batch_size)))))

unfoldable pub parsed_routes : Os → List IpNet → Result String (List Ip × List IpNet) → Made
unfolding set_up
parsed_routes os nets (ok r) = set_up os nets r.1
parsed_routes os nets (err e) = ([], err (parse_failed e))
parsed_routes os nets panics = ([], panics)

unfoldable pub parsed_addrs :
    Os → Result String (List Ip × List IpNet) → Result String (List Ip × List IpNet) → Made
unfolding parsed_routes
parsed_addrs os (ok a) routes = parsed_routes os (set_ips a.0 a.1) routes
parsed_addrs os (err e) routes = ([], err (parse_failed e))
parsed_addrs os panics routes = ([], panics)

unfoldable pub new_tun : Os → (String → Option (Ip × IpNet)) → List String → List String → Made
unfolding parsed_addrs
new_tun os parse_cidr addrs routes =
    parsed_addrs os (parse_ip_nets parse_cidr addrs) (parse_ip_nets parse_cidr routes)

-- Close, under its sync.Once: `closed` says whether it ran before.
pub close_tun : Os → Bool → Done
unfolding down
close_tun os true = ([], true)
close_tun os false =
    ((down os).0 ++ (if os.device_close then device_closed ∷ [] else []), os.device_close)
