-- ===== src/App/Create/Tests.antt =====
-- The theorem on CreateNet at a concrete configuration.
use ptun.Base.{ℕ, ◌≡◌, refl, ◌+◌, Bool, true, false, [], ◌∷◌, Option, some}
use ptun.Base.Text.{String}
use ptun.Network.{Ip, IpNet}
use ptun.Network.Resolve.{parse_ip_nets, resolve_udp_addrs}
use ptun.Bridge.{new_bridge}
use ptun.Device.Setup.{Os, new_tun}
use ptun.Device.Setup.Laws.{open_after}
use ptun.Device.Rules.{Rule, update_iptables}
use ptun.App.{routes_of}
use ptun.App.Create.{P2pNetworkConfig, P2pNetwork, create_net, peer_routes}
use ptun.App.Create.Routes.{behind}
use ptun.App.Create.Laws.{create_net_ok}

abbrev lan : IpNet
lan = record { ip = 10 ∷ 0 ∷ 0 ∷ 0 ∷ []; mask = 255 ∷ 255 ∷ 255 ∷ 0 ∷ [] }

abbrev parse_cidr : String → Option (Ip × IpNet)
parse_cidr s = some (10 ∷ 0 ∷ 0 ∷ 2 ∷ [], lan)

abbrev parse_ip : String → Ip
parse_ip s = 10 ∷ 0 ∷ 0 ∷ 2 ∷ []

abbrev os : Os
os = record {
  create_tun = true;
  link_by_name = true;
  addr_add = λ n. true;
  link_set_up = true;
  link_set_down = true;
  route_add = λ n. true;
  addr_del = λ n. true;
  route_del = λ n. true;
  device_close = true;
  batch_size = 1;
}

abbrev config : P2pNetworkConfig
config = record {
  ip = "10.0.0.1/24";
  allow_nets = [];
  routers = record { next = "10.0.0.2"; networks = "192.168.0.0/16" ∷ [] } ∷ [];
}

-- The tables hold the number of rules.
abbrev exists : Rule → ℕ → Option Bool
exists r n = some false

abbrev change : Rule → ℕ → Option ℕ
change r n = some (n + 1)

abbrev made : P2pNetwork ℕ
made = record {
  bridge = new_bridge;
  tables = 0;
  rules = [];
  routes = record { next = 10 ∷ 0 ∷ 0 ∷ 2 ∷ []; network = lan } ∷ [];
}

create_net_ok_example :
    (made.bridge ≡ new_bridge)
    × (routes_of made.routes (10 ∷ 0 ∷ 0 ∷ 2 ∷ [])
        ≡ behind parse_cidr parse_ip config.routers (10 ∷ 0 ∷ 0 ∷ 2 ∷ []))
    × (open_after false
          (create_net parse_cidr parse_ip
            (λ n. "10.0.0.0/24")
            os
            (some 0)
            exists
            change
            change
            (λ l. l)
            config).0
        ≡ true)
unfolding create_net peer_routes new_tun parse_ip_nets resolve_udp_addrs update_iptables
create_net_ok_example =
    create_net_ok parse_cidr parse_ip (λ n. "10.0.0.0/24") os (some 0) exists change change (λ l. l)
      made config (10 ∷ 0 ∷ 0 ∷ 2 ∷ []) refl
