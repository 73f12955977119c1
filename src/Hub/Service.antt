-- ===== src/Hub/Service.antt =====
-- cmd/hub/service/service.go: the hub's process, which runs the detection server and the hub's server
-- until it is told to stop.
use ptun.Base.{
  ℕ, ◌≡◌, ◌≢◌, refl, Bool, true, false, not, ◌&&◌, ◌||◌, Option, none, some, ok, arith, ◌==◌,
}
use ptun.Nat.Detect.Server.{
  Server as SimpleServer, new_simple_server, listens, stopped, start, stop,
}
use ptun.Hub.Server.{Server as HubServer, new_server, starts, closes, step}
use ptun.App.Config.{
  Server as ServerConfig, check_server_config, check_server_config_iff, check_server_config_iff,
}

-- How Run goes on after it has started what it can: it returns an error, or waits for its context.
pub data Running : Type 0 where
  detection_failed hub_failed waiting : Running

pub record Service : Type 0 where
  pub nat_server : SimpleServer
  pub hub : HubServer
  pub running : Running

-- ListenUDP at a port, when another one is in use by the process: port 0 stands for any free one.
abbrev pub can_listen : (ℕ → Bool) → ℕ → ℕ → Bool
can_listen free used port = port == 0 || (free port && not (port == used))

-- `none` is a panic.
abbrev pub hub_started : SimpleServer → Bool → Option HubServer → Option Service
hub_started s works none = none
hub_started s false (some h) = some (record { nat_server = s; hub = h; running = hub_failed })
hub_started s true (some h) = some (record { nat_server = s; hub = h; running = waiting })

-- What Run does once it has a detection server, by whether its Start worked.
abbrev pub run_hub : Bool → SimpleServer × Bool → Option Service
run_hub works (s, false) =
    some (record { nat_server = s; hub = new_server; running = detection_failed })
run_hub works (s, true) = hub_started s works (step (starts works) new_server)

-- Run, up to the wait. `free` says which UDP ports can be listened on, `works` whether the hub's port can.
unfoldable pub run : (ℕ → Bool) → Bool → ServerConfig → Option Service
run free works cfg = run_hub works (
    start (can_listen free 0 cfg.primary_port) (can_listen free cfg.primary_port cfg.secondary_port)
      (new_simple_server cfg.primary_port cfg.secondary_port))

abbrev pub hub_closed : SimpleServer → Option HubServer → Option Service
hub_closed s none = none
hub_closed s (some h) = some (record { nat_server = stop s; hub = h; running = waiting })

-- What Run does when its context is done, after whatever the hub has done meanwhile.
unfoldable pub shut_down : Service → Option Service
unfolding stop
shut_down s = hub_closed s.nat_server (step closes s.hub)

abbrev pub IsUp : Service → Type 0
IsUp s =
    (s.running ≡ waiting)
    × (s.nat_server.primary_listener ≡ listens)
    × (s.nat_server.secondary_listener ≡ listens)
    × (s.nat_server.goroutines ≡ 2)
    × (s.hub.listening ≡ true)
    × (s.hub.channel_closed ≡ false)

abbrev pub IsDown : Service → Type 0
IsDown s =
    (s.nat_server.primary_listener ≡ stopped)
    × (s.nat_server.secondary_listener ≡ stopped)
    × (s.hub.listening ≡ false)
    × (s.hub.channel_closed ≡ true)

first_free : (free : ℕ → Bool) (port : ℕ) → free port ≡ true → can_listen free 0 port ≡ true
first_free free port f = ground (arith, f)

second_free :
    (free : ℕ → Bool) (used port : ℕ)
    → free port ≡ true
    → used ≢ port
    → can_listen free used port ≡ true
second_free free used port f d = ground (arith, f, d)

-- Both servers of the process, as Run has them while it waits.
abbrev pub running_service : ServerConfig → Service
running_service cfg = record {
  nat_server = record (new_simple_server cfg.primary_port cfg.secondary_port) {
    primary_listener = listens;
    secondary_listener = listens;
    goroutines = 2;
  };
  hub = record new_server { listening = true };
  running = waiting;
}

-- With a configuration that checkServerConfig accepts, and both UDP ports and the hub's port free, Run
-- has the detection server and the hub listening, and has both stopped when its context is done.
pub run-shut_down :
    (free : ℕ → Bool) (cfg : ServerConfig)
    → check_server_config cfg ≡ ok tt
    → free cfg.primary_port ≡ true
    → free cfg.secondary_port ≡ true
    → (up : Service) × (down : Service) × (run free true cfg ≡ some up)
      × (shut_down up ≡ some down)
      × IsUp up
      × IsDown down
unfolding run start stop step shut_down
run-shut_down free cfg accepted first second =
    let valid = (check_server_config_iff cfg).0 accepted in
    (
      running_service cfg,
      _,
      rw (first_free free cfg.primary_port first)
          (rw (second_free free cfg.primary_port cfg.secondary_port second valid.1) refl),
      refl,
      (refl, refl, refl, refl, refl, refl),
      (refl, refl, refl, refl),
    )

-- When the hub's port cannot be listened on, Run returns an error and leaves the detection server
-- running, with nothing that stops it.
pub run_half :
    (free : ℕ → Bool) (cfg : ServerConfig) (s : SimpleServer)
    → start
        (can_listen free 0 cfg.primary_port)
        (can_listen free cfg.primary_port cfg.secondary_port)
        (new_simple_server cfg.primary_port cfg.secondary_port)
      ≡ (s, true)
    → run free false cfg ≡ some (record { nat_server = s; hub = new_server; running = hub_failed })
unfolding run step
run_half free cfg s e = rw e refl
