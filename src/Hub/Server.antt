-- ===== src/Hub/Server.antt =====
-- The server of pkg/hub/hub_tcp.go with Start and Close, and Start and Close of pkg/hub/hub.go for it.
-- A connection is a number. The session channel has no buffer, and the hub's goroutine takes whatever
-- is sent on it.
pub mod Laws
use ptun.Base.{
  ℕ, ◌≡◌, refl, ap, sym, ◌∙◌, ◌⊎◌, inl, inr, Bool, true, false, ◌&&◌, ◌||◌, List, [], ◌∷◌, ◌++◌,
  Option, none, some, All, ◌==◌, if◌then◌else◌, append-nil, append_assoc, arith, Bool-cases,
}
use ptun.Base.Text.{String}
use ptun.Hub.Sessions.{Session}
use ptun.Hub.Login.{Outcome, accepted, closed, crashed}

-- `logging_in` are the connections whose handleLogin runs; `handled` are the sessions that the hub's
-- goroutine has taken, oldest first, each for a handler of its own.
pub record Server : Type 0 where
  pub listening : Bool
  pub channel_closed : Bool
  pub logging_in : List ℕ
  pub handled : List Session

abbrev pub new_server : Server
new_server = record { listening = false; channel_closed = false; logging_in = []; handled = [] }

pub data Event : Type 0 where
  -- Start, when the port can be listened on or not.
  starts : Bool → Event
  connects : ℕ → Event
  -- handleLogin ends with its outcome.
  logs_in : ℕ → Outcome → Event
  closes : Event

abbrev pub waits : ℕ → List ℕ → Bool
waits c [] = false
waits c (d ∷ ds) = d == c || waits c ds

abbrev pub without : ℕ → List ℕ → List ℕ
without c [] = []
without c (d ∷ ds) = if d == c then ds else d ∷ without c ds

-- The send at the end of handleLogin: on a closed channel it panics.
abbrev pub hand_over : Session → Server → Option Server
hand_over session s =
    if s.channel_closed then none else some (record s { handled = s.handled ++ session ∷ [] })

abbrev pub end_login : ℕ → Outcome → Server → Option Server
end_login c (accepted name) s = hand_over (record { id = c; name = name }) s
end_login c closed s = some s
end_login c crashed s = none

-- What an event does; `none` is a panic of the process. Close closes the channel whether or not it is
-- closed already. An event that cannot come changes nothing.
unfoldable pub step : Event → Server → Option Server
step (starts works) s = some (if works then record s { listening = true } else s)
step (connects c) s = some (if s.listening then record s { logging_in = c ∷ s.logging_in } else s)
step (logs_in c outcome) s =
    if waits c s.logging_in
    then end_login c outcome (record s { logging_in = without c s.logging_in })
    else some s
step closes s =
    if s.channel_closed then none else some (record s { listening = false; channel_closed = true })

abbrev pub and_then : Option Server → (Server → Option Server) → Option Server
and_then none f = none
and_then (some s) f = f s

unfoldable pub run : List Event → Server → Option Server
unfolding step
run [] s = some s
run (e ∷ es) s = and_then (step e s) (run es)
