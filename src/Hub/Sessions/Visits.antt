-- ===== src/Hub/Sessions/Visits.antt =====
-- The sessions of pkg/hub/hub.go over time: handlers that start and end in any order.
use ptun.Base.{false, List, [], ◌∷◌}
use ptun.Hub.Sessions.{Session, Hub, IsNew, Came, close, enter, leave}

-- NewHub.
abbrev pub new_hub : Hub
new_hub = record { sessions = []; closed = λ i. false }

-- A transport may close itself at any time, by its read loop or its keepalive: it does before the handler
-- of its session ends, as RunDispatcher returns on a closed channel.
pub data Visit (came : List Session) (h : Hub) : List Session → Hub → Type 0 where
  arrives : (s : Session) → IsNew s h → Visit came h (s ∷ came) (enter s h)
  dies : (s : Session) → Visit came h came (close s h)
  departs : (s : Session) → Came s came → Visit came h came (leave s h)

-- The sessions that came, the last one first, and the hub.
pub data Visits : List Session → Hub → Type 0 where
  start : Visits [] new_hub
  later :
      {came came' : List Session} {h k : Hub}
      → Visits came h
      → Visit came h came' k
      → Visits came' k
