-- ===== src/Transport/Channel.antt =====
-- Buffered Go channels: a queue with a capacity, and a flag for `close`.
use ptun.Base.{ℕ, Bool, true, false, List, [], ◌∷◌, ◌++◌, length, ltb, if◌then◌else◌}

pub record Chan (A : Type 0) : Type 0 where
  pub cap : ℕ
  pub queue : List A
  pub closed : Bool

abbrev pub make : {A : Type 0} → ℕ → Chan A
make cap = record { cap = cap; queue = []; closed = false }

-- What a send on the channel does when it is tried.
pub data Send (A : Type 0) : Type 0 where
  sent : Chan A → Send A
  full panicked : Send A

unfoldable pub send : {A : Type 0} → A → Chan A → Send A
send a c =
    if c.closed
    then panicked
    else if ltb (length c.queue) c.cap
    then sent (record c { queue = c.queue ++ a ∷ [] })
    else full

-- A receive takes the oldest item; on a closed and drained channel it reports that.
pub data Receive (A : Type 0) : Type 0 where
  received : A → Chan A → Receive A
  drained empty : Receive A

unfoldable pub receive_from : {A : Type 0} → List A → Chan A → Receive A
receive_from [] c = if c.closed then drained else empty
receive_from (a ∷ rest) c = received a (record c { queue = rest })

unfoldable pub receive : {A : Type 0} → Chan A → Receive A
unfolding receive_from
receive c = receive_from c.queue c

abbrev pub close : {A : Type 0} → Chan A → Chan A
close c = record c { closed = true }
