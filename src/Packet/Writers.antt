-- ===== src/Packet/Writers.antt =====
-- The bufio.Writer of PackInto over an io.Writer.
use ptun.Base.{
  ℕ, ◌+◌, ◌-◌, ◌≤◌, ◌<◌, ◌≡◌, Bool, true, false, List, [], ◌∷◌, ◌++◌, length, take, drop, leb, ◌==◌,
  if◌then◌else◌, arith,
}

-- The io.Writer behind it: each call of Write that it took, oldest first. It takes all or none.
pub record Sink : Type 0 where
  pub calls : List (List ℕ)
  pub works : Bool

pub record BufWriter : Type 0 where
  pub size : ℕ
  pub buffered : List ℕ
  pub failed : Bool
  pub sink : Sink

abbrev pub buf_writer : ℕ → Sink → BufWriter
buf_writer size sink = record { size = size; buffered = []; failed = false; sink = sink }

-- One call of the io.Writer. An error sticks.
pub pass_on : BufWriter → List ℕ → BufWriter
pass_on w p =
    if w.sink.works
    then record w { sink = record { calls = w.sink.calls ++ p ∷ []; works = w.sink.works } }
    else record w { failed = true }

pub flush : BufWriter → BufWriter
unfolding pass_on
flush w =
    if w.failed
    then w
    else if length w.buffered == 0
    then w
    else let passed = pass_on w w.buffered in
      if passed.failed then passed else record passed { buffered = [] }

-- What does not fit an empty buffer goes straight to the io.Writer.
write_empty : BufWriter → List ℕ → BufWriter
unfolding pass_on
write_empty w p =
    if w.failed then w else if leb (length p) w.size then record w { buffered = p } else pass_on w p

-- The loop of Write takes two rounds at most: the first one fills and flushes the buffer.
pub write : BufWriter → List ℕ → BufWriter
unfolding write_empty flush
write w p =
    let space = w.size - length w.buffered in
    if w.failed
    then w
    else if leb (length p) space
    then record w { buffered = w.buffered ++ p }
    else if length w.buffered == 0
    then pass_on w p
    else write_empty (flush (record w { buffered = w.buffered ++ take space p })) (drop space p)

-- A writer over `sink` that holds `held`, none of it passed on yet.
abbrev pub holding : ℕ → Sink → List ℕ → BufWriter
holding size sink held = record { size = size; buffered = held; failed = false; sink = sink }

pub write-holding :
    (size : ℕ) (sink : Sink) (held p : List ℕ)
    → length held + length p ≤ size
    → write (holding size sink held) p ≡ holding size sink (held ++ p)
unfolding write
write-holding size sink held p h = ground arith

pub flush-holding :
    (size : ℕ) (sink : Sink) (held : List ℕ)
    → 0 < length held
    → sink.works ≡ true
    → flush (holding size sink held)
      ≡ holding size (record { calls = sink.calls ++ held ∷ []; works = sink.works }) []
unfolding flush
flush-holding size sink held h w = ground arith

-- When the io.Writer fails, nothing reaches it and the writer has failed.
pub flush-holding_failed :
    (size : ℕ) (sink : Sink) (held : List ℕ)
    → 0 < length held
    → sink.works ≡ false
    → flush (holding size sink held) ≡ record (holding size sink held) { failed = true }
unfolding flush
flush-holding_failed size sink held h w = ground arith
