-- ===== src/Message/Reply.antt =====
-- Transport.SendMessage of pkg/proto/transport.go, and what RunDispatcher does with a response: one
-- call that waits, as the sequence of events that its goroutine and the dispatcher's see.
use ptun.Base.{
  ℕ, ◌≡◌, refl, sym, ◌≢◌, ◌∙◌, Bool, true, false, ◌&&◌, List, [], ◌∷◌, ◌++◌, Option, none, some,
  Result, ok, err, panics, All, arith, ◌==◌, if◌then◌else◌,
}
use ptun.Message.{Error, Response}

pub data SendError : Type 0 where
  timeout : SendError

-- `registered` says whether `replyer` has the call's id; `unclaimed` are the responses that went to
-- the response dispatcher instead of a waiting call, newest first.
pub record Call (V : Type 0) : Type 0 where
  pub id : ℕ
  pub registered : Bool
  pub outcome : Option (Result SendError (Response V))
  pub unclaimed : List (Response V)

-- The request is on the wire from the start: SendMessage writes it before it registers.
pub sending : {V : Type 0} → ℕ → Call V
sending id = record { id = id; registered = false; outcome = none; unclaimed = [] }

pub data Event (V : Type 0) : Type 0 where
  registers times_out : Event V
  arrives : Result Error (Response V) → Event V

module _ {V : Type 0} where
  -- RunDispatcher on a response: an error is skipped, a waiting call is answered and takes its id
  -- out of `replyer`, and all else goes to the dispatcher.
  handle_response : Result Error (Response V) → Call V → Call V
  handle_response (err e) c = c
  handle_response panics c = c
  handle_response (ok resp) c =
      if c.registered && resp.id == c.id
      then record c { registered = false; outcome = some (ok resp) }
      else record c { unclaimed = resp ∷ c.unclaimed }

  pub step : Event V → Call V → Call V
  unfolding handle_response
  step registers c = record c { registered = true }
  step (arrives r) c = handle_response r c
  step times_out c =
      if c.registered then record c { registered = false; outcome = some (err timeout) } else c

  pub run : List (Event V) → Call V → Call V
  run [] c = c
  run (e ∷ es) c = run es (step e c)

  -- Events that do not concern a call: responses to others, and those that Unpack refuses.
  abbrev pub IsForeign : ℕ → Event V → Type 0
  IsForeign id registers = ⊥
  IsForeign id times_out = ⊥
  IsForeign id (arrives (ok resp)) = resp.id ≢ id
  IsForeign id (arrives (err e)) = Unit {0}
  IsForeign id (arrives panics) = Unit {0}

  step-IsForeign :
      (e : Event V) (c : Call V)
      → IsForeign c.id e
      → ((step e c).id ≡ c.id)
        × ((step e c).registered ≡ c.registered)
        × ((step e c).outcome ≡ c.outcome)
  unfolding step
  step-IsForeign registers c f = absurd f
  step-IsForeign times_out c f = absurd f
  step-IsForeign (arrives (ok resp)) c f = ground arith
  step-IsForeign (arrives (err e)) c f = (refl, refl, refl)
  step-IsForeign (arrives panics) c f = (refl, refl, refl)

  run-IsForeign :
      (es : List (Event V)) (c : Call V) (id : ℕ)
      → c.id ≡ id
      → All (IsForeign id) es
      → ((run es c).id ≡ id)
        × ((run es c).registered ≡ c.registered)
        × ((run es c).outcome ≡ c.outcome)
  unfolding run
  run-IsForeign [] c id h f = (h, refl, refl)
  run-IsForeign (e ∷ es) c id h (now, later) =
      let s = step-IsForeign e c (rw h now) in
      let r = run-IsForeign es (step e c) id (s.0 ∙ h) later in (r.0, r.1 ∙ s.1, r.2 ∙ s.2)

  pub run-append : (es fs : List (Event V)) (c : Call V) → run (es ++ fs) c ≡ run fs (run es c)
  unfolding run
  run-append [] fs c = refl
  run-append (e ∷ es) fs c = run-append es fs (step e c)

  answered :
      (resp : Response V) (c : Call V)
      → c.registered ≡ true
      → resp.id ≡ c.id
      → (run (arrives (ok resp) ∷ []) c).outcome ≡ some (ok resp)
  unfolding run step
  answered resp c r e = ground arith

  expired :
      (c : Call V) → c.registered ≡ true → (run (times_out ∷ []) c).outcome ≡ some (err timeout)
  unfolding run step
  expired c r = ground arith

  -- Once a call is registered, the first response with its id is what it returns, whatever foreign
  -- responses come before.
  pub run_answered :
      (id : ℕ) (es : List (Event V)) (resp : Response V)
      → All (IsForeign id) es
      → resp.id ≡ id
      → (run (registers ∷ es ++ arrives (ok resp) ∷ []) (sending id)).outcome ≡ some (ok resp)
  unfolding run step sending
  run_answered id es resp f e =
      let c : Call V = record (sending id) { registered = true } in
      let r = run-IsForeign es c id refl f in
      rw (run-append es (arrives (ok resp) ∷ []) c) (answered resp (run es c) r.1 (e ∙ sym r.0))

  -- A response that comes before the call is registered is lost to it: if none with its id comes
  -- later, the call times out, although its answer arrived.
  pub run_too_early :
      (id : ℕ) (es : List (Event V)) (resp : Response V)
      → All (IsForeign id) es
      → resp.id ≡ id
      → (run (arrives (ok resp) ∷ registers ∷ es ++ times_out ∷ []) (sending id)).outcome
        ≡ some (err timeout)
  unfolding run step sending
  run_too_early id es resp f e =
      let c : Call V = record (sending id) { registered = true; unclaimed = resp ∷ [] } in
      let r = run-IsForeign es c id refl f in
      rw (run-append es (times_out ∷ []) c) (expired (run es c) r.1)

  -- The error that Unpack makes of a negative code does not end the call either: it times out.
  pub run_refused :
      (id : ℕ) (es : List (Event V)) (x : Error)
      → All (IsForeign id) es
      → (run (registers ∷ arrives (err x) ∷ es ++ times_out ∷ []) (sending id)).outcome
        ≡ some (err timeout)
  unfolding run step sending
  run_refused id es x f =
      let c : Call V = record (sending id) { registered = true } in
      let r = run-IsForeign es c id refl f in
      rw (run-append es (times_out ∷ []) c) (expired (run es c) r.1)
