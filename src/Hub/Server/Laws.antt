-- ===== src/Hub/Server/Laws.antt =====
-- What Close of pkg/hub/hub_tcp.go does to logins that are going on.
use ptun.Base.{
  ℕ, ◌≡◌, refl, ap, sym, ◌∙◌, inl, inr, Bool, true, false, List, [], ◌∷◌, ◌++◌, Option, none, some,
  All, ◌==◌, if◌then◌else◌, append-nil, append_assoc, arith, Bool-cases,
}
use ptun.Base.Text.{String}
use ptun.Hub.Sessions.{Session}
use ptun.Hub.Login.{handle_login, read_panic, Outcome, accepted, closed, crashed}
use ptun.Hub.Server.{
  Server, Event, starts, connects, logs_in, closes, waits, without, end_login, step, and_then, run,
}

waits-without :
    (c d : ℕ) (ds : List ℕ) → d == c ≡ false → waits c ds ≡ true → waits c (without d ds) ≡ true
waits-without c d [] n w = w
waits-without c d (e ∷ ds) n w = ground (arith, waits-without c d ds n)

-- Events before Close in which no handleLogin panics, and those that do not end the login of a connection.
abbrev pub IsBefore : Event → Type 0
IsBefore (starts works) = Unit
IsBefore (connects c) = Unit
IsBefore (logs_in c (accepted name)) = Unit
IsBefore (logs_in c closed) = Unit
IsBefore (logs_in c crashed) = ⊥
IsBefore closes = ⊥

abbrev pub Leaves : ℕ → Event → Type 0
Leaves c (starts works) = Unit
Leaves c (connects d) = Unit
Leaves c (logs_in d outcome) = d == c ≡ false
Leaves c closes = Unit

-- Whether the process goes on, with the channel open and no session lost.
abbrev pub Keeps : List Session → Option Server → Type 0
Keeps before none = ⊥
Keeps before (some s) =
    (s.channel_closed ≡ false) × (more : List Session) × (s.handled ≡ before ++ more)

nothing_new : (s : Server) → s.channel_closed ≡ false → Keeps s.handled (some s)
nothing_new s o = (o, [], sym (append-nil s.handled))

end_login-Keeps :
    (c : ℕ) (outcome : Outcome) (s : Server)
    → IsBefore (logs_in c outcome)
    → s.channel_closed ≡ false
    → Keeps s.handled (end_login c outcome s)
end_login-Keeps c crashed s b o = absurd b
end_login-Keeps c closed s b o = nothing_new s o
end_login-Keeps c (accepted name) s b o = rw o (refl, record { id = c; name = name } ∷ [], refl)

step-Keeps :
    (e : Event) (s : Server) → IsBefore e → s.channel_closed ≡ false → Keeps s.handled (step e s)
unfolding step
step-Keeps (starts true) s b o = nothing_new (record s { listening = true }) o
step-Keeps (starts false) s b o = nothing_new s o
step-Keeps (connects c) s b o = elim (Bool-cases s.listening) [
  | inl l ↦ rw l (nothing_new (record s { logging_in = c ∷ s.logging_in }) o)
  | inr l ↦ rw l (nothing_new s o)
]
step-Keeps (logs_in c outcome) s b o = elim (Bool-cases (waits c s.logging_in)) [
  | inl w ↦ rw w (end_login-Keeps c outcome (record s { logging_in = without c s.logging_in }) b o)
  | inr w ↦ rw w (nothing_new s o)
]
step-Keeps closes s b o = absurd b

extend :
    (before more : List Session) (t : Server) (r : Option Server)
    → t.handled ≡ before ++ more
    → Keeps t.handled r
    → Keeps before r
extend before more t none e k = absurd k
extend before more t (some u) e (o, more', f) =
    (o, more ++ more', f ∙ ap (λ l. l ++ more') e ∙ append_assoc before more more')

continue :
    (before : List Session) (r : Option Server) (f : Server → Option Server)
    → Keeps before r
    → ((t : Server) → t.channel_closed ≡ false → Keeps t.handled (f t))
    → Keeps before (and_then r f)
continue before none f k h = absurd k
continue before (some t) f (o, more, e) h = extend before more t (f t) e (h t o)

run_until_close :
    (es : List Event) (s : Server)
    → All IsBefore es
    → s.channel_closed ≡ false
    → Keeps s.handled (run es s)
unfolding run
run_until_close [] s b o = nothing_new s o
run_until_close (e ∷ es) s (now, later) o =
    continue s.handled (step e s) (run es) (step-Keeps e s now o)
      (λ t c. run_until_close es t later c)

-- With the channel closed, a login that ends panics, or leaves the rest to go on.
end_login-late :
    (d : ℕ) (outcome : Outcome) (s : Server) (rest : Server → Option Server)
    → s.channel_closed ≡ true
    → rest s ≡ none
    → and_then (end_login d outcome s) rest ≡ none
end_login-late d (accepted name) s rest o e = rw o refl
end_login-late d closed s rest o e = e
end_login-late d crashed s rest o e = refl

either :
    (b : Bool) (x y : Server) (rest : Server → Option Server)
    → rest x ≡ none
    → rest y ≡ none
    → rest (if b then x else y) ≡ none
either true x y rest e f = e
either false x y rest e f = f

late :
    (c : ℕ) (name : String) (fs gs : List Event) (s : Server)
    → s.channel_closed ≡ true
    → waits c s.logging_in ≡ true
    → All (Leaves c) fs
    → run (fs ++ logs_in c (accepted name) ∷ gs) s ≡ none
unfolding run
late c name [] gs s o w h = rw (w, o) refl
late c name (starts true ∷ fs) gs s o w (now, h) =
    late c name fs gs (record s { listening = true }) o w h
late c name (starts false ∷ fs) gs s o w (now, h) = late c name fs gs s o w h
late c name (connects d ∷ fs) gs s o w (now, h) =
    either s.listening (record s { logging_in = d ∷ s.logging_in }) s
      (run (fs ++ logs_in c (accepted name) ∷ gs))
      (late c name fs gs (record s { logging_in = d ∷ s.logging_in }) o (ground (arith, w)) h)
      (late c name fs gs s o w h)
late c name (logs_in d outcome ∷ fs) gs s o w (now, h) = elim (Bool-cases (waits d s.logging_in)) [
  | inr v ↦ rw v (late c name fs gs s o w h)
  | inl v ↦
      let left : Server = record s { logging_in = without d s.logging_in } in
      rw v (
        end_login-late d outcome left _ o
          (late c name fs gs left o (waits-without c d s.logging_in now w) h))
]
late c name (closes ∷ fs) gs s o w (now, h) = rw o refl

-- A login that crashes takes the process with it, whatever comes later.
crash :
    (c : ℕ) (gs : List Event) (s : Server)
    → waits c s.logging_in ≡ true
    → run (logs_in c crashed ∷ gs) s ≡ none
unfolding run step
crash c gs s w = rw w refl

-- Until the server is closed, no sequence of events in which no handleLogin panics does, and every
-- session that was handed to the hub stays handed over. A handleLogin that panics, as it does when the
-- client hangs up before its login, panics the process. So does a login that is going on when an open
-- server is closed, and that succeeds later, as it sends on the closed channel, whatever other events
-- come in between.
pub run_close :
    (token uuid : String) (sent : Bool) (es fs gs : List Event) (s : Server) (c : ℕ) (name : String)
    → s.channel_closed ≡ false
    → All IsBefore es
    → All (Leaves c) fs
    → waits c s.logging_in ≡ true
    → Keeps s.handled (run es s)
      × (run (logs_in c (handle_login token uuid read_panic sent).1 ∷ gs) s ≡ none)
      × (run (closes ∷ fs ++ logs_in c (accepted name) ∷ gs) s ≡ none)
unfolding run handle_login
run_close token uuid sent es fs gs s c name o before leaves w = (
  run_until_close es s before o,
  crash c gs s w,
  rw o (late c name fs gs (record s { listening = false; channel_closed = true }) refl w leaves),
)
