-- ===== src/Hub/Exchanger/Retry.antt =====
-- tryLogin of pkg/hub/exchanger.go. The library backoff is a parameter: `retry` maps what the calls of
-- an operation return, by their number, and the most retries, to the number of calls made and the
-- error that Retry returns.
use ptun.Base.{
  ℕ, zero, suc, ◌+◌, ◌-◌, ◌≤◌, ◌<◌, ◌≡◌, ◌≢◌, refl, ap, ◌∙◌, ◌⊎◌, inl, inr, Option, none, some,
  arith,
}
use mathlib.Core.Path.{subst}
use ptun.Base.Text.{String}
use ptun.Hub.Login.{Login, LoginError, session, failed}

abbrev pub login_repeat_count : ℕ
login_repeat_count = 3

-- The two results of Login: nil is `none`.
abbrev pub error_of : Login → Option LoginError
error_of (session name) = none
error_of (failed e) = some e

abbrev pub session_of : Login → Option String
session_of (session name) = some name
session_of (failed e) = none

-- The first n calls return an error.
abbrev pub AllFail : {X : Type 0} → (ℕ → Option X) → ℕ → Type 0
AllFail op zero = Unit {0}
AllFail op (suc n) = (op n ≢ none) × AllFail op n

pub record Retried (X : Type 0) : Type 0 where
  pub calls : ℕ
  pub error : Option X

-- What the library documents of Retry with WithMaxRetries: it calls the operation until that returns
-- no error, at most once more than the retries allow, and returns what the last call returned.
pub record IsRetry {X : Type 0} (retry : (ℕ → Option X) → ℕ → Retried X) : Type 0 where
  pub calls_once : (op : ℕ → Option X) (most : ℕ) → 0 < (retry op most).calls
  pub within : (op : ℕ → Option X) (most : ℕ) → (retry op most).calls ≤ most + 1
  pub last : (op : ℕ → Option X) (most : ℕ) → (retry op most).error ≡ op ((retry op most).calls - 1)
  pub before : (op : ℕ → Option X) (most : ℕ) → AllFail op ((retry op most).calls - 1)
  pub gives_up :
      (op : ℕ → Option X) (most : ℕ)
      → (retry op most).error ≢ none
      → (retry op most).calls ≡ most + 1

-- The variables `s` and `err` hold what the last call gave them, and Retry's result.
unfoldable pub try_login :
    ((ℕ → Option LoginError) → ℕ → Retried LoginError)
    → (ℕ → Login)
    → Option String × Option LoginError
try_login retry logins =
    let r = retry (λ i. error_of (logins i)) login_repeat_count in
    (session_of (logins (r.calls - 1)), r.error)

Login-cases :
    (l : Login) → ((name : String) × (l ≡ session name)) ⊎ ((e : LoginError) × (l ≡ failed e))
Login-cases (session name) = inl (name, refl)
Login-cases (failed e) = inr (e, refl)

module _ (retry : (ℕ → Option LoginError) → ℕ → Retried LoginError) (logins : ℕ → Login)
    (laws : IsRetry retry) where
  abbrev op : ℕ → Option LoginError
  op j = error_of (logins j)

  try_login_last :
      (l : Login)
      → logins ((retry op 3).calls - 1) ≡ l
      → try_login retry logins ≡ (session_of l, error_of l)
  unfolding try_login
  try_login_last l e =
      ap (λ x. (session_of (logins ((retry op 3).calls - 1)), x)) (laws.last op 3)
      ∙ ap (λ x. (session_of x, error_of x)) e

  last_call : (x : LoginError) → logins ((retry op 3).calls - 1) ≡ failed x → (retry op 3).calls ≡ 4
  last_call x e = laws.gives_up op 3 λ f. cc (f, laws.last op 3, ap error_of e)

-- tryLogin gives the session of the first of four logins that succeeds, and no error; if all four
-- fail, it gives no session, and the error of the last one.
pub try_login_first :
    (retry : (ℕ → Option LoginError) → ℕ → Retried LoginError) (logins : ℕ → Login)
    → IsRetry retry
    → ((i : ℕ) × (name : String) × (i ≤ 3)
        × AllFail (λ j. error_of (logins j)) i
        × (logins i ≡ session name)
        × (try_login retry logins ≡ (some name, none)))
      ⊎ ((e : LoginError) × AllFail (λ j. error_of (logins j)) 4
          × (logins 3 ≡ failed e)
          × (try_login retry logins ≡ (none, some e)))
try_login_first retry logins laws =
    let n : ℕ = (retry (op retry logins laws) 3).calls - 1 in
    elim (Login-cases (logins n)) [
      | inl (name, e) ↦ inl (
        n,
        name,
        omega (arith, laws.within (op retry logins laws) 3),
        laws.before (op retry logins laws) 3,
        e,
        try_login_last retry logins laws (session name) e,
      )
      | inr (x, e) ↦
          let k : n ≡ 3 = omega (arith, last_call retry logins laws x e) in
          let third : logins 3 ≡ failed x = subst (λ i. logins i ≡ failed x) k e in
          inr (
            x,
            (
              λ f. cc (f, ap error_of third),
              subst (AllFail (op retry logins laws)) k (laws.before (op retry logins laws) 3),
            ),
            third,
            try_login_last retry logins laws (failed x) e,
          )
    ]
