-- ===== src/Nat/Hole/Laws.antt =====
-- MakeHole and genEndpoint of pkg/nat/nat.go: which reply is taken, how long it may take, and what is
-- probed.
use ptun.Nat.Analyze.{Action}
use ptun.Nat.Hole.{
  Reply, World, send, echoed, attempts, make_hole, first_reply, budget, repeat_times, begin, wait,
  emit,
}
use ptun.Base.{
  ℕ, zero, suc, ◌+◌, ◌≤◌, ◌≡◌, refl, ap, inl, inr, Bool, if◌then◌else◌, List, [], ◌∷◌, Option, none,
  some, arith, Option-cases, sym, ◌∙◌,
}

suc_add : (n m : ℕ) → suc n + m ≡ suc (n + m)
suc_add n m = omega arith

module _ {Conn Addr : Type 0} (origin : Conn → Option ℕ) (settable : Conn → Bool)
    (replies : ℕ → Option (Reply Conn Addr)) (locals : List Conn) (remotes : List Addr) where
  first : ℕ → ℕ → Option (Reply Conn Addr)
  first = first_reply origin settable replies locals remotes

  first_more : (n at : ℕ) → replies at ≡ none → first (suc n) at ≡ first n (suc at)
  unfolding first first_reply
  first_more n at e = rw (e, first_reply)

  first_found : (n at : ℕ) (r : Reply Conn Addr) → replies at ≡ some r → first (suc n) at ≡ some r
  unfolding first first_reply
  first_found n at r e = rw (e, first_reply)

  first-add : (n m at : ℕ) → first n at ≡ none → first (n + m) at ≡ first m (at + n)
  unfolding first first_reply
  first-add zero m at h = ground arith
  first-add (suc n) m at h = elim (Option-cases (replies at)) [
    | inl e ↦
        ap (λ k. first k at) (suc_add n m)
        ∙ first_more (n + m) at e
        ∙ first-add n m (suc at) (sym (first_more n at e) ∙ h)
        ∙ ap (λ k. first m k) (omega arith)
    | inr s ↦ cc (first_found n at (s.0) (s.1), h)
  ]

  first-some : (n m at : ℕ) (r : Reply Conn Addr) → first n at ≡ some r → first (n + m) at ≡ some r
  unfolding first first_reply
  first-some zero m at r h = cc
  first-some (suc n) m at r h = elim (Option-cases (replies at)) [
    | inl e ↦
        ap (λ k. first k at) (suc_add n m)
        ∙ first_more (n + m) at e
        ∙ first-some n m (suc at) r (sym (first_more n at e) ∙ h)
    | inr s ↦
        ap (λ k. first k at) (suc_add n m)
        ∙ first_found (n + m) at (s.0) (s.1)
        ∙ sym (first_found n at (s.0) (s.1))
        ∙ h
  ]

  spent : ℕ → Action → World Conn Addr → World Conn Addr × Option (Reply Conn Addr)
  spent i a w = attempts origin settable replies locals remotes i a w

  next : Action → World Conn Addr → World Conn Addr
  next a w =
      wait origin settable replies locals remotes
        (emit (send origin settable (a.low_ttl) locals remotes) w)

  spent_more :
      (i : ℕ) (a : Action) (w : World Conn Addr)
      → replies (w.waits) ≡ none
      → spent (suc i) a w ≡ spent i a (next a w)
  unfolding spent next attempts
  spent_more i a w e = rw (e, attempts)

  spent_found :
      (i : ℕ) (a : Action) (w : World Conn Addr) (r : Reply Conn Addr)
      → replies (w.waits) ≡ some r
      → spent (suc i) a w ≡ (echoed origin settable replies locals remotes a r (next a w), some r)
  unfolding spent next attempts
  spent_found i a w r e = rw (e, attempts)

  spent-first : (i : ℕ) (a : Action) (w : World Conn Addr) → (spent i a w).1 ≡ first i (w.waits)
  unfolding spent first attempts first_reply next
  spent-first zero a w = refl
  spent-first (suc i) a w = elim (Option-cases (replies (w.waits))) [
    | inl e ↦
        ap (λ o. o.1) (spent_more i a w e)
        ∙ spent-first i a (next a w)
        ∙ sym (first_more i (w.waits) e)
    | inr s ↦
        ap (λ o. o.1) (spent_found i a w (s.0) (s.1)) ∙ sym (first_found i (w.waits) (s.0) (s.1))
  ]

  -- The waits of one action's loop: all of its rounds if nothing came, no more in any case.
  record Within (i : ℕ) (w : World Conn Addr) (o : World Conn Addr × Option (Reply Conn Addr))
      : Type 0 where
    bounded : (o.0).waits ≤ w.waits + i
    exhausted : o.1 ≡ none → (o.0).waits ≡ w.waits + i

  echoed_waits :
      (a : Action) (r : Reply Conn Addr) (w : World Conn Addr)
      → (echoed origin settable replies locals remotes a r w).waits ≡ w.waits
  echoed_waits a r w = ground arith

  spent-Within : (i : ℕ) (a : Action) (w : World Conn Addr) → Within i w (spent i a w)
  unfolding spent attempts next
  spent-Within zero a w = record { bounded = omega arith; exhausted = λ h. omega arith }
  spent-Within (suc i) a w = elim (Option-cases (replies (w.waits))) [
    | inl e ↦
        let d = spent-Within i a (next a w) in
        rw (spent_more i a w e) (record {
          bounded = omega (arith, d.bounded);
          exhausted = λ h. omega (arith, d.exhausted h);
        })
    | inr s ↦
        rw (spent_found i a w (s.0) (s.1)) (record {
          bounded = omega (arith, echoed_waits a (s.0) (next a w));
          exhausted = λ h. cc h;
        })
  ]

  begin_waits :
      (a : Action) (w : World Conn Addr)
      → (begin origin settable replies locals remotes a w).waits ≡ w.waits
  begin_waits a w = ground arith

  bound : List Action → ℕ
  bound = budget origin settable replies locals remotes

  record Made (actions : List Action) (w : World Conn Addr)
      (o : World Conn Addr × Option (Reply Conn Addr)) : Type 0 where
    reply : o.1 ≡ first (bound actions) (w.waits)
    bounded : (o.0).waits ≤ w.waits + bound actions

  times : Action → ℕ
  times = repeat_times origin settable replies locals remotes

  started : Action → World Conn Addr → World Conn Addr
  started = begin origin settable replies locals remotes

  one : Action → World Conn Addr → World Conn Addr × Option (Reply Conn Addr)
  one a w = spent (times a) a (started a w)

  all : List Action → World Conn Addr → World Conn Addr × Option (Reply Conn Addr)
  all = make_hole origin settable replies locals remotes

  all_next :
      (a : Action) (actions : List Action) (w : World Conn Addr)
      → (one a w).1 ≡ none
      → all (a ∷ actions) w ≡ all actions ((one a w).0)
  unfolding one spent times started all make_hole
  all_next a actions w e = rw (e, make_hole)

  all_here :
      (a : Action) (actions : List Action) (w : World Conn Addr) (r : Reply Conn Addr)
      → (one a w).1 ≡ some r
      → all (a ∷ actions) w ≡ one a w
  unfolding one spent times started all make_hole attempts
  all_here a actions w r e = rw (e, make_hole)

  one-first : (a : Action) (w : World Conn Addr) → (one a w).1 ≡ first (times a) (w.waits)
  unfolding one started times
  one-first a w =
      spent-first (times a) a (started a w) ∙ ap (λ n. first (times a) n) (begin_waits a w)

  one-Within : (a : Action) (w : World Conn Addr) → Within (times a) w (one a w)
  unfolding one started
  one-Within a w =
      let d = spent-Within (times a) a (started a w) in
      record {
        bounded = omega (arith, d.bounded, begin_waits a w);
        exhausted = λ h. omega (arith, d.exhausted h, begin_waits a w);
      }

  make_hole-Made : (actions : List Action) (w : World Conn Addr) → Made actions w (all actions w)
  unfolding all make_hole bound first first_reply times
  make_hole-Made [] w = record { reply = refl; bounded = omega arith }
  make_hole-Made (a ∷ actions) w =
      let d = one-Within a w in
      elim (Option-cases ((one a w).1)) [
        | inl e ↦
            let m = make_hole-Made actions ((one a w).0) in
            rw (all_next a actions w e) (record {
              reply =
                  m.reply
                  ∙ ap (λ n. first (bound actions) n) (d.exhausted e)
                  ∙ sym (first-add (times a) (bound actions) (w.waits) (sym (one-first a w) ∙ e));
              bounded = omega (arith, m.bounded, d.exhausted e);
            })
        | inr s ↦ rw (all_here a actions w (s.0) (s.1)) (record {
          reply =
              s.1
              ∙ sym (
                  first-some (times a) (bound actions) (w.waits) (s.0) (sym (one-first a w) ∙ s.1));
          bounded = omega (arith, d.bounded);
        })
      ]

-- The waits that are allowed for: five for an action that repeats, one for another.
abbrev pub waits_for : List Action → ℕ
waits_for [] = 0
waits_for (a ∷ actions) = (if a.repeat then 5 else 1) + waits_for actions

module _ {Conn Addr : Type 0} (origin : Conn → Option ℕ) (settable : Conn → Bool)
    (replies : ℕ → Option (Reply Conn Addr)) (locals : List Conn) (remotes : List Addr) where
  budget-waits_for :
      (actions : List Action)
      → budget origin settable replies locals remotes actions ≡ waits_for actions
  budget-waits_for [] = refl
  budget-waits_for (a ∷ actions) =
      ap (λ n. (if a.repeat then 5 else 1) + n) (budget-waits_for actions)

-- MakeHole allows five waits for an action that repeats and one for another. It takes the first reply
-- that this many next waits receive, and fails just when none of them receives any; it waits no more
-- often than that.
pub make_hole-first_reply :
    {Conn Addr : Type 0} (origin : Conn → Option ℕ) (settable : Conn → Bool)
    (replies : ℕ → Option (Reply Conn Addr)) (locals : List Conn) (remotes : List Addr)
    (actions : List Action) (w : World Conn Addr)
    → ((make_hole origin settable replies locals remotes actions w).1
        ≡ first_reply origin settable replies locals remotes (waits_for actions) (w.waits))
      × ((make_hole origin settable replies locals remotes actions w).0.waits
          ≤ w.waits + waits_for actions)
unfolding first all bound
make_hole-first_reply origin settable replies locals remotes actions w =
    let m = make_hole-Made origin settable replies locals remotes actions w in
    let e = budget-waits_for origin settable replies locals remotes actions in
    (
      m.reply ∙ ap (λ n. first_reply origin settable replies locals remotes n w.waits) e,
      omega (arith, m.bounded, e),
    )
