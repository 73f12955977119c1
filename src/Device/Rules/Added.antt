-- ===== src/Device/Rules/Added.antt =====
-- UpdateIptables of pkg/device/rule.go on tables that answer every call.
use ptun.Base.{
  ◌≡◌, refl, ap, sym, ◌∙◌, Bool, true, false, List, [], ◌∷◌, Option, some, All, Bool-cases,
  Option-cases, inl, inr,
}
use ptun.Base.Text.{String, str_eq, lookup, insert, lookup-insert}
use ptun.Device.Rules.{Rule, State, add_rules, drop_rules, after_adding, update_iptables}

-- What is relied on of the library: no call fails, a rule that was appended exists, and all that
-- existed before exist still.
pub record IsTables {T : Type 0} (exists : Rule → T → Option Bool) (append : Rule → T → Option T)
    : Type 0 where
  pub answers : (r : Rule) (t : T) → (b : Bool) × (exists r t ≡ some b)
  pub appends :
      (r : Rule) (t : T)
      → (t' : T) × (append r t ≡ some t')
        × (exists r t' ≡ some true)
        × ((q : Rule) → exists q t ≡ some true → exists q t' ≡ some true)

abbrev pub rule_to : String → String → Rule
rule_to net dst = record { src = net; dst = dst }

module _ {T : Type 0} (exists : Rule → T → Option Bool) (append delete_rule : Rule → T → Option T)
    (order : List (String × Rule) → List (String × Rule)) (laws : IsTables exists append) where
  abbrev S : Type 0
  S = State exists append delete_rule order

  -- The manager keeps only rules that this update has added.
  Owned : S → Type 0
  Owned s =
      (k : String) (r : Rule)
      → lookup k (s.rules) ≡ some r
      → (b : Bool) × (lookup k (s.updated) ≡ some b)

  adding : String → List String → S → S × Bool
  adding = add_rules exists append delete_rule order

  more : Rule → T → S → S
  more r t s = record {
    tables = t;
    rules = insert (r.dst) r (s.rules);
    updated = insert (r.dst) true (s.updated);
  }

  skips :
      (net d : String) (ds : List String) (s : S)
      → exists (rule_to net d) (s.tables) ≡ some true
      → adding net (d ∷ ds) s ≡ adding net ds s
  unfolding adding add_rules
  skips net d ds s e = rw (e, add_rules)

  appends :
      (net d : String) (ds : List String) (s : S) (t : T)
      → exists (rule_to net d) (s.tables) ≡ some false
      → append (rule_to net d) (s.tables) ≡ some t
      → adding net (d ∷ ds) s ≡ adding net ds (more (rule_to net d) t s)
  unfolding adding more add_rules
  appends net d ds s t e f = rw (e, add_rules) (rw (f, add_rules))

  more-Owned : (r : Rule) (t : T) (s : S) → Owned s → Owned (more r t s)
  unfolding Owned more
  more-Owned r t s o k q e = elim (Bool-cases (str_eq (r.dst) k)) [
    | inl y ↦ (true, lookup-insert (r.dst) k true (s.updated) ∙ rw y refl)
    | inr n ↦
        let w = o k q (rw n at (sym (lookup-insert (r.dst) k r (s.rules)) ∙ e)) in
        (w.0, lookup-insert (r.dst) k true (s.updated) ∙ rw n (w.1))
  ]

  record Adds (net : String) (dsts : List String) (s : S) (o : S × Bool) : Type 0 where
    finished : o.1 ≡ true
    there : All (λ d. exists (rule_to net d) ((o.0).tables) ≡ some true) dsts
    kept : (q : Rule) → exists q (s.tables) ≡ some true → exists q ((o.0).tables) ≡ some true
    owned : Owned (o.0)

  adding-Adds :
      (net : String) (dsts : List String) (s : S) → Owned s → Adds net dsts s (adding net dsts s)
  unfolding adding add_rules more
  adding-Adds net [] s o = record { finished = refl; there = tt; kept = λ q e. e; owned = o }
  adding-Adds net (d ∷ ds) s o =
      let a = laws.answers (rule_to net d) (s.tables) in
      elim (Bool-cases (a.0)) [
        | inl y ↦
            let e = a.1 ∙ ap some y in
            let i = adding-Adds net ds s o in
            rw (skips net d ds s e) (record {
              finished = i.finished;
              there = (i.kept (rule_to net d) e, i.there);
              kept = i.kept;
              owned = i.owned;
            })
        | inr n ↦
            let t = laws.appends (rule_to net d) (s.tables) in
            let s' = more (rule_to net d) (t.0) s in
            let i = adding-Adds net ds s' (more-Owned (rule_to net d) (t.0) s o) in
            rw (appends net d ds s (t.0) (a.1 ∙ ap some n) (t.1)) (record {
              finished = i.finished;
              there = (i.kept (rule_to net d) (t.2), i.there);
              kept = λ q e. i.kept q (t.3 q e);
              owned = i.owned;
            })
      ]

  dropping : List (String × Rule) → S → S × Bool
  dropping = drop_rules exists append delete_rule order

  dropping-Owned :
      (entries : List (String × Rule)) (s : S) → Owned s → dropping entries s ≡ (s, true)
  unfolding dropping drop_rules Owned
  dropping-Owned [] s o = refl
  dropping-Owned ((k, r) ∷ entries) s o = elim (Option-cases (lookup k (s.updated))) [
    | inr u ↦ rw (u.1, drop_rules) (dropping-Owned entries s o)
    | inl n ↦ elim (Option-cases (lookup k (s.rules))) [
      | inl m ↦ rw (n, m, drop_rules) (dropping-Owned entries s o)
      | inr q ↦ absurd (cc (n, (o k (q.0) (q.1)).1))
    ]
  ]

  finish :
      (o : S × Bool)
      → o.1 ≡ true
      → Owned (o.0)
      → after_adding exists append delete_rule order o ≡ (o.0, true)
  unfolding dropping
  finish (s, true) e o = dropping-Owned (order (s.rules)) s o
  finish (s, false) e o = cc e

  -- A manager without rules, on tables that answer every call: UpdateIptables ends without an error,
  -- and the rule of each destination then exists.
  pub update_iptables_adds :
      (net : String) (dsts : List String) (t : T)
      → let o = update_iptables exists append delete_rule order net dsts t [] in
        (o.1 ≡ true) × All (λ d. exists (rule_to net d) ((o.0).tables) ≡ some true) dsts
  unfolding update_iptables adding Owned lookup
  update_iptables_adds net dsts t =
      let s : S = record { tables = t; rules = []; updated = [] } in
      let a = adding-Adds net dsts s (λ k r e. cc e) in
      rw (finish (adding net dsts s) (a.finished) (a.owned)) (refl, a.there)
