-- ===== src/Device/Rules.antt =====
-- pkg/device/rule.go: RuleManager. The iptables library is a parameter: `exists`, `append` and
-- `delete_rule` on a state of the tables, where `none` is an error. A rule is MASQUERADE from a
-- network to a destination. The order in which Go walks over a map is a parameter too.
pub mod Added
use ptun.Base.{◌≡◌, refl, ap, Bool, true, false, List, [], ◌∷◌, Option, none, some, ◌∙◌}
use ptun.Base.Text.{String, eq_refl, lookup, insert, delete}

pub record Rule : Type 0 where
  pub src : String
  pub dst : String

module _ {T : Type 0} (exists : Rule → T → Option Bool) (append delete_rule : Rule → T → Option T)
    (order : List (String × Rule) → List (String × Rule)) where
  -- The tables, the rules that the manager keeps by their destination, and the destinations that
  -- this update has added.
  pub record State : Type 0 where
    pub tables : T
    pub rules : List (String × Rule)
    pub updated : List (String × Bool)

  -- How a call ends: `true` without an error.
  pub add_rules : String → List String → State → State × Bool
  add_rules net [] s = (s, true)
  add_rules net (dst ∷ dsts) s =
      let rule : Rule = record { src = net; dst = dst } in
      let skip = add_rules net dsts s in
      elim (exists rule (s.tables)) [
        | none ↦ (s, false)
        | some true ↦ skip
        | some false ↦ elim (append rule (s.tables)) [
          | none ↦ (s, false)
          | some t ↦ add_rules net dsts (record {
            tables = t;
            rules = insert dst rule (s.rules);
            updated = insert dst true (s.updated);
          })
        ]
      ]

  pub drop_rules : List (String × Rule) → State → State × Bool
  drop_rules [] s = (s, true)
  drop_rules ((src, rule) ∷ entries) s =
      let skip = drop_rules entries s in
      elim (lookup src (s.updated)) [
        | some _ ↦ skip
        | none ↦ elim (lookup src (s.rules)) [
          | none ↦ skip
          | some _ ↦ elim (exists rule (s.tables)) [
            | none ↦ (s, false)
            | some false ↦ skip
            | some true ↦ elim (delete_rule rule (s.tables)) [
              | none ↦ (s, false)
              | some t ↦
                  drop_rules entries
                    (record { tables = t; rules = delete src (s.rules); updated = s.updated })
            ]
          ]
        ]
      ]

  abbrev pub after_adding : State × Bool → State × Bool
  after_adding (s, false) = (s, false)
  after_adding (s, true) = drop_rules (order (s.rules)) s

  unfoldable pub update_iptables : String → List String → T → List (String × Rule) → State × Bool
  unfolding add_rules drop_rules
  update_iptables net dsts t rules =
      after_adding (add_rules net dsts (record { tables = t; rules = rules; updated = [] }))

  -- ClearAllRules goes on after an error.
  abbrev pub clear_rules :
      List (String × Rule) → T → List (String × Rule) → T × List (String × Rule)
  clear_rules [] t rules = (t, rules)
  clear_rules ((src, rule) ∷ entries) t rules =
      let skip = clear_rules entries t rules in
      elim (exists rule t) [
        | none ↦ skip
        | some false ↦ skip
        | some true ↦ elim (delete_rule rule t) [
          | none ↦ skip
          | some t' ↦ clear_rules entries t' (delete src rules)
        ]
      ]

  abbrev pub clear_all_rules : T → List (String × Rule) → T × List (String × Rule)
  clear_all_rules t rules = clear_rules (order rules) t rules

  -- What the manager keeps of one destination.
  pub entries : String → String → List (String × Rule)
  entries net dst = (dst, record { src = net; dst = dst }) ∷ []

  added : String → String → T → State
  added net dst t1 = record { tables = t1; rules = entries net dst; updated = (dst, true) ∷ [] }

  add_new :
      (net dst : String) (t t1 : T)
      → exists (record { src = net; dst = dst }) t ≡ some false
      → append (record { src = net; dst = dst }) t ≡ some t1
      → add_rules net (dst ∷ []) (record { tables = t; rules = []; updated = [] })
        ≡ (added net dst t1, true)
  unfolding add_rules insert added entries
  add_new net dst t t1 e0 e1 = rw (e0, add_rules) (rw (e1, add_rules) refl)

  add_old :
      (net dst : String) (t1 : T)
      → exists (record { src = net; dst = dst }) t1 ≡ some true
      → add_rules net (dst ∷ []) (record { tables = t1; rules = entries net dst; updated = [] })
        ≡ (record { tables = t1; rules = entries net dst; updated = [] }, true)
  unfolding add_rules
  add_old net dst t1 e2 = rw (e2, add_rules) refl

  drop_kept :
      (net dst : String) (t1 : T)
      → drop_rules (entries net dst) (added net dst t1) ≡ (added net dst t1, true)
  unfolding drop_rules lookup added entries
  drop_kept net dst t1 = rw (eq_refl dst, drop_rules, lookup) refl

  delete-entries : (net dst : String) → delete dst (entries net dst) ≡ []
  unfolding delete entries
  delete-entries net dst = rw (eq_refl dst, delete) refl

  drop_old :
      (net dst : String) (t1 t2 : T)
      → exists (record { src = net; dst = dst }) t1 ≡ some true
      → delete_rule (record { src = net; dst = dst }) t1 ≡ some t2
      → drop_rules (entries net dst) (record { tables = t1; rules = entries net dst; updated = [] })
        ≡ (record { tables = t2; rules = []; updated = [] }, true)
  unfolding drop_rules lookup entries
  drop_old net dst t1 t2 e2 e3 =
      rw (eq_refl dst, e2, e3, drop_rules, lookup)
        (ap (λ l. (record { tables = t2; rules = l; updated = [] }, true)) (delete-entries net dst))

  -- An update of a manager without rules with one new destination adds its rule, if the library
  -- appends it; the same update once more removes it again, if the library then finds and deletes
  -- it.
  pub update_iptables_twice :
      (net dst : String) (t t1 t2 : T)
      → exists (record { src = net; dst = dst }) t ≡ some false
      → append (record { src = net; dst = dst }) t ≡ some t1
      → exists (record { src = net; dst = dst }) t1 ≡ some true
      → delete_rule (record { src = net; dst = dst }) t1 ≡ some t2
      → order (entries net dst) ≡ entries net dst
      → (update_iptables net (dst ∷ []) t []
          ≡ (record { tables = t1; rules = entries net dst; updated = (dst, true) ∷ [] }, true))
        × (update_iptables net (dst ∷ []) t1 (entries net dst)
            ≡ (record { tables = t2; rules = []; updated = [] }, true))
  unfolding update_iptables added entries
  update_iptables_twice net dst t t1 t2 e0 e1 e2 e3 eo = (
    ap after_adding (add_new net dst t t1 e0 e1)
        ∙ ap (λ l. drop_rules l (added net dst t1)) eo
        ∙ drop_kept net dst t1,
    ap after_adding (add_old net dst t1 e2)
        ∙ ap (λ l. drop_rules l (record { tables = t1; rules = entries net dst; updated = [] })) eo
        ∙ drop_old net dst t1 t2 e2 e3,
  )
