-- ===== src/Nat/Hole/Ttl.antt =====
-- ModifyTTL of pkg/network/tools.go under send of pkg/nat/nat.go: the TTL that datagrams leave with.
use ptun.Base.{
  ℕ, ◌≡◌, refl, ap, sym, ◌∙◌, Bool, true, false, List, [], ◌∷◌, ◌++◌, Option, none, some, All,
  arith, ◌==◌, if◌then◌else◌, Bool-cases, Option-cases, inl, inr, append_assoc, append-nil,
}
use mathlib.Core.Path.{subst}
use ptun.Base.Int.{ℤ, pos, sub_ℕ}
use ptun.Nat.Hole.{Effect, sleep, set_ttl, sent, waited, modify_ttl, send_pair, send_from, send}

-- The sockets are numbers here. The TTL with which each datagram of a trace leaves, given the TTLs at
-- its start.
pub sent_ttls : {Addr : Type 0} → (ℕ → ℤ) → List (Effect ℕ Addr) → List (ℕ × ℤ)
sent_ttls ttl [] = []
sent_ttls ttl (sleep n ∷ es) = sent_ttls ttl es
sent_ttls ttl (waited cs ∷ es) = sent_ttls ttl es
sent_ttls ttl (sent c a ∷ es) = (c, ttl c) ∷ sent_ttls ttl es
sent_ttls ttl (set_ttl c v ∷ es) = sent_ttls (λ d. if c == d then v else ttl d) es

-- The TTLs after a socket's was changed and set back.
restored :
    (ttl0 : ℕ → ℤ) (c o : ℕ) (v : ℤ) (ttl : ℕ → ℤ)
    → ttl0 c ≡ pos o
    → ((d : ℕ) → ttl d ≡ ttl0 d)
    → (d : ℕ) → (if c == d then pos o else (if c == d then v else ttl d)) ≡ ttl0 d
restored ttl0 c o v ttl e h d = elim (Bool-cases (c == d)) [
  | inl y ↦ rw y (sym e ∙ ap ttl0 (equal y))
  | inr n ↦ rw n (h d)
]
  where
    equal : (c == d) ≡ true → c ≡ d
    equal y = ground (arith, y)

module _ {Addr : Type 0} (origin : ℕ → Option ℕ) (settable : ℕ → Bool) (ttl0 : ℕ → ℤ)
    (is_origin : (c o : ℕ) → origin c ≡ some o → ttl0 c ≡ pos o) where
  -- Whatever the TTLs are at its start, if they are the original ones, every datagram leaves with the
  -- original TTL.
  Keeps : List (Effect ℕ Addr) → Type 0
  Keeps es =
      (ttl : ℕ → ℤ) → ((d : ℕ) → ttl d ≡ ttl0 d) → All (λ p. p.1 ≡ ttl0 (p.0)) (sent_ttls ttl es)

  pair_none : (c : ℕ) (a : Addr) → origin c ≡ none → send_pair origin settable true c a ≡ []
  unfolding send_pair modify_ttl
  pair_none c a e = rw (e, send_pair, modify_ttl) refl

  pair_unsettable :
      (c o : ℕ) (a : Addr)
      → origin c ≡ some o
      → settable c ≡ false
      → send_pair origin settable true c a ≡ []
  unfolding send_pair modify_ttl
  pair_unsettable c o a e n = rw (e, n, send_pair, modify_ttl) refl

  pair_set :
      (c o : ℕ) (a : Addr)
      → origin c ≡ some o
      → settable c ≡ true
      → send_pair origin settable true c a
        ≡ set_ttl c (sub_ℕ o 8) ∷ set_ttl c (pos o) ∷ sent c a ∷ []
  unfolding send_pair modify_ttl
  pair_set c o a e y = rw (e, y, send_pair, modify_ttl) refl

  set-Keeps :
      (c o : ℕ) (a : Addr) (v : ℤ) (rest : List (Effect ℕ Addr))
      → ttl0 c ≡ pos o
      → Keeps rest
      → Keeps (set_ttl c v ∷ set_ttl c (pos o) ∷ sent c a ∷ rest)
  unfolding Keeps sent_ttls
  set-Keeps c o a v rest e k ttl h =
      (restored ttl0 c o v ttl e h c, k _ (restored ttl0 c o v ttl e h))

  sent-Keeps :
      (c : ℕ) (a : Addr) (rest : List (Effect ℕ Addr)) → Keeps rest → Keeps (sent c a ∷ rest)
  unfolding Keeps sent_ttls
  sent-Keeps c a rest k ttl h = (h c, k ttl h)

  pair-Keeps :
      (low : Bool) (c : ℕ) (a : Addr) (rest : List (Effect ℕ Addr))
      → Keeps rest
      → Keeps (send_pair origin settable low c a ++ rest)
  unfolding send_pair
  pair-Keeps false c a rest k = sent-Keeps c a rest k
  pair-Keeps true c a rest k = elim (Option-cases (origin c)) [
    | inl e ↦ subst (λ es. Keeps (es ++ rest)) (sym (pair_none c a e)) k
    | inr s ↦ elim (Bool-cases (settable c)) [
      | inr n ↦ subst (λ es. Keeps (es ++ rest)) (sym (pair_unsettable c (s.0) a (s.1) n)) k
      | inl y ↦
          subst (λ es. Keeps (es ++ rest)) (sym (pair_set c (s.0) a (s.1) y))
            (set-Keeps c (s.0) a (sub_ℕ (s.0) 8) rest (is_origin c (s.0) (s.1)) k)
    ]
  ]

  from_Keeps :
      (low : Bool) (c : ℕ) (addrs : List Addr) (rest : List (Effect ℕ Addr))
      → Keeps rest
      → Keeps (send_from origin settable low c addrs ++ rest)
  unfolding send_from
  from_Keeps low c [] rest k = k
  from_Keeps low c (a ∷ addrs) rest k =
      subst Keeps
        (sym (
          append_assoc (send_pair origin settable low c a) (send_from origin settable low c addrs)
            rest))
        (pair-Keeps low c a _ (from_Keeps low c addrs rest k))

  send-Keeps :
      (low : Bool) (cs : List ℕ) (addrs : List Addr) (rest : List (Effect ℕ Addr))
      → Keeps rest
      → Keeps (send origin settable low cs addrs ++ rest)
  unfolding send
  send-Keeps low [] addrs rest k = k
  send-Keeps low (c ∷ cs) addrs rest k =
      subst Keeps
        (sym (
          append_assoc (send_from origin settable low c addrs) (send origin settable low cs addrs)
            rest))
        (from_Keeps low c addrs _ (send-Keeps low cs addrs rest k))

  -- Also when a low TTL is asked for, every datagram of send leaves with the TTL that its socket had
  -- before: ModifyTTL, which reads that TTL, sets it back before it returns.
  pub send_ttl_unchanged :
      (low : Bool) (cs : List ℕ) (addrs : List Addr)
      → All (λ p. p.1 ≡ ttl0 (p.0)) (sent_ttls ttl0 (send origin settable low cs addrs))
  unfolding Keeps sent_ttls
  send_ttl_unchanged low cs addrs =
      subst (λ es. All (λ p. p.1 ≡ ttl0 (p.0)) (sent_ttls ttl0 es))
        (append-nil (send origin settable low cs addrs))
        (send-Keeps low cs addrs [] (λ ttl h. tt) ttl0 (λ d. refl))
