-- ===== src/Hub/Sessions.antt =====
-- pkg/hub/hub.go: saveSession, removeSession, loadSession, allSessionNames, and handle, whose two
-- parts are the ones before and after RunDispatcher. A session is known by its pointer, `id`.
pub mod Visits
use ptun.Base.{
  ℕ, ◌≡◌, ◌≢◌, refl, ap, Bool, true, false, ◌||◌, List, [], ◌∷◌, map, Option, none, some, arith,
  ◌==◌, ◌⊎◌, Bool-cases, inl, inr, sym, ◌∙◌,
}
use mathlib.Core.Option.{some-injective}
use ptun.Base.Text.{
  String, str_eq, eq_iff, lookup, insert, delete, lookup-insert, lookup-delete, lookup-insert_self,
  lookup-delete_self,
}

pub record Session : Type 0 where
  pub id : ℕ
  pub name : String

pub record Hub : Type 0 where
  pub sessions : List (String × Session)
  -- Whether the transport of a session is closed.
  pub closed : ℕ → Bool

abbrev pub close : Session → Hub → Hub
close s h = record { sessions = h.sessions; closed = λ i. s.id == i || h.closed i }

abbrev pub load_session : String → Hub → Option Session
load_session name h = lookup name (h.sessions)

abbrev pub close_found : Option Session → Hub → Hub
close_found none h = h
close_found (some old) h = close old h

abbrev pub close_old : String → Hub → Hub
close_old name h = close_found (load_session name h) h

unfoldable pub save_session : Session → Hub → Hub
save_session s h = record {
  sessions = insert (s.name) s (h.sessions);
  closed = (close_old (s.name) h).closed;
}

unfoldable pub remove_session : String → Hub → Hub
remove_session name h = record {
  sessions = delete name (h.sessions);
  closed = (close_old name h).closed;
}

abbrev pub all_session_names : Hub → List String
all_session_names h = map (λ e. e.0) (h.sessions)

-- handle, up to RunDispatcher.
unfoldable pub enter : Session → Hub → Hub
unfolding save_session
enter s h = save_session s h

-- handle, once RunDispatcher has returned.
unfoldable pub leave : Session → Hub → Hub
unfolding remove_session
leave s h = close s (remove_session (s.name) h)

abbrev pub Came : Session → List Session → Type 0
Came s [] = ⊥
Came s (t ∷ ts) = (t ≡ s) ⊎ Came s ts

-- `came` are the sessions that came to the hub. Those in its map stand under their names, none twice,
-- and each of the others is closed.
pub record Inv (came : List Session) (h : Hub) : Type 0 where
  pub named : (n : String) (s : Session) → lookup n (h.sessions) ≡ some s → str_eq (s.name) n ≡ true
  pub once :
      (n m : String) (s t : Session)
      → lookup n (h.sessions) ≡ some s
      → lookup m (h.sessions) ≡ some t
      → s.id ≡ t.id
      → str_eq n m ≡ true
  pub kept :
      (s : Session)
      → Came s came
      → (lookup (s.name) (h.sessions) ≡ some s) ⊎ (h.closed (s.id) ≡ true)

-- A session that the hub has never seen.
pub record IsNew (s : Session) (h : Hub) : Type 0 where
  pub absent : (n : String) (t : Session) → lookup n (h.sessions) ≡ some t → t.id ≢ s.id

close_found_stays :
    (o : Option Session) (h : Hub) (i : ℕ) → h.closed i ≡ true → (close_found o h).closed i ≡ true
close_found_stays none h i c = c
close_found_stays (some old) h i c = ground (arith, c)

close_old_closes :
    (name : String) (h : Hub) (old : Session)
    → lookup name (h.sessions) ≡ some old
    → (close_old name h).closed (old.id) ≡ true
close_old_closes name h old e = ap (λ o. (close_found o h).closed (old.id)) e ∙ ground arith

insert_cases :
    (k j : String) (s t : Session) (m : List (String × Session))
    → lookup j (insert k s m) ≡ some t
    → ((str_eq k j ≡ true) × (s ≡ t)) ⊎ ((str_eq k j ≡ false) × (lookup j m ≡ some t))
insert_cases k j s t m h = elim (Bool-cases (str_eq k j)) [
  | inl e ↦ inl (e, some-injective _ _ (rw e at (sym (lookup-insert k j s m) ∙ h)))
  | inr e ↦ inr (e, rw e at (sym (lookup-insert k j s m) ∙ h))
]

delete_cases :
    (k j : String) (t : Session) (m : List (String × Session))
    → lookup j (delete k m) ≡ some t
    → (str_eq k j ≡ false) × (lookup j m ≡ some t)
delete_cases k j t m h = elim (Bool-cases (str_eq k j)) [
  | inl e ↦ cc (rw e at (sym (lookup-delete k j m) ∙ h))
  | inr e ↦ (e, rw e at (sym (lookup-delete k j m) ∙ h))
]

or_true : (a : Bool) {b : Bool} → b ≡ true → a || b ≡ true
or_true a e = ground (arith, e)

-- What a session that has left leaves behind: nothing under its name, and its transport closed.
pub leave_gone :
    (s : Session) (h : Hub)
    → (load_session (s.name) (leave s h) ≡ none) × ((leave s h).closed (s.id) ≡ true)
unfolding leave remove_session
leave_gone s h = (lookup-delete_self (s.name) (h.sessions), ground arith)

-- A session under a name that is taken closes the older session and takes its place. When the
-- handler of the older session then ends, it closes the newer session and removes it from the hub.
pub leave_stale :
    (old new : Session) (h : Hub)
    → str_eq (old.name) (new.name) ≡ true
    → lookup (old.name) (h.sessions) ≡ some old
    → ((enter new h).closed (old.id) ≡ true)
      × (load_session (new.name) (enter new h) ≡ some new)
      × (load_session (new.name) (leave old (enter new h)) ≡ none)
      × ((leave old (enter new h)).closed (new.id) ≡ true)
unfolding enter leave save_session remove_session
leave_stale old new h e o = (
  close_old_closes (new.name) h old (ap (λ k. lookup k (h.sessions)) (sym names) ∙ o),
  lookup-insert_self (new.name) new (h.sessions),
  ap (λ k. lookup k (delete (old.name) (insert (new.name) new (h.sessions)))) (sym names)
      ∙ lookup-delete_self (old.name) (insert (new.name) new (h.sessions)),
  or_true _ (
      close_old_closes (old.name) (enter new h) new (
        ap (λ k. lookup k (insert (new.name) new (h.sessions))) names
        ∙ lookup-insert_self (new.name) new (h.sessions))),
)
  where
    names : old.name ≡ new.name
    names = (eq_iff (old.name) (new.name)).0 e

-- Of a name that is given to another session or deleted, the session that had it is closed.
give_up :
    (name : String) (s : Session) (h : Hub)
    → str_eq name (s.name) ≡ true
    → lookup (s.name) (h.sessions) ≡ some s
    → (close_old name h).closed (s.id) ≡ true
give_up name s h e l =
    close_old_closes name h s (ap (λ k. lookup k (h.sessions)) ((eq_iff name (s.name)).0 e) ∙ l)

enter_kept :
    (s t : Session) (h : Hub)
    → (lookup (t.name) (h.sessions) ≡ some t) ⊎ (h.closed (t.id) ≡ true)
    → (lookup (t.name) ((enter s h).sessions) ≡ some t) ⊎ ((enter s h).closed (t.id) ≡ true)
unfolding enter save_session
enter_kept s t h (inr c) = inr (close_found_stays (lookup (s.name) (h.sessions)) h (t.id) c)
enter_kept s t h (inl l) = elim (Bool-cases (str_eq (s.name) (t.name))) [
  | inl e ↦ inr (give_up (s.name) t h e l)
  | inr e ↦ inl (lookup-insert (s.name) (t.name) s (h.sessions) ∙ rw e l)
]

leave_kept :
    (s t : Session) (h : Hub)
    → (lookup (t.name) (h.sessions) ≡ some t) ⊎ (h.closed (t.id) ≡ true)
    → (lookup (t.name) ((leave s h).sessions) ≡ some t) ⊎ ((leave s h).closed (t.id) ≡ true)
unfolding leave remove_session
leave_kept s t h (inr c) =
    inr (or_true _ (close_found_stays (lookup (s.name) (h.sessions)) h (t.id) c))
leave_kept s t h (inl l) = elim (Bool-cases (str_eq (s.name) (t.name))) [
  | inl e ↦ inr (or_true _ (give_up (s.name) t h e l))
  | inr e ↦ inl (lookup-delete (s.name) (t.name) (h.sessions) ∙ rw e l)
]

-- The arrival of a new session keeps the invariant, with that session among those that came.
pub enter-Inv :
    (came : List Session) (s : Session) (h : Hub)
    → Inv came h
    → IsNew s h
    → Inv (s ∷ came) (enter s h)
unfolding enter save_session
enter-Inv came s h i n = record {
  named = λ m t e. elim (insert_cases (s.name) m s t (h.sessions) e) [
    | inl c ↦ rw (sym (c.1)) (c.0)
    | inr c ↦ i.named m t (c.1)
  ];
  once = λ m k t u e f eq. elim (insert_cases (s.name) m s t (h.sessions) e) [
    | inl c ↦ elim (insert_cases (s.name) k s u (h.sessions) f) [
      | inl d ↦ ground (arith, eq_iff m k, eq_iff (s.name) m, eq_iff (s.name) k, c.0, d.0)
      | inr d ↦ absurd (n.absent k u (d.1) (sym eq ∙ ap (λ v. v.id) (sym (c.1))))
    ]
    | inr c ↦ elim (insert_cases (s.name) k s u (h.sessions) f) [
      | inl d ↦ absurd (n.absent m t (c.1) (eq ∙ ap (λ v. v.id) (sym (d.1))))
      | inr d ↦ i.once m k t u (c.1) (d.1) eq
    ]
  ];
  kept = λ t c. by_came t c;
}
  where
    by_came :
        (t : Session)
        → Came t (s ∷ came)
        → (lookup (t.name) ((enter s h).sessions) ≡ some t) ⊎ ((enter s h).closed (t.id) ≡ true)
    by_came t (inl e) = inl (
        ap (λ u. lookup (u.name) ((enter s h).sessions)) (sym e)
        ∙ lookup-insert_self (s.name) s (h.sessions)
        ∙ ap (λ u. some u) e)
    by_came t (inr c) = enter_kept s t h (i.kept t c)

-- So does the departure of a session, whether or not the hub has it.
pub leave-Inv : (came : List Session) (s : Session) (h : Hub) → Inv came h → Inv came (leave s h)
unfolding leave remove_session
leave-Inv came s h i = record {
  named = λ m t e. i.named m t ((delete_cases (s.name) m t (h.sessions) e).1);
  once = λ m k t u e f eq.
      i.once m k t u ((delete_cases (s.name) m t (h.sessions) e).1)
        ((delete_cases (s.name) k u (h.sessions) f).1) eq;
  kept = λ t c. leave_kept s t h (i.kept t c);
}

close_kept :
    (s t : Session) (h : Hub)
    → (lookup (t.name) (h.sessions) ≡ some t) ⊎ (h.closed (t.id) ≡ true)
    → (lookup (t.name) (h.sessions) ≡ some t) ⊎ ((close s h).closed (t.id) ≡ true)
close_kept s t h (inl l) = inl l
close_kept s t h (inr c) = inr (or_true _ c)

-- So does a transport that closes itself.
pub close-Inv : (came : List Session) (s : Session) (h : Hub) → Inv came h → Inv came (close s h)
close-Inv came s h i = record {
  named = i.named;
  once = i.once;
  kept = λ t c. close_kept s t h (i.kept t c);
}
