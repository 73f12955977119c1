-- ===== src/Device/Setup/Laws.antt =====
-- What NewTun of pkg/device/tun.go does to the kernel, whether it succeeds or not.
use ptun.Base.{
  ◌≡◌, refl, ap, sym, ◌∙◌, ◌⊎◌, inl, inr, Bool, true, false, ◌&&◌, List, [], ◌∷◌, ◌++◌, map, Result,
  ok, err, panics, arith, append_assoc, append-nil, Bool-cases,
}
use ptun.Network.{IpNet}
use ptun.Device.Tun.{Tun}
use ptun.Device.Setup.{
  Os, Effect, created, link_up, link_down, device_closed, addr_added, route_added, addr_deleted,
  route_deleted, Done, each, with_link, add_addr, add_route, up, Error, Made, then_do, fresh_tun,
  create, set_up,
}

-- All that a call does when nothing fails.
abbrev pub plan : List IpNet → List IpNet → List Effect
plan nets routes = created ∷ map addr_added nets ++ link_up ∷ map route_added routes

abbrev pub all_work : (IpNet → Bool) → List IpNet → Bool
all_work works [] = true
all_work works (n ∷ ns) = works n && all_work works ns

abbrev pub is_ok : Result Error Tun → Bool
is_ok (ok t) = true
is_ok (err e) = false
is_ok panics = false

-- Whether the device is open after the effects.
abbrev pub open_after : Bool → List Effect → Bool
open_after b [] = b
open_after b (created ∷ es) = open_after true es
open_after b (device_closed ∷ es) = open_after false es
open_after b (link_up ∷ es) = open_after b es
open_after b (link_down ∷ es) = open_after b es
open_after b (addr_added n ∷ es) = open_after b es
open_after b (addr_deleted n ∷ es) = open_after b es
open_after b (route_added n ∷ es) = open_after b es
open_after b (route_deleted n ∷ es) = open_after b es

-- A method that did all of its effects and succeeded, or failed after the first of them.
abbrev Steps : Done → List Effect → Type 0
Steps d whole =
    ((d.1 ≡ true) × (d.0 ≡ whole)) ⊎ ((d.1 ≡ false) × (rest : List Effect) × (d.0 ++ rest ≡ whole))

abbrev pub Makes : Made → List Effect → Tun → Type 0
Makes m whole t =
    ((m.1 ≡ ok t) × (m.0 ≡ whole))
    ⊎ ((e : Error) × (rest : List Effect) × (m.1 ≡ err e) × (m.0 ++ rest ≡ whole))

then_do-Makes :
    (d : Done) (e : Error) (m : Made) (whole more : List Effect) (t : Tun)
    → Steps d whole
    → Makes m more t
    → Makes (then_do d e m) (whole ++ more) t
then_do-Makes (effects, true) e m whole more t (inl (b, f)) (inl (g, h)) = inl (g, rw (f, h) refl)
then_do-Makes (effects, true) e m whole more t (inl (b, f)) (inr (x, rest, g, h)) =
    inr (x, rest, g, rw f (append_assoc whole m.0 rest ∙ ap (λ es. whole ++ es) h))
then_do-Makes (effects, true) e m whole more t (inr (b, rest, f)) s = cc b
then_do-Makes (effects, false) e m whole more t (inl (b, f)) s = cc b
then_do-Makes (effects, false) e m whole more t (inr (b, rest, f)) s =
    inr (e, rest ++ more, refl, sym (append_assoc effects rest more) ∙ ap (λ es. es ++ more) f)

each-Steps :
    (works : IpNet → Bool) (effect : IpNet → Effect) (ns : List IpNet)
    → Steps (each works effect ns) (map effect ns)
each-Steps works effect [] = inl (refl, refl)
each-Steps works effect (n ∷ ns) = elim (Bool-cases (works n)) [
  | inr w ↦ rw w (inr (refl, map effect (n ∷ ns), refl))
  | inl w ↦ rw w (elim (each-Steps works effect ns) [
    | inl (b, f) ↦ inl (b, ap (λ es. effect n ∷ es) f)
    | inr (b, rest, f) ↦ inr (b, rest, ap (λ es. effect n ∷ es) f)
  ])
]

with_link-Steps :
    (os : Os) (d : Done) (whole : List Effect) → Steps d whole → Steps (with_link os d) whole
with_link-Steps os d whole s = elim (Bool-cases os.link_by_name) [
  | inl l ↦ rw l s
  | inr l ↦ rw l (inr (refl, whole, refl))
]

up-Steps : (os : Os) → Steps (up os) (link_up ∷ [])
unfolding up
up-Steps os = with_link-Steps os _ _ (elim (Bool-cases os.link_set_up) [
  | inl l ↦ rw l (inl (refl, refl))
  | inr l ↦ rw l (inr (refl, link_up ∷ [], refl))
])

create-Steps : (os : Os) → Steps (create os) (created ∷ [])
create-Steps os = elim (Bool-cases os.create_tun) [
  | inl c ↦ rw c (inl (refl, refl))
  | inr c ↦ rw c (inr (refl, created ∷ [], refl))
]

set_up-Makes :
    (os : Os) (nets routes : List IpNet)
    → Makes (set_up os nets routes) (plan nets routes) (fresh_tun os.batch_size)
unfolding set_up add_addr add_route
set_up-Makes os nets routes = then_do-Makes (create os) _ _ (created ∷ []) _ _ (create-Steps os) (
    then_do-Makes (add_addr os nets) _ _ (map addr_added nets) _ _
      (with_link-Steps os _ _ (each-Steps os.addr_add addr_added nets))
      (then_do-Makes (up os) _ _ (link_up ∷ []) _ _ (up-Steps os) (
        rw (sym (append-nil (map route_added routes))) (
          then_do-Makes (add_route os routes) _ _ (map route_added routes) [] _
            (with_link-Steps os _ _ (each-Steps os.route_add route_added routes))
            (inl (refl, refl))))))

each-all_work :
    (works : IpNet → Bool) (effect : IpNet → Effect) (ns : List IpNet)
    → (each works effect ns).1 ≡ all_work works ns
each-all_work works effect [] = refl
each-all_work works effect (n ∷ ns) = elim (Bool-cases (works n)) [
  | inl w ↦ rw w (each-all_work works effect ns)
  | inr w ↦ rw w refl
]

is_ok-then_do : (d : Done) (e : Error) (m : Made) → is_ok (then_do d e m).1 ≡ (d.1 && is_ok m.1)
is_ok-then_do (effects, true) e m = refl
is_ok-then_do (effects, false) e m = refl

open_after-append :
    (b : Bool) (es fs : List Effect) → open_after b (es ++ fs) ≡ open_after (open_after b es) fs
open_after-append b [] fs = refl
open_after-append b (created ∷ es) fs = open_after-append true es fs
open_after-append b (device_closed ∷ es) fs = open_after-append false es fs
open_after-append b (link_up ∷ es) fs = open_after-append b es fs
open_after-append b (link_down ∷ es) fs = open_after-append b es fs
open_after-append b (addr_added n ∷ es) fs = open_after-append b es fs
open_after-append b (addr_deleted n ∷ es) fs = open_after-append b es fs
open_after-append b (route_added n ∷ es) fs = open_after-append b es fs
open_after-append b (route_deleted n ∷ es) fs = open_after-append b es fs

-- A method that leaves an open device open.
abbrev Keeps : List Effect → Type 0
Keeps es = open_after true es ≡ true

Keeps-then_do : (d : Done) (e : Error) (m : Made) → Keeps d.0 → Keeps m.0 → Keeps (then_do d e m).0
Keeps-then_do (effects, true) e m k l = open_after-append true effects m.0 ∙ rw k l
Keeps-then_do (effects, false) e m k l = k

Keeps-with_link : (os : Os) (d : Done) → Keeps d.0 → Keeps (with_link os d).0
Keeps-with_link os d k = elim (Bool-cases os.link_by_name) [ inl l ↦ rw l k | inr l ↦ rw l refl ]

Keeps-each :
    (works : IpNet → Bool) (effect : IpNet → Effect) (ns : List IpNet)
    → ((n : IpNet) (es : List Effect) → open_after true (effect n ∷ es) ≡ open_after true es)
    → Keeps (each works effect ns).0
Keeps-each works effect [] h = refl
Keeps-each works effect (n ∷ ns) h = elim (Bool-cases (works n)) [
  | inl w ↦ rw w (h n _ ∙ Keeps-each works effect ns h)
  | inr w ↦ rw w refl
]

Keeps-up : (os : Os) → Keeps (up os).0
unfolding up
Keeps-up os =
    Keeps-with_link os _
      (elim (Bool-cases os.link_set_up) [ inl l ↦ rw l refl | inr l ↦ rw l refl ])

-- Whether every call that the set-up makes succeeds.
abbrev pub succeeds : Os → List IpNet → List IpNet → Bool
succeeds os nets routes =
    os.create_tun
    && os.link_by_name
    && all_work os.addr_add nets
    && os.link_set_up
    && all_work os.route_add routes

set_up-succeeds :
    (os : Os) (nets routes : List IpNet) → is_ok (set_up os nets routes).1 ≡ succeeds os nets routes
unfolding set_up add_addr up add_route
set_up-succeeds os nets routes = ground (
  arith,
  each-all_work os.addr_add addr_added nets,
  each-all_work os.route_add route_added routes,
)

set_up-open :
    (os : Os) (nets routes : List IpNet)
    → open_after false (set_up os nets routes).0 ≡ os.create_tun
unfolding set_up add_addr add_route
set_up-open os nets routes = elim (Bool-cases os.create_tun) [
  | inr c ↦ rw c refl
  | inl c ↦ rw c (
      Keeps-then_do (add_addr os nets) _ _
        (Keeps-with_link os _ (Keeps-each os.addr_add addr_added nets (λ n es. refl)))
        (Keeps-then_do (up os) _ _ (Keeps-up os) (
          Keeps-then_do (add_route os routes) _ _
            (Keeps-with_link os _ (Keeps-each os.route_add route_added routes (λ n es. refl)))
            refl)))
]

-- NewTun, on what it parsed, succeeds exactly if every call of it succeeds, and has then added the
-- addresses, set the link up and added the routes, in this order; if it fails, it did the first of these
-- effects, and returns an error. Either way the device is open afterwards exactly if it was created:
-- no error closes it.
pub set_up_effects :
    (os : Os) (nets routes : List IpNet)
    → (is_ok (set_up os nets routes).1 ≡ succeeds os nets routes)
      × Makes (set_up os nets routes) (plan nets routes) (fresh_tun os.batch_size)
      × (open_after false (set_up os nets routes).0 ≡ os.create_tun)
set_up_effects os nets routes =
    (set_up-succeeds os nets routes, set_up-Makes os nets routes, set_up-open os nets routes)
