-- ===== src/Nat/Ports.antt =====
-- pkg/nat/tools.go: NoRepeatRandInts. The random source is a stream `random` of non-negative ints;
-- ports are not negative. The keys of `memory` are the items of the result.
pub mod Coverage
use native.Mathlib.Nat.{mod-lt}
use ptun.Base.{
  ℕ, zero, suc, ◌+◌, ◌-◌, ◌%◌, ◌≤◌, ◌<◌, ◌≡◌, refl, ◌≢◌, ◌⊎◌, inl, inr, Bool, true, false, ◌||◌,
  List, [], ◌∷◌, ◌++◌, Option, none, some, All, length, length-append, arith, ltb, ◌==◌,
  if◌then◌else◌, Bool-cases, Option-cases, min, ltb→lt,
}

unfoldable pub contains : ℕ → List ℕ → Bool
contains x [] = false
contains x (y ∷ ys) = y == x || contains x ys

-- A number that was drawn before is passed over.
unfoldable pub remember : ℕ → List ℕ → List ℕ
unfolding contains
remember x result = if contains x result then result else result ++ x ∷ []

module _ (random : ℕ → ℕ) (start range count : ℕ) where
  abbrev pub drawn : ℕ → ℕ
  drawn i = random i % range + start

  -- The loop on fuel, at the i-th number of the stream; `none` means that the fuel ran out.
  unfoldable pub draw_loop : ℕ → ℕ → List ℕ → Option (List ℕ)
  unfolding remember
  draw_loop zero i result = none
  draw_loop (suc fuel) i result = elim (ltb (length result) count) [
    | true ↦ draw_loop fuel (suc i) (remember (drawn i) result)
    | false ↦ some result
  ]

abbrev pub distance : ℕ → ℕ → ℕ
distance a b = if ltb b a then a - b else b - a

abbrev pub lower : ℕ → ℕ → ℕ
lower a b = if ltb b a then b else a

-- The bounds are swapped if need be, and no more numbers are asked for than there are.
unfoldable pub no_repeat_rand_ints : ℕ → (ℕ → ℕ) → ℕ → ℕ → ℕ → Option (List ℕ)
unfolding draw_loop
no_repeat_rand_ints fuel random start end count =
    let range = distance start end in
    draw_loop random (lower start end) range (if ltb range count then range else count) fuel 0 []

-- No item comes twice.
abbrev pub IsDistinct : List ℕ → Type 0
IsDistinct [] = Unit {0}
IsDistinct (x ∷ xs) = (contains x xs ≡ false) × IsDistinct xs

contains-append : (x y : ℕ) (xs : List ℕ) → contains x (xs ++ y ∷ []) ≡ contains x xs || y == x
unfolding contains
contains-append x y [] = ground arith
contains-append x y (z ∷ xs) = ground (arith, contains-append x y xs)

IsDistinct-append :
    (x : ℕ) (xs : List ℕ) → IsDistinct xs → contains x xs ≡ false → IsDistinct (xs ++ x ∷ [])
unfolding contains
IsDistinct-append x [] d e = (refl, tt)
IsDistinct-append x (y ∷ xs) d e =
    (ground (arith, contains-append y x xs), IsDistinct-append x xs d.1 (ground arith))

abbrev pub InRange : ℕ → ℕ → ℕ → Type 0
InRange start range x = (start ≤ x) × (x < start + range)

All-append : (P : ℕ → Type 0) (xs : List ℕ) (x : ℕ) → All P xs → P x → All P (xs ++ x ∷ [])
All-append P [] x h p = (p, tt)
All-append P (y ∷ xs) x h p = (h.0, All-append P xs x h.1 p)

module _ (random : ℕ → ℕ) (start range count : ℕ) where
  pub record Good (result : List ℕ) : Type 0 where
    pub distinct : IsDistinct result
    pub in_range : All (InRange start range) result
    pub within : length result ≤ count

  remember-Good :
      (x : ℕ) (result : List ℕ)
      → InRange start range x
      → Good result
      → length result < count
      → Good (remember x result)
  unfolding remember
  remember-Good x result r g h = elim (Bool-cases (contains x result)) [
    | inl old ↦ rw old g
    | inr new ↦ rw new (record {
      distinct = IsDistinct-append x result g.distinct new;
      in_range = All-append (InRange start range) result x g.in_range r;
      within = omega (arith, length-append result (x ∷ []));
    })
  ]

  drawn-InRange : (i : ℕ) → 0 < range → InRange start range (drawn random start range count i)
  drawn-InRange i r = (omega arith, omega (arith, mod-lt (random i) r))

  draw_none : (i : ℕ) (result : List ℕ) → draw_loop random start range count 0 i result ≡ none
  unfolding draw_loop
  draw_none i result = refl

  draw_more :
      (fuel i : ℕ) (result : List ℕ)
      → ltb (length result) count ≡ true
      → draw_loop random start range count (suc fuel) i result
        ≡ draw_loop random start range count fuel
            (suc i)
            (remember (drawn random start range count i) result)
  unfolding draw_loop
  draw_more fuel i result e = rw (e, draw_loop)

  draw_stop :
      (fuel i : ℕ) (result : List ℕ)
      → ltb (length result) count ≡ false
      → draw_loop random start range count (suc fuel) i result ≡ some result
  unfolding draw_loop
  draw_stop fuel i result e = rw (e, draw_loop)

  draw_loop-Good :
      (fuel i : ℕ) (result r : List ℕ)
      → count ≤ range
      → Good result
      → draw_loop random start range count fuel i result ≡ some r
      → Good r × (length r ≡ count)
  draw_loop-Good zero i result r b g e = cc (draw_none i result, e)
  draw_loop-Good (suc fuel) i result r b g e = elim (Bool-cases (ltb (length result) count)) [
    | inl t ↦
        draw_loop-Good fuel (suc i) (remember (drawn random start range count i) result) r b
          (remember-Good _ result (drawn-InRange i (ground arith)) g (ltb→lt _ _ t))
          (rw (draw_more fuel i result t) at e)
    | inr t ↦ ground (arith, rw (draw_stop fuel i result t) at e)
  ]

-- What NoRepeatRandInts returns, when it does: as many numbers as asked for, or as the range has; no
-- two of them alike; each from the lower bound on and below the upper one.
pub no_repeat_rand_ints_sound :
    (fuel : ℕ) (random : ℕ → ℕ) (start end count : ℕ) (r : List ℕ)
    → no_repeat_rand_ints fuel random start end count ≡ some r
    → IsDistinct r
      × All (InRange (lower start end) (distance start end)) r
      × (length r ≡ min count (distance start end))
unfolding no_repeat_rand_ints
no_repeat_rand_ints_sound fuel random start end count r e =
    let range : ℕ = distance start end in
    let wanted : ℕ = if ltb range count then range else count in
    let g =
      draw_loop-Good random (lower start end) range wanted fuel 0 [] r (ground arith)
        (record { distinct = tt; in_range = tt; within = omega arith }) e in
    (g.0.distinct, g.0.in_range, ground (arith, g.1))
