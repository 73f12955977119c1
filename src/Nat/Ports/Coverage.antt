-- ===== src/Nat/Ports/Coverage.antt =====
-- NoRepeatRandInts of pkg/nat/tools.go ends once the random source has hit every port of the range.
use ptun.Base.{
  ℕ, zero, suc, ◌+◌, ◌%◌, ◌≤◌, ◌<◌, ◌≡◌, ap, ◌≢◌, inl, inr, true, ◌||◌, List, [], ◌∷◌, ◌++◌, none,
  some, length, arith, ltb, ltb→lt, ◌==◌, if◌then◌else◌, Bool-cases, Option-cases,
}
use ptun.Nat.Ports.{
  contains, remember, drawn, draw_loop, distance, lower, no_repeat_rand_ints, draw_more, draw_stop,
  contains-append,
}

remove : ℕ → List ℕ → List ℕ
remove x [] = []
remove x (y ∷ ys) = if y == x then ys else y ∷ remove x ys

length-remove : (x : ℕ) (xs : List ℕ) → contains x xs ≡ true → length (remove x xs) + 1 ≡ length xs
unfolding contains remove
length-remove x [] h = cc
length-remove x (y ∷ ys) h = ground (arith, length-remove x ys)

contains-remove :
    (x z : ℕ) (xs : List ℕ) → z ≢ x → contains z xs ≡ true → contains z (remove x xs) ≡ true
unfolding contains remove
contains-remove x z [] n h = cc
contains-remove x z (y ∷ ys) n h = ground (arith, contains-remove x z ys n)

-- A list that has all n numbers from `start` on has n items at least.
pigeonhole :
    (n start : ℕ) (xs : List ℕ) → ((k : ℕ) → k < n → contains (k + start) xs ≡ true) → n ≤ length xs
pigeonhole zero start xs h = omega arith
pigeonhole (suc n) start xs h = omega (
  arith,
  length-remove (n + start) xs (h n (omega arith)),
  pigeonhole n start (remove (n + start) xs)
      (λ k lt. contains-remove (n + start) (k + start) xs (omega arith) (h k (omega arith))),
)

module _ (random : ℕ → ℕ) (start range count : ℕ) where
  -- All that the draws from the i-th on add.
  collect : ℕ → ℕ → List ℕ → List ℕ
  collect zero i result = result
  collect (suc n) i result = collect n (suc i) (remember (drawn random start range count i) result)

  contains-remember :
      (x y : ℕ) (result : List ℕ) → contains x (remember y result) ≡ contains x result || y == x
  unfolding remember
  contains-remember x y result = elim (Bool-cases (contains y result)) [
    | inl old ↦ absorb old
    | inr new ↦ rw new (contains-append x y result)
  ]
    where
      eq_lem : (y == x) ≡ true → y ≡ x
      eq_lem e = ground arith

      absorb :
          contains y result ≡ true
          → contains x (if contains y result then result else result ++ y ∷ [])
            ≡ contains x result || y == x
      absorb old = rw old (elim (Bool-cases (y == x)) [
        | inl e ↦ rw e (ground (arith, old, ap (λ z. contains z result) (eq_lem e)))
        | inr e ↦ rw e (ground arith)
      ])

  contains-collect :
      (n i : ℕ) (x : ℕ) (result : List ℕ)
      → contains x result ≡ true
      → contains x (collect n i result) ≡ true
  unfolding collect
  contains-collect zero i x result h = h
  contains-collect (suc n) i x result h =
      contains-collect n (suc i) x _
        (ground (arith, contains-remember x (drawn random start range count i) result))

  collect-drawn :
      (n i j : ℕ) (result : List ℕ)
      → i ≤ j
      → j < i + n
      → contains (drawn random start range count j) (collect n i result) ≡ true
  unfolding collect
  collect-drawn zero i j result h k = absurd (omega arith)
  collect-drawn (suc n) i j result h k = elim (Bool-cases (j == i)) [
    | inl e ↦ contains-collect n (suc i) _ _ (
        ground (
          arith,
          contains-remember (drawn random start range count j) (drawn random start range count i)
              result,
        ))
    | inr e ↦ collect-drawn n (suc i) j _ (ground arith) (omega arith)
  ]

  -- A loop that runs out of fuel has not yet as many numbers as it wants.
  draw_loop-none :
      (n i : ℕ) (result : List ℕ)
      → draw_loop random start range count (suc n) i result ≡ none
      → length (collect n i result) < count
  unfolding collect
  draw_loop-none zero i result e = elim (Bool-cases (ltb (length result) count)) [
    | inr t ↦ cc (draw_stop random start range count zero i result t, e)
    | inl t ↦ ltb→lt _ _ t
  ]
  draw_loop-none (suc n) i result e = elim (Bool-cases (ltb (length result) count)) [
    | inr t ↦ cc (draw_stop random start range count (suc n) i result t, e)
    | inl t ↦
        draw_loop-none n (suc i) (remember (drawn random start range count i) result)
          (rw (draw_more random start range count (suc n) i result t) at e)
  ]

-- NoRepeatRandInts returns when its first n draws meet every number of the range: n + 1 rounds of
-- its loop are then enough, whatever the bounds and the count.
pub no_repeat_rand_ints_returns :
    (n : ℕ) (random : ℕ → ℕ) (start end count : ℕ)
    → ((k : ℕ) → k < distance start end → (j : ℕ) × (j < n) × (random j % distance start end ≡ k))
    → (r : List ℕ) × (no_repeat_rand_ints (suc n) random start end count ≡ some r)
unfolding no_repeat_rand_ints
no_repeat_rand_ints_returns n random start end count covered =
    elim (Option-cases (no_repeat_rand_ints (suc n) random start end count)) [
      | inr s ↦ s
      | inl e ↦ absurd (too_few e)
    ]
  where
    range : ℕ
    range = distance start end

    wanted : ℕ
    wanted = if ltb range count then range else count

    all : List ℕ
    all = collect random (lower start end) range wanted n 0 []

    too_few : no_repeat_rand_ints (suc n) random start end count ≡ none → ⊥
    too_few e = ground (
      arith,
      draw_loop-none random (lower start end) range wanted n 0 [] e,
      pigeonhole range (lower start end) all (λ k lt.
          let c = covered k lt in
          rw (c.2) at (
            collect-drawn random (lower start end) range wanted n 0 c.0 [] (omega arith)
              (omega (arith, c.1)))),
    )
