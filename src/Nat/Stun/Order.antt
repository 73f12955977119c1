-- ===== src/Nat/Stun/Order.antt =====
-- The order in which Do of pkg/nat/service_stun.go gets the datagrams that the goroutine of
-- connectStun reads.
use ptun.Base.{
  ℕ, zero, suc, ◌+◌, ◌≡◌, refl, sym, ap, ◌∙◌, Bool, true, false, ◌&&◌, List, [], ◌∷◌, ◌++◌, map,
  Option, none, some, ok, err, arith, append_assoc,
}
use mathlib.Core.List.{map-append}
use mathlib.Core.Path.{subst}
use ptun.Base.Text.{String}
use ptun.Nat.Analyze.{UdpAddr}
use ptun.Nat.Stun.{response_message, Request, message, closed, StunConn, exchange}
use ptun.Nat.Stun.Connect.{taken_of, turn, pending, incoming_of, outcome, arrived, taken}
use ptun.Nat.Stun.Answers.{answered, refused}

module _ {Msg : Type 0} (built has_id written : ℕ → Bool) (arrivals : ℕ → List (Option Msg)) where
  turn_splits :
      (asks : Bool) (queue : List (Option Msg))
      → queue ≡ map some (taken_of (turn asks queue).0) ++ (turn asks queue).1
  turn_splits false queue = refl
  turn_splits true [] = refl
  turn_splits true (none ∷ queue) = refl
  turn_splits true (some m ∷ queue) = refl

  -- What arrived before an exchange are the messages that were taken, in their order, and then what
  -- is left.
  arrived-taken :
      (n : ℕ)
      → arrived built has_id written arrivals n
        ≡ map some (taken built has_id written arrivals n)
          ++ pending built has_id written arrivals n
  unfolding pending incoming_of
  arrived-taken zero = refl
  arrived-taken (suc n) =
      let queue = pending built has_id written arrivals n ++ arrivals n in
      let now = turn (has_id n && written n) queue in
      ap (λ xs. xs ++ arrivals n) (arrived-taken n)
      ∙ append_assoc (map some (taken built has_id written arrivals n))
          (pending built has_id written arrivals n) (arrivals n)
      ∙ ap (λ xs. map some (taken built has_id written arrivals n) ++ xs)
          (turn_splits (has_id n && written n) queue)
      ∙ sym (
          append_assoc (map some (taken built has_id written arrivals n))
            (map some (taken_of now.0)) now.1)
      ∙ ap (λ xs. xs ++ now.1)
          (sym (map-append some (taken built has_id written arrivals n) (taken_of now.0)))

  turn_closed :
      (asks : Bool) (queue : List (Option Msg)) → (turn asks (none ∷ queue)).1 ≡ none ∷ queue
  turn_closed false queue = refl
  turn_closed true queue = refl

  closed_head :
      (asks : Bool) (queue : List (Option Msg))
      → (turn asks queue).0 ≡ closed
      → (rest : List (Option Msg)) × ((turn asks queue).1 ≡ none ∷ rest)
  closed_head false queue e = cc e
  closed_head true [] e = cc e
  closed_head true (none ∷ queue) e = (queue, refl)
  closed_head true (some m ∷ queue) e = cc e

  closed_next :
      (n : ℕ)
      → ((rest : List (Option Msg)) × (pending built has_id written arrivals n ≡ none ∷ rest))
      → (rest : List (Option Msg)) × (pending built has_id written arrivals (suc n) ≡ none ∷ rest)
  unfolding pending
  closed_next n (rest, e) = (
    _,
    ap (λ q. (turn (has_id n && written n) (q ++ arrivals n)).1) e
        ∙ turn_closed (has_id n && written n) (rest ++ arrivals n),
  )

  -- A channel that is closed stays closed.
  stays_closed :
      (n k m : ℕ)
      → incoming_of built has_id written arrivals n ≡ closed
      → m ≡ k + n
      → (rest : List (Option Msg)) × (pending built has_id written arrivals (suc m) ≡ none ∷ rest)
  unfolding pending incoming_of
  stays_closed n zero m e at_m =
      subst
        (λ i.
          (rest : List (Option Msg)) × (pending built has_id written arrivals (suc i)
            ≡ none ∷ rest))
        (omega (arith, at_m))
        (closed_head (has_id n && written n) (pending built has_id written arrivals n ++ arrivals n)
          e)
  stays_closed n (suc k) zero e at_m = absurd (omega (arith, at_m))
  stays_closed n (suc k) (suc m) e at_m =
      closed_next (suc m) (stays_closed n k m e (omega (arith, at_m)))

  closed_gives :
      (asks : Bool) (queue rest : List (Option Msg)) (m : Msg)
      → queue ≡ none ∷ rest
      → ¬ ((turn asks queue).0 ≡ message m)
  closed_gives asks [] rest m e at_m = cc e
  closed_gives asks (some x ∷ queue) rest m e at_m = cc e
  closed_gives true (none ∷ queue) rest m e at_m = cc at_m
  closed_gives false (none ∷ queue) rest m e at_m = cc at_m

  module _ (xor_of other_of : Msg → Option UdpAddr) (resolve : UdpAddr → Option UdpAddr)
      (show_stun show_udp : UdpAddr → String) where
    -- What Do returns is the first datagram of those that have come and that no earlier Do took,
    -- whatever request it answers; the others are left for later ones, in the order in which they came.
    pub exchange-arrived :
        (req : Request) (addr : UdpAddr) (s : StunConn) (m : Msg)
        → (exchange
            (outcome built has_id written arrivals)
            xor_of
            other_of
            resolve
            show_stun
            show_udp
            req
            addr
            s).1
          ≡ ok m
        → arrived built has_id written arrivals (suc s.step)
          ≡ map some (taken built has_id written arrivals s.step)
            ++ some m ∷ pending built has_id written arrivals (suc s.step)
    unfolding outcome
    exchange-arrived req addr s m e =
        let n = s.step in
        let i = incoming_of built has_id written arrivals n in
        let gives =
          answered (outcome built has_id written arrivals) xor_of other_of resolve show_stun
            show_udp i (has_id n) (written n) (built n) req addr s m refl e in
        let before = taken built has_id written arrivals n in
        arrived-taken (suc n)
        ∙ ap (λ j. map some (before ++ taken_of j) ++ pending built has_id written arrivals (suc n))
            (gives.2)
        ∙ ap (λ xs. xs ++ pending built has_id written arrivals (suc n))
            (map-append some before (m ∷ []))
        ∙ append_assoc (map some before) (some m ∷ []) _

    -- Once a Do has failed on the closed channel, which one datagram that does not decode is enough
    -- for, no later one returns a message, whatever comes.
    pub exchange-exchange_closed :
        (req later : Request) (addr to : UdpAddr) (s t : StunConn) (k : ℕ) (m : Msg)
        → t.step ≡ suc k + s.step
        → (exchange
            (outcome built has_id written arrivals)
            xor_of
            other_of
            resolve
            show_stun
            show_udp
            req
            addr
            s).1
          ≡ err response_message
        → ¬ (
            (exchange
              (outcome built has_id written arrivals)
              xor_of
              other_of
              resolve
              show_stun
              show_udp
              later
              to
              t).1
            ≡ ok m)
    unfolding outcome incoming_of
    exchange-exchange_closed req later addr to s t k m at_t e returns =
        let n = s.step in
        let shut =
          refused (outcome built has_id written arrivals) xor_of other_of resolve show_stun show_udp
            (incoming_of built has_id written arrivals n) (has_id n) (written n) (built n) req addr
            s refl e in
        let gives =
          answered (outcome built has_id written arrivals) xor_of other_of resolve show_stun
            show_udp (incoming_of built has_id written arrivals t.step) (has_id t.step)
            (written t.step) (built t.step) later to t m refl returns in
        let left = stays_closed n k (k + n) shut refl in
        closed_gives _ _ _ m
          (ap (λ q. q ++ arrivals t.step)
            (ap (pending built has_id written arrivals) {y = suc (k + n)} (ground (arith, at_t))
              ∙ left.1))
          (gives.2)
