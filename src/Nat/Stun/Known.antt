-- ===== src/Nat/Stun/Known.antt =====
-- mappingTests and filterTests of pkg/nat/service_stun.go: a test's result without an error is never
-- Unknown.
use ptun.Base.{
  ℕ, ◌≡◌, refl, Bool, true, false, Option, none, some, Result, ok, err, panics, if◌then◌else◌,
}
use ptun.Base.Text.{String, str_eq}
use ptun.Nat.Analyze.{UdpAddr}
use ptun.Nat.Stun.{
  M, StunResult, continue, deref, Behavior, no_nat, endpoint_independent, address_dependent,
  address_port_dependent, unknown, is_unknown, Error, change_port, timed_out, response_message,
  Outcome, StunConn, exchange, mapping_tests, later_tests, filter_test, settle, build_failed,
  write_failed, unresolved, test_failure, no_other_address, filter_test3, filter_tests,
}

-- Not an unknown behaviour without an error.
abbrev pub IsKnown : StunConn × Result Error Behavior → Type 0
IsKnown (s, ok b) = is_unknown b ≡ false
IsKnown (s, err e) = Unit
IsKnown (s, panics) = Unit

continue-IsKnown :
    {A : Type 0} (p : StunConn × Result Error A) (f : A → M Behavior)
    → ((a : A) (s : StunConn) → IsKnown (f a s))
    → IsKnown (continue p f)
unfolding continue
continue-IsKnown (s, ok a) f h = h a s
continue-IsKnown (s, err e) f h = tt
continue-IsKnown (s, panics) f h = tt

deref-IsKnown :
    (o : Option UdpAddr) (f : UdpAddr → M Behavior) (s : StunConn)
    → ((a : UdpAddr) (s : StunConn) → IsKnown (f a s))
    → IsKnown (deref o f s)
unfolding deref
deref-IsKnown none f s h = tt
deref-IsKnown (some a) f s h = h a s

module _ {Msg : Type 0} (outcome : ℕ → Outcome Msg) (xor_of other_of : Msg → Option UdpAddr)
    (resolve : UdpAddr → Option UdpAddr) (show_stun show_udp : UdpAddr → String) where
  alike-IsKnown :
      (alike : Bool) (s : StunConn)
      → IsKnown (s, ok (if alike then address_dependent else address_port_dependent))
  alike-IsKnown true s = refl
  alike-IsKnown false s = refl

  branch-IsKnown :
      (same : Bool) (f g : M Behavior) (s : StunConn)
      → IsKnown (f s)
      → IsKnown (g s)
      → IsKnown ((if same then f else g) s)
  branch-IsKnown true f g s h k = h
  branch-IsKnown false f g s h k = k

  pair-IsKnown :
      (c : Bool) (p q : StunConn × Result Error Behavior)
      → IsKnown p
      → IsKnown q
      → IsKnown (if c then p else q)
  pair-IsKnown true p q h k = h
  pair-IsKnown false p q h k = k

  later-IsKnown :
      (test1 : StunResult) (s : StunConn)
      → IsKnown (later_tests outcome xor_of other_of resolve show_stun show_udp test1 s)
  unfolding later_tests
  later-IsKnown test1 s = continue-IsKnown _ _ (λ test2 s. continue-IsKnown _ _ (λ same s.
      branch-IsKnown same _ _ s refl (
        continue-IsKnown _ _ (λ test3 s. continue-IsKnown _ _ (λ alike s. alike-IsKnown alike s)))))

  mapping-IsKnown :
      (s : StunConn) → IsKnown (mapping_tests outcome xor_of other_of resolve show_stun show_udp s)
  unfolding mapping_tests
  mapping-IsKnown s = continue-IsKnown _ _ (λ test1 s. deref-IsKnown (test1.xor_addr) _ s (λ x s.
      pair-IsKnown (str_eq (show_stun x) (show_udp (s.local_addr))) (s, ok no_nat)
        (later_tests outcome xor_of other_of resolve show_stun show_udp test1 s) refl
        (later-IsKnown test1 s)))

  settle-IsKnown :
      (a q : Behavior) (p : StunConn × Result Error Msg)
      → is_unknown a ≡ false
      → is_unknown q ≡ false
      → IsKnown (settle outcome xor_of other_of resolve show_stun show_udp a q p)
  unfolding settle
  settle-IsKnown a q (s, ok m) h k = h
  settle-IsKnown a q (s, panics) h k = tt
  settle-IsKnown a q (s, err timed_out) h k = k
  settle-IsKnown a q (s, err response_message) h k = tt
  settle-IsKnown a q (s, err no_other_address) h k = tt
  settle-IsKnown a q (s, err test_failure) h k = tt
  settle-IsKnown a q (s, err build_failed) h k = tt
  settle-IsKnown a q (s, err write_failed) h k = tt
  settle-IsKnown a q (s, err unresolved) h k = tt

  filter3-IsKnown :
      (s : StunConn) → IsKnown (filter_test3 outcome xor_of other_of resolve show_stun show_udp s)
  unfolding filter_test3 filter_test
  filter3-IsKnown s =
      pair-IsKnown ((outcome (s.step)).built) _ (s, err build_failed)
        (settle-IsKnown _ _
          (exchange outcome xor_of other_of resolve show_stun show_udp change_port (s.remote_addr)
            s)
          refl refl)
        tt

  IsKnown-or :
      (b : Behavior) (f : M Behavior) (s : StunConn)
      → IsKnown (f s)
      → IsKnown ((if is_unknown b then f else (λ s. (s, ok b))) s)
  IsKnown-or no_nat f s h = refl
  IsKnown-or endpoint_independent f s h = refl
  IsKnown-or address_dependent f s h = refl
  IsKnown-or address_port_dependent f s h = refl
  IsKnown-or unknown f s h = h

  filter-IsKnown :
      (s : StunConn) → IsKnown (filter_tests outcome xor_of other_of resolve show_stun show_udp s)
  unfolding filter_tests
  filter-IsKnown s =
      continue-IsKnown _ _
        (λ _ s. continue-IsKnown _ _ (λ b s. IsKnown-or b _ s (filter3-IsKnown s)))

  -- mappingTests and filterTests give an error, or a behaviour that is not Unknown, so that the check
  -- for Unknown after them never fires.
  pub tests-IsKnown :
      (s : StunConn)
      → IsKnown (mapping_tests outcome xor_of other_of resolve show_stun show_udp s)
        × IsKnown (filter_tests outcome xor_of other_of resolve show_stun show_udp s)
  tests-IsKnown s = (mapping-IsKnown s, filter-IsKnown s)
