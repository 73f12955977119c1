-- ===== src/Nat/Stun/Mapping.antt =====
-- mappingTests of pkg/nat/service_stun.go: the classification.
use ptun.Base.{
  ℕ, suc, ◌≡◌, refl, false, Option, none, some, ok, panics, if◌then◌else◌, arith, ◌∙◌, ap,
  Bool-cases, inl, inr, List, [], ◌∷◌, ◌++◌, append_assoc,
}
use ptun.Base.Text.{String, str_eq}
use ptun.Nat.Analyze.{UdpAddr}
use ptun.Nat.Stun.{
  Request, binding, Behavior, no_nat, endpoint_independent, address_dependent,
  address_port_dependent, StunResult, same_xor, later_tests, deref, message, Outcome, StunConn,
  mapping_test1, mapping_test2, mapping_test3, mapping_tests,
}
use ptun.Nat.Stun.Laws.{
  Sees, bind_ok, deref_ok, bind_panics, read, after_test, after_test1, test1_ok, test2_ok, test3_ok,
  note_xor_step, note_xor_sent, sent_and_result, with_sent,
}

-- The reference: what three addresses seen from outside say, by their texts.
abbrev pub classify : String → String → String → String → Behavior
classify local x1 x2 x3 =
    if str_eq x1 local
    then no_nat
    else if str_eq x2 x1
    then endpoint_independent
    else if str_eq x3 x2
    then address_dependent
    else address_port_dependent

-- The requests that the tests make: to the server's address, to its other IP at the same port, to its
-- other IP and port; each of the later ones only when the answers do not settle it before.
abbrev pub later_requests : UdpAddr → UdpAddr → String → String → List (Request × UdpAddr)
later_requests remote other x1 x2 =
    if str_eq x2 x1
    then (binding, record { ip = other.ip; port = remote.port }) ∷ []
    else (binding, record { ip = other.ip; port = remote.port }) ∷ (binding, other) ∷ []

abbrev pub requests : UdpAddr → UdpAddr → String → String → String → List (Request × UdpAddr)
requests remote other local x1 x2 =
    if str_eq x1 local
    then (binding, remote) ∷ []
    else (binding, remote) ∷ later_requests remote other x1 x2

module _ {Msg : Type 0} (outcome : ℕ → Outcome Msg) (xor_of other_of : Msg → Option UdpAddr)
    (resolve : UdpAddr → Option UdpAddr) (show_stun show_udp : UdpAddr → String) where
  -- The state after test 2, from the one after test 1.
  second : Msg → UdpAddr → StunConn → StunConn
  second m o s =
      after_test outcome xor_of other_of resolve show_stun show_udp m
        (record { ip = o.ip; port = s.remote_addr.port }) s

  same_ok :
      (a b : StunResult) (x y : UdpAddr) (s : StunConn)
      → a.xor_addr ≡ some x
      → b.xor_addr ≡ some y
      → same_xor outcome xor_of other_of resolve show_stun show_udp a b s
        ≡ (s, ok (str_eq (show_stun x) (show_stun y)))
  same_ok a b x y s e f = deref_ok (a.xor_addr) _ s x e ∙ deref_ok (b.xor_addr) _ s y f

  second_step : (m : Msg) (o : UdpAddr) (s : StunConn) → (second m o s).step ≡ suc (s.step)
  unfolding second after_test read
  second_step m o s =
      note_xor_step outcome xor_of other_of resolve show_stun show_udp
        (read outcome xor_of other_of resolve show_stun show_udp m) _

  second_other : (m : Msg) (o : UdpAddr) (s : StunConn) → (second m o s).other_addr ≡ s.other_addr
  unfolding second after_test read
  second_other m o s = ground arith

  same_panics :
      (a b : StunResult) (s : StunConn)
      → a.xor_addr ≡ none
      → same_xor outcome xor_of other_of resolve show_stun show_udp a b s ≡ (s, panics)
  unfolding deref
  same_panics a b s e =
      ap
        (λ o.
          deref o (λ x. deref (b.xor_addr) (λ y s. (s, ok (str_eq (show_stun x) (show_stun y))))) s)
        e

  second_sent :
      (m : Msg) (o : UdpAddr) (s : StunConn)
      → (second m o s).sent
        ≡ s.sent ++ (binding, record { ip = o.ip; port = s.remote_addr.port }) ∷ []
  unfolding second after_test
  second_sent m o s =
      note_xor_sent outcome xor_of other_of resolve show_stun show_udp
        (read outcome xor_of other_of resolve show_stun show_udp m) _

  third_sent :
      (m2 m3 : Msg) (o : UdpAddr) (s : StunConn)
      → (after_test outcome xor_of other_of resolve show_stun show_udp m3 o (second m2 o s)).sent
        ≡ s.sent ++ (binding, record { ip = o.ip; port = s.remote_addr.port }) ∷ (binding, o) ∷ []
  unfolding after_test
  third_sent m2 m3 o s =
      note_xor_sent outcome xor_of other_of resolve show_stun show_udp
        (read outcome xor_of other_of resolve show_stun show_udp m3) _
      ∙ ap (λ l. l ++ (binding, o) ∷ []) (second_sent m2 o s)
      ∙ append_assoc s.sent _ _

  later_classify :
      (s : StunConn) (test1 : StunResult) (m2 m3 : Msg) (x1 x2 x3 o : UdpAddr)
      → s.other_addr ≡ some o
      → test1.xor_addr ≡ some x1
      → Sees outcome (s.step) (message m2)
      → Sees outcome (suc (s.step)) (message m3)
      → xor_of m2 ≡ some x2
      → xor_of m3 ≡ some x3
      → sent_and_result (later_tests outcome xor_of other_of resolve show_stun show_udp test1 s) ≡ (
        s.sent ++ later_requests s.remote_addr o (show_stun x1) (show_stun x2),
        ok (
            if str_eq (show_stun x2) (show_stun x1)
            then endpoint_independent
            else if str_eq (show_stun x3) (show_stun x2)
            then address_dependent
            else address_port_dependent),
      )
  unfolding later_tests second after_test read
  later_classify s test1 m2 m3 x1 x2 x3 o eo e1 h2 h3 e2 e3 =
      ap sent_and_result (
        bind_ok (mapping_test2 outcome xor_of other_of resolve show_stun show_udp) _ s
          (second m2 o s) (read outcome xor_of other_of resolve show_stun show_udp m2)
          (test2_ok outcome xor_of other_of resolve show_stun show_udp s m2 o eo h2)
        ∙ bind_ok
            (same_xor outcome xor_of other_of resolve show_stun show_udp
              (read outcome xor_of other_of resolve show_stun show_udp m2) test1)
            _ (second m2 o s) _ _
            (same_ok (read outcome xor_of other_of resolve show_stun show_udp m2) test1 x2 x1
              (second m2 o s) e2 e1))
      ∙ elim (Bool-cases (str_eq (show_stun x2) (show_stun x1))) [
        | inl a ↦ rw a (ap (λ l. (l, ok endpoint_independent)) (second_sent m2 o s))
        | inr a ↦ rw a (
            ap sent_and_result (
              bind_ok (mapping_test3 outcome xor_of other_of resolve show_stun show_udp) _
                (second m2 o s) _ (read outcome xor_of other_of resolve show_stun show_udp m3)
                (test3_ok outcome xor_of other_of resolve show_stun show_udp (second m2 o s) m3 o
                  (second_other m2 o s ∙ eo) (ap outcome (second_step m2 o s) ∙ h3))
              ∙ bind_ok
                  (same_xor outcome xor_of other_of resolve show_stun show_udp
                    (read outcome xor_of other_of resolve show_stun show_udp m3)
                    (read outcome xor_of other_of resolve show_stun show_udp m2))
                  _
                  (after_test outcome xor_of other_of resolve show_stun show_udp m3 o
                    (second m2 o s))
                  _ _
                  (same_ok (read outcome xor_of other_of resolve show_stun show_udp m3)
                    (read outcome xor_of other_of resolve show_stun show_udp m2) x3 x2
                    (after_test outcome xor_of other_of resolve show_stun show_udp m3 o
                      (second m2 o s))
                    e3 e2))
            ∙ with_sent _ _ _ (third_sent m2 m3 o s))
      ]

  -- If all requests are answered with an address, and the first one with the other address of the
  -- server too, mappingTests asks the server's own address first. It returns that there is no NAT if the
  -- first answer shows the local address; else it asks the other IP at the same port, and returns that
  -- the mapping is independent of the endpoint if this answer shows the same address as the first; else
  -- it asks the other IP and port, and decides by whether this answer shows the same address as the
  -- second one. It sends nothing else.
  pub mapping_tests-classify :
      (s : StunConn) (m1 m2 m3 : Msg) (x1 x2 x3 other o : UdpAddr)
      → Sees outcome (s.step) (message m1)
      → Sees outcome (suc (s.step)) (message m2)
      → Sees outcome (suc (suc (s.step))) (message m3)
      → xor_of m1 ≡ some x1
      → other_of m1 ≡ some other
      → resolve other ≡ some o
      → xor_of m2 ≡ some x2
      → xor_of m3 ≡ some x3
      → sent_and_result (mapping_tests outcome xor_of other_of resolve show_stun show_udp s) ≡ (
        s.sent ++ requests s.remote_addr o (show_udp s.local_addr) (show_stun x1) (show_stun x2),
        ok (classify (show_udp s.local_addr) (show_stun x1) (show_stun x2) (show_stun x3)),
      )
  unfolding mapping_tests after_test1 read
  mapping_tests-classify s m1 m2 m3 x1 x2 x3 other o h1 h2 h3 e1 e2 e3 e4 e5 =
      ap sent_and_result (
        bind_ok (mapping_test1 outcome xor_of other_of resolve show_stun show_udp) _ s
          (after_test1 outcome xor_of other_of resolve show_stun show_udp x1 o s)
          (read outcome xor_of other_of resolve show_stun show_udp m1)
          (test1_ok outcome xor_of other_of resolve show_stun show_udp s m1 x1 other o h1 e1 e2 e3)
        ∙ deref_ok (xor_of m1) _
            (after_test1 outcome xor_of other_of resolve show_stun show_udp x1 o s) x1 e1)
      ∙ elim (Bool-cases (str_eq (show_stun x1) (show_udp (s.local_addr)))) [
        | inl a ↦ rw a refl
        | inr a ↦ rw a (
            later_classify (after_test1 outcome xor_of other_of resolve show_stun show_udp x1 o s)
              (read outcome xor_of other_of resolve show_stun show_udp m1) m2 m3 x1 x2 x3 o refl e1
              h2 h3 e4 e5
            ∙ with_sent _ _ _ (append_assoc s.sent _ _))
      ]

  -- When the answer to the second request has no mapped address, mappingTests panics, unless the
  -- first test has already shown that there is no NAT.
  pub mapping_tests_panics :
      (s : StunConn) (m1 m2 : Msg) (x1 other o : UdpAddr)
      → Sees outcome (s.step) (message m1)
      → Sees outcome (suc (s.step)) (message m2)
      → xor_of m1 ≡ some x1
      → other_of m1 ≡ some other
      → resolve other ≡ some o
      → xor_of m2 ≡ none
      → str_eq (show_stun x1) (show_udp (s.local_addr)) ≡ false
      → (mapping_tests outcome xor_of other_of resolve show_stun show_udp s).1 ≡ panics
  unfolding mapping_tests later_tests after_test1 read second
  mapping_tests_panics s m1 m2 x1 other o h1 h2 e1 e2 e3 e4 a =
      ap (λ p. p.1)
        (bind_ok (mapping_test1 outcome xor_of other_of resolve show_stun show_udp) _ s
            (after_test1 outcome xor_of other_of resolve show_stun show_udp x1 o s)
            (read outcome xor_of other_of resolve show_stun show_udp m1)
            (test1_ok outcome xor_of other_of resolve show_stun show_udp s m1 x1 other o h1 e1 e2
              e3)
          ∙ deref_ok (xor_of m1) _
              (after_test1 outcome xor_of other_of resolve show_stun show_udp x1 o s) x1 e1)
      ∙ rw a (
          ap (λ p. p.1)
            (bind_ok (mapping_test2 outcome xor_of other_of resolve show_stun show_udp) _
                (after_test1 outcome xor_of other_of resolve show_stun show_udp x1 o s)
                (second m2 o
                  (after_test1 outcome xor_of other_of resolve show_stun show_udp x1 o s))
                (read outcome xor_of other_of resolve show_stun show_udp m2)
                (test2_ok outcome xor_of other_of resolve show_stun show_udp
                  (after_test1 outcome xor_of other_of resolve show_stun show_udp x1 o s) m2 o refl
                  h2)
              ∙ bind_panics
                  (same_xor outcome xor_of other_of resolve show_stun show_udp
                    (read outcome xor_of other_of resolve show_stun show_udp m2)
                    (read outcome xor_of other_of resolve show_stun show_udp m1))
                  _
                  (second m2 o
                    (after_test1 outcome xor_of other_of resolve show_stun show_udp x1 o s))
                  (second m2 o
                    (after_test1 outcome xor_of other_of resolve show_stun show_udp x1 o s))
                  (same_panics (read outcome xor_of other_of resolve show_stun show_udp m2)
                    (read outcome xor_of other_of resolve show_stun show_udp m1)
                    (second m2 o
                      (after_test1 outcome xor_of other_of resolve show_stun show_udp x1 o s))
                    e4)))
