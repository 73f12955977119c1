-- ===== src/Nat/Stun/Filter.antt =====
-- filterTests of pkg/nat/service_stun.go: the classification.
use ptun.Base.{
  ℕ, suc, ◌≡◌, refl, List, [], ◌∷◌, ◌++◌, append_assoc, Option, some, Result, ok, err,
  if◌then◌else◌, ◌∙◌, ap,
}
use ptun.Base.Text.{String}
use ptun.Nat.Analyze.{UdpAddr}
use ptun.Nat.Stun.{
  M, after_exchange, note_xor, bind, continue, first_test, Behavior, endpoint_independent,
  address_dependent, address_port_dependent, unknown, is_unknown, Error, Request, binding,
  change_both, change_port, Incoming, message, closed, silent, timed_out, response_message, Outcome,
  StunConn, note, set_other, exchange, filter_test, settle, build_failed, filter_test1,
  filter_test2, filter_test3, filter_tests,
}
use ptun.Nat.Stun.Laws.{
  note_xor_sent, sent_and_result, with_sent, Sees, bind_ok, require_ok, exchange_then, build_ok,
}

-- The reference: what becomes of the requests to answer from another IP and port, and from another
-- port.
abbrev pub verdict : {Msg : Type 0} → Incoming Msg → Incoming Msg → Result Error Behavior
verdict (message m) j = ok endpoint_independent
verdict closed j = err response_message
verdict silent (message m) = ok address_dependent
verdict silent closed = err response_message
verdict silent silent = ok address_port_dependent

-- The requests that the tests make, all to the server's address: one as it is, one to answer from another
-- IP and port, and, if nothing comes of that, one to answer from another port.
abbrev pub filter_requests : {Msg : Type 0} → UdpAddr → Incoming Msg → List (Request × UdpAddr)
filter_requests a (message m) = (binding, a) ∷ (change_both, a) ∷ []
filter_requests a closed = (binding, a) ∷ (change_both, a) ∷ []
filter_requests a silent = (binding, a) ∷ (change_both, a) ∷ (change_port, a) ∷ []

module _ {Msg : Type 0} (outcome : ℕ → Outcome Msg) (xor_of other_of : Msg → Option UdpAddr)
    (resolve : UdpAddr → Option UdpAddr) (show_stun show_udp : UdpAddr → String) where
  answer : Incoming Msg → Request → StunConn → StunConn × Result Error Msg
  answer (message m) req s = (after_exchange ((req, s.remote_addr) ∷ []) s, ok m)
  answer closed req s = (after_exchange ((req, s.remote_addr) ∷ []) s, err response_message)
  answer silent req s = (after_exchange ((req, s.remote_addr) ∷ []) s, err timed_out)

  exchange-answer :
      (req : Request) (s : StunConn) (i : Incoming Msg)
      → Sees outcome (s.step) i
      → exchange outcome xor_of other_of resolve show_stun show_udp req (s.remote_addr) s
        ≡ answer i req s
  unfolding exchange answer
  exchange-answer req s (message m) h = rw (h, exchange) refl
  exchange-answer req s closed h = rw (h, exchange) refl
  exchange-answer req s silent h = rw (h, exchange) refl

  filter_test-settle :
      (req : Request) (a q : Behavior) (s : StunConn) (i : Incoming Msg)
      → Sees outcome (s.step) i
      → filter_test outcome xor_of other_of resolve show_stun show_udp req a q s
        ≡ settle outcome xor_of other_of resolve show_stun show_udp a q (answer i req s)
  unfolding filter_test
  filter_test-settle req a q s i h =
      ap
        (λ b.
          if b
          then settle outcome xor_of other_of resolve show_stun show_udp a q
              (exchange outcome xor_of other_of resolve show_stun show_udp req (s.remote_addr) s)
          else (s, err build_failed))
        (ap (λ o. o.built) h)
      ∙ ap (settle outcome xor_of other_of resolve show_stun show_udp a q)
          (exchange-answer req s i h)

  after_first : UdpAddr → UdpAddr → StunConn → StunConn
  after_first x o s = note x (set_other o (after_exchange ((binding, s.remote_addr) ∷ []) s))

  first_tail : Msg → M Behavior
  first_tail m =
      bind
        (first_test outcome xor_of other_of resolve show_stun show_udp
          (record { xor_addr = xor_of m; other_attr = other_of m }))
        (λ r s. (s, ok unknown))

  first_ok :
      (s : StunConn) (m : Msg) (x other o : UdpAddr)
      → Sees outcome (s.step) (message m)
      → xor_of m ≡ some x
      → other_of m ≡ some other
      → resolve other ≡ some o
      → filter_test1 outcome xor_of other_of resolve show_stun show_udp s
        ≡ (after_first x o s, ok unknown)
  unfolding filter_test1 after_first continue first_tail
  first_ok s m x other o h e1 e2 e3 =
      build_ok outcome xor_of other_of resolve show_stun show_udp
        (λ s.
          bind (exchange outcome xor_of other_of resolve show_stun show_udp binding (s.remote_addr))
            first_tail s)
        s (message m) h
      ∙ exchange_then outcome xor_of other_of resolve show_stun show_udp binding (s.remote_addr)
          first_tail s m h
      ∙ ap (λ p. continue p (λ r s. (s, ok unknown)))
          (require_ok (other_of m) _ _ _ other e2
            ∙ require_ok (xor_of m) _ _ _ x e1
            ∙ require_ok (resolve other) _ _ _ o e3)

  third_or : Behavior → M Behavior
  third_or b =
      if is_unknown b
      then filter_test3 outcome xor_of other_of resolve show_stun show_udp
      else (λ s. (s, ok b))

  -- What the settled test has sent, with its answer noted or not.
  noted_sent :
      (m : Msg) (req : Request) (s : StunConn) (r : Result Error Behavior)
      → sent_and_result (
        note_xor
            (record { xor_addr = xor_of m; other_attr = other_of m })
            (after_exchange ((req, s.remote_addr) ∷ []) s),
        r,
      )
        ≡ (s.sent ++ (req, s.remote_addr) ∷ [], r)
  noted_sent m req s r = with_sent _ _ r (
      note_xor_sent outcome xor_of other_of resolve show_stun show_udp
        (record { xor_addr = xor_of m; other_attr = other_of m })
        (after_exchange ((req, s.remote_addr) ∷ []) s))

  third_settle :
      (j : Incoming Msg) (s : StunConn)
      → Sees outcome (s.step) j
      → sent_and_result (filter_test3 outcome xor_of other_of resolve show_stun show_udp s)
        ≡ (s.sent ++ (change_port, s.remote_addr) ∷ [], verdict silent j)
  unfolding filter_test3 settle answer
  third_settle (message m) s h =
      ap sent_and_result
        (filter_test-settle change_port address_dependent address_port_dependent s (message m) h)
      ∙ noted_sent m change_port s (ok address_dependent)
  third_settle closed s h =
      ap sent_and_result
        (filter_test-settle change_port address_dependent address_port_dependent s closed h)
  third_settle silent s h =
      ap sent_and_result
        (filter_test-settle change_port address_dependent address_port_dependent s silent h)

  later_settle :
      (i j : Incoming Msg) (x o : UdpAddr) (s : StunConn)
      → Sees outcome (suc (suc (s.step))) j
      → sent_and_result (
          continue
            (settle outcome xor_of other_of resolve show_stun show_udp endpoint_independent unknown
              (answer i change_both (after_first x o s)))
            third_or)
        ≡ (s.sent ++ filter_requests s.remote_addr i, verdict i j)
  unfolding continue settle answer third_or after_first
  later_settle (message m) j x o s h =
      noted_sent m change_both (after_first x o s) (ok endpoint_independent)
      ∙ with_sent _ _ (ok endpoint_independent) (append_assoc s.sent _ _)
  later_settle closed j x o s h =
      with_sent _ _ (err response_message) (append_assoc s.sent ((binding, s.remote_addr) ∷ []) _)
  later_settle silent j x o s h =
      third_settle j (after_exchange ((change_both, s.remote_addr) ∷ []) (after_first x o s)) h
      ∙ with_sent _ _ (verdict silent j)
          (append_assoc (s.sent ++ (binding, s.remote_addr) ∷ []) _ _ ∙ append_assoc s.sent _ _)

  -- Given that the first test went well, filterTests asks the server's address to answer from another
  -- IP and port, and returns what becomes of that, and if that times out, it asks it to answer from
  -- another port, and returns what becomes of that. It sends nothing else.
  pub filter_tests-verdict :
      (s : StunConn) (m : Msg) (x other o : UdpAddr) (i j : Incoming Msg)
      → Sees outcome (s.step) (message m)
      → Sees outcome (suc (s.step)) i
      → Sees outcome (suc (suc (s.step))) j
      → xor_of m ≡ some x
      → other_of m ≡ some other
      → resolve other ≡ some o
      → sent_and_result (filter_tests outcome xor_of other_of resolve show_stun show_udp s)
        ≡ (s.sent ++ filter_requests s.remote_addr i, verdict i j)
  unfolding filter_tests filter_test2 third_or after_first
  filter_tests-verdict s m x other o i j h1 h2 h3 e1 e2 e3 =
      ap sent_and_result (
        bind_ok (filter_test1 outcome xor_of other_of resolve show_stun show_udp) _ s
          (after_first x o s) unknown (first_ok s m x other o h1 e1 e2 e3)
        ∙ ap (λ p. continue p third_or)
            (filter_test-settle change_both endpoint_independent unknown (after_first x o s) i h2))
      ∙ later_settle i j x o s h3
