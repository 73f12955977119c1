-- ===== src/Nat/Stun/Laws.antt =====
-- The single steps of the tests of pkg/nat/service_stun.go, given an answer.
use ptun.Base.{ℕ, ◌≡◌, refl, true, List, [], ◌∷◌, Option, some, Result, ok, panics, arith, ◌∙◌, ap}
use ptun.Base.Text.{String}
use ptun.Nat.Analyze.{UdpAddr}
use ptun.Nat.Stun.{
  Error, M, StunResult, build, bind, first_test, deref, continue, require, note, note_xor,
  set_other, after_exchange, Request, binding, Incoming, message, Outcome, StunConn, exchange,
  mapping_test1, mapping_test2, mapping_test3,
}

module _ {Msg : Type 0} (outcome : ℕ → Outcome Msg) where
  abbrev pub Sees : ℕ → Incoming Msg → Type 0
  Sees n i = outcome n ≡ record { built = true; has_id = true; written = true; incoming = i }

pub bind_ok :
    {A B : Type 0} (m : M A) (f : A → M B) (s s' : StunConn) (a : A)
    → m s ≡ (s', ok a)
    → bind m f s ≡ f a s'
unfolding continue
bind_ok m f s s' a e = ap (λ p. continue p f) e

pub require_ok :
    {A B : Type 0} (o : Option A) (e : Error) (f : A → M B) (s : StunConn) (a : A)
    → o ≡ some a
    → require o e f s ≡ f a s
unfolding require
require_ok o e f s a h = ap (λ o. require o e f s) h

pub bind_panics :
    {A B : Type 0} (m : M A) (f : A → M B) (s s' : StunConn)
    → m s ≡ (s', panics)
    → bind m f s ≡ (s', panics)
unfolding continue
bind_panics m f s s' e = ap (λ p. continue p f) e

pub deref_ok :
    {A : Type 0} (o : Option UdpAddr) (f : UdpAddr → M A) (s : StunConn) (a : UdpAddr)
    → o ≡ some a
    → deref o f s ≡ f a s
unfolding deref
deref_ok o f s a e = ap (λ o. deref o f s) e

module _ {Msg : Type 0} (outcome : ℕ → Outcome Msg) (xor_of other_of : Msg → Option UdpAddr)
    (resolve : UdpAddr → Option UdpAddr) (show_stun show_udp : UdpAddr → String) where
  exchange_ok :
      (req : Request) (addr : UdpAddr) (s : StunConn) (m : Msg)
      → Sees outcome (s.step) (message m)
      → exchange outcome xor_of other_of resolve show_stun show_udp req addr s
        ≡ (after_exchange ((req, addr) ∷ []) s, ok m)
  unfolding exchange
  exchange_ok req addr s m h = rw (h, exchange) refl

  pub exchange_then :
      {B : Type 0} (req : Request) (addr : UdpAddr) (f : Msg → M B) (s : StunConn) (m : Msg)
      → Sees outcome (s.step) (message m)
      → bind (exchange outcome xor_of other_of resolve show_stun show_udp req addr) f s
        ≡ f m (after_exchange ((req, addr) ∷ []) s)
  exchange_then req addr f s m h =
      bind_ok (exchange outcome xor_of other_of resolve show_stun show_udp req addr) f s
        (after_exchange ((req, addr) ∷ []) s) m (exchange_ok req addr s m h)

  pub build_ok :
      {A : Type 0} (f : M A) (s : StunConn) (i : Incoming Msg)
      → Sees outcome (s.step) i
      → build outcome xor_of other_of resolve show_stun show_udp f s ≡ f s
  build_ok f s i h = rw h refl

  unfoldable pub read : Msg → StunResult
  read m = record { xor_addr = xor_of m; other_attr = other_of m }

  unfoldable pub after_test1 : UdpAddr → UdpAddr → StunConn → StunConn
  after_test1 x o s = note x (set_other o (after_exchange ((binding, s.remote_addr) ∷ []) s))

  pub test1_ok :
      (s : StunConn) (m : Msg) (x other o : UdpAddr)
      → Sees outcome (s.step) (message m)
      → xor_of m ≡ some x
      → other_of m ≡ some other
      → resolve other ≡ some o
      → mapping_test1 outcome xor_of other_of resolve show_stun show_udp s
        ≡ (after_test1 x o s, ok (read m))
  unfolding mapping_test1 after_test1 read
  test1_ok s m x other o h e1 e2 e3 =
      build_ok
        (λ s.
          bind (exchange outcome xor_of other_of resolve show_stun show_udp binding (s.remote_addr))
            (λ m. first_test outcome xor_of other_of resolve show_stun show_udp (read m)) s)
        s (message m) h
      ∙ exchange_then binding (s.remote_addr)
          (λ m. first_test outcome xor_of other_of resolve show_stun show_udp (read m)) s m h
      ∙ require_ok (other_of m) _ _ _ other e2
      ∙ require_ok (xor_of m) _ _ _ x e1
      ∙ require_ok (resolve other) _ _ _ o e3

  unfoldable pub after_test : Msg → UdpAddr → StunConn → StunConn
  after_test m a s = note_xor (read m) (after_exchange ((binding, a) ∷ []) s)

  pub test2_ok :
      (s : StunConn) (m : Msg) (o : UdpAddr)
      → s.other_addr ≡ some o
      → Sees outcome (s.step) (message m)
      → mapping_test2 outcome xor_of other_of resolve show_stun show_udp s
        ≡ (after_test m (record { ip = o.ip; port = s.remote_addr.port }) s, ok (read m))
  unfolding mapping_test2 after_test read
  test2_ok s m o e h = deref_ok _ _ s o e ∙ exchange_then binding _ _ s m h

  pub test3_ok :
      (s : StunConn) (m : Msg) (o : UdpAddr)
      → s.other_addr ≡ some o
      → Sees outcome (s.step) (message m)
      → mapping_test3 outcome xor_of other_of resolve show_stun show_udp s
        ≡ (after_test m o s, ok (read m))
  unfolding mapping_test3 after_test read
  test3_ok s m o e h = deref_ok _ _ s o e ∙ exchange_then binding _ _ s m h

  pub note_xor_step : (r : StunResult) (s : StunConn) → (note_xor r s).step ≡ s.step
  note_xor_step r s = ground arith

  pub note_xor_sent : (r : StunResult) (s : StunConn) → (note_xor r s).sent ≡ s.sent
  note_xor_sent r s = ground arith

-- What a test has sent in all, and what it returns.
abbrev pub sent_and_result :
    {A : Type 0} → StunConn × Result Error A → List (Request × UdpAddr) × Result Error A
sent_and_result (s, r) = (s.sent, r)

pub with_sent : {L R : Type 0} (a b : L) (r : R) → a ≡ b → ◌≡◌ {A = L × R} (a, r) (b, r)
with_sent a b r e = ap (λ l. (l, r)) e
