-- ===== src/Nat/Stun.antt =====
-- pkg/nat/service_stun.go: the tests that classify a NAT. The STUN library is a parameter: `xor_of`
-- and `other_of` read an attribute of a message, if it is there. The network is a stream: the n-th
-- exchange meets the n-th outcome. What a test does to the connection's state is kept on errors too.
pub mod Laws
pub mod Filter
pub mod Tests
pub mod Known
pub mod Mapping
pub mod Analyze
pub mod Connect
pub mod Answers
pub mod Order
use ptun.Base.{
  ℕ, zero, suc, ◌+◌, ◌≡◌, refl, Bool, true, false, not, ◌&&◌, ◌||◌, List, [], ◌∷◌, ◌++◌, Option,
  none, some, Result, ok, err, panics, if◌then◌else◌, ◌==◌,
}
use ptun.Base.Text.{String, str_eq}
use ptun.Network.{Ip, reparse}
use ptun.Nat.Analyze.{UdpAddr}

pub data Behavior : Type 0 where
  no_nat endpoint_independent address_dependent address_port_dependent unknown : Behavior

abbrev pub is_unknown : Behavior → Bool
is_unknown unknown = true
is_unknown no_nat = false
is_unknown endpoint_independent = false
is_unknown address_dependent = false
is_unknown address_port_dependent = false

pub data Error : Type 0 where
  response_message timed_out no_other_address test_failure build_failed write_failed unresolved :
      Error

-- The CHANGE-REQUEST attribute of a binding request.
pub data Request : Type 0 where
  binding change_both change_port : Request

pub data Incoming (Msg : Type 0) : Type 0 where
  message : Msg → Incoming Msg
  closed silent : Incoming Msg

-- How one exchange goes: the request is built, gets its transaction id, is written, is answered.
pub record Outcome (Msg : Type 0) : Type 0 where
  pub built : Bool
  pub has_id : Bool
  pub written : Bool
  pub incoming : Incoming Msg

-- stunServerConn; `sent` has what was written, `step` counts the exchanges.
pub record StunConn : Type 0 where
  pub local_addr : UdpAddr
  pub remote_addr : UdpAddr
  pub other_addr : Option UdpAddr
  pub mapped_addrs : List UdpAddr
  pub sent : List (Request × UdpAddr)
  pub step : ℕ

-- stunResult, as far as the tests read it.
pub record StunResult : Type 0 where
  pub xor_addr : Option UdpAddr
  pub other_attr : Option UdpAddr

abbrev pub M : Type 0 → Type 0
M A = StunConn → StunConn × Result Error A

pub continue : {A B : Type 0} → StunConn × Result Error A → (A → M B) → StunConn × Result Error B
continue (s, ok a) f = f a s
continue (s, err e) f = (s, err e)
continue (s, panics) f = (s, panics)

abbrev pub bind : {A B : Type 0} → M A → (A → M B) → M B
bind m f s = continue (m s) f

-- A value that is there, or an error.
pub require : {A B : Type 0} → Option A → Error → (A → M B) → M B
require none e f s = (s, err e)
require (some a) e f s = f a s

-- A dereference of an address.
pub deref : {A : Type 0} → Option UdpAddr → (UdpAddr → M A) → M A
deref none f s = (s, panics)
deref (some a) f s = f a s

abbrev pub note : UdpAddr → StunConn → StunConn
note a s = record {
  local_addr = s.local_addr;
  remote_addr = s.remote_addr;
  other_addr = s.other_addr;
  mapped_addrs = s.mapped_addrs ++ record { ip = reparse (a.ip); port = a.port } ∷ [];
  sent = s.sent;
  step = s.step;
}

abbrev pub set_other : UdpAddr → StunConn → StunConn
set_other a s = record {
  local_addr = s.local_addr;
  remote_addr = s.remote_addr;
  other_addr = some a;
  mapped_addrs = s.mapped_addrs;
  sent = s.sent;
  step = s.step;
}

abbrev pub after_exchange : List (Request × UdpAddr) → StunConn → StunConn
after_exchange new s = record {
  local_addr = s.local_addr;
  remote_addr = s.remote_addr;
  other_addr = s.other_addr;
  mapped_addrs = s.mapped_addrs;
  sent = s.sent ++ new;
  step = suc (s.step);
}

abbrev pub note_xor : StunResult → StunConn → StunConn
note_xor r s = elim (r.xor_addr) [ none ↦ s | some a ↦ note a s ]

module _ {Msg : Type 0} (outcome : ℕ → Outcome Msg) (xor_of other_of : Msg → Option UdpAddr)
    (resolve : UdpAddr → Option UdpAddr) (show_stun show_udp : UdpAddr → String) where
  abbrev pub parse_stun_message : Msg → StunResult
  parse_stun_message m = record { xor_addr = xor_of m; other_attr = other_of m }

  -- stun.Build with a fresh transaction id.
  abbrev pub build : {A : Type 0} → M A → M A
  build f s = if (outcome (s.step)).built then f s else (s, err build_failed)

  -- Do. The answer taken is the next message, whatever request it answers.
  pub exchange : Request → UdpAddr → M Msg
  exchange req addr s =
      let o = outcome (s.step) in
      if not (o.has_id)
      then (after_exchange [] s, err build_failed)
      else if not (o.written)
      then (after_exchange [] s, err write_failed)
      else elim (o.incoming) [
        | message m ↦ (after_exchange ((req, addr) ∷ []) s, ok m)
        | closed ↦ (after_exchange ((req, addr) ∷ []) s, err response_message)
        | silent ↦ (after_exchange ((req, addr) ∷ []) s, err timed_out)
      ]

  abbrev pub first_test : StunResult → M StunResult
  first_test r = require (r.other_attr) no_other_address (λ other.
      require (r.xor_addr) no_other_address
        (λ xor. require (resolve other) unresolved (λ addr s. (note xor (set_other addr s), ok r))))

  pub mapping_test1 : M StunResult
  unfolding exchange
  mapping_test1 =
      build
        (λ s. bind (exchange binding (s.remote_addr)) (λ m. first_test (parse_stun_message m)) s)

  abbrev pub noted : StunResult → M StunResult
  noted r s = (note_xor r s, ok r)

  -- mappingTest1 has set OtherAddr before.
  pub mapping_test2 : M StunResult
  unfolding exchange
  mapping_test2 s =
      deref (s.other_addr)
        (λ a.
          bind (exchange binding (record { ip = a.ip; port = s.remote_addr.port }))
            (λ m. noted (parse_stun_message m)))
        s

  pub mapping_test3 : M StunResult
  unfolding exchange
  mapping_test3 s =
      deref (s.other_addr) (λ a. bind (exchange binding a) (λ m. noted (parse_stun_message m))) s

  -- Whether the texts of two mapped addresses are alike; String dereferences its receiver.
  abbrev pub same_xor : StunResult → StunResult → M Bool
  same_xor a b =
      deref (a.xor_addr)
        (λ x. deref (b.xor_addr) (λ y s. (s, ok (str_eq (show_stun x) (show_stun y)))))

  -- Test 2 and test 3 of mappingTests, after test 1.
  pub later_tests : StunResult → M Behavior
  unfolding mapping_test2 mapping_test3
  later_tests test1 = bind mapping_test2 (λ test2. bind (same_xor test2 test1) (λ same.
      if same
      then (λ s. (s, ok endpoint_independent))
      else bind mapping_test3 (λ test3.
        bind (same_xor test3 test2)
          (λ alike s. (s, ok (if alike then address_dependent else address_port_dependent))))))

  pub mapping_tests : M Behavior
  unfolding mapping_test1 later_tests
  mapping_tests = bind mapping_test1 (λ test1. deref (test1.xor_addr) (λ x s.
      if str_eq (show_stun x) (show_udp (s.local_addr))
      then (s, ok no_nat)
      else later_tests test1 s))

  pub filter_test1 : M Behavior
  unfolding exchange
  filter_test1 = build (λ s.
      bind (exchange binding (s.remote_addr))
        (λ m. bind (first_test (parse_stun_message m)) (λ r s'. (s', ok unknown))) s)

  -- filterTest2 and filterTest3: an answer, no answer in time, or another error.
  pub settle : Behavior → Behavior → StunConn × Result Error Msg → StunConn × Result Error Behavior
  settle answered quiet (s, ok m) = (note_xor (parse_stun_message m) s, ok answered)
  settle answered quiet (s, panics) = (s, panics)
  settle answered quiet (s, err timed_out) = (s, ok quiet)
  settle answered quiet (s, err response_message) = (s, err response_message)
  settle answered quiet (s, err no_other_address) = (s, err no_other_address)
  settle answered quiet (s, err test_failure) = (s, err test_failure)
  settle answered quiet (s, err build_failed) = (s, err build_failed)
  settle answered quiet (s, err write_failed) = (s, err write_failed)
  settle answered quiet (s, err unresolved) = (s, err unresolved)

  pub filter_test : Request → Behavior → Behavior → M Behavior
  unfolding exchange settle
  filter_test req answered quiet =
      build (λ s. settle answered quiet (exchange req (s.remote_addr) s))

  pub filter_test2 : M Behavior
  unfolding filter_test
  filter_test2 = filter_test change_both endpoint_independent unknown

  pub filter_test3 : M Behavior
  unfolding filter_test
  filter_test3 = filter_test change_port address_dependent address_port_dependent

  pub filter_tests : M Behavior
  unfolding filter_test1 filter_test2 filter_test3
  filter_tests =
      bind filter_test1
        (λ _. bind filter_test2 (λ b. if is_unknown b then filter_test3 else (λ s. (s, ok b))))
