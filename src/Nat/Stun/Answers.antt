-- ===== src/Nat/Stun/Answers.antt =====
-- What Do of pkg/nat/service_stun.go returns, and what the channel gave it.
use ptun.Base.{ℕ, ◌≡◌, refl, Bool, true, false, Option, ok, err}
use ptun.Base.Text.{String}
use ptun.Nat.Analyze.{UdpAddr}
use ptun.Nat.Stun.{
  response_message, Request, Incoming, message, closed, silent, Outcome, StunConn, exchange,
}

-- What an exchange returns tells what the channel gave.
module _ {Msg : Type 0} (outcome : ℕ → Outcome Msg) (xor_of other_of : Msg → Option UdpAddr)
    (resolve : UdpAddr → Option UdpAddr) (show_stun show_udp : UdpAddr → String) where
  pub answered :
      (i : Incoming Msg) (has_id written built : Bool) (req : Request) (addr : UdpAddr)
      (s : StunConn) (m : Msg)
      → outcome s.step ≡ record { built = built; has_id = has_id; written = written; incoming = i }
      → (exchange outcome xor_of other_of resolve show_stun show_udp req addr s).1 ≡ ok m
      → (has_id ≡ true) × (written ≡ true) × (i ≡ message m)
  unfolding exchange
  answered (message x) true true built req addr s m at_step e =
      (refl, refl, cc (rw (at_step, exchange) at e))
  answered closed true true built req addr s m at_step e = cc (rw (at_step, exchange) at e)
  answered silent true true built req addr s m at_step e = cc (rw (at_step, exchange) at e)
  answered i true false built req addr s m at_step e = cc (rw (at_step, exchange) at e)
  answered i false written built req addr s m at_step e = cc (rw (at_step, exchange) at e)

  pub refused :
      (i : Incoming Msg) (has_id written built : Bool) (req : Request) (addr : UdpAddr)
      (s : StunConn)
      → outcome s.step ≡ record { built = built; has_id = has_id; written = written; incoming = i }
      → (exchange outcome xor_of other_of resolve show_stun show_udp req addr s).1
        ≡ err response_message
      → i ≡ closed
  unfolding exchange
  refused closed has_id written built req addr s at_step e = refl
  refused (message x) true true built req addr s at_step e = cc (rw (at_step, exchange) at e)
  refused silent true true built req addr s at_step e = cc (rw (at_step, exchange) at e)
  refused i true false built req addr s at_step e = cc (rw (at_step, exchange) at e)
  refused i false written built req addr s at_step e = cc (rw (at_step, exchange) at e)
