-- ===== src/Send/Perf.antt =====
-- Sending does not look at the cycle counters.
use mathlib.Core.Option
use toy_softswitch.Prelude.{ℕ, ◌≡◌, refl}
use toy_softswitch.Context.{App, DeviceContext, OutputPinVTable, PThreadContext}
use toy_softswitch.Context.Host.{Counters}
use toy_softswitch.Rts.Perf.{with_perf, load-with_perf, softswitch_update_rts-with_perf}
use toy_softswitch.Send.{Buffer, address_message, call_send_handler, finish_send}

module _ {A : App} where
  pub address_message-with_perf :
      (k : Counters) (c : PThreadContext A) (d : DeviceContext A) (n : ℕ) (pin : OutputPinVTable A)
      (m : Buffer A)
      → address_message (with_perf k c) d n pin m ≡ address_message c d n pin m
  unfolding address_message
  address_message-with_perf k c d n pin m = refl

  pub call_send_handler_perf :
      (c : PThreadContext A) (i : ℕ) (d : DeviceContext A) (n : ℕ) (pin : OutputPinVTable A)
      (m : Buffer A)
      → (call_send_handler c i d n pin m).0.perf ≡ c.perf
  unfolding call_send_handler
  call_send_handler_perf c i d n pin m = refl

  pub finish_send-with_perf :
      (k : Counters) (c : PThreadContext A) (i : ℕ)
      → finish_send (with_perf k c) i ≡ Option.map (with_perf k) (finish_send c i)
  unfolding finish_send
  finish_send-with_perf k c i =
      load-with_perf k (with_perf k) c i _ _ (softswitch_update_rts-with_perf k _ i)
