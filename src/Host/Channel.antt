-- ===== src/Host/Channel.antt =====
-- What goes over the UART.
use toy_softswitch.Prelude.{ℕ, ◌≡◌, refl, some, List, [], ◌∷◌, ◌++◌}
use toy_softswitch.Context.Host.{HostMsg, HostBuffer}
use toy_softswitch.Host.{
  host_msg_buffer_size, direct_host_message_slow_send, host_message_slow_pop_send,
  host_message_buffer_pop_send, drain_loop,
}
use toy_softswitch.Host.Queue.{IsHostBuffer, contents}

module _ (bytes : HostMsg → List ℕ) (sizeof : ℕ) where
  -- The messages one after another.
  abbrev pub frames : List HostMsg → List ℕ
  frames [] = []
  frames (m ∷ ms) = direct_host_message_slow_send bytes sizeof m ++ frames ms

  -- The slow channel takes the same message as the fast one.
  pub slow_pop_lem :
      (b : HostBuffer)
      → host_message_slow_pop_send bytes sizeof b ≡ (
        (host_message_buffer_pop_send b).0,
        direct_host_message_slow_send bytes sizeof (host_message_buffer_pop_send b).1,
      )
  unfolding host_message_slow_pop_send host_message_buffer_pop_send direct_host_message_slow_send
  slow_pop_lem b = refl

  abbrev popped : HostBuffer → HostBuffer
  popped b = (host_message_buffer_pop_send b).0

  abbrev Drained : ℕ → HostBuffer → Type 0
  Drained fuel b =
      (b' : HostBuffer) × (drain_loop bytes sizeof fuel b ≡ some (b', frames (contents b)))
      × IsHostBuffer b'
      × (host_msg_buffer_size b' ≡ 0)
