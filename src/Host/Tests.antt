-- ===== src/Host/Tests.antt =====
-- Messages that wait across the end of the buffer, and a buffer that is full.
use toy_softswitch.Prelude.{
  ℕ, ◌+◌, ◌%◌, ◌<◌, ◌≤◌, ◌-◌, ◌%◌, ◌≡◌, ◌≢◌, refl, List, [], ◌∷◌, ◌++◌, arith,
}
use toy_softswitch.Context.Host.{HostMsg, Counters}
use toy_softswitch.Host.{
  host_msg_buffer_size, host_msg_buffer_space, host_msg_buffer_push, host_message_buffer_pop_send,
}
use toy_softswitch.Host.Queue.{
  IsHostBuffer, contents, index_after, host_msg_buffer_size-steps, host_msg_buffer_push-contents,
  host_msg_buffer_push-overflow, host_message_buffer_pop_send-contents,
}
use toy_softswitch.Applications.{no_counts}
use toy_softswitch.Context.{PThreadContext}
use toy_softswitch.Host.Log.{Names}
use toy_softswitch.Applications.EdgeProps.{edge_props_app, dev4_threads1}
use toy_softswitch.Examples.{
  host_msg_of, two_waiting, two_waiting-IsHostBuffer, full_buffer, full_buffer-IsHostBuffer,
}

-- A message goes over the UART as its thread and its type.
abbrev two_bytes : HostMsg → List ℕ
two_bytes m = m.thread ∷ m.type ∷ []

host_msg_buffer_size-steps_example :
    (index_after two_waiting.hbuf_head (host_msg_buffer_size two_waiting) ≡ two_waiting.hbuf_tail)
    × ((k : ℕ)
        → index_after two_waiting.hbuf_head k ≡ two_waiting.hbuf_tail
        → host_msg_buffer_size two_waiting ≤ k)
    × (host_msg_buffer_size two_waiting < 40)
    × (host_msg_buffer_space two_waiting ≡ 40 - host_msg_buffer_size two_waiting)
    × (host_msg_buffer_space two_waiting ≢ 0)
host_msg_buffer_size-steps_example = host_msg_buffer_size-steps two_waiting two_waiting-IsHostBuffer

host_msg_buffer_push-contents_example :
    IsHostBuffer (host_msg_buffer_push two_waiting (host_msg_of 7))
    × (contents (host_msg_buffer_push two_waiting (host_msg_of 7))
        ≡ contents two_waiting ++ host_msg_of 7 ∷ [])
unfolding host_msg_buffer_size
host_msg_buffer_push-contents_example =
    host_msg_buffer_push-contents two_waiting (host_msg_of 7) two_waiting-IsHostBuffer (omega arith)

host_msg_buffer_push-overflow_example :
    contents (host_msg_buffer_push full_buffer (host_msg_of 7)) ≡ []
unfolding host_msg_buffer_size
host_msg_buffer_push-overflow_example =
    host_msg_buffer_push-overflow full_buffer (host_msg_of 7) full_buffer-IsHostBuffer refl

host_message_buffer_pop_send-contents_example :
    IsHostBuffer (host_message_buffer_pop_send two_waiting).0
    × (contents two_waiting
        ≡ (host_message_buffer_pop_send two_waiting).1
          ∷ contents (host_message_buffer_pop_send two_waiting).0)
unfolding host_msg_buffer_size
host_message_buffer_pop_send-contents_example =
    host_message_buffer_pop_send-contents two_waiting two_waiting-IsHostBuffer (omega arith)

abbrev some_counts : Counters
some_counts = record no_counts { thread_cycles = 100; send_cycles = 30; idle_cycles = 70 }

-- A receive handler on the inner device of edge_props logs two values.
abbrev names : Names edge_props_app
names = record { input_pin = λ p. 700; output_pin = λ p. 800; device = λ d. 900 + d.index }

abbrev in_handler : PThreadContext edge_props_app
in_handler = record dev4_threads1 {
  current_device = 3;
  current_handler_type = 1;
  current_pin = 0;
  host = two_waiting;
}
