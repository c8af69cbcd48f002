-- ===== src/Applications/Barrier/Tests.antt =====
-- A barrier of one device that takes one step, and the barrier of barrier_dev3_threads2.cpp on its threads.
use toy_softswitch.Prelude.{
  ℕ, false, ◌+◌, ◌*◌, ◌<◌, ◌≤◌, ◌≡◌, refl, true, some, [], ◌∷◌, arith, ◌==◌, Yields, inl, inr,
  Bool-cases,
}
use toy_softswitch.Context.{PThreadContext, OutputPinTargets}
use toy_softswitch.Rts.{any_ready}
use toy_softswitch.Rts.Queue.{unlinked}
use toy_softswitch.Rts.Update.{Tracks, requeue}
use toy_softswitch.Send.{Packet, Buffer, softswitch_on_send}
use toy_softswitch.Send.Popped.{rotated}
use toy_softswitch.Receive.{softswitch_on_receive}
use toy_softswitch.Applications.Barrier.{
  GraphProps, TickMsg, State, Msg, barrier_app, dev_ready_to_send_handler, dev_in_receive_handler,
  dev_out_send_handler, dev_halt_send_handler, input_of, start_state,
}
use toy_softswitch.Applications.Barrier.Network.{
  System, Step, Run, start, send_tick, receive_tick, send_done, receive_done,
}
use toy_softswitch.Applications.Barrier.InStep.{InStep, Run-InStep}
use toy_softswitch.Applications.Barrier.Progress.{Run-length}
use toy_softswitch.Applications.Barrier.Halting.{out_ready, IsQuiet, Run-ends}
use toy_softswitch.Applications.Barrier.OnThread.{
  softswitch_on_receive-tick, softswitch_on_send-tick,
}
use toy_softswitch.Applications.Barrier.Dev3.{inst0_props, dev0_out_addresses, dev3_threads2}

abbrev one_step : GraphProps
one_step = record { max_time = 1; dev_count = 1 }

abbrev tick : TickMsg
tick = record { t = 1 }

-- The device sends, has its own tick and halts, and the halt device sees it.
abbrev sent : System
sent = send_tick (start one_step) 0

abbrev ended : System
ended = receive_done (send_done (receive_tick sent 0 tick) 0)

sent-Run : Run one_step 1 sent
sent-Run =
    Run.next Run.here (Step.dev_out 0 (omega arith) (out_ready one_step _ (omega arith) refl))

ended-Run : Run one_step 4 ended
unfolding dev_ready_to_send_handler dev_in_receive_handler dev_out_send_handler
    dev_halt_send_handler
ended-Run =
    Run.next
      (Run.next (Run.next sent-Run (Step.dev_in 0 tick (omega arith) (omega arith)))
        (Step.halt_out 0 (omega arith) refl))
      (Step.halt_in (omega arith))

one-IsQuiet :
    (s : System)
    → dev_ready_to_send_handler one_step (s.devs 0) ≡ 0
    → ((m : ℕ) → s.ticks 0 m ≡ 0)
    → s.dones ≡ 0
    → IsQuiet one_step s
one-IsQuiet s idle drained over u (Step.dev_out i hi ready) = ground arith
one-IsQuiet s idle drained over u (Step.dev_in j msg hj coming) = ground (arith, drained msg.t)
one-IsQuiet s idle drained over u (Step.halt_out i hi ready) = ground arith
one-IsQuiet s idle drained over u (Step.halt_in coming) = omega arith

ended-IsQuiet : IsQuiet one_step ended
unfolding dev_ready_to_send_handler dev_in_receive_handler dev_out_send_handler
    dev_halt_send_handler
ended-IsQuiet = one-IsQuiet ended refl (λ m. ground arith) refl

Run-InStep_example : InStep one_step sent 0
Run-InStep_example = Run-InStep one_step 1 sent (omega arith) (omega arith) sent-Run 0 (omega arith)

Run-length_example : 1 ≤ 1 * (1 * (1 + 1) + 2)
Run-length_example = Run-length one_step 1 sent (omega arith) (omega arith) sent-Run

Run-ends_example :
    ((j : ℕ) → j < 1 → ((ended.devs j).t ≡ 1) × ((ended.devs j).halted ≡ true))
    × (ended.halt.seen ≡ 1)
    × (4 ≡ one_step.dev_count * (one_step.max_time * (one_step.dev_count + 1) + 2))
Run-ends_example = Run-ends one_step 4 ended (omega arith) (omega arith) ended-Run ended-IsQuiet

-- Thread 1 of the instance of three devices, where nothing is ready yet.
first_thread : Tracks (dev3_threads2 1) []
first_thread = record {
  list = record { forward = refl; backward = tt; tail = refl; distinct = tt; bounded = tt };
  ready = λ i h. elim (Bool-cases (i == 0)) [ inl at ↦ rw at refl | inr off ↦ rw off refl ];
}

abbrev tick_packet : Packet barrier_app
tick_packet = record {
  dest = input_of 1 0;
  source = input_of 0 0;
  size = 20;
  payload = Msg.tick_msg tick;
}

softswitch_on_receive-tick_example :
    Yields (softswitch_on_receive (dev3_threads2 1) tick_packet) (λ c'.
      ((c'.devices 0).state ≡ State.dev_state (dev_in_receive_handler (start_state 2) tick))
      × Tracks c' (
          requeue
            (any_ready
              (dev_ready_to_send_handler inst0_props (dev_in_receive_handler (start_state 2) tick)))
            0
            [])
      × ((j : ℕ)
          → (j == 0) ≡ false
          → unlinked (c'.devices j) ≡ unlinked ((dev3_threads2 1).devices j)))
softswitch_on_receive-tick_example =
    softswitch_on_receive-tick (dev3_threads2 1) tick_packet (start_state 2) tick [] first_thread
      (omega arith) refl refl refl refl refl

-- Thread 0, whose one device is on the list.
abbrev waiting : PThreadContext barrier_app
waiting = record (dev3_threads2 0) {
  devices = λ i. record ((dev3_threads2 0).devices i) { rts_flags = 1 };
  rts_head = some 0;
  rts_tail = some 0;
}

waiting-Tracks : Tracks waiting (0 ∷ [])
waiting-Tracks = record {
  list = record {
    forward = (refl, refl);
    backward = (refl, tt);
    tail = refl;
    distinct = (refl, tt);
    bounded = (omega arith, tt);
  };
  ready = λ i h. ground arith;
}

abbrev to_all : OutputPinTargets
to_all = record { num_targets = 2; targets = dev0_out_addresses }

abbrev buffer : Buffer barrier_app
buffer = record {
  packet = tick_packet;
  host_msg = record { source = input_of 0 0; size = 0; type = 0; payload = Msg.done_msg };
}

softswitch_on_send-tick_example : Yields (softswitch_on_send waiting buffer 0) (λ r.
    (r.num_targets ≡ 2)
    × (r.targets ≡ some dev0_out_addresses)
    × (r.message.packet.payload ≡ Msg.tick_msg (dev_out_send_handler (start_state 2)).1)
    × ((r.context.devices 0).state ≡ State.dev_state (dev_out_send_handler (start_state 2)).0)
    × Tracks r.context (
        rotated
          (any_ready
            (dev_ready_to_send_handler inst0_props (dev_out_send_handler (start_state 2)).0))
          0
          []))
softswitch_on_send-tick_example =
    softswitch_on_send-tick waiting 0 [] (start_state 2) to_all buffer 0 waiting-Tracks refl refl
      refl refl
