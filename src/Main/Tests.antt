-- ===== src/Main/Tests.antt =====
-- Rounds of the loop on the ring.
use toy_softswitch.Prelude.{
  Yields, inl, ◌≤◌, ◌≡◌, refl, true, false, some, List, [], ◌∷◌, ◌++◌, arith, map,
}
use toy_softswitch.Context.{Address}
use toy_softswitch.Context.Host.{HostMsg, HostBuffer}
use toy_softswitch.Receive.{softswitch_on_receive}
use toy_softswitch.Receive.Delivery.{softswitch_on_receive_external}
use toy_softswitch.Host.{host_msg_buffer_size, host_msg_buffer_space}
use toy_softswitch.Host.Queue.{IsHostBuffer, contents}
use toy_softswitch.Main.{
  Config, Hardware, Locals, Output, with_host, packet_to, make_room, main_round,
}
use toy_softswitch.Main.Room.{slowly, make_room-adequate}
use toy_softswitch.Main.Forward.{owed, IsForwarding, send_rounds, send_rounds-owed}
use toy_softswitch.Main.Branches.{IsDefault, main_round-forwards}
use toy_softswitch.Main.Idling.{idle_calls, Settled, idle_calls-Settled}
use toy_softswitch.Main.Message.{IsLoop}
use toy_softswitch.Main.Invariant.{main_round-IsLoop}
use toy_softswitch.Applications.Ring.{ring_app, input_of}
use toy_softswitch.Examples.{
  counting, busy, quiet, empty_buffer, two_waiting, full_buffer, full_buffer-IsHostBuffer,
}
use toy_softswitch.Examples.Sound.{busy-IsThread, counting-IsThread}

abbrev pub default_build : Config
default_build = record {
  enable_intra_thread_send = false;
  enable_send_over_recv = false;
  enable_hardware_idle = true;
  this_thread_id = 0;
  bytes = λ m. m.thread ∷ m.type ∷ [];
  sizeof_host_msg = 2;
}

default_build-IsDefault : IsDefault default_build
default_build-IsDefault = record { no_intra = refl; recv_first = refl }

-- The mailbox can send, and has nothing to receive.
abbrev pub can_only_send : Hardware ring_app
can_only_send = record {
  can_recv = false;
  can_send = true;
  idle = false;
  woken_can_recv = false;
  woken_can_send = true;
  incoming = empty_buffer.packet;
}

-- A packet waits.
abbrev can_receive : Hardware ring_app
can_receive = record can_only_send { can_recv = true; woken_can_recv = true }

-- A message is to go to two devices on other threads.
abbrev two_targets : List Address
two_targets = input_of 3 0 ∷ input_of 4 1 ∷ []

abbrev sending : Locals ring_app
sending = record {
  ctxt = quiet;
  send_buffer = empty_buffer;
  curr_send_address_list = some two_targets;
  curr_send_todo = 2;
  curr_size = 20;
  is_app = 0;
}

sending-IsForwarding : IsForwarding sending two_targets
sending-IsForwarding = record { todo = refl; normal = refl; rest = []; targets = refl }

quiet-IsHostBuffer : IsHostBuffer quiet.host
quiet-IsHostBuffer = record { head = omega arith; tail = omega arith }

-- Device 0 belongs to another program: its packets are dropped.
abbrev dropping : Locals ring_app
dropping = record sending {
  ctxt = record quiet { devices = λ i. record (quiet.devices i) { is_external = 1 } };
}

dropped : softswitch_on_receive dropping.ctxt empty_buffer.packet ≡ some dropping.ctxt
dropped =
    softswitch_on_receive_external dropping.ctxt empty_buffer.packet (omega arith)
      (λ e. omega arith)

make_room-adequate_example :
    (b' : HostBuffer) × (ms : List HostMsg) × (make_room {A = ring_app} default_build full_buffer
      ≡ some (b', map (slowly default_build) ms))
    × IsHostBuffer b'
    × (2 ≤ host_msg_buffer_space b')
    × (contents full_buffer ≡ ms ++ contents b')
make_room-adequate_example = make_room-adequate default_build full_buffer full_buffer-IsHostBuffer

send_rounds-owed_example :
    (l' : Locals ring_app) × (send_rounds 2 default_build sending
      ≡ some (l', owed sending two_targets))
    × (l'.curr_send_todo ≡ 0)
    × (l'.ctxt ≡ quiet)
send_rounds-owed_example =
    send_rounds-owed default_build two_targets sending refl sending-IsForwarding

abbrev reporting : Locals ring_app
reporting = record sending { ctxt = with_host quiet two_waiting }

main_round-forwards_example :
    (l' : Locals ring_app) × (main_round default_build can_only_send sending
      ≡ some (l', Output.to_thread 3 (packet_to sending (input_of 3 0)) 20 ∷ []))
    × IsForwarding l' (input_of 4 1 ∷ [])
    × (l'.ctxt ≡ quiet)
unfolding host_msg_buffer_size
main_round-forwards_example =
    main_round-forwards default_build can_only_send sending (input_of 3 0) (input_of 4 1 ∷ [])
      default_build-IsDefault quiet-IsHostBuffer refl sending-IsForwarding refl refl

abbrev preparing : Locals ring_app
preparing = record sending { ctxt = busy; curr_send_todo = 0 }

main_round-IsLoop_example :
    Yields (main_round default_build can_only_send preparing) (λ x. IsLoop x.0)
main_round-IsLoop_example =
    main_round-IsLoop default_build can_only_send preparing (inl refl) (λ e. absurd cc)
      (record { thread = busy-IsThread; sending = inl refl }) (λ e. absurd cc)

idle_calls-Settled_example : Yields (idle_calls 2 counting) (Settled counting)
idle_calls-Settled_example = idle_calls-Settled 1 counting counting-IsThread (omega arith)
