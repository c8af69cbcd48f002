-- ===== src/Simulator/Tests.antt =====
-- Thread 7 sends a message to thread 9.
use toy_softswitch.Prelude.{
  ℕ, refl, ◌≡◌, some, true, List, [], ◌∷◌, arith, if◌then◌else◌, Yields, ◌==◌,
}
use toy_softswitch.Mailbox.{MsgStatus, TinselMbox}
use toy_softswitch.Mailbox.Invariant.{IsMbox}
use toy_softswitch.Simulator.{socket_path, unix_outgoing, unix_incoming}
use toy_softswitch.Simulator.Paths.{path_in}
use toy_softswitch.Simulator.Delivery.{OnUnix, unix_outgoing-OnUnix}

abbrev status_of : ℕ → MsgStatus
status_of i =
    if i == 1
    then MsgStatus.hardware_empty
    else if i == 3
    then MsgStatus.hardware_send
    else MsgStatus.software_owned

-- The first two bytes of a message here are the thread that it goes to and the one that it is from.
abbrev sender : TinselMbox
sender = record {
  my_thread_id = 7;
  slots = λ i. record { status = status_of i; buffer = λ j. if j == 0 then 9 else 7 };
  num_slots_empty = 1;
  num_slots_full = 0;
  send_active = true;
  send_address = 9;
  send_slot = 3;
  send_length = 16;
}

sender-IsMbox : IsMbox 16 sender
sender-IsMbox = record {
  fits = omega arith;
  empty = refl;
  full = refl;
  sending = λ e. omega arith;
  sole = λ i h. ground arith;
}

abbrev receiver : TinselMbox
receiver = record sender { my_thread_id = 9; send_address = 7 }

receiver-IsMbox : IsMbox 16 receiver
receiver-IsMbox = record {
  fits = omega arith;
  empty = refl;
  full = refl;
  sending = λ e. omega arith;
  sole = λ i h. ground arith;
}

abbrev first : (ℕ → ℕ) → ℕ
first buffer = buffer 0

abbrev second : (ℕ → ℕ) → ℕ
second buffer = buffer 1

-- "/t".
abbrev dir : List ℕ
dir = 47 ∷ 116 ∷ []

-- Nothing was in the buffers.
abbrev blank : ℕ → ℕ
blank k = 0

unix_outgoing-OnUnix_example :
    (socket_path dir 9 ≡ some (path_in dir 9))
    × Yields
        (unix_outgoing dir sender blank)
        (OnUnix sender receiver (path_in dir 9) (unix_incoming first second receiver blank 2))
unix_outgoing-OnUnix_example =
    unix_outgoing-OnUnix first second 2 (λ f g same. same 0 (omega arith)) sender receiver blank
      blank 2 sender-IsMbox receiver-IsMbox refl (omega arith) (omega arith) (omega arith) refl refl
      dir refl (omega arith)
