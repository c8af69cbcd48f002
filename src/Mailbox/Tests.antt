-- ===== src/Mailbox/Tests.antt =====
-- A mailbox of four slots of four words each.
use toy_softswitch.Prelude.{ℕ, refl, true, false, arith, update, ltb, if◌then◌else◌, Yields, ◌==◌}
use toy_softswitch.Mailbox.{
  MsgStatus, TinselMbox, Message, check_slots, init, find_slot, mbox_alloc, net_push_message,
}
use toy_softswitch.Mailbox.Invariant.{IsMbox}
use toy_softswitch.Mailbox.Network.{Pushed, net_push_message-Pushed}
use toy_softswitch.Mailbox.Calls.{Call, Reply, calls, Effect}
use toy_softswitch.Mailbox.Protocol.{Reachable, IsSafe, Reachable-calls}

-- Slot 1 is empty, slot 2 is full, slot 3 is being sent, and the rest is the software's.
abbrev status_of : ℕ → MsgStatus
status_of i =
    if i == 1
    then MsgStatus.hardware_empty
    else if i == 2
    then MsgStatus.hardware_full
    else if i == 3
    then MsgStatus.hardware_send
    else MsgStatus.software_owned

abbrev at_work : TinselMbox
at_work = record {
  my_thread_id = 7;
  slots = λ i. record { status = status_of i; buffer = λ j. i };
  num_slots_empty = 1;
  num_slots_full = 1;
  send_active = true;
  send_address = 9;
  send_slot = 3;
  send_length = 16;
}

at_work-IsMbox : IsMbox 4 at_work
at_work-IsMbox = record {
  fits = omega arith;
  empty = refl;
  full = refl;
  sending = λ e. omega arith;
  sole = λ i h. ground arith;
}

-- The same without a send in progress.
abbrev at_rest : TinselMbox
at_rest = record at_work {
  send_active = false;
  slots = λ i. record {
    status =
        if i == 1
        then MsgStatus.hardware_empty
        else if i == 2
        then MsgStatus.hardware_full
        else MsgStatus.software_owned;
    buffer = λ j. i;
  };
}

at_rest-IsMbox : IsMbox 4 at_rest
at_rest-IsMbox = record {
  fits = omega arith;
  empty = refl;
  full = refl;
  sending = λ e. absurd cc;
  sole = λ i h. ground arith;
}

abbrev to_me : Message
to_me = record { thread = 7; length = 8; data_at = λ i. 5 }

net_push_message-Pushed_example :
    Yields (net_push_message 4 4 at_work 2 to_me false) (Pushed 4 4 at_work to_me)
net_push_message-Pushed_example =
    net_push_message-Pushed 4 4 at_work 2 to_me false at_work-IsMbox (omega arith) refl
      (omega arith)

-- The constructor, then a slot for the network, then a message.
abbrev new_mbox : TinselMbox
new_mbox = record at_rest {
  num_slots_empty = 0;
  num_slots_full = 0;
  slots = λ i.
      if ltb i 4
      then record (at_rest.slots i) { status = MsgStatus.software_owned }
      else at_rest.slots i;
}

abbrev with_slot : TinselMbox
with_slot = record new_mbox {
  num_slots_empty = 1;
  slots = update new_mbox.slots 2 (record (new_mbox.slots 2) { status = MsgStatus.hardware_empty });
}

with_slot-Reachable : Reachable 4 4 with_slot
unfolding init mbox_alloc check_slots find_slot calls
with_slot-Reachable =
    Reachable.called new_mbox with_slot (Call.alloc 2) Reply.nothing
      (Reachable.started at_rest new_mbox 7 refl) (omega arith, refl) refl

-- Slot 2 gets the message.
Reachable-calls_example :
    ((t : ℕ) (m₀ : TinselMbox) → Yields (init 4 t m₀) (λ m'. Reachable 4 4 m' × IsSafe 4 m'))
    × IsSafe 4 with_slot
    × Yields
        (calls 4 4 with_slot (Call.push 3 to_me true))
        (λ x. Reachable 4 4 x.0 × IsSafe 4 x.0 × Effect 4 4 with_slot (Call.push 3 to_me true) x)
Reachable-calls_example =
    Reachable-calls 4 4 with_slot (Call.push 3 to_me true) (omega arith) with_slot-Reachable
      (omega arith, refl, omega arith)
