-- ===== src/Examples.antt =====
-- Small contexts for the tests: the ring of ring_dev2_threads1.cpp in the course of its work, and a
-- device that computes.
pub mod Sound
use toy_softswitch.Prelude.{
  ℕ, ◌+◌, ◌^◌, refl, some, [], ◌∷◌, arith, ◌==◌, if◌then◌else◌, inl, inr, Bool-cases,
}
use toy_softswitch.Context.{DeviceTypeVTable, PThreadContext}
use toy_softswitch.Context.Host.{HostMsg, HostBuffer}
use toy_softswitch.Rts.Queue.{IsRts}
use toy_softswitch.Rts.Update.{Tracks}
use toy_softswitch.Send.{Buffer}
use toy_softswitch.Idle.Sweep.{IsSwept}
use toy_softswitch.Host.Queue.{IsHostBuffer}
use toy_softswitch.Applications.{new_thread}
use toy_softswitch.Applications.Ring.{
  ring_app, ring_device, input_of, inst0_props, dev_vtable, DevState, TokenMsg, GraphProps,
}

-- Device 0 holds the token and is on the list.
abbrev pub busy : PThreadContext ring_app
busy =
    record (new_thread 0 inst0_props 2 λ i.
      if i == 0
      then record (ring_device 0 1 (input_of 0 1)) { rts_flags = 1 }
      else ring_device 1 0 (input_of 0 0)) { rts_head = some 0; rts_tail = some 0 }

busy-IsRts : IsRts busy (0 ∷ [])
busy-IsRts = record {
  forward = (refl, refl);
  backward = (refl, tt);
  tail = refl;
  distinct = (refl, tt);
  bounded = (omega arith, tt);
}

pub busy-Tracks : Tracks busy (0 ∷ [])
busy-Tracks = record {
  list = busy-IsRts;
  ready = λ i h. elim (Bool-cases (i == 0)) [ inl here ↦ rw here refl | inr there ↦ rw there refl ];
}

-- Device 0 is on the list still, but has nothing to send any more.
abbrev pub spent : PThreadContext ring_app
spent =
    record (new_thread 0 inst0_props 2 λ i.
      if i == 0
      then record (ring_device 0 0 (input_of 0 1)) { rts_flags = 1 }
      else ring_device 1 0 (input_of 0 0)) { rts_head = some 0; rts_tail = some 0 }

pub spent-Tracks : Tracks spent (0 ∷ [])
spent-Tracks = record {
  list = record {
    forward = (refl, refl);
    backward = (refl, tt);
    tail = refl;
    distinct = (refl, tt);
    bounded = (omega arith, tt);
  };
  ready = λ i h. elim (Bool-cases (i == 0)) [ inl here ↦ rw here refl | inr there ↦ rw there refl ];
}

-- Nobody has anything to do.
abbrev pub quiet : PThreadContext ring_app
quiet = new_thread 0 inst0_props 2 λ i. ring_device i 0 (input_of 0 0)

quiet-Tracks : Tracks quiet []
quiet-Tracks = record {
  list = record { forward = refl; backward = tt; tail = refl; distinct = tt; bounded = tt };
  ready = λ i h. refl;
}

-- A device type that counts when it computes, and when the hardware is idle.
abbrev pub count_up : GraphProps → Unit {0} → DevState → DevState
count_up g p s = record { count = s.count + 1 }

abbrev pub counting_vtable : DeviceTypeVTable ring_app
counting_vtable = record dev_vtable {
  compute_handler = some count_up;
  on_hardware_idle_handler = some count_up;
}

-- Both devices want to compute.
abbrev pub counting : PThreadContext ring_app
counting =
    new_thread 0 inst0_props 2
      λ i. record (ring_device i 0 (input_of 0 0)) { vtable = counting_vtable; rts_flags = 2 ^ 31 }

pub counting-Tracks : Tracks counting []
counting-Tracks = record {
  list = record { forward = refl; backward = tt; tail = refl; distinct = tt; bounded = tt };
  ready = λ i h. refl;
}

pub counting-IsSwept : IsSwept counting
counting-IsSwept = record {
  offset = omega arith;
  few = omega arith;
  waiting = λ j h ne w. ground arith;
}

abbrev pub some_token : ℕ → TokenMsg
some_token n = record { count = n }

abbrev pub empty_buffer : Buffer ring_app
empty_buffer = record {
  packet = record { dest = input_of 0 0; source = input_of 0 0; size = 0; payload = some_token 0 };
  host_msg = record { source = input_of 0 0; size = 0; type = 0; payload = some_token 0 };
}

abbrev pub host_msg_of : ℕ → HostMsg
host_msg_of n = record { thread = n; device = 0; pin = 0; size = 0; type = 0; payload = λ i. 0 }

-- Two messages wait, across the end of the buffer.
abbrev pub two_waiting : HostBuffer
two_waiting = record { host_buffer = host_msg_of; hbuf_head = 39; hbuf_tail = 1 }

pub two_waiting-IsHostBuffer : IsHostBuffer two_waiting
two_waiting-IsHostBuffer = record { head = omega arith; tail = omega arith }

-- As many messages wait as there can be.
abbrev pub full_buffer : HostBuffer
full_buffer = record { host_buffer = host_msg_of; hbuf_head = 1; hbuf_tail = 0 }

pub full_buffer-IsHostBuffer : IsHostBuffer full_buffer
full_buffer-IsHostBuffer = record { head = omega arith; tail = omega arith }
