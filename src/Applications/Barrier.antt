-- ===== src/Applications/Barrier.antt =====
-- src/applications/barrier: devices that step together, each step after a message from every device,
-- and a device that counts those that have halted. Logs are left out.
pub mod Dev3
pub mod Dev5
pub mod Count
pub mod OnThread
pub mod Network
pub mod Ledger
pub mod Steps
pub mod Work
pub mod InStep
pub mod Progress
pub mod Halting
pub mod Tests
use Prim.Native.Nat.{bit_or}
use toy_softswitch.Prelude.{
  ℕ, ◌+◌, Bool, true, false, not, ◌&&◌, ◌||◌, Option, none, List, [], ◌∷◌, ltb, ◌==◌, if◌then◌else◌,
  add32,
}
use toy_softswitch.Context.{
  App, Address, DeviceTypeVTable, InputPinSources, OutputPinTargets, DeviceContext,
}
use toy_softswitch.Applications.{new_device}

pub record GraphProps : Type 0 where
  pub max_time : ℕ
  pub dev_count : ℕ

pub record TickMsg : Type 0 where
  pub t : ℕ

pub record DevState : Type 0 where
  pub t : ℕ
  pub seen_now : ℕ
  pub seen_next : ℕ
  pub halted : Bool

pub record HaltState : Type 0 where
  pub seen : ℕ

-- OUTPUT_FLAG_dev_out and OUTPUT_FLAG_halt_out.
abbrev pub output_flag_dev_out : ℕ
output_flag_dev_out = 1

abbrev pub output_flag_halt_out : ℕ
output_flag_halt_out = 2

pub dev_ready_to_send_handler : GraphProps → DevState → ℕ
dev_ready_to_send_handler g d =
    let still_going = ltb d.t g.max_time in
    let current_full = d.seen_now == g.dev_count in
    bit_or (if still_going && current_full then output_flag_dev_out else 0)
      (if not still_going && not d.halted then output_flag_halt_out else 0)

-- With assertions compiled out, a tick of another time is dropped.
pub dev_in_receive_handler : DevState → TickMsg → DevState
dev_in_receive_handler d msg =
    if msg.t == d.t
    then record d { seen_now = add32 d.seen_now 1 }
    else if msg.t == add32 d.t 1
    then record d { seen_next = add32 d.seen_next 1 }
    else d

-- Whether the receive handler gets past its `assert(0)`.
pub dev_in_asserts : DevState → TickMsg → Bool
dev_in_asserts d msg = (msg.t == d.t) || (msg.t == add32 d.t 1)

pub dev_out_send_handler : DevState → DevState × TickMsg
dev_out_send_handler d =
    let now = add32 d.t 1 in
    (record d { t = now; seen_now = d.seen_next; seen_next = 0 }, record { t = now })

-- Whether the assertions of the send handler hold.
pub dev_out_asserts : GraphProps → DevState → Bool
dev_out_asserts g d = ltb d.t g.max_time && (d.seen_now == g.dev_count)

pub dev_halt_send_handler : DevState → DevState
dev_halt_send_handler d = record d { halted = true }

pub halt_ready_to_send_handler : HaltState → ℕ
halt_ready_to_send_handler h = 0

pub halt_in_receive_handler : HaltState → HaltState
halt_in_receive_handler h = record { seen = add32 h.seen 1 }

-- Both device types behind the `void *` pointers of the softswitch.
pub data State : Type 0 where
  dev_state : DevState → State
  halt_state : HaltState → State

pub data Msg : Type 0 where
  tick_msg : TickMsg → Msg
  done_msg : Msg

abbrev pub barrier_app : App
barrier_app = record {
  GraphProps = GraphProps;
  DevProps = Unit;
  DevState = State;
  EdgeProps = Unit;
  EdgeState = Unit;
  Payload = Msg;
}

-- A handler is called on its own type's state and message only; on another it does nothing.
abbrev dev_rts : GraphProps → Unit {0} → State → State × ℕ
dev_rts g p (State.dev_state d) = (State.dev_state d, dev_ready_to_send_handler g d)
dev_rts g p (State.halt_state h) = (State.halt_state h, 0)

abbrev dev_in :
    GraphProps
    → Unit {0}
    → State
    → Option (Unit {0})
    → Option (Unit {0})
    → Msg
    → State × Option (Unit {0})
dev_in g p (State.dev_state d) e edge_state (Msg.tick_msg m) =
    (State.dev_state (dev_in_receive_handler d m), edge_state)
dev_in g p s e edge_state m = (s, edge_state)

abbrev dev_out : GraphProps → Unit {0} → State → Msg → State × Msg × Bool
dev_out g p (State.dev_state d) m =
    let (d', tick) = dev_out_send_handler d in (State.dev_state d', Msg.tick_msg tick, true)
dev_out g p (State.halt_state h) m = (State.halt_state h, m, true)

abbrev dev_halt : GraphProps → Unit {0} → State → Msg → State × Msg × Bool
dev_halt g p (State.dev_state d) m = (State.dev_state (dev_halt_send_handler d), Msg.done_msg, true)
dev_halt g p (State.halt_state h) m = (State.halt_state h, m, true)

abbrev halt_rts : GraphProps → Unit {0} → State → State × ℕ
halt_rts g p (State.halt_state h) = (State.halt_state h, halt_ready_to_send_handler h)
halt_rts g p (State.dev_state d) = (State.dev_state d, 0)

abbrev halt_in :
    GraphProps
    → Unit {0}
    → State
    → Option (Unit {0})
    → Option (Unit {0})
    → Msg
    → State × Option (Unit {0})
halt_in g p (State.halt_state h) e edge_state m =
    (State.halt_state (halt_in_receive_handler h), edge_state)
halt_in g p (State.dev_state d) e edge_state m = (State.dev_state d, edge_state)

-- DEVICE_TYPE_VTABLES + DEVICE_TYPE_INDEX_dev. A packet is two addresses of 8 bytes and the message,
-- and an empty message has a `sizeof` of 1.
abbrev pub dev_vtable : DeviceTypeVTable barrier_app
unfolding dev_ready_to_send_handler dev_in_receive_handler dev_out_send_handler
    dev_halt_send_handler
dev_vtable = record {
  init_handler = λ g p s. s;
  ready_to_send_handler = dev_rts;
  output_pins =
      (record { send_handler = dev_out; message_size = 20; is_app = 0; message_type_numid = 0 })
      ∷ (record { send_handler = dev_halt; message_size = 17; is_app = 0; message_type_numid = 0 })
      ∷ [];
  num_inputs = 1;
  input_pins =
      (record { receive_handler = dev_in; message_size = 20; properties_size = 0; state_size = 0 })
      ∷ [];
  compute_handler = none;
  on_hardware_idle_handler = none;
}

-- DEVICE_TYPE_VTABLES + DEVICE_TYPE_INDEX_halt.
abbrev pub halt_vtable : DeviceTypeVTable barrier_app
unfolding halt_ready_to_send_handler halt_in_receive_handler
halt_vtable = record {
  init_handler = λ g p s. s;
  ready_to_send_handler = halt_rts;
  output_pins = [];
  num_inputs = 1;
  input_pins =
      (record { receive_handler = halt_in; message_size = 20; properties_size = 0; state_size = 0 })
      ∷ [];
  compute_handler = none;
  on_hardware_idle_handler = none;
}

-- The initialiser of a `dev_state`: the first step waits for no message.
abbrev pub start_state : ℕ → DevState
start_state dev_count = record { t = 0; seen_now = dev_count; seen_next = 0; halted = false }

-- The input pin 0 of device `d` of thread `t`.
abbrev pub input_of : ℕ → ℕ → Address
input_of t d = record { thread = t; device = d; pin = 0 }

abbrev pub no_sources : List (InputPinSources barrier_app)
no_sources = (record { num_sources = 0; source_bindings = [] }) ∷ []

abbrev pub barrier_device : ℕ → ℕ → List OutputPinTargets → DeviceContext barrier_app
barrier_device dev_count index targets =
    new_device dev_vtable tt (State.dev_state (start_state dev_count)) index targets no_sources

abbrev pub halt_device : ℕ → DeviceContext barrier_app
halt_device index =
    new_device halt_vtable tt (State.halt_state (record { seen = 0 })) index [] no_sources
