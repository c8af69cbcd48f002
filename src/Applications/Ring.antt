-- ===== src/Applications/Ring.antt =====
-- src/applications/ring: a token goes round a ring of devices and grows with every hop.
pub mod Token
pub mod Rounds
pub mod Wires
pub mod Tests
use toy_softswitch.Prelude.{ℕ, Bool, true, Option, none, [], ◌∷◌, ◌==◌, if◌then◌else◌, add32}
use toy_softswitch.Context.{App, Address, DeviceTypeVTable, DeviceContext, PThreadContext}
use toy_softswitch.Applications.{new_device, new_thread}

pub record GraphProps : Type 0 where
  pub increment : ℕ

pub record TokenMsg : Type 0 where
  pub count : ℕ

pub record DevState : Type 0 where
  pub count : ℕ

abbrev pub ring_app : App
ring_app = record {
  GraphProps = GraphProps;
  DevProps = Unit;
  DevState = DevState;
  EdgeProps = Unit;
  EdgeState = Unit;
  Payload = TokenMsg;
}

-- OUTPUT_FLAG_dev_out.
abbrev output_flag_dev_out : ℕ
output_flag_dev_out = 1

abbrev pub dev_ready_to_send_handler : GraphProps → Unit {0} → DevState → DevState × ℕ
dev_ready_to_send_handler g p s = (s, if s.count == 0 then 0 else output_flag_dev_out)

abbrev pub dev_in_receive_handler :
    GraphProps
    → Unit {0}
    → DevState
    → Option (Unit {0})
    → Option (Unit {0})
    → TokenMsg
    → DevState × Option (Unit {0})
dev_in_receive_handler g p s edge_props edge_state msg = (record { count = msg.count }, edge_state)

abbrev pub dev_out_send_handler :
    GraphProps → Unit {0} → DevState → TokenMsg → DevState × TokenMsg × Bool
dev_out_send_handler g p s msg =
    (record { count = 0 }, record { count = add32 s.count g.increment }, true)

-- `sizeof` a packet with a token: two addresses of 8 bytes and the count of 4.
abbrev pub dev_vtable : DeviceTypeVTable ring_app
dev_vtable = record {
  init_handler = λ g p s. s;
  ready_to_send_handler = dev_ready_to_send_handler;
  output_pins =
      (record {
        send_handler = dev_out_send_handler;
        message_size = 20;
        is_app = 0;
        message_type_numid = 0;
      })
      ∷ [];
  num_inputs = 1;
  input_pins =
      (record {
        receive_handler = dev_in_receive_handler;
        message_size = 20;
        properties_size = 0;
        state_size = 0;
      })
      ∷ [];
  compute_handler = none;
  on_hardware_idle_handler = none;
}

-- The input pin of device `d` of thread `t`.
abbrev pub input_of : ℕ → ℕ → Address
input_of t d = record { thread = t; device = d; pin = 0 }

abbrev pub ring_device : ℕ → ℕ → Address → DeviceContext ring_app
ring_device index count out =
    new_device dev_vtable tt (record { count = count }) index
      ((record { num_targets = 1; targets = out ∷ [] }) ∷ [])
      ((record { num_sources = 0; source_bindings = [] }) ∷ [])

abbrev pub inst0_props : GraphProps
inst0_props = record { increment = 2 }

-- ring_dev2_threads1.cpp: both devices on thread 0, and both with device index 0.
abbrev pub dev2_threads1 : PThreadContext ring_app
dev2_threads1 =
    new_thread 0 inst0_props 2
      λ i. if i == 0 then ring_device 0 1 (input_of 0 1) else ring_device 0 0 (input_of 0 0)

-- ring_dev2_threads2.cpp: one device on each of two threads.
abbrev pub dev2_threads2 : ℕ → PThreadContext ring_app
dev2_threads2 thread =
    new_thread thread inst0_props 1
      λ i. if thread == 0 then ring_device 0 1 (input_of 1 0) else ring_device 0 0 (input_of 0 0)

-- ring_dev4_threads2.cpp: two devices on each of two threads. Every context there has device index 0,
-- the second of a thread too.
abbrev pub dev4_threads2 : ℕ → PThreadContext ring_app
dev4_threads2 thread = new_thread thread inst0_props 2 λ i.
    if thread == 0
    then if i == 0 then ring_device 0 1 (input_of 0 1) else ring_device 0 0 (input_of 1 0)
    else if i == 0
    then ring_device 0 0 (input_of 1 1)
    else ring_device 0 0 (input_of 0 0)
