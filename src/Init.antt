-- ===== src/Init.antt =====
-- src/softswitch/softswitch_init.cpp: every device is initialised, polled, and queued if it is ready.
pub mod Order
pub mod Perf
pub mod Wires
pub mod Tests
use toy_softswitch.Prelude.{
  ℕ, zero, ◌+◌, Bool, Option, none, some, ltb, ◌==◌, if◌then◌else◌, ◌>>=◌, update,
}
use toy_softswitch.Context.{App, DeviceContext, PThreadContext, load, store}
use toy_softswitch.Rts.{any_ready, rts_append}
use toy_softswitch.Devices.{each_device}

module _ {A : App} where
  -- The init handler, and then the ready-to-send handler, of one device.
  unfoldable pub initialised : A.GraphProps → DeviceContext A → DeviceContext A
  initialised g dev =
      let state = dev.vtable.init_handler g dev.properties dev.state in
      let (state', flags) = dev.vtable.ready_to_send_handler g dev.properties state in
      record dev { state = state'; rts_flags = flags }

  -- One round of the loop; handler type 4 marks the init handler.
  pub init_device : PThreadContext A → ℕ → Option (PThreadContext A)
  unfolding initialised
  init_device c i = do
    dev ← load c i
    let c = record c { current_device = i; current_handler_type = 4 }
    let dev = initialised c.graph_props dev
    let c = store c i dev
    if any_ready dev.rts_flags then rts_append c i else some c

  pub softswitch_init : PThreadContext A → Option (PThreadContext A)
  unfolding init_device
  softswitch_init c =
      each_device init_device c.num_devices 0 (record c { rts_head = none; rts_tail = none })
