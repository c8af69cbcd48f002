-- ===== src/Idle.antt =====
-- src/softswitch/softswitch_on_idle.cpp and softswitch_on_hardware_idle.cpp: work for a thread that
-- has nothing to send or receive.
pub mod Sweep
pub mod Progress
pub mod Hardware
pub mod Asserts
pub mod Wires
pub mod Tests
use toy_softswitch.Prelude.{
  ℕ, zero, suc, ◌+◌, ◌%◌, ◌^◌, Bool, true, false, Option, none, some, leb, ltb, ◌==◌, if◌then◌else◌,
  ◌>>=◌, update,
}
use toy_softswitch.Context.{App, DeviceContext, PThreadContext, load, store}
use toy_softswitch.Rts.{wants_compute, softswitch_update_rts}
use toy_softswitch.Rts.Handler.{noted}
use toy_softswitch.Devices.{each_device}

-- `IDLE_SWEEP_CHUNK_SIZE`.
abbrev pub idle_sweep_chunk_size : ℕ
idle_sweep_chunk_size = 32

module _ {A : App} where
  -- The sweep moves to the next device, round the array, and counts it.
  unfoldable pub advance : PThreadContext A → PThreadContext A
  advance c =
      let offset = (c.rtc_offset + 1) % 2 ^ 32 in
      record c {
        rtc_offset = if leb c.num_devices offset then 0 else offset;
        rtc_checked = (c.rtc_checked + 1) % 2 ^ 32;
      }

  -- The loop over a chunk: the device that it stopped at, if one wants to compute.
  pub sweep : ℕ → PThreadContext A → Option (PThreadContext A × Option ℕ)
  unfolding advance
  sweep zero c = some (c, none)
  sweep (suc n) c = do
    dev ← load c c.rtc_offset
    let rest = sweep n (advance c)
    if wants_compute dev.rts_flags then some (advance c, some c.rtc_offset) else rest

  -- The compute handler runs, which must not be null, and the device is polled.
  pub compute : PThreadContext A → ℕ → Option (PThreadContext A)
  compute c i = do
    dev ← load c i
    handler ← dev.vtable.compute_handler
    softswitch_update_rts
        (store c i (record dev { state = handler c.graph_props dev.properties dev.state })) i

  -- After the loop: none was found, but there might still be one, or a device was found.
  unfoldable pub finish_idle : PThreadContext A → Option ℕ → Option (PThreadContext A × Bool)
  finish_idle c none = some (c, true)
  finish_idle c (some i) = do c ← compute c i; some (c, true)

  pub softswitch_on_idle : PThreadContext A → Option (PThreadContext A × Bool)
  softswitch_on_idle c =
      if leb c.num_devices c.rtc_checked
      then some (c, false)
      else do (c, found) ← sweep idle_sweep_chunk_size c; finish_idle c found

  -- The turn of a device; handler type 5 marks the hardware idle handler.
  unfoldable pub run_idle :
      PThreadContext A
      → ℕ
      → DeviceContext A
      → Option (A.GraphProps → A.DevProps → A.DevState → A.DevState)
      → Option (PThreadContext A)
  run_idle c i dev none = some c
  run_idle c i dev (some handler) =
      softswitch_update_rts
        (store (noted c i 5 c.current_pin) i
          (record dev { state = handler c.graph_props dev.properties dev.state }))
        i

  -- One round of the loop.
  pub idle_device : PThreadContext A → ℕ → Option (PThreadContext A)
  idle_device c i = do dev ← load c i; run_idle c i dev dev.vtable.on_hardware_idle_handler

  unfoldable pub softswitch_on_hardware_idle : PThreadContext A → Option (PThreadContext A)
  softswitch_on_hardware_idle c = do
    c ← each_device idle_device c.num_devices 0 (record c { rts_head = none; rts_tail = none })
    some (record c { current_handler_type = 0 })
