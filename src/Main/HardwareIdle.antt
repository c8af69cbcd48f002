-- ===== src/Main/HardwareIdle.antt =====
-- The hardware idle handlers keep the thread in order for the main loop.
use toy_softswitch.Prelude.{
  ℕ, suc, ◌<◌, ◌≡◌, refl, ◌≢◌, sym, subst, ◌∙◌, Option, none, some, List, [], ◌∷◌, arith, Yields,
  Yields_mono, Yields_bind,
}
use toy_softswitch.Context.{App, PThreadContext, store}
use toy_softswitch.Rts.{softswitch_update_rts}
use toy_softswitch.Rts.Update.{Tracks}
use toy_softswitch.Rts.Handler.{noted, Tracks-same, touched-AfterHandler}
use toy_softswitch.Devices.{each_device, each_device_inv}
use toy_softswitch.Idle.{idle_device, run_idle, softswitch_on_hardware_idle}
use toy_softswitch.Idle.Progress.{computed}
use toy_softswitch.Idle.Hardware.{idle_device_lem}
use toy_softswitch.Main.Thread.{IsThread, AfterHandler-IsThread}

module _ {A : App} where
  -- In order, and with as many devices as at the start of the loop.
  abbrev InOrder : PThreadContext A → ℕ → PThreadContext A → Type 0
  InOrder c₀ i c = IsThread c × (c.num_devices ≡ c₀.num_devices)

  run_idle-InOrder :
      (c₀ c : PThreadContext A) (i : ℕ)
      (o : Option (A.GraphProps → A.DevProps → A.DevState → A.DevState))
      → i < c.num_devices
      → InOrder c₀ i c
      → Yields (run_idle c i (c.devices i) o) (InOrder c₀ (suc i))
  unfolding run_idle
  run_idle-InOrder c₀ c i none h s = s
  run_idle-InOrder c₀ c i (some f) h (t, size) =
      Yields_mono
        (softswitch_update_rts
          (store (noted c i 5 c.current_pin) i (computed c.graph_props (c.devices i) f)) i)
        (touched-AfterHandler c i i 5 c.current_pin (computed c.graph_props (c.devices i) f)
          t.listed t.tracks h refl refl refl)
        λ c' a. (
          AfterHandler-IsThread c c' i _ t.listed t.swept t.host t.sound (t.sound i h).always a,
          a.size ∙ size,
        )

  idle_device-InOrder :
      (c₀ c : PThreadContext A) (i : ℕ)
      → i < c₀.num_devices
      → InOrder c₀ i c
      → Yields (idle_device c i) (InOrder c₀ (suc i))
  idle_device-InOrder c₀ c i h (t, size) =
      let within : i < c.num_devices = subst (λ n. i < n) (sym size) h in
      rw (idle_device_lem c i within)
        (run_idle-InOrder c₀ c i (c.devices i).vtable.on_hardware_idle_handler within (t, size))

  -- With nothing on the list, the reset of its ends changes nothing that matters.
  IsThread-emptied :
      (c : PThreadContext A) (xs : List ℕ)
      → Tracks c xs
      → IsThread c
      → c.rts_head ≡ none
      → IsThread (record c { rts_head = none; rts_tail = none })
  IsThread-emptied c [] q t h = record {
    listed = [];
    tracks =
        Tracks-same c _ [] q (λ j. (refl, refl, refl)) (sym q.list.forward) (sym q.list.tail) refl;
    swept = record { offset = t.swept.offset; few = t.swept.few; waiting = t.swept.waiting };
    host = t.host;
    sound = λ i k. t.sound i k;
  }
  IsThread-emptied c (x ∷ xs) q t h = absurd (some_none (sym q.list.forward.0 ∙ h))
    where
      some_none : some x ≢ none
      some_none e = ground arith

  -- From a thread in order with an empty list, softswitch_on_hardware_idle is defined and leaves the
  -- thread in order.
  pub softswitch_on_hardware_idle-IsThread :
      (c : PThreadContext A)
      → IsThread c
      → c.rts_head ≡ none
      → Yields (softswitch_on_hardware_idle c) IsThread
  unfolding softswitch_on_hardware_idle
  softswitch_on_hardware_idle-IsThread c t empty =
      Yields_bind
        (each_device idle_device c.num_devices 0 (record c { rts_head = none; rts_tail = none })) _
        _
        (each_device_inv idle_device (InOrder c) c.num_devices
          (λ i k h s. idle_device-InOrder c k i h s) c.num_devices 0
          (record c { rts_head = none; rts_tail = none }) (omega arith)
          (IsThread-emptied c t.listed t.tracks t empty, refl))
        λ c' (s, size). record {
          listed = s.listed;
          tracks = Tracks-same c' _ s.listed s.tracks (λ j. (refl, refl, refl)) refl refl refl;
          swept = record { offset = s.swept.offset; few = s.swept.few; waiting = s.swept.waiting };
          host = s.host;
          sound = λ i k. s.sound i k;
        }
