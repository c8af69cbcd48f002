-- ===== src/Idle/Wires.antt =====
-- The idle work keeps a thread's wires.
use toy_softswitch.Prelude.{ℕ, leb, zero, suc, refl, false, Option, none, some, ◌>>=◌}
use toy_softswitch.Context.{App, PThreadContext}
use toy_softswitch.Wiring.{
  Always, Always_mono, Always_bind, Always_next, Keeps, Keeps-refl, Keeps-trans, load-Always,
  from-Keeps, then-Keeps, either-Always, each_device-Keeps,
}
use toy_softswitch.Devices.{each_device}
use toy_softswitch.Rts.{wants_compute}
use toy_softswitch.Rts.Wires.{polled-Keeps}
use toy_softswitch.Rts.Handler.{noted}
use toy_softswitch.Idle.{
  idle_sweep_chunk_size, advance, sweep, compute, finish_idle, softswitch_on_idle, run_idle,
  idle_device, softswitch_on_hardware_idle,
}

module _ {A : App} where
  sweep-Keeps : (n : ℕ) (c : PThreadContext A) → Always (sweep n c) (λ r. Keeps c r.0)
  unfolding sweep advance
  sweep-Keeps zero c = Keeps-refl c
  sweep-Keeps (suc n) c = load-Always c c.rtc_offset _ _ λ h.
      let on : Keeps c (advance c) = record { thread = refl; size = refl; device = λ j. refl } in
      either-Always (wants_compute (c.devices c.rtc_offset).rts_flags) (λ r. Keeps c r.0)
        (some (advance c, some c.rtc_offset)) (sweep n (advance c)) on
        (Always_mono (sweep n (advance c)) (sweep-Keeps n (advance c))
          λ r k. Keeps-trans c (advance c) r.0 on k)

  compute-Keeps : (c : PThreadContext A) (i : ℕ) → Always (compute c i) (Keeps c)
  unfolding compute
  compute-Keeps c i = load-Always c i _ (Keeps c) λ h.
      Always_next (c.devices i).vtable.compute_handler _ (Keeps c)
        λ f e. polled-Keeps c c i _ (Keeps-refl c) refl

  finish_idle-Keeps :
      (c : PThreadContext A) (o : Option ℕ) → Always (finish_idle c o) (λ r. Keeps c r.0)
  unfolding finish_idle
  finish_idle-Keeps c none = Keeps-refl c
  finish_idle-Keeps c (some i) =
      Always_bind (Keeps c) (compute c i) _ _ (compute-Keeps c i) λ c' k. k

  pub softswitch_on_idle-Keeps :
      (c : PThreadContext A) → Always (softswitch_on_idle c) (λ r. Keeps c r.0)
  unfolding softswitch_on_idle
  softswitch_on_idle-Keeps c =
      either-Always (leb c.num_devices c.rtc_checked) (λ r. Keeps c r.0) (some (c, false))
        (sweep idle_sweep_chunk_size c >>= λ (c', found). finish_idle c' found) (Keeps-refl c)
        (Always_bind (λ r. Keeps c r.0) (sweep idle_sweep_chunk_size c)
          (λ (c', found). finish_idle c' found) (λ r. Keeps c r.0)
          (sweep-Keeps idle_sweep_chunk_size c)
          λ r k.
            Always_mono (finish_idle r.0 r.1) (finish_idle-Keeps r.0 r.1)
              λ r' k'. Keeps-trans c r.0 r'.0 k k')

  run_idle-Keeps :
      (c : PThreadContext A) (i : ℕ)
      (o : Option (A.GraphProps → A.DevProps → A.DevState → A.DevState))
      → Always (run_idle c i (c.devices i) o) (Keeps c)
  unfolding run_idle
  run_idle-Keeps c i none = Keeps-refl c
  run_idle-Keeps c i (some f) =
      polled-Keeps c (noted c i 5 c.current_pin) i _
        (record { thread = refl; size = refl; device = λ j. refl }) refl

  idle_device-Keeps : (c : PThreadContext A) (i : ℕ) → Always (idle_device c i) (Keeps c)
  unfolding idle_device
  idle_device-Keeps c i =
      load-Always c i _ (Keeps c)
        λ h. run_idle-Keeps c i (c.devices i).vtable.on_hardware_idle_handler

  pub softswitch_on_hardware_idle-Keeps :
      (c : PThreadContext A) → Always (softswitch_on_hardware_idle c) (Keeps c)
  unfolding softswitch_on_hardware_idle
  softswitch_on_hardware_idle-Keeps c =
      then-Keeps c
        (each_device idle_device c.num_devices 0 (record c { rts_head = none; rts_tail = none })) _
        (from-Keeps c _ _ (record { thread = refl; size = refl; device = λ j. refl })
          (each_device-Keeps idle_device idle_device-Keeps c.num_devices 0
            (record c { rts_head = none; rts_tail = none })))
        λ c'. record { thread = refl; size = refl; device = λ j. refl }
