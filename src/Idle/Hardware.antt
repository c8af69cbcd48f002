-- ===== src/Idle/Hardware.antt =====
-- `softswitch_on_hardware_idle` gives every device its turn.
use toy_softswitch.Prelude.{
  ℕ, suc, ◌<◌, ◌≤◌, ◌≡◌, refl, ap, sym, subst, ◌∙◌, false, Option, none, some, List, [], arith,
  ◌==◌, inl, inr, lt→ltb, Bool-cases, Yields, Yields_mono, Yields_bind,
}
use toy_softswitch.Context.{App, DeviceContext, PThreadContext, store}
use toy_softswitch.Rts.{softswitch_update_rts}
use toy_softswitch.Rts.Queue.{unlinked}
use toy_softswitch.Rts.Update.{Tracks}
use toy_softswitch.Rts.Handler.{Tracks-same, asked, noted, touched-AfterHandler}
use toy_softswitch.Devices.{each_device, each_device_inv}
use toy_softswitch.Idle.{idle_device, run_idle, softswitch_on_hardware_idle}
use toy_softswitch.Idle.Progress.{computed}

module _ {A : App} where
  -- A device after a handler and a poll.
  abbrev pub answered : A.GraphProps → DeviceContext A → DeviceContext A
  answered g d = record d { state = (asked g d).0; rts_flags = (asked g d).1 }

  -- What its turn makes of a device: nothing without a handler.
  abbrev pub after_idle :
      A.GraphProps
      → DeviceContext A
      → Option (A.GraphProps → A.DevProps → A.DevState → A.DevState)
      → DeviceContext A
  after_idle g d none = d
  after_idle g d (some h) = answered g (computed g d h)

  -- The loop's state before round `i`, from the context `c₀` that it began with.
  record Turns (c₀ : PThreadContext A) (i : ℕ) (c : PThreadContext A) : Type 0 where
    list : (xs : List ℕ) × Tracks c xs
    size : c.num_devices ≡ c₀.num_devices
    graph : c.graph_props ≡ c₀.graph_props
    done :
        (j : ℕ)
        → j < i
        → unlinked (c.devices j)
          ≡ unlinked (
              after_idle c₀.graph_props
                (c₀.devices j)
                (c₀.devices j).vtable.on_hardware_idle_handler)
    todo : (j : ℕ) → i ≤ j → unlinked (c.devices j) ≡ unlinked (c₀.devices j)

  pub idle_device_lem :
      (c : PThreadContext A) (i : ℕ)
      → i < c.num_devices
      → idle_device c i ≡ run_idle c i (c.devices i) (c.devices i).vtable.on_hardware_idle_handler
  unfolding idle_device
  idle_device_lem c i h = rw (lt→ltb _ _ h) refl

  module _ (c₀ c : PThreadContext A) (i : ℕ) (h : i < c₀.num_devices) (s : Turns c₀ i c) where
    within : i < c.num_devices
    within = subst (λ n. i < n) (sym s.size) h

    unlinked-answered :
        (g g' : A.GraphProps) (d e : DeviceContext A)
        (f : A.GraphProps → A.DevProps → A.DevState → A.DevState)
        → g ≡ g'
        → unlinked d ≡ unlinked e
        → unlinked (answered g (computed g d f)) ≡ unlinked (answered g' (computed g' e f))
    unlinked-answered g g' d e f p q = λ k. answered (p k) (computed (p k) (q k) f)

    Turns-next :
        (c' : PThreadContext A) (o : Option (A.GraphProps → A.DevProps → A.DevState → A.DevState))
        → (c₀.devices i).vtable.on_hardware_idle_handler ≡ o
        → (xs : List ℕ) × Tracks c' xs
        → c'.num_devices ≡ c.num_devices
        → c'.graph_props ≡ c.graph_props
        → unlinked (c'.devices i) ≡ unlinked (after_idle c₀.graph_props (c₀.devices i) o)
        → ((j : ℕ) → (j == i) ≡ false → unlinked (c'.devices j) ≡ unlinked (c.devices j))
        → Turns c₀ (suc i) c'
    Turns-next c' o e t en eg here others = record {
      list = t;
      size = en ∙ s.size;
      graph = eg ∙ s.graph;
      done = λ j k. elim (Bool-cases (j == i)) [
        | inl at ↦
            let same : i ≡ j = ground arith in
            subst
              (λ m.
                unlinked (c'.devices m)
                ≡ unlinked (
                    after_idle c₀.graph_props (c₀.devices m)
                      (c₀.devices m).vtable.on_hardware_idle_handler))
              same (here ∙ ap (λ q. unlinked (after_idle c₀.graph_props (c₀.devices i) q)) (sym e))
        | inr off ↦ others j off ∙ s.done j (ground arith)
      ];
      todo = λ j k. others j (ground arith) ∙ s.todo j (omega arith);
    }

    run_idle-Turns :
        (o : Option (A.GraphProps → A.DevProps → A.DevState → A.DevState))
        → (c₀.devices i).vtable.on_hardware_idle_handler ≡ o
        → Yields (run_idle c i (c.devices i) o) (Turns c₀ (suc i))
    unfolding run_idle
    run_idle-Turns none e =
        Turns-next c none e s.list refl refl (s.todo i (omega arith)) (λ j ne. refl)
    run_idle-Turns (some f) e =
        let (xs, t) = s.list in
        Yields_mono
          (softswitch_update_rts
            (store (noted c i 5 c.current_pin) i (computed c.graph_props (c.devices i) f)) i)
          (touched-AfterHandler c i i 5 c.current_pin (computed c.graph_props (c.devices i) f) xs t
            within refl refl refl)
          λ c' a.
            Turns-next c' (some f) e (_, a.tracks) a.size a.graph
              (a.device
                ∙ unlinked-answered c.graph_props c₀.graph_props (c.devices i) (c₀.devices i) f
                    s.graph (s.todo i (omega arith)))
              a.others

    idle_device-Turns : Yields (idle_device c i) (Turns c₀ (suc i))
    idle_device-Turns = rw (idle_device_lem c i within) (
        run_idle-Turns (c.devices i).vtable.on_hardware_idle_handler
          (sym (ap (λ d. d.vtable.on_hardware_idle_handler) (s.todo i (omega arith)))))

  -- On a thread with an empty list, every device that has a hardware idle handler runs it once and
  -- is polled, the others stay as they are, and the list then holds exactly the ready devices.
  pub softswitch_on_hardware_idle-Tracks :
      (c : PThreadContext A)
      → Tracks c []
      → Yields (softswitch_on_hardware_idle c) (λ c'.
        ((xs : List ℕ) × Tracks c' xs)
        × ((j : ℕ)
            → j < c.num_devices
            → unlinked (c'.devices j)
              ≡ unlinked (
                  after_idle c.graph_props
                    (c.devices j)
                    (c.devices j).vtable.on_hardware_idle_handler)))
  unfolding softswitch_on_hardware_idle
  softswitch_on_hardware_idle-Tracks c t =
      Yields_bind
        (each_device idle_device c.num_devices 0 (record c { rts_head = none; rts_tail = none })) _
        _
        (each_device_inv idle_device (Turns c) c.num_devices
          (λ i k h s. idle_device-Turns c k i h s) c.num_devices 0
          (record c { rts_head = none; rts_tail = none }) (omega arith)
          (record {
            list = (
              [],
              Tracks-same c (record c { rts_head = none; rts_tail = none }) [] t
                  (λ j. (refl, refl, refl)) (sym t.list.forward) (sym t.list.tail) refl,
            );
            size = refl;
            graph = refl;
            done = λ j k. absurd (omega arith);
            todo = λ j k. refl;
          }))
        λ c' s.
          let (xs, q) = s.list in
          (
            (
              xs,
              Tracks-same c' (record c' { current_handler_type = 0 }) xs q (λ j. (refl, refl, refl))
                  refl refl refl,
            ),
            s.done,
          )
