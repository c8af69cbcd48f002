-- ===== src/Init/Order.antt =====
-- What `softswitch_init` leaves behind.
use toy_softswitch.Prelude.{
  ℕ, suc, ◌<◌, ◌≤◌, ◌≡◌, refl, sym, ap, subst, ◌∙◌, true, false, none, some, List, [], ◌∷◌, ◌++◌,
  arith, ◌==◌, if◌then◌else◌, Yields, Yields_mono, Bool-cases, inl, inr, lt→ltb,
}
use toy_softswitch.Context.{App, PThreadContext, DeviceContext, store}
use toy_softswitch.Rts.{any_ready, rts_append}
use toy_softswitch.Rts.Queue.{IsRts, unlinked, flags_of, Relinked, append_if-IsRts}
use toy_softswitch.Rts.Update.{Tracks, IsRts-same}
use toy_softswitch.Devices.{
  each_device_inv, ready_below, has-ready_below, not-has-ready_below, ready_below_congr,
}
use toy_softswitch.Init.{initialised, init_device, softswitch_init}

module _ {A : App} where
  -- The loop's state before round `i`, from the context `c₀` that it began with.
  pub record Started (c₀ : PThreadContext A) (i : ℕ) (c : PThreadContext A) : Type 0 where
    pub list : IsRts c (ready_below (flags_of c) i)
    pub size : c.num_devices ≡ c₀.num_devices
    pub graph : c.graph_props ≡ c₀.graph_props
    pub host : c.host ≡ c₀.host
    pub offset : c.rtc_offset ≡ c₀.rtc_offset
    pub checked : c.rtc_checked ≡ c₀.rtc_checked
    pub done :
        (j : ℕ)
        → j < i
        → unlinked (c.devices j) ≡ unlinked (initialised c₀.graph_props (c₀.devices j))
    pub todo : (j : ℕ) → i ≤ j → unlinked (c.devices j) ≡ unlinked (c₀.devices j)

  -- The context after the handlers of device `i`, before it is queued.
  abbrev inited : PThreadContext A → ℕ → PThreadContext A
  inited c i =
      store (record c { current_device = i; current_handler_type = 4 }) i
        (initialised c.graph_props (c.devices i))

  init_device_lem :
      (c : PThreadContext A) (i : ℕ)
      → i < c.num_devices
      → init_device c i ≡ (
          if any_ready (initialised c.graph_props (c.devices i)).rts_flags
          then rts_append (inited c i) i
          else some (inited c i))
  unfolding init_device
  init_device_lem c i h = rw (lt→ltb _ _ h) refl

  inited-IsRts : (c : PThreadContext A) (i : ℕ) (xs : List ℕ) → IsRts c xs → IsRts (inited c i) xs
  unfolding initialised
  inited-IsRts c i xs q =
      IsRts-same c (inited c i) xs q (λ j. (ground arith, ground arith)) refl refl refl

  inited_self :
      (c : PThreadContext A) (i j : ℕ)
      → (i == j) ≡ true
      → (inited c i).devices j ≡ initialised c.graph_props (c.devices i)
  inited_self c i j e = rw e

  inited_ne :
      (c : PThreadContext A) (i j : ℕ) → (i == j) ≡ false → (inited c i).devices j ≡ c.devices j
  inited_ne c i j e = rw e

  flags_of-unlinked :
      (c c' : PThreadContext A) (j : ℕ)
      → unlinked (c'.devices j) ≡ unlinked (c.devices j)
      → flags_of c' j ≡ flags_of c j
  flags_of-unlinked c c' j p = ap (λ k. k.rts_flags) p

  unlinked-initialised :
      (g g' : A.GraphProps) (d e : DeviceContext A)
      → g ≡ g'
      → unlinked d ≡ unlinked e
      → unlinked (initialised g d) ≡ unlinked (initialised g' e)
  unfolding initialised
  unlinked-initialised g g' d e p q = λ i. initialised (p i) (q i)

  Started-of :
      (c₀ c c' : PThreadContext A) (i : ℕ)
      → i < c₀.num_devices
      → Started c₀ i c
      → IsRts c' (ready_below (flags_of (inited c i)) (suc i))
      → Relinked (inited c i) c'
      → Started c₀ (suc i) c'
  Started-of c₀ c c' i h s q r = record {
    list =
        subst (IsRts c')
          (sym
            (ready_below_congr _ _ (suc i) (λ j k. flags_of-unlinked (inited c i) c' j (kept j))))
          q;
    size = ap (λ k. k.num_devices) r.rest ∙ s.size;
    graph = ap (λ k. k.graph_props) r.rest ∙ s.graph;
    host = ap (λ k. k.host) r.rest ∙ s.host;
    offset = ap (λ k. k.rtc_offset) r.rest ∙ s.offset;
    checked = ap (λ k. k.rtc_checked) r.rest ∙ s.checked;
    done = λ j k. kept j ∙ elim (Bool-cases (i == j)) [
      | inl here ↦
          let same : i ≡ j = ground arith in
          ap unlinked (inited_self c i j here)
          ∙ unlinked-initialised _ _ (c.devices i) (c₀.devices i) s.graph (s.todo i (omega arith))
          ∙ ap (λ m. unlinked (initialised c₀.graph_props (c₀.devices m))) same
      | inr there ↦ ap unlinked (inited_ne c i j there) ∙ s.done j (ground arith)
    ];
    todo = λ j k. kept j ∙ ap unlinked (inited_ne c i j (ground arith)) ∙ s.todo j (omega arith);
  }
    where
      kept : (j : ℕ) → unlinked (c'.devices j) ≡ unlinked ((inited c i).devices j)
      kept j = ap unlinked (r.devices j)

  -- The links of the other devices stand as they did when device `i` is queued.
  start-IsRts :
      (c : PThreadContext A) (i : ℕ)
      → IsRts c (ready_below (flags_of c) i)
      → IsRts (inited c i) (ready_below (flags_of (inited c i)) i)
  start-IsRts c i q =
      subst (IsRts (inited c i))
        (sym (
          ready_below_congr (flags_of c) (flags_of (inited c i)) i
            (λ j k. ap (λ d. d.rts_flags) (inited_ne c i j (ground arith)))))
        (inited-IsRts c i _ q)

  init_device-Started :
      (c₀ : PThreadContext A) (i : ℕ) (c : PThreadContext A)
      → i < c₀.num_devices
      → Started c₀ i c
      → Yields (init_device c i) (Started c₀ (suc i))
  init_device-Started c₀ i c h s =
      let within : i < c.num_devices = subst (λ n. i < n) (sym s.size) h in
      let earlier = ready_below (flags_of (inited c i)) i in
      let now = any_ready (initialised c.graph_props (c.devices i)).rts_flags in
      rw (init_device_lem c i within) (
        Yields_mono (if now then rts_append (inited c i) i else some (inited c i))
          (append_if-IsRts now (inited c i) i earlier (start-IsRts c i s.list) within
            (not-has-ready_below (flags_of (inited c i)) i i (omega arith)))
          λ c' (q, r).
            Started-of c₀ c c' i h s
              (subst (λ f. IsRts c' (if any_ready f then earlier ++ i ∷ [] else earlier))
                (sym (ap (λ d. d.rts_flags) (inited_self c i i (ground arith)))) q)
              r)

  pub softswitch_init-Started :
      (c : PThreadContext A) → Yields (softswitch_init c) (Started c c.num_devices)
  unfolding softswitch_init
  softswitch_init-Started c =
      each_device_inv init_device (Started c) c.num_devices (init_device-Started c) c.num_devices 0
        (record c { rts_head = none; rts_tail = none }) (omega arith)
        (record {
          list = record { forward = refl; backward = tt; tail = refl; distinct = tt; bounded = tt };
          size = refl;
          graph = refl;
          host = refl;
          offset = refl;
          checked = refl;
          done = λ j k. absurd (omega arith);
          todo = λ j k. refl;
        })

  -- The started thread's list holds its ready devices.
  pub Started-Tracks :
      (c c' : PThreadContext A)
      → Started c c.num_devices c'
      → Tracks c' (ready_below (flags_of c') c.num_devices)
  Started-Tracks c c' s = record {
    list = s.list;
    ready = λ j k. has-ready_below (flags_of c') c.num_devices j (subst (λ n. j < n) s.size k);
  }

  -- What the init handler leaves of the state, and what the ready-to-send handler makes of that.
  abbrev pub first_state : A.GraphProps → DeviceContext A → A.DevState
  first_state g d = d.vtable.init_handler g d.properties d.state

  abbrev pub first_poll : A.GraphProps → DeviceContext A → A.DevState × ℕ
  first_poll g d = d.vtable.ready_to_send_handler g d.properties (first_state g d)

  initialised_lem :
      (g : A.GraphProps) (d : DeviceContext A)
      → initialised g d ≡ record d { state = (first_poll g d).0; rts_flags = (first_poll g d).1 }
  unfolding initialised
  initialised_lem g d = refl

  -- softswitch_init is defined on every context: the init handler of each device is called on its
  -- state, and the ready-to-send handler on the result; the state and the flags that this one gives
  -- are the device's, whose other fields are as before but for its links, and the list then holds
  -- exactly the ready devices, in the order of their indices.
  pub softswitch_init-Tracks :
      (c : PThreadContext A)
      → Yields (softswitch_init c) (λ c'.
        Tracks c' (ready_below (flags_of c') c.num_devices)
        × ((j : ℕ)
            → j < c.num_devices
            → unlinked (c'.devices j)
              ≡ unlinked (record (c.devices j) {
                state = (first_poll c.graph_props (c.devices j)).0;
                rts_flags = (first_poll c.graph_props (c.devices j)).1;
              })))
  softswitch_init-Tracks c = Yields_mono (softswitch_init c) (softswitch_init-Started c) λ c' s. (
    Started-Tracks c c' s,
    λ j k. s.done j k ∙ ap unlinked (initialised_lem c.graph_props (c.devices j)),
  )
