-- ===== src/Idle/Progress.antt =====
-- `softswitch_onIdle` runs the compute handlers, and gives up only when there are none to run.
use toy_softswitch.Prelude.{
  ℕ, ◌+◌, ◌^◌, ◌<◌, ◌≤◌, ◌≡◌, refl, ap, sym, subst, ◌∙◌, Bool, true, false, Option, none, some,
  List, arith, leb, ◌==◌, inl, inr, if◌then◌else◌, lt→ltb, Bool-cases, Yields, Yields_bind,
}
use toy_softswitch.Context.{App, DeviceContext, PThreadContext}
use toy_softswitch.Rts.{wants_compute}
use toy_softswitch.Rts.Queue.{flags_of}
use toy_softswitch.Rts.Update.{Tracks}
use toy_softswitch.Rts.Handler.{AfterHandler, Tracks-same, asked, touched-AfterHandler}
use toy_softswitch.Idle.{sweep, compute, finish_idle, softswitch_on_idle, idle_sweep_chunk_size}
use toy_softswitch.Idle.Sweep.{IsSweptBut, IsSwept, Swept, ahead, moved, sweep-Swept}

module _ {A : App} where
  -- A poll that answers `f` keeps the sweep right: a new wish to compute starts the count anew.
  pub polled-IsSwept :
      (c c' : PThreadContext A) (i f : ℕ)
      → IsSweptBut c i
      → c'.num_devices ≡ c.num_devices
      → c'.rtc_offset ≡ c.rtc_offset
      → c'.rtc_checked ≡ (if wants_compute f then 0 else c.rtc_checked)
      → flags_of c' i ≡ f
      → ((j : ℕ) → (j == i) ≡ false → flags_of c' j ≡ flags_of c j)
      → IsSwept c'
  polled-IsSwept c c' i f s size offset checked self others = record {
    offset = below c.num_devices c.rtc_offset c'.num_devices c'.rtc_offset size offset s.offset;
    few = subst (λ n. n + 32 < 2 ^ 32) (sym size) s.few;
    waiting = λ j h ne w. elim (Bool-cases (j == i)) [
      | inl here ↦
          let same : j ≡ i = ground arith in
          let now : wants_compute f ≡ true =
            sym (ap wants_compute self) ∙ ap (λ m. wants_compute (flags_of c' m)) (sym same) ∙ w in
          anew c.num_devices c.rtc_offset c'.num_devices c'.rtc_offset c'.rtc_checked j size offset
            (checked ∙ ap (λ b. if b then 0 else c.rtc_checked) now) s.offset h
      | inr there ↦
          let old = others j there in
          let within : j < c.num_devices = subst (λ n. j < n) size h in
          nearer (wants_compute f) c.num_devices c.rtc_offset c.rtc_checked c'.num_devices
            c'.rtc_offset c'.rtc_checked j size offset checked
            (s.waiting j within there (sym (ap wants_compute old) ∙ w))
    ];
  }
    where
      below : (n o n' o' : ℕ) → n' ≡ n → o' ≡ o → o < n → o' < n'
      below n o n' o' en eo h = omega arith

      anew :
          (n o n' o' k' j : ℕ) → n' ≡ n → o' ≡ o → k' ≡ 0 → o < n → j < n' → ahead n' o' j + k' < n'
      anew n o n' o' k' j en eo ek ho hj = ground arith

      nearer :
          (b : Bool) (n o k n' o' k' j : ℕ)
          → n' ≡ n
          → o' ≡ o
          → k' ≡ (if b then 0 else k)
          → ahead n o j + k < n
          → ahead n' o' j + k' < n'
      nearer b n o k n' o' k' j en eo ek w = ground arith

  pub AfterHandler-IsSwept :
      (c c' : PThreadContext A) (i : ℕ) (d : DeviceContext A) (xs : List ℕ)
      → IsSweptBut c i
      → AfterHandler c i d xs c'
      → IsSwept c'
  AfterHandler-IsSwept c c' i d xs s a =
      polled-IsSwept c c' i (asked c.graph_props d).1 s a.size a.offset a.checked
        (ap (λ e. e.rts_flags) a.device) (λ j ne. ap (λ e. e.rts_flags) (a.others j ne))

  -- Every device that wants to compute has a handler for it.
  abbrev pub CanCompute : PThreadContext A → Type 0
  CanCompute c =
      (i : ℕ)
      → i < c.num_devices
      → wants_compute (flags_of c i) ≡ true
      → (h : A.GraphProps → A.DevProps → A.DevState → A.DevState) × ((c.devices
            i).vtable.compute_handler
          ≡ some h)

  -- The device `i` after its compute handler.
  abbrev pub computed :
      A.GraphProps
      → DeviceContext A
      → (A.GraphProps → A.DevProps → A.DevState → A.DevState)
      → DeviceContext A
  computed g d h = record d { state = h g d.properties d.state }

  pub data Outcome (c : PThreadContext A) (xs : List ℕ) (c' : PThreadContext A)
      : Bool → Type 0 where
    -- Nobody wants to compute.
    finished :
        c' ≡ c
        → ((j : ℕ) → j < c.num_devices → wants_compute (flags_of c j) ≡ false)
        → Outcome c xs c' false
    -- A whole chunk was checked in vain.
    searching : c' ≡ moved c c'.rtc_offset (c.rtc_checked + 32) → Outcome c xs c' true
    -- One device ran its compute handler.
    ran :
        (o k i : ℕ) (h : A.GraphProps → A.DevProps → A.DevState → A.DevState)
        → i < c.num_devices
        → wants_compute (flags_of c i) ≡ true
        → (c.devices i).vtable.compute_handler ≡ some h
        → AfterHandler (moved c o k) i (computed c.graph_props (c.devices i) h) xs c'
        → Outcome c xs c' true

  -- The result of the function, with what it keeps.
  abbrev pub Idled : PThreadContext A → List ℕ → PThreadContext A × Bool → Type 0
  Idled c xs (c', more) = IsSwept c' × ((ys : List ℕ) × Tracks c' ys) × Outcome c xs c' more

  moved-Tracks :
      (c : PThreadContext A) (o k : ℕ) (xs : List ℕ) → Tracks c xs → Tracks (moved c o k) xs
  moved-Tracks c o k xs t =
      Tracks-same c (moved c o k) xs t (λ j. (refl, refl, refl)) refl refl refl

  compute-AfterHandler :
      (c : PThreadContext A) (i : ℕ) (xs : List ℕ)
      (h : A.GraphProps → A.DevProps → A.DevState → A.DevState)
      → Tracks c xs
      → i < c.num_devices
      → (c.devices i).vtable.compute_handler ≡ some h
      → Yields (compute c i) (AfterHandler c i (computed c.graph_props (c.devices i) h) xs)
  unfolding compute
  compute-AfterHandler c i xs h t within its =
      rw (lt→ltb _ _ within, its)
        (touched-AfterHandler c i c.current_device c.current_handler_type c.current_pin _ xs t
          within refl refl refl)

  -- After a complete sweep in vain there is nothing to do.
  pub softswitch_on_idle_done :
      (c : PThreadContext A)
      → c.num_devices ≤ c.rtc_checked
      → softswitch_on_idle c ≡ some (c, false)
  unfolding softswitch_on_idle
  softswitch_on_idle_done c h =
      let all : leb c.num_devices c.rtc_checked ≡ true = ground arith in rw all refl

  -- On a thread whose list and sweep are right, and whose devices that want to compute have a
  -- compute handler, softswitch_onIdle is defined and keeps both right. It returns false only if no
  -- device wants to compute; otherwise it has checked a chunk of 32 devices in vain, or run the
  -- compute handler of a device that wanted it and polled it.
  pub softswitch_on_idle-Idled :
      (c : PThreadContext A) (xs : List ℕ)
      → Tracks c xs
      → IsSwept c
      → CanCompute c
      → Yields (softswitch_on_idle c) (Idled c xs)
  unfolding softswitch_on_idle finish_idle
  softswitch_on_idle-Idled c xs t s can = elim (Bool-cases (leb c.num_devices c.rtc_checked)) [
    | inl all ↦ rw all (
      s,
      (xs, t),
      Outcome.finished refl λ j h. elim (Bool-cases (wants_compute (flags_of c j))) [
        | inl w ↦ let left = s.waiting j h (ground arith) w in absurd (ground arith)
        | inr quiet ↦ quiet
      ],
    )
    | inr some_left ↦ rw some_left (
        Yields_bind (sweep idle_sweep_chunk_size c) _ (Idled c xs)
          (sweep-Swept idle_sweep_chunk_size c s (ground arith)) finish)
  ]
    where
      ran :
          (o k i : ℕ)
          → Swept c 32 (moved c o k, some i)
          → Yields (finish_idle (moved c o k) (some i)) (Idled c xs)
      ran o k i (but, within, w, e) =
          let (h, its) = can i within w in
          Yields_bind (compute (moved c o k) i) _ (Idled c xs)
            (compute-AfterHandler (moved c o k) i xs h (moved-Tracks c o k xs t) within its)
            λ c' a. (
              AfterHandler-IsSwept (moved c o k) c' i _ xs but a,
              (_, a.tracks),
              Outcome.ran o k i h within w its a,
            )

      finish :
          (r : PThreadContext A × Option ℕ)
          → Swept c 32 r
          → Yields (finish_idle r.0 r.1) (Idled c xs)
      finish (c', none) (s', e) = (
        s',
        (
          xs,
          subst (λ d. Tracks d xs) (sym e) (moved-Tracks c c'.rtc_offset (c.rtc_checked + 32) xs t),
        ),
        Outcome.searching e,
      )
      finish (c', some i) (but, within, w, e) =
          subst (λ d. Yields (finish_idle d (some i)) (Idled c xs)) (sym e)
            (ran c'.rtc_offset c'.rtc_checked i
              (subst (λ d. IsSweptBut d i) e but, within, w, refl))
