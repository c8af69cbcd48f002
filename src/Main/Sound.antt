-- ===== src/Main/Sound.antt =====
-- What the main loop needs of an application: a device asks only for what its type provides.
use toy_softswitch.Prelude.{
  ℕ, ◌<◌, ◌≤◌, ◌≡◌, sym, subst, true, false, some, List, arith, ◌==◌, inl, inr, Bool-cases, length,
  get_elem?,
}
use toy_softswitch.Context.{
  App, DeviceContext, DeviceTypeVTable, OutputPinVTable, OutputPinTargets, PThreadContext,
}
use toy_softswitch.Rts.{any_ready, wants_compute}
use toy_softswitch.Rts.Queue.{unlinked}
use toy_softswitch.Rts.Handler.{AfterHandler, asked}
use toy_softswitch.Send.{right_most_one}
use toy_softswitch.Idle.Progress.{CanCompute}

-- The lowest ready pin of the flags is there, with as many targets as it says.
pub record IsWired {A : App} (v : DeviceTypeVTable A) (ts : List OutputPinTargets) (f : ℕ)
    : Type 0 where
  pub pin_index : ℕ
  pub pin : OutputPinVTable A
  pub targets : OutputPinTargets
  pub lowest : right_most_one f ≡ some pin_index
  pub its : get_elem? v.output_pins pin_index ≡ some pin
  pub goes : get_elem? ts pin_index ≡ some targets
  pub listed : targets.num_targets ≤ length targets.targets

-- A device with these flags can be served: a pin that is ready is there, and a device that wants to
-- compute has a handler for it.
pub record Serves {A : App} (v : DeviceTypeVTable A) (ts : List OutputPinTargets) (f : ℕ)
    : Type 0 where
  pub sends : any_ready f ≡ true → IsWired v ts f
  pub computes :
      wants_compute f ≡ true
      → (h : A.GraphProps → A.DevProps → A.DevState → A.DevState) × (v.compute_handler ≡ some h)

module _ {A : App} where
  -- Whatever the ready-to-send handler answers can be served.
  abbrev pub Answers : DeviceContext A → Type 0
  Answers d =
      (g : A.GraphProps) (p : A.DevProps) (s : A.DevState)
      → Serves d.vtable d.targets (d.vtable.ready_to_send_handler g p s).1

  pub record IsSound (d : DeviceContext A) : Type 0 where
    pub now : Serves d.vtable d.targets d.rts_flags
    pub always : Answers d

  abbrev pub AllSound : PThreadContext A → Type 0
  AllSound c = (i : ℕ) → i < c.num_devices → IsSound (c.devices i)

  pub AllSound-CanCompute : (c : PThreadContext A) → AllSound c → CanCompute c
  AllSound-CanCompute c s i h w = (s i h).now.computes w

  -- The links of a device do not matter.
  pub IsSound-unlinked :
      (d d' : DeviceContext A) → unlinked d' ≡ unlinked d → IsSound d → IsSound d'
  IsSound-unlinked d d' e s = from (subst IsSound (sym e) (to s))
    where
      to : IsSound d → IsSound (unlinked d)
      to s = record { now = s.now; always = s.always }

      from : IsSound (unlinked d') → IsSound d'
      from s = record { now = s.now; always = s.always }

  -- A device that was polled.
  asked-IsSound :
      (g : A.GraphProps) (d : DeviceContext A)
      → Answers d
      → IsSound (record d { state = (asked g d).0; rts_flags = (asked g d).1 })
  asked-IsSound g d a = record { now = a g d.properties d.state; always = a }

  -- One device changed, and the others but for their links did not.
  pub changed-AllSound :
      (c c' : PThreadContext A) (i : ℕ)
      → c'.num_devices ≡ c.num_devices
      → AllSound c
      → IsSound (c'.devices i)
      → ((j : ℕ) → (j == i) ≡ false → unlinked (c'.devices j) ≡ unlinked (c.devices j))
      → AllSound c'
  changed-AllSound c c' i size s here others j h = elim (Bool-cases (j == i)) [
    | inl at ↦ let same : i ≡ j = ground arith in subst (λ k. IsSound (c'.devices k)) same here
    | inr off ↦
        IsSound-unlinked (c.devices j) (c'.devices j) (others j off)
          (s j (subst (λ n. j < n) size h))
  ]

  pub AfterHandler-AllSound :
      (c c' : PThreadContext A) (i : ℕ) (d : DeviceContext A) (xs : List ℕ)
      → AllSound c
      → Answers d
      → AfterHandler c i d xs c'
      → AllSound c'
  AfterHandler-AllSound c c' i d xs s al a =
      changed-AllSound c c' i a.size s
        (IsSound-unlinked _ (c'.devices i) a.device (asked-IsSound c.graph_props d al)) a.others
