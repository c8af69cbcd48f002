-- ===== src/Init/Wires.antt =====
-- The start keeps a thread's wires.
use toy_softswitch.Prelude.{ℕ, refl, none}
use toy_softswitch.Context.{App, PThreadContext}
use toy_softswitch.Wiring.{
  Always, Keeps, Keeps-refl, store-Keeps, load-Always, from-Keeps, either-Always, each_device-Keeps,
}
use toy_softswitch.Rts.{any_ready}
use toy_softswitch.Rts.Wires.{rts_append-Keeps}
use toy_softswitch.Init.{initialised, init_device, softswitch_init}

module _ {A : App} where
  init_device-Keeps : (c : PThreadContext A) (i : ℕ) → Always (init_device c i) (Keeps c)
  unfolding init_device initialised
  init_device-Keeps c i = load-Always c i _ (Keeps c) λ h.
      let s = store-Keeps c i (initialised c.graph_props (c.devices i)) refl in
      from-Keeps c _ _ (record { thread = refl; size = refl; device = s.device })
        (either-Always (any_ready (initialised c.graph_props (c.devices i)).rts_flags) _ _ _
          (rts_append-Keeps _ i) (Keeps-refl _))

  pub softswitch_init-Keeps : (c : PThreadContext A) → Always (softswitch_init c) (Keeps c)
  unfolding softswitch_init
  softswitch_init-Keeps c =
      from-Keeps c _ _ (record { thread = refl; size = refl; device = λ j. refl })
        (each_device-Keeps init_device init_device-Keeps c.num_devices 0
          (record c { rts_head = none; rts_tail = none }))
