-- ===== src/Init/Perf.antt =====
-- Initialisation does not look at the cycle counters.
use mathlib.Core.Option
use toy_softswitch.Prelude.{
  ℕ, zero, suc, ◌+◌, ◌≡◌, refl, Bool, true, false, Option, none, some, if◌then◌else◌,
}
use toy_softswitch.Context.{App, PThreadContext, store}
use toy_softswitch.Context.Host.{Counters}
use toy_softswitch.Rts.{any_ready, rts_append}
use toy_softswitch.Rts.Perf.{with_perf, bind_along, load-with_perf, rts_append-with_perf}
use toy_softswitch.Devices.{each_device}
use toy_softswitch.Init.{initialised, init_device, softswitch_init}

module _ {A : App} (k : Counters) where
  init_device-with_perf :
      (c : PThreadContext A) (i : ℕ)
      → init_device (with_perf k c) i ≡ Option.map (with_perf k) (init_device c i)
  unfolding init_device
  init_device-with_perf c i = load-with_perf k (with_perf k) c i _ _ (
      queue (any_ready (initialised c.graph_props (c.devices i)).rts_flags) (
        store (record c { current_device = i; current_handler_type = 4 }) i
          (initialised c.graph_props (c.devices i))))
    where
      queue :
          (ready : Bool) (d : PThreadContext A)
          → (if ready then rts_append (with_perf k d) i else some (with_perf k d))
            ≡ Option.map (with_perf k) (if ready then rts_append d i else some d)
      queue true d = rts_append-with_perf k d i
      queue false d = refl

  each_device-with_perf :
      (body : PThreadContext A → ℕ → Option (PThreadContext A))
      → ((c : PThreadContext A) (i : ℕ)
          → body (with_perf k c) i ≡ Option.map (with_perf k) (body c i))
      → (n i : ℕ) (c : PThreadContext A)
      → each_device body n i (with_perf k c) ≡ Option.map (with_perf k) (each_device body n i c)
  unfolding each_device
  each_device-with_perf body same zero i c = refl
  each_device-with_perf body same (suc n) i c =
      bind_along (with_perf k) (with_perf k) (body c i) _ _ (same c i)
        λ c₁. each_device-with_perf body same n (i + 1) c₁

  pub softswitch_init-with_perf :
      (c : PThreadContext A)
      → softswitch_init (with_perf k c) ≡ Option.map (with_perf k) (softswitch_init c)
  unfolding softswitch_init
  softswitch_init-with_perf c =
      each_device-with_perf init_device init_device-with_perf c.num_devices 0
        (record c { rts_head = none; rts_tail = none })
