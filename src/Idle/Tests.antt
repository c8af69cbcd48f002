-- ===== src/Idle/Tests.antt =====
-- Two devices that want to compute.
use toy_softswitch.Prelude.{ℕ, ◌<◌, ◌≡◌, refl, some, List, [], Yields, true}
use toy_softswitch.Rts.Queue.{unlinked}
use toy_softswitch.Rts.Update.{Tracks}
use toy_softswitch.Idle.{softswitch_on_idle, softswitch_on_hardware_idle}
use toy_softswitch.Idle.Progress.{Idled, softswitch_on_idle-Idled}
use toy_softswitch.Idle.Hardware.{after_idle, softswitch_on_hardware_idle-Tracks}
use toy_softswitch.Idle.Asserts.{
  before_idle_asserts, hardware_idle_asserts, before_idle_asserts-quiet,
}
use toy_softswitch.Context.{PThreadContext}
use toy_softswitch.Applications.Ring.{inst0_props, ring_app}
use toy_softswitch.Examples.{counting, counting-Tracks, counting-IsSwept, count_up}

softswitch_on_idle-Idled_example : Yields (softswitch_on_idle counting) (Idled counting [])
softswitch_on_idle-Idled_example =
    softswitch_on_idle-Idled counting [] counting-Tracks counting-IsSwept
      (λ i h w. (count_up, refl))

softswitch_on_hardware_idle-Tracks_example : Yields (softswitch_on_hardware_idle counting) (λ c'.
    ((xs : List ℕ) × Tracks c' xs)
    × ((j : ℕ)
        → j < 2
        → unlinked (c'.devices j)
          ≡ unlinked (after_idle inst0_props (counting.devices j) (some count_up))))
softswitch_on_hardware_idle-Tracks_example =
    softswitch_on_hardware_idle-Tracks counting counting-Tracks

-- Both devices have a hardware idle handler, and nothing to do.
abbrev idling : PThreadContext ring_app
idling = record counting { devices = λ i. record (counting.devices i) { rts_flags = 0 } }

idling-Tracks : Tracks idling []
idling-Tracks = record {
  list = record { forward = refl; backward = tt; tail = refl; distinct = tt; bounded = tt };
  ready = λ i h. refl;
}

before_idle_asserts-quiet_example :
    (before_idle_asserts idling ≡ true) × Yields (hardware_idle_asserts idling) (λ b. b ≡ true)
before_idle_asserts-quiet_example = before_idle_asserts-quiet idling idling-Tracks (λ j h. refl)
