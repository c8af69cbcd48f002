-- ===== src/Init/Tests.antt =====
-- The ring is initialised.
use toy_softswitch.Prelude.{ℕ, ◌<◌, ◌≡◌, Yields}
use toy_softswitch.Rts.Queue.{flags_of, unlinked}
use toy_softswitch.Rts.Update.{Tracks}
use toy_softswitch.Devices.{ready_below}
use toy_softswitch.Init.{softswitch_init}
use toy_softswitch.Init.Order.{first_poll, softswitch_init-Tracks}
use toy_softswitch.Applications.Ring.{dev2_threads1, inst0_props}

softswitch_init-Tracks_example : Yields (softswitch_init dev2_threads1) (λ c'.
    Tracks c' (ready_below (flags_of c') 2)
    × ((j : ℕ)
        → j < 2
        → unlinked (c'.devices j)
          ≡ unlinked (record (dev2_threads1.devices j) {
            state = (first_poll inst0_props (dev2_threads1.devices j)).0;
            rts_flags = (first_poll inst0_props (dev2_threads1.devices j)).1;
          })))
softswitch_init-Tracks_example = softswitch_init-Tracks dev2_threads1
