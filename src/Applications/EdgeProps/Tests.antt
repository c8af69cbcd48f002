-- ===== src/Applications/EdgeProps/Tests.antt =====
-- Three outer devices, as in edge_props_dev4_threads1.cpp, of which the second has sent its tick.
use toy_softswitch.Prelude.{◌↔◌, ℕ, ◌<◌, ◌≡◌, refl, true, arith}
use toy_softswitch.Applications.EdgeProps.{DevState, DevProps, inner_in_asserts, inner_in_exits}
use toy_softswitch.Applications.EdgeProps.Ticks.{World, mask_of, start, send_tick, Run, Run-ticks}

abbrev one_sent : World
one_sent = send_tick start 1

one_sent-Run : Run 3 one_sent
one_sent-Run = Run.outer_out start 1 Run.started (omega arith) refl

Run-ticks_example :
    ((i : ℕ) → i < 3 → 0 < one_sent.ticks i → inner_in_asserts one_sent.inner (mask_of i) ≡ true)
    × (inner_in_exits (DevProps.inner_props 3) one_sent.inner ≡ true
        ↔ ((i : ℕ) → i < 3 → (one_sent.outers i ≡ DevState.outer_state 0) × (one_sent.ticks i ≡ 0)))
Run-ticks_example = Run-ticks 3 one_sent (omega arith) one_sent-Run
