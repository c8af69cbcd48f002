-- ===== src/System/Tests.antt =====
-- The ring of four devices on two threads, in the build that sends inside a thread.
use toy_softswitch.Prelude.{inr, true, ℕ, ◌≡◌, refl, some, [], arith, Yields, Yields_some}
use toy_softswitch.Main.{Config, Locals, softswitch_main_start, main_round}
use toy_softswitch.Main.Message.{IsLoop, Loops}
use toy_softswitch.Main.Start.{softswitch_main_start-IsLoop}
use toy_softswitch.Main.Tests.{default_build, can_only_send}
use toy_softswitch.Applications.Ring.{ring_app, dev4_threads2}
use toy_softswitch.Applications.Ring.Wires.{
  dev4_threads2-NoApps, dev4_threads2-IsConnected, dev4_threads2-CanStart,
}
use toy_softswitch.Examples.{empty_buffer}
use toy_softswitch.System.{System, Possible, Reachable}
use toy_softswitch.System.Connected.{Reachable-defined}

abbrev builds : ℕ → Config
builds t = record default_build { enable_intra_thread_send = true; this_thread_id = t }

started_locals :
    (t : ℕ)
    → (l : Locals ring_app) × (softswitch_main_start (dev4_threads2 t) empty_buffer ≡ some l)
      × IsLoop l
started_locals t =
    let s = dev4_threads2-CanStart t in
    Yields_some IsLoop (softswitch_main_start (dev4_threads2 t) empty_buffer) (
      softswitch_main_start-IsLoop (dev4_threads2 t) empty_buffer s.few s.offset s.checked
        s.answers)

abbrev at_start : System ring_app
at_start = record { threads = λ t. (started_locals t).0; sent = [] }

at_start-Reachable : Reachable builds 2 dev4_threads2 (λ t. empty_buffer) at_start
at_start-Reachable = Reachable.started (λ t. (started_locals t).0) (λ t h. (started_locals t).1)

at_start-Possible : Possible builds 2 at_start 0 can_only_send
at_start-Possible = record {
  thread = omega arith;
  wakes = λ e. absurd (ground arith);
  packet = λ e. absurd (ground arith);
}

Reachable-defined_example : Yields (main_round (builds 0) can_only_send (at_start.threads 0)) Loops
Reachable-defined_example =
    Reachable-defined builds 2 dev4_threads2 (λ t. empty_buffer) at_start 0 can_only_send
      (λ u h. inr (refl, dev4_threads2-NoApps u)) (λ u h. dev4_threads2-CanStart u)
      dev4_threads2-IsConnected at_start-Reachable at_start-Possible
