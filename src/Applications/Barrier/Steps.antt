-- ===== src/Applications/Barrier/Steps.antt =====
-- The ledger of a barrier holds at the start, and every step keeps it.
use toy_softswitch.Prelude.{ℕ, zero, suc, ◌+◌, ◌<◌, ◌^◌, ◌≡◌, refl, sym, arith}
use toy_softswitch.Applications.Barrier.{
  GraphProps, DevState, TickMsg, output_flag_dev_out, output_flag_halt_out,
  dev_ready_to_send_handler, dev_in_receive_handler, dev_out_send_handler, dev_halt_send_handler,
  halt_in_receive_handler, start_state,
}
use toy_softswitch.Applications.Barrier.Network.{
  System, Step, Run, start, send_tick, receive_tick, send_done,
}
use toy_softswitch.Applications.Barrier.Count.{
  bit, tally, total-update, tally-le, tally_all, tally_none,
}
use toy_softswitch.Applications.Barrier.Ledger.{
  delivered, reached, is_halted, ready_out, ready_halt, delivered-out, reached-out, delivered-in,
  IsLedger, on_time, seen_bound,
}

in_keeps :
    (d : DevState) (msg : TickMsg)
    → ((dev_in_receive_handler d msg).t ≡ d.t) × ((dev_in_receive_handler d msg).halted ≡ d.halted)
unfolding dev_in_receive_handler
in_keeps d msg = ground arith

module _ (g : GraphProps) where
  start_ticks :
      (m : ℕ)
      → delivered g.dev_count (start_state g.dev_count) m + 0
        ≡ tally (reached m) (start g).devs g.dev_count
  start_ticks zero = ground (arith, tally_all (reached 0) (start g).devs g.dev_count (λ i h. refl))
  start_ticks (suc m) =
      ground (arith, tally_none (reached (suc m)) (start g).devs g.dev_count (λ i h. ground arith))

  start-IsLedger : IsLedger g (start g)
  start-IsLedger = record {
    ticks = λ j m h. start_ticks m;
    in_time = λ j h. omega arith;
    at_end = λ j h e. absurd cc;
    dones = sym (tally_none is_halted (start g).devs g.dev_count (λ i h. refl));
  }

  module _ (s : System) (q : IsLedger g s) (few : g.max_time + 1 < 2 ^ 32) where
    out-IsLedger :
        (i : ℕ)
        → i < g.dev_count
        → dev_ready_to_send_handler g (s.devs i) ≡ output_flag_dev_out
        → IsLedger g (send_tick s i)
    unfolding dev_out_send_handler
    out-IsLedger i hi ready =
        let (going, full) = ready_out g (s.devs i) ready in
        let d' = (dev_out_send_handler (s.devs i)).0 in
        record {
          ticks = λ j m h. ground (
            arith,
            q.ticks j m h,
            delivered-out g.dev_count (s.devs i) m full (omega arith),
            reached-out (s.devs i) m (omega arith),
            total-update (λ d. bit (reached m d)) s.devs i d' g.dev_count hi,
          );
          in_time = λ j h. ground (arith, q.in_time j h);
          at_end = λ j h e. ground (arith, q.at_end j h, q.at_end i hi);
          dones =
              ground
                (arith, q.dones, total-update (λ d. bit (is_halted d)) s.devs i d' g.dev_count hi);
        }

    in-IsLedger :
        (i : ℕ) (msg : TickMsg)
        → g.dev_count + 1 < 2 ^ 32
        → i < g.dev_count
        → 0 < s.ticks i msg.t
        → IsLedger g (receive_tick s i msg)
    in-IsLedger i msg fits hi coming =
        let d' = dev_in_receive_handler (s.devs i) msg in
        let (clock, flag) = in_keeps (s.devs i) msg in
        let (low, high) = on_time g s q i msg.t hi coming in
        let (now, soon) = seen_bound g s q i hi in
        record {
          ticks = λ j m h. ground (
            arith,
            q.ticks j m h,
            delivered-in g.dev_count (s.devs i) msg m low high (omega (arith, q.in_time i hi))
                (omega (arith, now)) (omega (arith, soon)),
            total-update (λ d. bit (reached m d)) s.devs i d' g.dev_count hi,
          );
          in_time = λ j h. ground (arith, q.in_time j h);
          at_end = λ j h e. ground (arith, q.at_end j h);
          dones =
              ground
                (arith, q.dones, total-update (λ d. bit (is_halted d)) s.devs i d' g.dev_count hi);
        }

    halt-IsLedger :
        (i : ℕ)
        → i < g.dev_count
        → dev_ready_to_send_handler g (s.devs i) ≡ output_flag_halt_out
        → IsLedger g (send_done s i)
    unfolding dev_halt_send_handler
    halt-IsLedger i hi ready =
        let (ended, awake) = ready_halt g (s.devs i) ready in
        let d' = dev_halt_send_handler (s.devs i) in
        record {
          ticks = λ j m h. ground (
            arith,
            q.ticks j m h,
            total-update (λ d. bit (reached m d)) s.devs i d' g.dev_count hi,
          );
          in_time = λ j h. ground (arith, q.in_time j h);
          at_end = λ j h e. ground (arith, q.at_end j h, q.in_time i hi);
          dones =
              ground
                (arith, q.dones, total-update (λ d. bit (is_halted d)) s.devs i d' g.dev_count hi);
        }

  Step-IsLedger :
      (s u : System)
      → g.max_time + 1 < 2 ^ 32
      → g.dev_count + 1 < 2 ^ 32
      → IsLedger g s
      → Step g s u
      → IsLedger g u
  unfolding halt_in_receive_handler
  Step-IsLedger s u few fits q (Step.dev_out i hi ready) = out-IsLedger s q few i hi ready
  Step-IsLedger s u few fits q (Step.dev_in j msg hj coming) =
      in-IsLedger s q few j msg fits hj coming
  Step-IsLedger s u few fits q (Step.halt_out i hi ready) = halt-IsLedger s q few i hi ready
  Step-IsLedger s u few fits q (Step.halt_in coming) = record {
    ticks = q.ticks;
    in_time = q.in_time;
    at_end = q.at_end;
    dones = let bound = tally-le is_halted s.devs g.dev_count in omega (arith, q.dones, bound);
  }

  pub Run-IsLedger :
      {k : ℕ} {s : System}
      → g.max_time + 1 < 2 ^ 32
      → g.dev_count + 1 < 2 ^ 32
      → Run g k s
      → IsLedger g s
  Run-IsLedger few fits Run.here = start-IsLedger
  Run-IsLedger few fits (Run.next r st) = Step-IsLedger _ _ few fits (Run-IsLedger few fits r) st
