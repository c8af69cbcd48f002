-- ===== src/Applications/Barrier/InStep.antt =====
-- The devices of a barrier keep in step.
use toy_softswitch.Prelude.{ℕ, ◌+◌, ◌<◌, ◌≤◌, ◌^◌, ◌≡◌, true, arith}
use toy_softswitch.Applications.Barrier.{
  GraphProps, TickMsg, output_flag_dev_out, dev_ready_to_send_handler, dev_in_asserts,
  dev_out_asserts,
}
use toy_softswitch.Applications.Barrier.Network.{System, Run}
use toy_softswitch.Applications.Barrier.Ledger.{ready_out, on_time, seen_bound, together}
use toy_softswitch.Applications.Barrier.Steps.{Run-IsLedger}

module _ (g : GraphProps) where
  -- Device `i` is at most one step ahead of any other, its handlers' assertions hold, and it has
  -- counted no more ticks than there are devices.
  abbrev pub InStep : System → ℕ → Type 0
  InStep s i =
      ((j : ℕ) → j < g.dev_count → (s.devs i).t ≤ (s.devs j).t + 1)
      × ((msg : TickMsg) → 0 < s.ticks i msg.t → dev_in_asserts (s.devs i) msg ≡ true)
      × (dev_ready_to_send_handler g (s.devs i) ≡ output_flag_dev_out
          → dev_out_asserts g (s.devs i) ≡ true)
      × ((s.devs i).seen_now ≤ g.dev_count)
      × ((s.devs i).seen_next ≤ g.dev_count)

  -- In every run of a barrier of fewer than 2^32 - 1 devices and time steps, with its messages
  -- delivered in any order, no device is more than one step ahead of another; the assertions of its
  -- receive handler and of its send handler hold whenever they run, and neither of its two counters
  -- passes the number of devices.
  pub Run-InStep :
      (k : ℕ) (s : System)
      → g.max_time + 1 < 2 ^ 32
      → g.dev_count + 1 < 2 ^ 32
      → Run g k s
      → (i : ℕ) → i < g.dev_count
      → InStep s i
  unfolding dev_in_asserts dev_out_asserts
  Run-InStep k s few fits r i hi =
      let q = Run-IsLedger g few fits r in
      let (now, soon) = seen_bound g s q i hi in
      (
        λ j hj. together g s q i j hi hj,
        λ msg coming.
            let (low, high) = on_time g s q i msg.t hi coming in ground (arith, q.in_time i hi),
        λ ready. let (going, full) = ready_out g (s.devs i) ready in ground arith,
        omega (arith, now),
        omega (arith, soon),
      )
