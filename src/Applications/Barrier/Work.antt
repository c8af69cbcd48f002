-- ===== src/Applications/Barrier/Work.antt =====
-- The work of a barrier: how many handlers have run.
use toy_softswitch.Prelude.{ℕ, ◌+◌, ◌*◌, ◌<◌, ◌≤◌, ◌^◌, ◌≡◌, false, arith, add32}
use toy_softswitch.Applications.Barrier.{
  GraphProps, DevState, TickMsg, dev_in_receive_handler, dev_out_send_handler,
  dev_halt_send_handler, halt_in_receive_handler,
}
use toy_softswitch.Applications.Barrier.Network.{System, Step, Run, start}
use toy_softswitch.Applications.Barrier.Count.{bit, total, total-update, tally-le, total_same}
use toy_softswitch.Applications.Barrier.Ledger.{
  is_halted, ready_out, ready_halt, IsLedger, on_time, seen_bound,
}
use toy_softswitch.Applications.Barrier.Steps.{Run-IsLedger}

times_suc : (a b : ℕ) → (a + 1) * b ≡ a * b + b
times_suc a b = grind arith

module _ (g : GraphProps) where
  -- The handlers that a device has run.
  abbrev pub work : DevState → ℕ
  work d = d.t * (g.dev_count + 1) + d.seen_now + d.seen_next + bit d.halted

  work-out :
      (d : DevState)
      → d.t + 1 < 2 ^ 32
      → d.seen_now ≡ g.dev_count
      → work (dev_out_send_handler d).0 ≡ work d + 1
  unfolding dev_out_send_handler
  work-out d h full =
      let now : add32 d.t 1 ≡ d.t + 1 = omega arith in
      rw now (omega (arith, times_suc d.t (g.dev_count + 1)))

  work-in :
      (d : DevState) (msg : TickMsg)
      → d.t ≤ msg.t
      → msg.t ≤ d.t + 1
      → d.t + 1 < 2 ^ 32
      → d.seen_now + 1 < 2 ^ 32
      → d.seen_next + 1 < 2 ^ 32
      → work (dev_in_receive_handler d msg) ≡ work d + 1
  unfolding dev_in_receive_handler
  work-in d msg low high h now soon = ground arith

  work-halt : (d : DevState) → d.halted ≡ false → work (dev_halt_send_handler d) ≡ work d + 1
  unfolding dev_halt_send_handler
  work-halt d e = ground arith

  abbrev pub all_work : System → ℕ
  all_work s = total work s.devs g.dev_count + s.halt.seen

  Step-work :
      (s u : System)
      → g.max_time + 1 < 2 ^ 32
      → g.dev_count + 1 < 2 ^ 32
      → IsLedger g s
      → Step g s u
      → all_work u ≡ all_work s + 1
  unfolding halt_in_receive_handler
  Step-work s u few fits q (Step.dev_out i hi ready) =
      let (going, full) = ready_out g (s.devs i) ready in
      let more = work-out (s.devs i) (omega arith) full in
      let change = total-update work s.devs i (dev_out_send_handler (s.devs i)).0 g.dev_count hi in
      omega (arith, more, change)
  Step-work s u few fits q (Step.dev_in i msg hi coming) =
      let (low, high) = on_time g s q i msg.t hi coming in
      let (now, soon) = seen_bound g s q i hi in
      let more =
        work-in (s.devs i) msg low high (omega (arith, q.in_time i hi)) (omega (arith, now))
          (omega (arith, soon)) in
      let change =
        total-update work s.devs i (dev_in_receive_handler (s.devs i) msg) g.dev_count hi in
      omega (arith, more, change)
  Step-work s u few fits q (Step.halt_out i hi ready) =
      let more = work-halt (s.devs i) (ready_halt g (s.devs i) ready).1 in
      let change = total-update work s.devs i (dev_halt_send_handler (s.devs i)) g.dev_count hi in
      omega (arith, more, change)
  Step-work s u few fits q (Step.halt_in coming) =
      omega (arith, q.dones, tally-le is_halted s.devs g.dev_count)

  pub Run-work :
      {k : ℕ} {s : System}
      → g.max_time + 1 < 2 ^ 32
      → g.dev_count + 1 < 2 ^ 32
      → Run g k s
      → all_work s ≡ g.dev_count * g.dev_count + k
  Run-work few fits Run.here =
      omega (arith, total_same work (start g).devs g.dev_count g.dev_count (λ i h. omega arith))
  Run-work few fits (Run.next r st) =
      omega (arith, Run-work few fits r, Step-work _ _ few fits (Run-IsLedger g few fits r) st)
