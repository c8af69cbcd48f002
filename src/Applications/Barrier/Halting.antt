-- ===== src/Applications/Barrier/Halting.antt =====
-- A barrier ends with all its devices halted.
use toy_softswitch.Prelude.{
  ℕ, ◌+◌, ◌*◌, ◌<◌, ◌^◌, ◌≡◌, true, false, arith, ltb, inl, inr, Bool-cases, ap, ltb→lt,
}
use toy_softswitch.Applications.Barrier.{
  GraphProps, DevState, output_flag_dev_out, output_flag_halt_out, dev_ready_to_send_handler,
}
use toy_softswitch.Applications.Barrier.Network.{System, Step, Run}
use toy_softswitch.Applications.Barrier.Count.{bit, tally_all, earliest, total_same}
use toy_softswitch.Applications.Barrier.Ledger.{reached, is_halted, IsLedger}
use toy_softswitch.Applications.Barrier.Steps.{Run-IsLedger}
use toy_softswitch.Applications.Barrier.Work.{work, Run-work}
use toy_softswitch.Applications.Barrier.Progress.{lt_or_eq, expand, none_next}

pub out_ready :
    (g : GraphProps) (d : DevState)
    → d.t < g.max_time
    → d.seen_now ≡ g.dev_count
    → dev_ready_to_send_handler g d ≡ output_flag_dev_out
unfolding dev_ready_to_send_handler
out_ready g d early full = ground arith

halt_ready :
    (g : GraphProps) (d : DevState)
    → d.t ≡ g.max_time
    → d.halted ≡ false
    → dev_ready_to_send_handler g d ≡ output_flag_halt_out
unfolding dev_ready_to_send_handler
halt_ready g d last awake = ground arith

module _ (g : GraphProps) where
  -- No handler can run.
  abbrev pub IsQuiet : System → Type 0
  IsQuiet s = (u : System) → ¬ Step g s u

  module _ (s : System) (q : IsLedger g s) (quiet : IsQuiet s) where
    no_ticks : (j m : ℕ) → j < g.dev_count → s.ticks j m ≡ 0
    no_ticks j m hj = elim (Bool-cases (ltb 0 (s.ticks j m))) [
      | inl coming ↦ absurd (quiet _ (Step.dev_in j (record { t = m }) hj (ltb→lt _ _ coming)))
      | inr none ↦ ground arith
    ]

    no_dones : s.dones ≡ 0
    no_dones = elim (Bool-cases (ltb 0 s.dones)) [
      | inl coming ↦ absurd (quiet _ (Step.halt_in (ltb→lt _ _ coming)))
      | inr none ↦ ground arith
    ]

    -- The earliest device has seen its whole step, so it would send if it were not at the end.
    all_late : (j : ℕ) → j < g.dev_count → (s.devs j).t ≡ g.max_time
    all_late j hj =
        let (i, hi, least) = earliest s.devs g.dev_count (omega (arith, hj)) in
        let everyone =
          tally_all (reached (s.devs i).t) s.devs g.dev_count
            (λ k hk. ground (arith, least k hk)) in
        let full : (s.devs i).seen_now ≡ g.dev_count =
          ground (arith, q.ticks i (s.devs i).t hi, no_ticks i (s.devs i).t hi, everyone) in
        elim (lt_or_eq (s.devs i).t g.max_time (q.in_time i hi)) [
          | inl early ↦ absurd (quiet _ (Step.dev_out i hi (out_ready g (s.devs i) early full)))
          | inr last ↦ omega (arith, least j hj, q.in_time j hj, last)
        ]

    all_halted : (j : ℕ) → j < g.dev_count → (s.devs j).halted ≡ true
    all_halted j hj = elim (Bool-cases (s.devs j).halted) [
      | inl done ↦ done
      | inr awake ↦
          absurd (quiet _ (Step.halt_out j hj (halt_ready g (s.devs j) (all_late j hj) awake)))
    ]

    all_seen : (j : ℕ) → j < g.dev_count → (s.devs j).seen_now ≡ g.dev_count
    all_seen j hj =
        let everyone =
          tally_all (reached (s.devs j).t) s.devs g.dev_count
            (λ k hk. ground (arith, all_late j hj, all_late k hk)) in
        ground (arith, q.ticks j (s.devs j).t hj, no_ticks j (s.devs j).t hj, everyone)

    work_end :
        (j : ℕ)
        → j < g.dev_count
        → work g (s.devs j) ≡ g.max_time * (g.dev_count + 1) + g.dev_count + 1
    work_end j hj =
        let same = ap (λ t. t * (g.dev_count + 1)) (all_late j hj) in
        let flag = ap bit (all_halted j hj) in
        omega (arith, same, flag, all_seen j hj, none_next g s q j hj (all_late j hj))

  -- A run of a barrier of fewer than 2^32 - 1 devices and time steps in which no handler can run
  -- any more has brought every device to maxTime and halted it, and the halt device has seen each
  -- of them; it took exactly n * (maxTime * (n + 1) + 2) handlers for n devices.
  pub Run-ends :
      (k : ℕ) (s : System)
      → g.max_time + 1 < 2 ^ 32
      → g.dev_count + 1 < 2 ^ 32
      → Run g k s
      → IsQuiet s
      → ((j : ℕ) → j < g.dev_count → ((s.devs j).t ≡ g.max_time) × ((s.devs j).halted ≡ true))
        × (s.halt.seen ≡ g.dev_count)
        × (k ≡ g.dev_count * (g.max_time * (g.dev_count + 1) + 2))
  Run-ends k s few fits r quiet =
      let q = Run-IsLedger g few fits r in
      let halted = tally_all is_halted s.devs g.dev_count (all_halted s q quiet) in
      let seen : s.halt.seen ≡ g.dev_count = omega (arith, halted, q.dones, no_dones s q quiet) in
      let whole = total_same (work g) s.devs g.dev_count _ (work_end s q quiet) in
      let done = Run-work g few fits r in
      (
        λ j hj. (all_late s q quiet j hj, all_halted s q quiet j hj),
        seen,
        omega (arith, whole, done, seen, expand g.max_time g.dev_count),
      )
