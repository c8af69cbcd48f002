-- ===== src/Applications/Barrier/Progress.antt =====
-- The run of a barrier is bounded.
use toy_softswitch.Prelude.{
  ℕ, ◌+◌, ◌*◌, ◌<◌, ◌≤◌, ◌^◌, ◌≡◌, Bool, arith, ltb, ◌⊎◌, inl, inr, Bool-cases, ap, ltb→lt,
}
use toy_softswitch.Applications.Barrier.{GraphProps}
use toy_softswitch.Applications.Barrier.Network.{System, Run}
use toy_softswitch.Applications.Barrier.Count.{bit, total-le, tally-le, tally_none}
use toy_softswitch.Applications.Barrier.Ledger.{reached, is_halted, IsLedger, seen_bound}
use toy_softswitch.Applications.Barrier.Steps.{Run-IsLedger}
use toy_softswitch.Applications.Barrier.Work.{work, Run-work}

bit_le : (b : Bool) → bit b ≤ 1
bit_le b = ground arith

pub lt_or_eq : (a b : ℕ) → a ≤ b → (a < b) ⊎ (a ≡ b)
lt_or_eq a b h = elim (Bool-cases (ltb a b)) [
  | inl less ↦ inl (ltb→lt _ _ less)
  | inr more ↦ inr (ground arith)
]

times_lt : (a b c : ℕ) → a < b → a * c + c ≤ b * c
times_lt a b c h = grind arith

pub expand : (m n : ℕ) → n * (m * (n + 1) + n + 1) + n ≡ n * n + n * (m * (n + 1) + 2)
expand m n = grind arith

module _ (g : GraphProps) where
  module _ (s : System) (q : IsLedger g s) where
    -- At the last time no device sends, so none is counted for the next.
    pub none_next : (i : ℕ) → i < g.dev_count → (s.devs i).t ≡ g.max_time → (s.devs i).seen_next ≡ 0
    none_next i hi last =
        let none =
          tally_none (reached ((s.devs i).t + 1)) s.devs g.dev_count
            (λ j hj. ground (arith, q.in_time j hj)) in
        ground (arith, q.ticks i ((s.devs i).t + 1) hi, none)

    work_bound :
        (i : ℕ)
        → i < g.dev_count
        → work g (s.devs i) ≤ g.max_time * (g.dev_count + 1) + g.dev_count + 1
    work_bound i hi =
        let (now, soon) = seen_bound g s q i hi in
        let flag = bit_le (s.devs i).halted in
        elim (lt_or_eq (s.devs i).t g.max_time (q.in_time i hi)) [
          | inl early ↦
              omega
                (arith, times_lt (s.devs i).t g.max_time (g.dev_count + 1) early, now, soon, flag)
          | inr last ↦
              let over = none_next i hi last in
              let same = ap (λ t. t * (g.dev_count + 1)) last in
              omega (arith, same, now, over, flag)
        ]

  -- No run of a barrier of fewer than 2^32 - 1 devices and time steps has more than n * (maxTime *
  -- (n + 1) + 2) handlers for n devices, in whatever order the messages arrive.
  pub Run-length :
      (k : ℕ) (s : System)
      → g.max_time + 1 < 2 ^ 32
      → g.dev_count + 1 < 2 ^ 32
      → Run g k s
      → k ≤ g.dev_count * (g.max_time * (g.dev_count + 1) + 2)
  Run-length k s few fits r =
      let q = Run-IsLedger g few fits r in
      let most = total-le (work g) s.devs g.dev_count _ (work_bound s q) in
      let seen = tally-le is_halted s.devs g.dev_count in
      let done = Run-work g few fits r in
      let sum = q.dones in omega (arith, most, seen, done, sum, expand g.max_time g.dev_count)
