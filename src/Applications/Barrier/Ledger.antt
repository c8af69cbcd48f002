-- ===== src/Applications/Barrier/Ledger.antt =====
-- The ledger of a barrier: every tick that was sent is counted by its receiver or on its way.
use toy_softswitch.Prelude.{
  ℕ, ◌+◌, ◌<◌, ◌≤◌, ◌^◌, ◌≡◌, Bool, true, false, arith, ◌==◌, if◌then◌else◌, ltb, leb, inl, inr,
  Bool-cases, leb→le,
}
use toy_softswitch.Applications.Barrier.{
  GraphProps, DevState, TickMsg, output_flag_dev_out, output_flag_halt_out,
  dev_ready_to_send_handler, dev_in_receive_handler, dev_out_send_handler,
}
use toy_softswitch.Applications.Barrier.Network.{System}
use toy_softswitch.Applications.Barrier.Count.{bit, tally, tally-le, tally_full, tally_some}

-- How many ticks of time `m` device `d` has had: all of a time that it has passed.
abbrev pub delivered : ℕ → DevState → ℕ → ℕ
delivered n d m =
    if ltb m d.t
    then n
    else if m == d.t
    then d.seen_now
    else if m == d.t + 1
    then d.seen_next
    else 0

-- Whether a device has reached time `m`, so that it has sent the ticks of time `m`.
abbrev pub reached : ℕ → DevState → Bool
reached m d = leb m d.t

abbrev pub is_halted : DevState → Bool
is_halted d = d.halted

pub ready_out :
    (g : GraphProps) (d : DevState)
    → dev_ready_to_send_handler g d ≡ output_flag_dev_out
    → (d.t < g.max_time) × (d.seen_now ≡ g.dev_count)
unfolding dev_ready_to_send_handler
ready_out g d e = ground arith

pub ready_halt :
    (g : GraphProps) (d : DevState)
    → dev_ready_to_send_handler g d ≡ output_flag_halt_out
    → (g.max_time ≤ d.t) × (d.halted ≡ false)
unfolding dev_ready_to_send_handler
ready_halt g d e = ground arith

-- A send leaves the counts of its device as they are.
pub delivered-out :
    (n : ℕ) (d : DevState) (m : ℕ)
    → d.seen_now ≡ n
    → d.t + 1 < 2 ^ 32
    → delivered n (dev_out_send_handler d).0 m ≡ delivered n d m
unfolding dev_out_send_handler
delivered-out n d m full h = ground arith

pub reached-out :
    (d : DevState) (m : ℕ)
    → d.t + 1 < 2 ^ 32
    → bit (reached m (dev_out_send_handler d).0)
      ≡ bit (reached m d) + (if m == (dev_out_send_handler d).1.t then 1 else 0)
unfolding dev_out_send_handler
reached-out d m h = ground arith

-- A tick of the present time or of the next is counted.
pub delivered-in :
    (n : ℕ) (d : DevState) (msg : TickMsg) (m : ℕ)
    → d.t ≤ msg.t
    → msg.t ≤ d.t + 1
    → d.t + 1 < 2 ^ 32
    → d.seen_now + 1 < 2 ^ 32
    → d.seen_next + 1 < 2 ^ 32
    → delivered n (dev_in_receive_handler d msg) m ≡ delivered n d m + (if m == msg.t then 1 else 0)
unfolding dev_in_receive_handler
delivered-in n d msg m low high h now next = ground arith

pub record IsLedger (g : GraphProps) (s : System) : Type 0 where
  pub ticks :
      (j m : ℕ)
      → j < g.dev_count
      → delivered g.dev_count (s.devs j) m + s.ticks j m ≡ tally (reached m) s.devs g.dev_count
  pub in_time : (j : ℕ) → j < g.dev_count → (s.devs j).t ≤ g.max_time
  pub at_end : (j : ℕ) → j < g.dev_count → (s.devs j).halted ≡ true → (s.devs j).t ≡ g.max_time
  pub dones : s.halt.seen + s.dones ≡ tally is_halted s.devs g.dev_count

module _ (g : GraphProps) where
  -- Where one device has passed a time, every device has reached it.
  passed :
      (s : System)
      → IsLedger g s
      → (j m i : ℕ) → j < g.dev_count
      → m < (s.devs j).t
      → i < g.dev_count
      → m ≤ (s.devs i).t
  passed s q j m i hj hm hi =
      let few = tally-le (reached m) s.devs g.dev_count in
      let full : tally (reached m) s.devs g.dev_count ≡ g.dev_count =
        ground (arith, q.ticks j m, few) in
      leb→le _ _ (tally_full (reached m) s.devs g.dev_count i full hi)

  pub together :
      (s : System)
      → IsLedger g s
      → (i j : ℕ) → i < g.dev_count
      → j < g.dev_count
      → (s.devs i).t ≤ (s.devs j).t + 1
  together s q i j hi hj = elim (Bool-cases (leb (s.devs i).t ((s.devs j).t + 1))) [
    | inl fine ↦ leb→le _ _ fine
    | inr ahead ↦
        let late = passed s q i ((s.devs j).t + 1) j hi (ground arith) hj in absurd (omega arith)
  ]

  -- A tick on its way is of its receiver's present time or of the next.
  pub on_time :
      (s : System)
      → IsLedger g s
      → (j m : ℕ) → j < g.dev_count
      → 0 < s.ticks j m
      → ((s.devs j).t ≤ m) × (m ≤ (s.devs j).t + 1)
  on_time s q j m hj some_way =
      let few = tally-le (reached m) s.devs g.dev_count in
      let e = q.ticks j m hj in
      let (i, hi, at) = tally_some (reached m) s.devs g.dev_count (ground arith) in
      let near = together s q i j hi hj in
      let there = leb→le _ _ at in (ground arith, omega (arith, near, there))

  -- No counter of a device is past the number of devices.
  pub seen_bound :
      (s : System)
      → IsLedger g s
      → (j : ℕ) → j < g.dev_count
      → ((s.devs j).seen_now + s.ticks j (s.devs j).t ≤ g.dev_count)
        × ((s.devs j).seen_next + s.ticks j ((s.devs j).t + 1) ≤ g.dev_count)
  seen_bound s q j hj = (
    ground (arith, q.ticks j (s.devs j).t hj, tally-le (reached (s.devs j).t) s.devs g.dev_count),
    ground (
      arith,
      q.ticks j ((s.devs j).t + 1) hj,
      tally-le (reached ((s.devs j).t + 1)) s.devs g.dev_count,
    ),
  )
