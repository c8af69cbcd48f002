-- ===== src/Applications/EdgeProps/Ticks.antt =====
-- The program of src/applications/edge_props at run time: any number of outer devices, whose ticks
-- are sent and delivered in any order. The edge of outer device `i` has the mask `1 << i`.
use toy_softswitch.Prelude.{
  ◌↔◌, ℕ, ◌+◌, ◌-◌, ◌^◌, ◌<◌, ◌≤◌, ◌⊎◌, ◌≡◌, refl, ap, sym, ◌∙◌, Bool, true, false, ◌&&◌, ◌||◌,
  none, some, arith, ◌==◌, inl, inr, Bool-cases, update, subst, ==_self,
}
use toy_softswitch.Applications.EdgeProps.{
  DevState, DevProps, InnerInProps, bit_or, bit_and, outer_ready_to_send_handler,
  outer_out_send_handler, inner_in_receive_handler, inner_in_asserts, inner_in_exits,
}
use toy_softswitch.Applications.EdgeProps.Bits.{
  bit, word, bit_or-word, bit_and-word, word_congr, word_none, word_single, word_full,
  word_full_bits,
}

-- `ticks i` is the number of ticks of outer device `i` on their way.
pub record World : Type 0 where
  pub outers : ℕ → DevState
  pub inner : DevState
  pub ticks : ℕ → ℕ

abbrev pub mask_of : ℕ → InnerInProps
mask_of i = record { mask = 2 ^ i }

abbrev pub start : World
start = record {
  outers = λ i. DevState.outer_state 1;
  inner = DevState.inner_state 0;
  ticks = λ i. 0;
}

abbrev pub send_tick : World → ℕ → World
send_tick s i = record s {
  outers = update s.outers i (outer_out_send_handler tt DevProps.outer_props (s.outers i) tt).0;
  ticks = update s.ticks i (s.ticks i + 1);
}

abbrev pub receive_tick : ℕ → World → ℕ → World
receive_tick n s i = record s {
  inner =
      (inner_in_receive_handler tt (DevProps.inner_props n) s.inner (some (mask_of i)) none tt).0;
  ticks = update s.ticks i (s.ticks i - 1);
}

module _ (n : ℕ) where
  -- A send handler runs on a device that is ready, and a receive handler on a tick on its way.
  pub data Run : World → Type 0 where
    started : Run start
    outer_out :
        (s : World) (i : ℕ)
        → Run s
        → i < n
        → (outer_ready_to_send_handler tt DevProps.outer_props (s.outers i)).1 ≡ 1
        → Run (send_tick s i)
    inner_in : (s : World) (i : ℕ) → Run s → i < n → 0 < s.ticks i → Run (receive_tick n s i)

  -- The tick of each device is still to be sent, or on its way, or among the seen ones.
  record Once (s : World) (seen : ℕ → Bool) (i : ℕ) : Type 0 where
    ready : ℕ
    outer : s.outers i ≡ DevState.outer_state ready
    one : ready + s.ticks i + bit (seen i) ≡ 1

  record IsTicking (s : World) : Type 0 where
    seen : ℕ → Bool
    acc : s.inner ≡ DevState.inner_state (word seen 0 n)
    once : (i : ℕ) → i < n → Once s seen i

  single : (i : ℕ) → i < n → word (λ j. j == i) 0 n ≡ 2 ^ i
  single i h =
      let all : i - 0 ≡ i = omega arith in
      word_single i 0 n (omega arith) (omega arith) ∙ ap (λ k. 2 ^ k) all

  sent-Once :
      (s : World) (seen : ℕ → Bool) (i : ℕ)
      → (outer_ready_to_send_handler tt DevProps.outer_props (s.outers i)).1 ≡ 1
      → Once s seen i
      → Once (send_tick s i) seen i
  sent-Once s seen i ready o =
      let flags =
        ap (λ x. (outer_ready_to_send_handler tt DevProps.outer_props x).1) (sym o.outer) ∙ ready in
      let was_ready : o.ready ≡ 1 = ground arith in
      let here : (i == i) ≡ true = ==_self i in
      record {
        ready = 0;
        outer = rw here (ap (λ x. (outer_out_send_handler tt DevProps.outer_props x tt).0) o.outer);
        one = rw here (omega (arith, o.one));
      }

  send_tick-Once :
      (s : World) (seen : ℕ → Bool) (i j : ℕ)
      → (outer_ready_to_send_handler tt DevProps.outer_props (s.outers i)).1 ≡ 1
      → Once s seen i
      → Once s seen j
      → Once (send_tick s i) seen j
  send_tick-Once s seen i j ready o p = elim (Bool-cases (i == j)) [
    | inl at ↦
        let here : i ≡ j = ground arith in
        subst (Once (send_tick s i) seen) here (sent-Once s seen i ready o)
    | inr off ↦ record { ready = p.ready; outer = rw off p.outer; one = rw off p.one }
  ]

  receive_tick-Once :
      (s : World) (seen : ℕ → Bool) (i j : ℕ)
      → 0 < s.ticks i
      → Once s seen j
      → Once (receive_tick n s i) (λ k. seen k || (k == i)) j
  receive_tick-Once s seen i j h p = elim (Bool-cases (j == i)) [
    | inl at ↦
        let here : j ≡ i = ground arith in
        let on : (i == j) ≡ true = ground arith in
        let some_tick : 0 < s.ticks j = subst (λ k. 0 < s.ticks k) (sym here) h in
        record { ready = p.ready; outer = p.outer; one = rw (on, at) (ground (arith, p.one)) }
    | inr off ↦
        let away : (i == j) ≡ false = ground arith in
        record { ready = p.ready; outer = p.outer; one = rw (away, off) (ground (arith, p.one)) }
  ]

  -- A device whose tick is on its way is not among the seen ones.
  unseen : (s : World) (seen : ℕ → Bool) (i : ℕ) → 0 < s.ticks i → Once s seen i → seen i ≡ false
  unseen s seen i h o = ground (arith, o.one)

  Run-IsTicking : (s : World) → n ≤ 30 → Run s → IsTicking s
  Run-IsTicking _ few Run.started = record {
    seen = λ i. false;
    acc = ap DevState.inner_state (sym (word_none 0 n));
    once = λ i h. record { ready = 1; outer = refl; one = refl };
  }
  Run-IsTicking _ few (Run.outer_out s i r h ready) =
      let t = Run-IsTicking s few r in
      record {
        seen = t.seen;
        acc = t.acc;
        once = λ j h'. send_tick-Once s t.seen i j ready (t.once i h) (t.once j h');
      }
  Run-IsTicking _ few (Run.inner_in s i r h some_tick) =
      let t = Run-IsTicking s few r in
      record {
        seen = λ k. t.seen k || (k == i);
        acc =
            ap
              (λ x.
                (inner_in_receive_handler tt (DevProps.inner_props n) x (some (mask_of i)) none
                  tt).0)
              t.acc
            ∙ ap DevState.inner_state (
                ap (bit_or 32 (word t.seen 0 n)) (sym (single i h))
                ∙ bit_or-word t.seen (λ j. j == i) 0 n 32 (omega arith));
        once = λ j h'. receive_tick-Once s t.seen i j some_tick (t.once j h');
      }

  masked :
      (seen : ℕ → Bool) (i : ℕ)
      → i < n
      → n ≤ 30
      → seen i ≡ false
      → bit_and 32 (word seen 0 n) (2 ^ i) ≡ 0
  masked seen i h few out =
      ap (bit_and 32 (word seen 0 n)) (sym (single i h))
      ∙ bit_and-word seen (λ j. j == i) 0 n 32 (omega arith)
      ∙ word_congr (λ j. seen j && (j == i)) (λ j. false) 0 n
          (λ j l u. apart j (Bool-cases (j == i)))
      ∙ word_none 0 n
    where
      apart : (j : ℕ) → ((j == i) ≡ true) ⊎ ((j == i) ≡ false) → (seen j && (j == i)) ≡ false
      apart j (inl at) =
          let here : i ≡ j = ground arith in let off = ap seen (sym here) ∙ out in rw off refl
      apart j (inr off) = ground arith

  -- A device that is neither ready nor has a tick on its way is among the seen ones.
  served :
      (s : World) (seen : ℕ → Bool) (i : ℕ)
      → Once s seen i
      → s.outers i ≡ DevState.outer_state 0
      → s.ticks i ≡ 0
      → seen i ≡ true
  served s seen i o sent none_left =
      let quiet = ap ready_of (sym o.outer ∙ sent) in ground (arith, o.one)
    where
      ready_of : DevState → ℕ
      ready_of (DevState.outer_state r) = r
      ready_of (DevState.inner_state acc) = 0

  -- In every run of edge_props with at most 30 outer devices, the edge of each with a mask of its
  -- own bit, and with their ticks sent and delivered in any order: the assertion of the inner
  -- receive handler holds for every tick on its way, and the test with which the program exits
  -- holds exactly when every outer device has sent its tick and none is on its way.
  pub Run-ticks :
      (s : World)
      → n ≤ 30
      → Run s
      → ((i : ℕ) → i < n → 0 < s.ticks i → inner_in_asserts s.inner (mask_of i) ≡ true)
        × (inner_in_exits (DevProps.inner_props n) s.inner ≡ true
            ↔ ((i : ℕ) → i < n → (s.outers i ≡ DevState.outer_state 0) × (s.ticks i ≡ 0)))
  Run-ticks s few r =
      let t = Run-IsTicking s few r in
      (
        λ i h some_tick.
            ap (λ x. inner_in_asserts x (mask_of i)) t.acc
            ∙ ap (λ k. k == 0) (masked t.seen i h few (unseen s t.seen i some_tick (t.once i h))),
        (
          λ e i h.
              let all = ap (inner_in_exits (DevProps.inner_props n)) (sym t.acc) ∙ e in
              let on = word_full_bits t.seen 0 n (ground arith) i (omega arith) (omega arith) in
              let o = t.once i h in
              let quiet : o.ready ≡ 0 = ground (arith, o.one) in
              (o.outer ∙ ap DevState.outer_state quiet, ground (arith, o.one)),
          λ all.
              let full = word_full t.seen 0 n λ j l u.
                let (sent, none_left) = all j (omega arith) in
                served s t.seen j (t.once j (omega arith)) sent none_left in
              ap (inner_in_exits (DevProps.inner_props n)) t.acc
              ∙ ap (λ k. k == 2 ^ n - 1) full
              ∙ ==_self (2 ^ n - 1),
        ),
      )
