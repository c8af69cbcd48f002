-- ===== src/Idle/Sweep.antt =====
-- The sweep of `softswitch_onIdle` over the devices that want to compute.

use toy_softswitch.Prelude.{
  ℕ, zero, suc, ◌+◌, ◌-◌, ◌%◌, ◌^◌, ◌<◌, ◌≤◌, ◌≡◌, refl, ap, sym, subst, ◌∙◌, true, false, Option,
  none, some, arith, leb, ◌==◌, if◌then◌else◌, lt→ltb, Bool-cases, inl, inr, Yields, Yields_mono,
}
use toy_softswitch.Context.{App, PThreadContext}
use toy_softswitch.Rts.{wants_compute}
use toy_softswitch.Rts.Queue.{flags_of}
use toy_softswitch.Idle.{advance, sweep}

-- How far the sweep has to go from offset `o` to device `j` of `n`.
abbrev pub ahead : ℕ → ℕ → ℕ → ℕ
ahead n o j = if leb o j then j - o else j + n - o

-- The sweep stands on a device, and every device but `i` that wants to compute lies among the ones
-- that it has still to check.
pub record IsSweptBut {A : App} (c : PThreadContext A) (i : ℕ) : Type 0 where
  pub offset : c.rtc_offset < c.num_devices
  pub few : c.num_devices + 32 < 2 ^ 32
  pub waiting :
      (j : ℕ)
      → j < c.num_devices
      → (j == i) ≡ false
      → wants_compute (flags_of c j) ≡ true
      → ahead c.num_devices c.rtc_offset j + c.rtc_checked < c.num_devices

-- The same without an exception.
abbrev pub IsSwept : {A : App} → PThreadContext A → Type 0
IsSwept c = IsSweptBut c c.num_devices

module _ {A : App} where
  -- A context whose sweep has moved.
  abbrev pub moved : PThreadContext A → ℕ → ℕ → PThreadContext A
  moved c o k = record c { rtc_offset = o; rtc_checked = k }

  advance_lem :
      (c : PThreadContext A)
      → c.rtc_offset < c.num_devices
      → c.num_devices + 32 < 2 ^ 32
      → c.rtc_checked < c.num_devices + 32
      → advance c
        ≡ moved c
            (if leb c.num_devices (c.rtc_offset + 1) then 0 else c.rtc_offset + 1)
            (c.rtc_checked + 1)
  unfolding advance
  advance_lem c h few k =
      let o : (c.rtc_offset + 1) % 2 ^ 32 ≡ c.rtc_offset + 1 = omega arith in
      let m : (c.rtc_checked + 1) % 2 ^ 32 ≡ c.rtc_checked + 1 = omega arith in rw (o, m) refl

  -- Past the device at the offset, all others are one step nearer.
  advance-IsSweptBut :
      (c : PThreadContext A)
      → IsSwept c
      → c.rtc_checked < c.num_devices + 32
      → IsSweptBut (advance c) c.rtc_offset
  advance-IsSweptBut c s k =
      subst (λ d. IsSweptBut d c.rtc_offset) (sym (advance_lem c s.offset s.few k))
        (record {
          offset = nearer_offset c.num_devices c.rtc_offset s.offset;
          few = s.few;
          waiting = λ j h ne w.
              nearer c.num_devices c.rtc_offset j c.rtc_checked h ne s.offset
                (s.waiting j h (ground arith) w);
        })
    where
      nearer_offset : (n o : ℕ) → o < n → (if leb n (o + 1) then 0 else o + 1) < n
      nearer_offset n o h = ground arith

      nearer :
          (n o j k : ℕ)
          → j < n
          → (j == o) ≡ false
          → o < n
          → ahead n o j + k < n
          → ahead n (if leb n (o + 1) then 0 else o + 1) j + (k + 1) < n
      nearer n o j k h ne ho w = ground arith

  unmoved-IsSweptBut :
      (c : PThreadContext A) (i : ℕ)
      → wants_compute (flags_of c i) ≡ false
      → IsSweptBut c i
      → IsSwept c
  unmoved-IsSweptBut c i idle a = record {
    offset = a.offset;
    few = a.few;
    waiting = λ j h ne w. elim (Bool-cases (j == i)) [
      | inl here ↦
          let same : j ≡ i = ground arith in
          let quiet : wants_compute (flags_of c j) ≡ false =
            ap (λ k. wants_compute (flags_of c k)) same ∙ idle in
          absurd cc
      | inr there ↦ a.waiting j h there w
    ];
  }

  -- What a run of the loop over `n` devices may come to.
  abbrev pub Swept : PThreadContext A → ℕ → PThreadContext A × Option ℕ → Type 0
  Swept c n (c', none) = IsSwept c' × (c' ≡ moved c c'.rtc_offset (c.rtc_checked + n))
  Swept c n (c', some i) =
      IsSweptBut c' i
      × (i < c.num_devices)
      × (wants_compute (flags_of c i) ≡ true)
      × (c' ≡ moved c c'.rtc_offset c'.rtc_checked)

  pub sweep-Swept :
      (n : ℕ) (c : PThreadContext A)
      → IsSwept c
      → c.rtc_checked + n ≤ c.num_devices + 32
      → Yields (sweep n c) (Swept c n)
  unfolding sweep
  sweep-Swept zero c s k =
      let none_yet : c.rtc_checked ≡ c.rtc_checked + 0 = omega arith in
      (s, ap (moved c c.rtc_offset) none_yet)
  sweep-Swept (suc n) c s k =
      let o = if leb c.num_devices (c.rtc_offset + 1) then 0 else c.rtc_offset + 1 in
      let step = advance_lem c s.offset s.few (omega arith) in
      let but =
        subst (λ d. IsSweptBut d c.rtc_offset) step (advance-IsSweptBut c s (omega arith)) in
      elim (Bool-cases (wants_compute (flags_of c c.rtc_offset))) [
        | inl stop ↦ rw (lt→ltb _ _ s.offset, stop, step) (but, s.offset, stop, refl)
        | inr on ↦
            rw (lt→ltb _ _ s.offset, on, step)
              (Yields_mono (sweep n (moved c o (c.rtc_checked + 1)))
                (sweep-Swept n (moved c o (c.rtc_checked + 1))
                  (unmoved-IsSweptBut (moved c o (c.rtc_checked + 1)) c.rtc_offset on but)
                  (omega arith))
                (more n c (moved c o (c.rtc_checked + 1)) refl))
      ]
    where
      more :
          (n : ℕ) (c c₁ : PThreadContext A)
          → c₁ ≡ moved c c₁.rtc_offset (c.rtc_checked + 1)
          → (r : PThreadContext A × Option ℕ) → Swept c₁ n r
          → Swept c (suc n) r
      more n c c₁ e (c', none) (s, m) =
          let count : c₁.rtc_checked + n ≡ c.rtc_checked + suc n =
            ap (λ d. d.rtc_checked + n) e ∙ omega arith in
          (s, m ∙ λ i. moved (e i) c'.rtc_offset (count i))
      more n c c₁ e (c', some i) (s, h, w, m) = (
        s,
        subst (λ d. i < d.num_devices) e h,
        subst (λ d. wants_compute (flags_of d i) ≡ true) e w,
        m ∙ λ j. moved (e j) c'.rtc_offset c'.rtc_checked,
      )
