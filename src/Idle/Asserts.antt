-- ===== src/Idle/Asserts.antt =====
-- The assertions around hardware idle: the loop before `tinsel_mboxIdle` in
-- src/softswitch/softswitch_main.cpp, and the two in src/softswitch/softswitch_on_hardware_idle.cpp.
use toy_softswitch.Prelude.{
  ℕ, zero, suc, ◌+◌, ◌%◌, ◌^◌, ◌<◌, ◌≤◌, ◌≡◌, refl, ap, sym, ◌∙◌, Bool, true, false, not, ◌&&◌,
  Option, none, some, List, [], arith, ◌==◌, inl, inr, lt→ltb, Bool-cases, has, Yields, Yields_mono,
  Yields_bind, ◌>>=◌, subst,
}
use toy_softswitch.Context.{App, PThreadContext, load, store}
use toy_softswitch.Rts.{any_ready, wants_compute, rts_is_on_list, softswitch_update_rts}
use toy_softswitch.Rts.Queue.{flags_of}
use toy_softswitch.Rts.Update.{Tracks}
use toy_softswitch.Rts.Handler.{Tracks-same, noted, touched-AfterHandler}
use toy_softswitch.Rts.Sanity.{rts_is_on_list-has}
use toy_softswitch.Idle.{idle_device, run_idle}
use toy_softswitch.Idle.Progress.{computed}
use toy_softswitch.Idle.Hardware.{idle_device_lem}

any_ready-no_flags : (f : ℕ) → f % 2 ^ 32 == 0 ≡ true → any_ready f ≡ false
any_ready-no_flags f e = ground arith

wants_compute-no_flags : (f : ℕ) → f % 2 ^ 32 == 0 ≡ true → wants_compute f ≡ false
wants_compute-no_flags f e = ground arith

no_flags_zero : (f : ℕ) → any_ready f ≡ false → wants_compute f ≡ false → f % 2 ^ 32 == 0 ≡ true
no_flags_zero f r w = ground arith

both : (a b : Bool) → (a && b) ≡ true → (a ≡ true) × (b ≡ true)
both a b e = (ground arith, ground arith)

module _ {A : App} where
  -- The 32-bit flags of device `i` are 0.
  abbrev no_flags : PThreadContext A → ℕ → Bool
  no_flags c i = flags_of c i % 2 ^ 32 == 0

  flags_loop : ℕ → PThreadContext A → Bool
  flags_loop zero c = true
  flags_loop (suc n) c = flags_loop n c && no_flags c n

  -- Whether the assertions before `tinsel_mboxIdle` hold.
  pub before_idle_asserts : PThreadContext A → Bool
  unfolding flags_loop
  before_idle_asserts c = flags_loop c.num_devices c

  -- The two assertions at the turn of device `i`.
  turn_asserts : PThreadContext A → ℕ → Option Bool
  turn_asserts c i = do
    dev ← load c i
    listed ← rts_is_on_list c i
    some ((dev.rts_flags % 2 ^ 32 == 0) && not listed)

  asserting_turns : ℕ → ℕ → PThreadContext A → Option Bool
  unfolding turn_asserts
  asserting_turns zero i c = some true
  asserting_turns (suc n) i c = do
    now ← turn_asserts c i
    c ← idle_device c i
    later ← asserting_turns n (i + 1) c
    some (now && later)

  -- Whether the assertions of `softswitch_on_hardware_idle` hold, at the turn of each device.
  pub hardware_idle_asserts : PThreadContext A → Option Bool
  unfolding asserting_turns
  hardware_idle_asserts c =
      asserting_turns c.num_devices 0 (record c { rts_head = none; rts_tail = none })

  flags_loop-each :
      (n : ℕ) (c : PThreadContext A) → flags_loop n c ≡ true → (j : ℕ) → j < n → no_flags c j ≡ true
  unfolding flags_loop
  flags_loop-each zero c e j h = absurd (omega arith)
  flags_loop-each (suc n) c e j h =
      let (before, last) = both (flags_loop n c) (no_flags c n) e in
      elim (Bool-cases (j == n)) [
        | inl at ↦ let same : n ≡ j = ground arith in subst (λ k. no_flags c k ≡ true) same last
        | inr off ↦ flags_loop-each n c before j (ground arith)
      ]

  each-flags_loop :
      (n : ℕ) (c : PThreadContext A)
      → ((j : ℕ) → j < n → no_flags c j ≡ true)
      → flags_loop n c ≡ true
  unfolding flags_loop
  each-flags_loop zero c e = refl
  each-flags_loop (suc n) c e =
      rw (each-flags_loop n c (λ j h. e j (omega arith)), e n (omega arith)) refl

  -- What a turn leaves for the later ones.
  record Turned (c : PThreadContext A) (i : ℕ) (c' : PThreadContext A) : Type 0 where
    listed : List ℕ
    tracks : Tracks c' listed
    size : c'.num_devices ≡ c.num_devices
    others : (j : ℕ) → (j == i) ≡ false → flags_of c' j ≡ flags_of c j

  run_idle-Turned :
      (c : PThreadContext A) (i : ℕ) (xs : List ℕ)
      (o : Option (A.GraphProps → A.DevProps → A.DevState → A.DevState))
      → i < c.num_devices
      → Tracks c xs
      → Yields (run_idle c i (c.devices i) o) (Turned c i)
  unfolding run_idle
  run_idle-Turned c i xs none h t = record {
    listed = xs;
    tracks = t;
    size = refl;
    others = λ j ne. refl;
  }
  run_idle-Turned c i xs (some f) h t =
      Yields_mono
        (softswitch_update_rts
          (store (noted c i 5 c.current_pin) i (computed c.graph_props (c.devices i) f)) i)
        (touched-AfterHandler c i i 5 c.current_pin (computed c.graph_props (c.devices i) f) xs t h
          refl refl refl)
        λ c' a. record {
          listed = _;
          tracks = a.tracks;
          size = a.size;
          others = λ j ne. ap (λ d. d.rts_flags) (a.others j ne);
        }

  turn_asserts-true :
      (c : PThreadContext A) (i : ℕ) (xs : List ℕ)
      → i < c.num_devices
      → Tracks c xs
      → no_flags c i ≡ true
      → turn_asserts c i ≡ some true
  unfolding turn_asserts
  turn_asserts-true c i xs h t e =
      let off : has i xs ≡ false = t.ready i h ∙ any_ready-no_flags (flags_of c i) e in
      rw (lt→ltb _ _ h, rts_is_on_list-has c i xs t.list, off, e) refl

  asserting_turns-true :
      (n i : ℕ) (c : PThreadContext A) (xs : List ℕ)
      → i + n ≡ c.num_devices
      → Tracks c xs
      → ((j : ℕ) → i ≤ j → j < c.num_devices → no_flags c j ≡ true)
      → Yields (asserting_turns n i c) (λ b. b ≡ true)
  unfolding asserting_turns
  asserting_turns-true zero i c xs e t quiet = refl
  asserting_turns-true (suc n) i c xs e t quiet =
      let within : i < c.num_devices = omega arith in
      rw
        (
          turn_asserts-true c i xs within t (quiet i (omega arith) within),
          idle_device_lem c i within,
        )
        (Yields_bind (run_idle c i (c.devices i) (c.devices i).vtable.on_hardware_idle_handler) _
          (λ b. b ≡ true)
          (run_idle-Turned c i xs (c.devices i).vtable.on_hardware_idle_handler within t)
          λ c' s.
            Yields_bind (asserting_turns n (i + 1) c') _ (λ b. b ≡ true)
              (asserting_turns-true n (i + 1) c' s.listed (next c' s.size) s.tracks λ j h k.
                ap (λ f. f % 2 ^ 32 == 0) (s.others j (ground arith))
                ∙ quiet j (omega arith) (subst (λ m. j < m) s.size k))
              λ b q. q)
    where
      next : (c' : PThreadContext A) → c'.num_devices ≡ c.num_devices → i + 1 + n ≡ c'.num_devices
      next c' size = omega arith

  -- On a thread with nothing on its list and no device that wants to compute, the assertions before
  -- tinsel_mboxIdle hold, and so do those of softswitch_on_hardware_idle at the turn of every
  -- device, whatever the handlers that ran before it made ready.
  pub before_idle_asserts-quiet :
      (c : PThreadContext A)
      → Tracks c []
      → ((j : ℕ) → j < c.num_devices → wants_compute (flags_of c j) ≡ false)
      → (before_idle_asserts c ≡ true) × Yields (hardware_idle_asserts c) (λ b. b ≡ true)
  unfolding before_idle_asserts hardware_idle_asserts
  before_idle_asserts-quiet c t quiet = (
    each-flags_loop c.num_devices c zeroed,
    asserting_turns-true c.num_devices 0 (record c { rts_head = none; rts_tail = none }) []
        (omega arith)
        (Tracks-same c (record c { rts_head = none; rts_tail = none }) [] t
          (λ j. (refl, refl, refl)) (sym t.list.forward) (sym t.list.tail) refl)
        λ j h k. zeroed j k,
  )
    where
      zeroed : (j : ℕ) → j < c.num_devices → no_flags c j ≡ true
      zeroed j h = no_flags_zero (flags_of c j) (sym (t.ready j h)) (quiet j h)

  -- A device that wants to compute makes an assertion before tinsel_mboxIdle fail.
  before_idle_asserts-wish :
      (c : PThreadContext A) (j : ℕ)
      → j < c.num_devices
      → wants_compute (flags_of c j) ≡ true
      → before_idle_asserts c ≡ false
  unfolding before_idle_asserts
  before_idle_asserts-wish c j h w = elim (Bool-cases (flags_loop c.num_devices c)) [
    | inl e ↦
        let none_wanted =
          wants_compute-no_flags (flags_of c j) (flags_loop-each c.num_devices c e j h) in
        absurd cc
    | inr e ↦ e
  ]
