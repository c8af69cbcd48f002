-- ===== src/Main/Idling.antt =====
-- Rounds in a row that only look for idle work: src/softswitch/softswitch_main.cpp calls
-- `softswitch_onIdle` again as long as it returns true.
use toy_softswitch.Prelude.{
  ℕ, zero, suc, ◌+◌, ◌*◌, ◌<◌, ◌≤◌, ◌≡◌, ◌⊎◌, refl, ap, sym, subst, Bool, true, false, Option, none,
  some, List, arith, inl, inr, if◌then◌else◌, ◌>>=◌, Yields, Yields_mono, Yields_bind, Yields_at,
}
use toy_softswitch.Context.{App, PThreadContext}
use toy_softswitch.Rts.{wants_compute}
use toy_softswitch.Rts.Queue.{flags_of}
use toy_softswitch.Rts.Handler.{AfterHandler}
use toy_softswitch.Idle.{softswitch_on_idle}
use toy_softswitch.Idle.Sweep.{moved}
use toy_softswitch.Idle.Progress.{
  computed, Idled, Outcome, softswitch_on_idle-Idled, softswitch_on_idle_done,
}
use toy_softswitch.Main.Sound.{AllSound-CanCompute}
use toy_softswitch.Main.Thread.{IsThread, Outcome-IsThread}

Yields_self : {A : Type 0} (P : A → Type 0) (r : Option A) → Yields r P → Yields r (λ a. r ≡ some a)
Yields_self P none y = y
Yields_self P (some a) y = refl

module _ {A : App} where
  -- Up to `n` calls, until one returns false.
  abbrev pub idle_calls : ℕ → PThreadContext A → Option (PThreadContext A × Bool)
  idle_calls zero c = some (c, true)
  idle_calls (suc n) c = do
    (c', more) ← softswitch_on_idle c
    let rest = idle_calls n c'
    if more then rest else some (c', false)

  -- A device that wanted to compute ran its handler and was polled, and the calls went on from
  -- there.
  pub record Worked (c : PThreadContext A) (r : PThreadContext A × Bool) : Type 0 where
    pub offset : ℕ
    pub checked : ℕ
    pub device : ℕ
    pub handler : A.GraphProps → A.DevProps → A.DevState → A.DevState
    pub listed : List ℕ
    pub after : PThreadContext A
    pub calls : ℕ
    pub within : device < c.num_devices
    pub wanted : wants_compute (flags_of c device) ≡ true
    pub its : (c.devices device).vtable.compute_handler ≡ some handler
    pub ran :
        AfterHandler
          (moved c offset checked)
          device
          (computed c.graph_props (c.devices device) handler)
          listed
          after
    pub rest : idle_calls calls after ≡ some r

  Worked-moved :
      (c : PThreadContext A) (o k : ℕ) (r : PThreadContext A × Bool)
      → Worked (moved c o k) r
      → Worked c r
  Worked-moved c o k r w = record {
    offset = w.offset;
    checked = w.checked;
    device = w.device;
    handler = w.handler;
    listed = w.listed;
    after = w.after;
    calls = w.calls;
    within = w.within;
    wanted = w.wanted;
    its = w.its;
    ran = w.ran;
    rest = w.rest;
  }

  idled : (c : PThreadContext A) (t : IsThread c) → Yields (softswitch_on_idle c) (Idled c t.listed)
  idled c t = softswitch_on_idle-Idled c t.listed t.tracks t.swept (AllSound-CanCompute c t.sound)

  -- Any number of calls is defined.
  idle_calls-IsThread :
      (n : ℕ) (c : PThreadContext A) → IsThread c → Yields (idle_calls n c) (λ r. IsThread r.0)
  idle_calls-IsThread zero c t = t
  idle_calls-IsThread (suc n) c t =
      Yields_bind (softswitch_on_idle c) _ (λ r. IsThread r.0) (idled c t)
        λ (c', more) i. go_on (idle_calls-IsThread n) c' more (Outcome-IsThread c c' more t i)
    where
      go_on :
          ((d : PThreadContext A) → IsThread d → Yields (idle_calls n d) (λ r. IsThread r.0))
          → (c' : PThreadContext A) (more : Bool) → IsThread c'
          → Yields (if more then idle_calls n c' else some (c', false)) (λ r. IsThread r.0)
      go_on again c' true t' = again c' t'
      go_on again c' false t' = t'

  -- The calls gave up and nobody wants to compute, or somebody did.
  abbrev pub Settled : PThreadContext A → PThreadContext A × Bool → Type 0
  Settled c (c', more) =
      ((more ≡ false) × ((j : ℕ) → j < c'.num_devices → wants_compute (flags_of c' j) ≡ false))
      ⊎ Worked c (c', more)

  gives_up :
      (c c' : PThreadContext A) (t : IsThread c)
      → Idled c t.listed (c', false)
      → Settled c (c', false)
  gives_up c c' t (s, q, Outcome.finished e quiet) = inl (
    refl,
    subst (λ d. (j : ℕ) → j < d.num_devices → wants_compute (flags_of d j) ≡ false) (sym e) quiet,
  )

  -- From a thread in order, let softswitch_onIdle be called again for as long as it returns true.
  -- Once the calls but one cover 32 devices each of those that the sweep has still to check, either
  -- a call has returned false and no device wants to compute, or a device that wanted to compute
  -- has run its handler and been polled, and the calls went on from there. No call is undefined.
  pub idle_calls-Settled :
      (n : ℕ) (c : PThreadContext A)
      → IsThread c
      → c.num_devices ≤ c.rtc_checked + 32 * n
      → Yields (idle_calls (suc n) c) (Settled c)
  idle_calls-Settled zero c t h =
      let done = softswitch_on_idle_done c (omega arith) in
      rw done (gives_up c c t (Yields_at (Idled c t.listed) _ (c, false) (idled c t) done))
  idle_calls-Settled (suc m) c t h =
      Yields_bind (softswitch_on_idle c) _ (Settled c) (idled c t)
        λ (c', more) i. go_on (idle_calls-Settled m) c' more i
    where
      nearer : (n k n' k' : ℕ) → n ≤ k + 32 * suc m → n' ≡ n → k' ≡ k + 32 → n' ≤ k' + 32 * m
      nearer n k n' k' h en ek = omega arith

      go_on :
          ((d : PThreadContext A)
            → IsThread d
            → d.num_devices ≤ d.rtc_checked + 32 * m
            → Yields (idle_calls (suc m) d) (Settled d))
          → (c' : PThreadContext A) (more : Bool) → Idled c t.listed (c', more)
          → Yields (if more then idle_calls (suc m) c' else some (c', false)) (Settled c)
      go_on again c' false i = gives_up c c' t i
      go_on again c' true (s, q, Outcome.searching e) =
          Yields_mono (idle_calls (suc m) c')
            (again c' (Outcome-IsThread c c' true t (s, q, Outcome.searching e)) (
              nearer c.num_devices c.rtc_checked c'.num_devices c'.rtc_checked h
                (ap (λ d. d.num_devices) e) (ap (λ d. d.rtc_checked) e)))
            λ r z. elim z [
              | inl quiet ↦ inl quiet
              | inr w ↦ inr (
                  Worked-moved c c'.rtc_offset (c.rtc_checked + 32) r (subst (λ d. Worked d r) e w))
            ]
      go_on again c' true (s, q, Outcome.ran o k i f w wish its a) =
          Yields_mono (idle_calls (suc m) c')
            (Yields_self (λ r. IsThread r.0) (idle_calls (suc m) c')
              (idle_calls-IsThread (suc m) c'
                (Outcome-IsThread c c' true t (s, q, Outcome.ran o k i f w wish its a))))
            λ r e. inr (record {
              offset = o;
              checked = k;
              device = i;
              handler = f;
              listed = t.listed;
              after = c';
              calls = suc m;
              within = w;
              wanted = wish;
              its = its;
              ran = a;
              rest = e;
            })
