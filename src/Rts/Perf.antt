-- ===== src/Rts/Perf.antt =====
-- The list does not look at the cycle counters.
use mathlib.Core.Option
use toy_softswitch.Prelude.{
  ℕ, ◌≡◌, refl, ap, ◌∙◌, Bool, true, false, Option, none, some, ltb, inl, inr, if◌then◌else◌,
  Bool-cases, ◌>>=◌,
}
use toy_softswitch.Context.{App, Ptr, DeviceContext, PThreadContext, ptr_eq, load, modify}
use toy_softswitch.Context.Host.{Counters}
use toy_softswitch.Rts.{
  any_ready, bool_eq, poll_flags, rts_append, rts_remove, softswitch_update_rts,
}

-- A change that a step does not see may be made before the step or after it.
pub bind_along :
    {A B C D : Type 0} (w : A → C) (v : B → D) (r : Option A) {r' : Option C} (f : C → Option D)
    (g : A → Option B)
    → r' ≡ Option.map w r
    → ((a : A) → f (w a) ≡ Option.map v (g a))
    → (r' >>= f) ≡ Option.map v (r >>= g)
bind_along w v none f g h e = ap (λ q. q >>= f) h
bind_along w v (some a) f g h e = ap (λ q. q >>= f) h ∙ e a

pub bind_both :
    {A B D : Type 0} (v : B → D) (r : Option A) (f : A → Option D) (g : A → Option B)
    → ((a : A) → f a ≡ Option.map v (g a))
    → (r >>= f) ≡ Option.map v (r >>= g)
bind_both v none f g e = refl
bind_both v (some a) f g e = e a

pub bind_equal :
    {A B D : Type 0} (v : B → D) (r : Option A) {r' : Option A} (f : A → Option D)
    (g : A → Option B)
    → r' ≡ r
    → ((a : A) → f a ≡ Option.map v (g a))
    → (r' >>= f) ≡ Option.map v (r >>= g)
bind_equal v r f g h e = ap (λ q. q >>= f) h ∙ bind_both v r f g e

module _ {A : App} (k : Counters) where
  abbrev pub with_perf : PThreadContext A → PThreadContext A
  with_perf c = record c { perf = k }

  modify-with_perf :
      (c : PThreadContext A) (p : Ptr) (f : DeviceContext A → DeviceContext A)
      → modify (with_perf c) p f ≡ Option.map with_perf (modify c p f)
  modify-with_perf c none f = refl
  modify-with_perf c (some i) f = elim (Bool-cases (ltb i c.num_devices)) [
    | inl h ↦ rw h refl
    | inr h ↦ rw h refl
  ]

  if-with_perf :
      (b : Bool) (c : PThreadContext A) (p : Ptr) (f : DeviceContext A → DeviceContext A)
      (d e : PThreadContext A)
      → e ≡ with_perf d
      → (if b then some e else modify (with_perf c) p f)
        ≡ Option.map with_perf (if b then some d else modify c p f)
  if-with_perf true c p f d e h = ap some h
  if-with_perf false c p f d e h = modify-with_perf c p f

  pub load-with_perf :
      {B C : Type 0} (v : B → C) (c : PThreadContext A) (i : ℕ) (f : DeviceContext A → Option C)
      (g : DeviceContext A → Option B)
      → (f (c.devices i) ≡ Option.map v (g (c.devices i)))
      → (load (with_perf c) i >>= f) ≡ Option.map v (load c i >>= g)
  load-with_perf v c i f g e = elim (Bool-cases (ltb i c.num_devices)) [
    | inl h ↦ rw h e
    | inr h ↦ rw h refl
  ]

  pub rts_append-with_perf :
      (c : PThreadContext A) (i : ℕ)
      → rts_append (with_perf c) i ≡ Option.map with_perf (rts_append c i)
  unfolding rts_append
  rts_append-with_perf c i =
      let link = λ (d : DeviceContext A). record d { prev = c.rts_tail; next = none } in
      bind_along with_perf with_perf (modify c (some i) link) _ _ (modify-with_perf c (some i) link)
        λ c₁.
          let last = λ (d : DeviceContext A). record d { next = some i } in
          bind_along with_perf with_perf
            (if ptr_eq c₁.rts_tail none
              then some (record c₁ { rts_head = some i })
              else modify c₁ c₁.rts_tail last)
            _ _
            (if-with_perf (ptr_eq c₁.rts_tail none) c₁ c₁.rts_tail last
              (record c₁ { rts_head = some i }) _ refl)
            λ c₂. refl

  rts_remove-with_perf :
      (c : PThreadContext A) (i : ℕ)
      → rts_remove (with_perf c) i ≡ Option.map with_perf (rts_remove c i)
  unfolding rts_remove
  rts_remove-with_perf c i = load-with_perf with_perf c i _ _ (
      let skip = λ (d : DeviceContext A). record d { next = (c.devices i).next } in
      bind_along with_perf with_perf
        (if ptr_eq c.rts_head (some i)
          then some (record c { rts_head = (c.devices i).next })
          else modify c (c.devices i).prev skip)
        _ _
        (if-with_perf (ptr_eq c.rts_head (some i)) c (c.devices i).prev skip
          (record c { rts_head = (c.devices i).next }) _ refl)
        λ c₁. load-with_perf with_perf c₁ i _ _ (
          if-with_perf (ptr_eq c₁.rts_tail (some i)) c₁ (c₁.devices i).next
            (λ d. record d { prev = (c₁.devices i).prev })
            (record c₁ { rts_tail = (c₁.devices i).prev }) _ refl))

  pub softswitch_update_rts-with_perf :
      (c : PThreadContext A) (i : ℕ)
      → softswitch_update_rts (with_perf c) i ≡ Option.map with_perf (softswitch_update_rts c i)
  unfolding softswitch_update_rts poll_flags
  softswitch_update_rts-with_perf c i = load-with_perf with_perf c i _ _ (
      choose
        (bool_eq (any_ready (c.devices i).rts_flags) (any_ready (poll_flags c i (c.devices i)).1))
        (any_ready (poll_flags c i (c.devices i)).1) (poll_flags c i (c.devices i)).0)
    where
      choose :
          (same now : Bool) (c' : PThreadContext A)
          → (if same
              then some (with_perf c')
              else if now
              then rts_append (with_perf c') i
              else rts_remove (with_perf c') i)
            ≡ Option.map with_perf
                (if same then some c' else if now then rts_append c' i else rts_remove c' i)
      choose true now c' = refl
      choose false true c' = rts_append-with_perf c' i
      choose false false c' = rts_remove-with_perf c' i
