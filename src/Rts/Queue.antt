-- ===== src/Rts/Queue.antt =====
-- The ready-to-send list as a queue of device indices: append, pop and remove.
use toy_softswitch.Prelude.{
  ℕ, ◌<◌, ◌≡◌, refl, sym, ap, ◌∙◌, Bool, true, false, not, none, some, List, [], ◌∷◌, ◌++◌, arith,
  ◌==◌, if◌then◌else◌, has, Distinct, All, update, snoc-Distinct, append-All, All-has, lt→ltb,
  Yields,
}
use toy_softswitch.Context.{App, Ptr, DeviceContext, PThreadContext, ptr_eq}
use toy_softswitch.Rts.Links.{
  Forward, Backward, last_or, last_or-has, last_or-some, Forward-frame, Backward-frame,
}
use toy_softswitch.Rts.Splice.{Forward-append, Backward-append, last_or-append}
use toy_softswitch.Rts.{rts_append, rts_pop, softswitch_pop_rts, softswitch_is_rts_ready}

ptr_eq-not-none : (p : Ptr) → not (ptr_eq p none) ≡ false → p ≡ none
ptr_eq-not-none none e = refl
ptr_eq-not-none (some i) e = absurd (ground arith)

module _ {A : App} where
  abbrev pub next_of : PThreadContext A → ℕ → Ptr
  next_of c i = (c.devices i).next

  abbrev pub prev_of : PThreadContext A → ℕ → Ptr
  prev_of c i = (c.devices i).prev

-- The thread's list holds the devices `xs`, in this order.
pub record IsRts {A : App} (c : PThreadContext A) (xs : List ℕ) : Type 0 where
  pub forward : Forward (next_of c) c.rts_head xs
  pub backward : Backward (prev_of c) none xs
  pub tail : c.rts_tail ≡ last_or none xs
  pub distinct : Distinct xs
  pub bounded : All (λ i. i < c.num_devices) xs

-- Nothing but the links of the list has changed.
pub record Relinked {A : App} (c c' : PThreadContext A) : Type 0 where
  pub devices :
      (i : ℕ) → c'.devices i ≡ record (c.devices i) { prev = prev_of c' i; next = next_of c' i }
  pub rest : c' ≡ record c { devices = c'.devices; rts_head = c'.rts_head; rts_tail = c'.rts_tail }

module _ {A : App} where
  abbrev pub flags_of : PThreadContext A → ℕ → ℕ
  flags_of c i = (c.devices i).rts_flags

  pub softswitch_is_rts_ready-false :
      (c : PThreadContext A) → softswitch_is_rts_ready c ≡ false → c.rts_head ≡ none
  unfolding softswitch_is_rts_ready
  softswitch_is_rts_ready-false c e = ptr_eq-not-none c.rts_head e

  -- A device but for its place in the list.
  abbrev pub unlinked : DeviceContext A → DeviceContext A
  unlinked d = record d { prev = none; next = none }

  pub unlinked-Relinked :
      (c c' : PThreadContext A) (i : ℕ)
      → Relinked c c'
      → unlinked (c'.devices i) ≡ unlinked (c.devices i)
  unlinked-Relinked c c' i r = ap unlinked (r.devices i)

  append_empty :
      (c : PThreadContext A) (i : ℕ)
      → i < c.num_devices
      → c.rts_tail ≡ none
      → rts_append c i
        ≡ some (record c {
          devices = update c.devices i (record (c.devices i) { prev = none; next = none });
          rts_head = some i;
          rts_tail = some i;
        })
  unfolding rts_append
  append_empty c i h e = rw (lt→ltb _ _ h, e) refl

  append_behind :
      (c : PThreadContext A) (i t : ℕ)
      → i < c.num_devices
      → t < c.num_devices
      → (i == t) ≡ false
      → c.rts_tail ≡ some t
      → rts_append c i
        ≡ some (record c {
          devices =
              update
                (update c.devices i (record (c.devices i) { prev = some t; next = none }))
                t
                (record (c.devices t) { next = some i });
          rts_tail = some i;
        })
  unfolding rts_append
  append_behind c i t h k ne e = rw (lt→ltb _ _ h, e, lt→ltb _ _ k, ne) refl

  -- rts_append of a device of the thread that is not on the list is defined, puts it behind the
  -- list, and changes nothing but links.
  pub rts_append-IsRts :
      (c : PThreadContext A) (i : ℕ) (xs : List ℕ)
      → IsRts c xs
      → i < c.num_devices
      → has i xs ≡ false
      → Yields (rts_append c i) (λ c'. IsRts c' (xs ++ i ∷ []) × Relinked c c')
  rts_append-IsRts c i [] q h out = rw (append_empty c i h q.tail) (
    record {
      forward = (refl, ground arith);
      backward = (ground arith, tt);
      tail = refl;
      distinct = (refl, tt);
      bounded = (h, tt);
    },
    record { devices = λ j. ground arith; rest = refl },
  )
  rts_append-IsRts c i (y ∷ ys) q h out =
      let (t, last) = last_or-some y ys in
      let e : c.rts_tail ≡ some t = q.tail ∙ last in
      let within : has t (y ∷ ys) ≡ true = last_or-has none y ys t last in
      let ne : (i == t) ≡ false = ground arith in
      rw (append_behind c i t h (All-has _ t (y ∷ ys) q.bounded within) ne e) (
        record {
          forward = (
            q.forward.0,
            (Forward-append (next_of c) _ none c.rts_head i (y ∷ ys) q.forward q.distinct
                (λ j m far. ground arith) (λ j m near. ground arith) (ground arith)).1,
          );
          backward =
              Backward-append (prev_of c) _ none i (y ∷ ys) q.backward (λ j m. ground arith)
                (ground arith);
          tail = sym (last_or-append none i (y ∷ ys));
          distinct = snoc-Distinct i (y ∷ ys) q.distinct out;
          bounded = append-All _ (y ∷ ys) (i ∷ []) q.bounded (h, tt);
        },
        record { devices = λ j. ground arith; rest = refl },
      )

  pub rts_pop_empty : (c : PThreadContext A) → IsRts c [] → rts_pop c ≡ some (c, none)
  unfolding rts_pop
  rts_pop_empty c q = rw q.forward

  -- rts_pop on a list that is not empty is defined, returns its first device and takes it off, and
  -- changes nothing but links.
  pub rts_pop-IsRts :
      (c : PThreadContext A) (y : ℕ) (ys : List ℕ)
      → IsRts c (y ∷ ys)
      → Yields (rts_pop c) (λ (c', p). (p ≡ some y) × IsRts c' ys × Relinked c c')
  unfolding rts_pop
  rts_pop-IsRts c y [] q =
      rw (q.forward.0, lt→ltb _ _ q.bounded.0, q.forward.1)
        (
          refl,
          record { forward = refl; backward = tt; tail = refl; distinct = tt; bounded = tt },
          record { devices = λ j. refl; rest = refl },
        )
  rts_pop-IsRts c y (z ∷ zs) q =
      rw (q.forward.0, lt→ltb _ _ q.bounded.0, q.forward.1.0, lt→ltb _ _ q.bounded.1.0)
        (
          refl,
          record {
            forward = (
              refl,
              Forward-frame (next_of c) _ _ zs (ground (arith, q.forward.1.1))
                  (λ j m. ground arith),
            );
            backward = (
              ground arith,
              Backward-frame (prev_of c) _ (some z) zs q.backward.1.1 (λ j m. ground arith),
            );
            tail = q.tail;
            distinct = q.distinct.1;
            bounded = q.bounded.1;
          },
          record { devices = λ j. ground arith; rest = refl },
        )

  -- A device that may have to go behind the list.
  pub append_if-IsRts :
      (now : Bool) (c : PThreadContext A) (i : ℕ) (xs : List ℕ)
      → IsRts c xs
      → i < c.num_devices
      → has i xs ≡ false
      → Yields
          (if now then rts_append c i else some c)
          (λ c'. IsRts c' (if now then xs ++ i ∷ [] else xs) × Relinked c c')
  append_if-IsRts true c i xs q h out = rts_append-IsRts c i xs q h out
  append_if-IsRts false c i xs q h out = (q, record { devices = λ j. refl; rest = refl })

  pub softswitch_pop_rts_lem : (c : PThreadContext A) → softswitch_pop_rts c ≡ rts_pop c
  unfolding softswitch_pop_rts
  softswitch_pop_rts_lem c = refl
