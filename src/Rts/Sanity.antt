-- ===== src/Rts/Sanity.antt =====
-- The assertions of the debug build about the list: `rts_is_on_list` and `rts_sanity`.
use toy_softswitch.Prelude.{
  ℕ, zero, suc, ◌<◌, ◌≡◌, refl, sym, ap, subst, ◌∙◌, Bool, true, false, ◌&&◌, none, some, List, [],
  ◌∷◌, arith, ◌==◌, has, All, inl, inr, Bool-cases, length, length-le_of_Distinct, lt→ltb,
}
use toy_softswitch.Context.{App, Ptr, PThreadContext, ptr_eq}
use toy_softswitch.Rts.Links.{Forward, Backward, last_or, last_or-some}
use toy_softswitch.Rts.{
  any_ready, is_on_list_loop, rts_is_on_list, sanity_loop, rts_sanity, prev_linked, next_linked,
}
use toy_softswitch.Rts.Queue.{next_of, prev_of, IsRts}
use toy_softswitch.Rts.Update.{Tracks, polled, polled_flags, polled-IsRts, flags_self}

module _ {A : App} where
  is_on_list_loop-has :
      (fuel : ℕ) (c : PThreadContext A) (i : ℕ) (p : Ptr) (xs : List ℕ)
      → Forward (next_of c) p xs
      → All (λ j. j < c.num_devices) xs
      → length xs < fuel
      → is_on_list_loop fuel c i p ≡ some (has i xs)
  unfolding is_on_list_loop
  is_on_list_loop-has zero c i p xs f b l = absurd (omega arith)
  is_on_list_loop-has (suc fuel) c i p [] f b l = rw f
  is_on_list_loop-has (suc fuel) c i p (x ∷ xs) f b l =
      rw (f.0, lt→ltb _ _ b.0, is_on_list_loop-has fuel c i (next_of c x) xs f.1 b.1 (omega arith))
        (ground arith)

  -- On a well-linked list the search for a device ends, follows no null pointer, and answers
  -- whether the device is on the list.
  pub rts_is_on_list-has :
      (c : PThreadContext A) (i : ℕ) (xs : List ℕ)
      → IsRts c xs
      → rts_is_on_list c i ≡ some (has i xs)
  unfolding rts_is_on_list
  rts_is_on_list-has c i xs q =
      is_on_list_loop-has _ c i c.rts_head xs q.forward q.bounded
        (omega (arith, length-le_of_Distinct _ xs q.distinct q.bounded))

  abbrev pub all_ready : PThreadContext A → List ℕ → Bool
  all_ready c [] = true
  all_ready c (x ∷ xs) = any_ready (c.devices x).rts_flags && all_ready c xs

  -- What is known of the element before the walk's position `p`.
  abbrev Before : PThreadContext A → Ptr → Ptr → Type 0
  Before c none p = c.rts_head ≡ p
  Before c (some z) p = (z < c.num_devices) × (next_of c z ≡ p)

  prev_linked-true :
      (c : PThreadContext A) (b : Ptr) (x : ℕ)
      → prev_of c x ≡ b
      → Before c b (some x)
      → prev_linked c x (prev_of c x) ≡ some true
  unfolding prev_linked
  prev_linked-true c none x e w = rw (e, w) (ground arith)
  prev_linked-true c (some z) x e w = rw (e, lt→ltb _ _ w.0, w.1) (ground arith)

  next_linked-true :
      (c : PThreadContext A) (x : ℕ) (xs : List ℕ)
      → Forward (next_of c) (next_of c x) xs
      → Backward (prev_of c) (some x) xs
      → c.rts_tail ≡ last_or (some x) xs
      → All (λ j. j < c.num_devices) xs
      → next_linked c x (next_of c x) ≡ some true
  unfolding next_linked
  next_linked-true c x [] f k e h = rw (f, e) (ground arith)
  next_linked-true c x (y ∷ ys) f k e h = rw (f.0, lt→ltb _ _ h.0, k.0) (ground arith)

  sanity_loop-all_ready :
      (fuel : ℕ) (c : PThreadContext A) (b p : Ptr) (xs : List ℕ)
      → Forward (next_of c) p xs
      → Backward (prev_of c) b xs
      → c.rts_tail ≡ last_or b xs
      → All (λ j. j < c.num_devices) xs
      → Before c b p
      → length xs < fuel
      → sanity_loop fuel c p ≡ some (all_ready c xs)
  unfolding sanity_loop
  sanity_loop-all_ready zero c b p xs f k e h w l = absurd (omega arith)
  sanity_loop-all_ready (suc fuel) c b p [] f k e h w l = rw f
  sanity_loop-all_ready (suc fuel) c b p (x ∷ xs) f k e h w l =
      rw
        (
          f.0,
          lt→ltb _ _ h.0,
          prev_linked-true c b x k.0 (subst (Before c b) f.0 w),
          next_linked-true c x xs f.1 k.1 e h.1,
          sanity_loop-all_ready fuel c (some x) (next_of c x) xs f.1 k.1 e h.1 (h.0, refl)
              (omega arith),
        )
        (ground arith)

  -- On a well-linked list the check follows no null pointer and ends, and its assertions hold
  -- exactly when every device on the list has a ready output pin.
  rts_sanity-all_ready :
      (c : PThreadContext A) (xs : List ℕ) → IsRts c xs → rts_sanity c ≡ some (all_ready c xs)
  unfolding rts_sanity
  rts_sanity-all_ready c [] q = rw q.forward
  rts_sanity-all_ready c (x ∷ xs) q =
      let (t, last) = last_or-some x xs in
      let e : c.rts_tail ≡ some t = q.tail ∙ last in
      let some_head : ptr_eq c.rts_head none ≡ false = ground arith in
      let some_tail : ptr_eq c.rts_tail none ≡ false = ground arith in
      rw (some_head, some_tail)
        (sanity_loop-all_ready _ c none c.rts_head (x ∷ xs) q.forward q.backward q.tail q.bounded
          refl (omega (arith, length-le_of_Distinct _ (x ∷ xs) q.distinct q.bounded)))

  all_ready-has :
      (c : PThreadContext A) (i : ℕ) (xs : List ℕ)
      → has i xs ≡ true
      → any_ready (c.devices i).rts_flags ≡ false
      → all_ready c xs ≡ false
  all_ready-has c i [] m e = cc
  all_ready-has c i (x ∷ xs) m e = elim (Bool-cases (i == x)) [
    | inl here ↦ let same : i ≡ x = ground arith in rw (← same, e)
    | inr there ↦ ground (arith, all_ready-has c i xs (ground arith) e)
  ]

  all_ready_of :
      (c : PThreadContext A) (xs : List ℕ)
      → All (λ i. i < c.num_devices) xs
      → ((i : ℕ) → i < c.num_devices → has i xs ≡ true → any_ready (c.devices i).rts_flags ≡ true)
      → all_ready c xs ≡ true
  all_ready_of c [] b h = refl
  all_ready_of c (x ∷ xs) b h =
      rw (h x b.0 (ground arith)) (all_ready_of c xs b.1 (λ i k m. h i k (ground arith)))

  -- Where the list holds exactly the devices with a ready output pin, rts_sanity ends, follows no
  -- null pointer, and every one of its assertions holds.
  pub Tracks-rts_sanity :
      (c : PThreadContext A) (xs : List ℕ) → Tracks c xs → rts_sanity c ≡ some true
  Tracks-rts_sanity c xs t =
      rts_sanity-all_ready c xs t.list
      ∙ ap some (all_ready_of c xs t.list.bounded (λ i h m. sym (t.ready i h) ∙ m))

  -- When a device on the list is polled and found not ready, the context that rts_remove is then
  -- called on fails the check that rts_remove begins with, so a debug build stops.
  pub removal_asserts :
      (c : PThreadContext A) (i : ℕ) (xs : List ℕ)
      → Tracks c xs
      → has i xs ≡ true
      → any_ready (polled_flags c i) ≡ false
      → rts_sanity (polled c i) ≡ some false
  removal_asserts c i xs t m e =
      rts_sanity-all_ready (polled c i) xs (polled-IsRts c i xs t.list)
      ∙ ap some (all_ready-has (polled c i) i xs m (rw (flags_self c i i (ground arith)) e))
