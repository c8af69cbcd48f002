-- ===== src/Rts/Wires.antt =====
-- The list and the polls keep a thread's wires.
use toy_softswitch.Prelude.{ℕ, ◌≡◌, refl, none, some, if◌then◌else◌}
use toy_softswitch.Context.{App, Ptr, DeviceContext, PThreadContext, ptr_eq, store, modify}
use toy_softswitch.Wiring.{
  Always, Always_bind, wires, Keeps, Keeps-refl, store-Keeps, modify-Keeps, load-Always, from-Keeps,
  then-Keeps, either-Always,
}
use toy_softswitch.Rts.{
  any_ready, bool_eq, rts_append, rts_remove, pop_head, rts_pop, poll_flags, softswitch_update_rts,
  softswitch_pop_rts,
}

module _ {A : App} where
  pub rts_append-Keeps : (c : PThreadContext A) (i : ℕ) → Always (rts_append c i) (Keeps c)
  unfolding rts_append
  rts_append-Keeps c i =
      then-Keeps c (modify c (some i) (λ d. record d { prev = c.rts_tail; next = none })) _
        (modify-Keeps c (some i) (λ d. record d { prev = c.rts_tail; next = none }) λ d. refl)
        λ c₁.
          then-Keeps c₁
            (if ptr_eq c₁.rts_tail none
              then some (record c₁ { rts_head = some i })
              else modify c₁ c₁.rts_tail (λ d. record d { next = some i }))
            _
            (either-Always (ptr_eq c₁.rts_tail none) (Keeps c₁) _ _
              (record { thread = refl; size = refl; device = λ j. refl })
              (modify-Keeps c₁ c₁.rts_tail (λ d. record d { next = some i }) λ d. refl))
            λ c₂. record { thread = refl; size = refl; device = λ j. refl }

  rts_remove-Keeps : (c : PThreadContext A) (i : ℕ) → Always (rts_remove c i) (Keeps c)
  unfolding rts_remove
  rts_remove-Keeps c i = load-Always c i _ (Keeps c) λ h.
      then-Keeps c
        (if ptr_eq c.rts_head (some i)
          then some (record c { rts_head = (c.devices i).next })
          else modify c (c.devices i).prev (λ d. record d { next = (c.devices i).next }))
        _
        (either-Always (ptr_eq c.rts_head (some i)) (Keeps c) _ _
          (record { thread = refl; size = refl; device = λ j. refl })
          (modify-Keeps c (c.devices i).prev (λ d. record d { next = (c.devices i).next })
            λ d. refl))
        λ c₁. load-Always c₁ i _ (Keeps c₁) λ k.
          either-Always (ptr_eq c₁.rts_tail (some i)) (Keeps c₁) _ _
            (record { thread = refl; size = refl; device = λ j. refl })
            (modify-Keeps c₁ (c₁.devices i).next (λ d. record d { prev = (c₁.devices i).prev })
              λ d. refl)

  poll_flags-Keeps : (c : PThreadContext A) (i : ℕ) → Keeps c (poll_flags c i (c.devices i)).0
  unfolding poll_flags
  poll_flags-Keeps c i =
      let s =
        store-Keeps c i
          (record (c.devices i) {
            state =
                ((c.devices i).vtable.ready_to_send_handler c.graph_props (c.devices i).properties
                  (c.devices i).state).0;
            rts_flags =
                ((c.devices i).vtable.ready_to_send_handler c.graph_props (c.devices i).properties
                  (c.devices i).state).1;
          })
          refl in
      record { thread = refl; size = refl; device = s.device }

  pub softswitch_update_rts-Keeps :
      (c : PThreadContext A) (i : ℕ) → Always (softswitch_update_rts c i) (Keeps c)
  unfolding softswitch_update_rts
  softswitch_update_rts-Keeps c i = load-Always c i _ (Keeps c) λ h.
      from-Keeps c (poll_flags c i (c.devices i)).0 _ (poll_flags-Keeps c i) (
        either-Always
          (bool_eq (any_ready (c.devices i).rts_flags) (any_ready (poll_flags c i (c.devices i)).1))
          _ _ _ (Keeps-refl _)
          (either-Always (any_ready (poll_flags c i (c.devices i)).1) _ _ _
            (rts_append-Keeps (poll_flags c i (c.devices i)).0 i)
            (rts_remove-Keeps (poll_flags c i (c.devices i)).0 i)))

  -- A device is written back, and polled.
  pub polled-Keeps :
      (c c₁ : PThreadContext A) (i : ℕ) (d : DeviceContext A)
      → Keeps c c₁
      → wires d ≡ wires (c₁.devices i)
      → Always (softswitch_update_rts (store c₁ i d) i) (Keeps c)
  polled-Keeps c c₁ i d k e = from-Keeps c c₁ _ k (
      from-Keeps c₁ (store c₁ i d) _ (store-Keeps c₁ i d e)
        (softswitch_update_rts-Keeps (store c₁ i d) i))

  pub softswitch_pop_rts-Keeps :
      (c : PThreadContext A) → Always (softswitch_pop_rts c) (λ r. Keeps c r.0)
  unfolding softswitch_pop_rts rts_pop pop_head
  softswitch_pop_rts-Keeps c = from_head c.rts_head
    where
      from_head : (p : Ptr) → Always (pop_head c p) (λ r. Keeps c r.0)
      from_head none = Keeps-refl c
      from_head (some i) = load-Always c i _ _ λ h.
          Always_bind (Keeps c)
            (if ptr_eq (c.devices i).next none
              then some (record c { rts_tail = none })
              else modify c (c.devices i).next (λ d. record d { prev = none }))
            _ _
            (either-Always (ptr_eq (c.devices i).next none) (Keeps c) _ _
              (record { thread = refl; size = refl; device = λ j. refl })
              (modify-Keeps c (c.devices i).next (λ d. record d { prev = none }) λ d. refl))
            λ c₁ k. record { thread = k.thread; size = k.size; device = k.device }
