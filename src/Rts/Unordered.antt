-- ===== src/Rts/Unordered.antt =====
-- The ready-to-send list as the set of devices that it stands for: the order is forgotten.
use mathlib.Core.Bool.{Bool-set}
use mathlib.Core.Quot
use mathlib.Core.Quot.{Quot, Quot-set}
use toy_softswitch.Prelude.{
  ℕ, ◌<◌, ◌≤◌, ◌≡◌, refl, sym, ◌∙◌, ap, Bool, true, false, not, ◌&&◌, ◌||◌, none, some, List, [],
  ◌∷◌, arith, ◌==◌, if◌then◌else◌, inl, inr, Bool-cases, has, Distinct, ◌⊎◌, Yields, Yields_mono,
  ltb, All-has, ==_self,
}
use toy_softswitch.Context.{App, Ptr, PThreadContext}
use toy_softswitch.Rts.{any_ready, rts_pop, softswitch_update_rts, softswitch_pop_rts}
use toy_softswitch.Rts.Queue.{IsRts, rts_pop_empty, rts_pop-IsRts, softswitch_pop_rts_lem}
use toy_softswitch.Rts.Update.{
  Tracks, requeue, polled_flags, update-Tracks, has-requeue_self, has-requeue_ne,
}
use toy_softswitch.Devices.{ready_below, has-ready_below, not-has-ready_below}

-- Two lists of the same devices.
abbrev pub SameDevices : List ℕ → List ℕ → Type 0
SameDevices xs ys = (i : ℕ) → has i xs ≡ has i ys

abbrev pub ReadySet : Type 0
ReadySet = Quot SameDevices

abbrev pub devices_of : List ℕ → ReadySet
devices_of xs = Quot.mk xs

pub member : ℕ → ReadySet → Bool
member i = Quot.lift Bool-set (has i) (λ xs ys h. h i)

member_head : (y : ℕ) (ys : List ℕ) → member y (devices_of (y ∷ ys)) ≡ true
unfolding member
member_head y ys = rw (==_self y) refl

cons-SameDevices : (i : ℕ) (xs ys : List ℕ) → SameDevices xs ys → SameDevices (i ∷ xs) (i ∷ ys)
cons-SameDevices i xs ys h j = ap (λ b. (j == i) || b) (h j)

insert : ℕ → ReadySet → ReadySet
insert i =
    Quot.lift Quot-set (λ xs. Quot.mk (i ∷ xs)) (λ xs ys h. Quot.sound (cons-SameDevices i xs ys h))

abbrev without : ℕ → List ℕ → List ℕ
without i [] = []
without i (x ∷ xs) = if i == x then without i xs else x ∷ without i xs

has-without : (i j : ℕ) (xs : List ℕ) → has j (without i xs) ≡ (not (j == i) && has j xs)
has-without i j [] = ground arith
has-without i j (x ∷ xs) = ground (arith, has-without i j xs)

without-SameDevices :
    (i : ℕ) (xs ys : List ℕ) → SameDevices xs ys → SameDevices (without i xs) (without i ys)
without-SameDevices i xs ys h j =
    has-without i j xs ∙ ap (λ b. not (j == i) && b) (h j) ∙ sym (has-without i j ys)

delete : ℕ → ReadySet → ReadySet
delete i =
    Quot.lift Quot-set (λ xs. Quot.mk (without i xs))
      (λ xs ys h. Quot.sound (without-SameDevices i xs ys h))

-- What a poll makes of the set, and what a pop takes from it.
pub poll : Bool → ℕ → ReadySet → ReadySet
unfolding insert delete
poll now i s = if now then insert i s else delete i s

abbrev pub Takes : Ptr → ReadySet → ReadySet → Type 0
Takes none s s' = (s ≡ devices_of []) × (s' ≡ s)
Takes (some i) s s' = (member i s ≡ true) × (s' ≡ poll false i s)

-- After a poll a device is in the set as the poll says, and the others are as they were.
member-poll :
    (now : Bool) (i j : ℕ) (s : ReadySet)
    → member j (poll now i s) ≡ (if j == i then now else member j s)
unfolding member poll
member-poll true i j =
    Quot.ind (λ s. Bool-set _ _)
      (λ xs. elim (Bool-cases (j == i)) [ inl at ↦ rw at refl | inr off ↦ rw off refl ])
member-poll false i j =
    Quot.ind (λ s. Bool-set _ _)
      (λ xs.
        has-without i j xs
        ∙ elim (Bool-cases (j == i)) [ inl at ↦ rw at refl | inr off ↦ rw off refl ])

has-requeue :
    (now : Bool) (i j : ℕ) (xs : List ℕ)
    → Distinct xs
    → has j (requeue now i xs) ≡ (if j == i then now else has j xs)
has-requeue now i j xs d = elim (Bool-cases (j == i)) [
  | inl at ↦
      let here : j ≡ i = ground arith in
      rw at (ap (λ k. has k (requeue now i xs)) here ∙ has-requeue_self now i xs d)
  | inr off ↦ rw off (has-requeue_ne now i j xs off)
]

-- The same lists, where their membership is that of a poll.
poll-SameDevices :
    (now : Bool) (i : ℕ) (xs ys : List ℕ)
    → ((j : ℕ) → has j ys ≡ (if j == i then now else has j xs))
    → devices_of ys ≡ poll now i (devices_of xs)
unfolding member poll
poll-SameDevices true i xs ys h = Quot.sound (λ j. h j ∙ sym (member-poll true i j (devices_of xs)))
poll-SameDevices false i xs ys h =
    Quot.sound (λ j. h j ∙ sym (member-poll false i j (devices_of xs)))

module _ {A : App} where
  -- The devices whose flags say that they are ready.
  abbrev pub ready_set : PThreadContext A → ReadySet
  ready_set c = devices_of (ready_below (λ i. (c.devices i).rts_flags) c.num_devices)

  Tracks-ready_set :
      (c : PThreadContext A) (xs : List ℕ) → Tracks c xs → devices_of xs ≡ ready_set c
  Tracks-ready_set c xs t = Quot.sound λ j. elim (Bool-cases (ltb j c.num_devices)) [
    | inl h ↦
        t.ready j (ground arith)
        ∙ sym (has-ready_below (λ i. (c.devices i).rts_flags) c.num_devices j (ground arith))
    | inr h ↦
        outside j (ground arith) (Bool-cases (has j xs))
        ∙ sym (not-has-ready_below (λ i. (c.devices i).rts_flags) c.num_devices j (ground arith))
  ]
    where
      outside :
          (j : ℕ) → c.num_devices ≤ j → (has j xs ≡ true) ⊎ (has j xs ≡ false) → has j xs ≡ false
      outside j h (inl on) =
          let within = All-has c.num_devices j xs t.list.bounded on in absurd (omega arith)
      outside j h (inr off) = off

  pop-Takes :
      (c : PThreadContext A) (xs : List ℕ)
      → Tracks c xs
      → Yields
          (softswitch_pop_rts c)
          (λ (c', p). (ys : List ℕ) × IsRts c' ys × Takes p (devices_of xs) (devices_of ys))
  pop-Takes c [] t =
      rw (softswitch_pop_rts_lem c, rts_pop_empty c t.list) ([], t.list, (refl, refl))
  pop-Takes c (y ∷ ys) t = rw (softswitch_pop_rts_lem c) (
      Yields_mono (rts_pop c) (rts_pop-IsRts c y ys t.list) λ (c', p) (head, q, r).
        let d = t.list.distinct in
        rw head (
          ys,
          q,
          (
            member_head y ys,
            poll-SameDevices false y (y ∷ ys) ys (λ j. left j y ys d.0 (Bool-cases (j == y))),
          ),
        ))
    where
      left :
          (j y : ℕ) (ys : List ℕ)
          → has y ys ≡ false
          → ((j == y) ≡ true) ⊎ ((j == y) ≡ false)
          → has j ys ≡ (if j == y then false else has j (y ∷ ys))
      left j y ys out (inl at) =
          let here : j ≡ y = ground arith in rw at (ap (λ k. has k ys) here ∙ out)
      left j y ys out (inr off) = rw off refl

  -- Seen without its order, a list that holds exactly the devices with a ready output pin is the
  -- set of the devices whose flags say so. softswitch_UpdateRTS on a device of the thread is
  -- defined and keeps the list so; it puts the device into that set if the handler now finds it
  -- ready, takes it out if not, and no other device enters or leaves. softswitch_PopRTS is defined,
  -- answers null exactly when the set is empty, and otherwise takes one device of the set out of
  -- it.
  pub Tracks-ReadySet :
      (c : PThreadContext A) (xs : List ℕ)
      → Tracks c xs
      → (devices_of xs ≡ ready_set c)
        × ((i : ℕ)
            → i < c.num_devices
            → Yields (softswitch_update_rts c i) (λ c'.
              (ys : List ℕ) × Tracks c' ys
              × (devices_of ys ≡ poll (any_ready (polled_flags c i)) i (devices_of xs))))
        × Yields
            (softswitch_pop_rts c)
            (λ (c', p). (ys : List ℕ) × IsRts c' ys × Takes p (devices_of xs) (devices_of ys))
  Tracks-ReadySet c xs t = (
    Tracks-ready_set c xs t,
    λ i h. Yields_mono (softswitch_update_rts c i) (update-Tracks c i xs t h) λ c' (q, r). (
      requeue (any_ready (polled_flags c i)) i xs,
      q,
      poll-SameDevices (any_ready (polled_flags c i)) i xs _
          (λ j. has-requeue (any_ready (polled_flags c i)) i j xs t.list.distinct),
    ),
    pop-Takes c xs t,
  )
