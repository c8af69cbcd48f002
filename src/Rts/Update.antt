-- ===== src/Rts/Update.antt =====
-- `softswitch_UpdateRTS` keeps the list equal to the devices with a ready output pin.
use toy_softswitch.Prelude.{
  ℕ, ◌<◌, ◌≡◌, refl, sym, ap, subst, ◌∙◌, Bool, true, false, Option, some, List, [], ◌∷◌, ◌++◌,
  arith, ◌==◌, if◌then◌else◌, has, erase, Distinct, inl, inr, Bool-cases, lt→ltb, Yields,
  Yields_mono, has-append, has-erase_ne, has-erase_self,
}
use toy_softswitch.Context.{App, PThreadContext}
use toy_softswitch.Rts.Links.{Forward-frame, Backward-frame}
use toy_softswitch.Rts.{
  any_ready, bool_eq, poll_flags, rts_append, rts_remove, softswitch_update_rts,
}
use toy_softswitch.Rts.Queue.{next_of, prev_of, IsRts, Relinked, rts_append-IsRts}
use toy_softswitch.Rts.Remove.{rts_remove-IsRts}

-- The devices on the list are exactly those whose flags show a ready output pin.
pub record Tracks {A : App} (c : PThreadContext A) (xs : List ℕ) : Type 0 where
  pub list : IsRts c xs
  pub ready : (i : ℕ) → i < c.num_devices → has i xs ≡ any_ready (c.devices i).rts_flags

-- What becomes of the list when device `i` is found ready or not.
abbrev pub requeue : Bool → ℕ → List ℕ → List ℕ
requeue now i xs = if bool_eq (has i xs) now then xs else if now then xs ++ i ∷ [] else erase i xs

pub has-requeue_self :
    (now : Bool) (i : ℕ) (xs : List ℕ) → Distinct xs → has i (requeue now i xs) ≡ now
has-requeue_self now i xs d = ground (arith, has-append i xs (i ∷ []), has-erase_self i xs d)

pub has-requeue_ne :
    (now : Bool) (i j : ℕ) (xs : List ℕ) → (j == i) ≡ false → has j (requeue now i xs) ≡ has j xs
has-requeue_ne now i j xs ne = ground (arith, has-append j xs (i ∷ []), has-erase_ne j i xs ne)

module _ {A : App} where
  -- The state after the ready-to-send handler of device `i`, and the flags it returned.
  abbrev pub polled : PThreadContext A → ℕ → PThreadContext A
  polled c i = (poll_flags c i (c.devices i)).0

  abbrev pub polled_flags : PThreadContext A → ℕ → ℕ
  polled_flags c i = (poll_flags c i (c.devices i)).1

  -- A change that spares the links spares the list.
  pub IsRts-same :
      (c c' : PThreadContext A) (xs : List ℕ)
      → IsRts c xs
      → ((j : ℕ) → (next_of c' j ≡ next_of c j) × (prev_of c' j ≡ prev_of c j))
      → c'.rts_head ≡ c.rts_head
      → c'.rts_tail ≡ c.rts_tail
      → c'.num_devices ≡ c.num_devices
      → IsRts c' xs
  IsRts-same c c' xs q same eh et en = record {
    forward = rw eh (Forward-frame (next_of c) _ _ xs q.forward (λ j m. (same j).0));
    backward = Backward-frame (prev_of c) _ _ xs q.backward (λ j m. (same j).1);
    tail = et ∙ q.tail;
    distinct = q.distinct;
    bounded = rw en q.bounded;
  }

  pub polled-IsRts :
      (c : PThreadContext A) (i : ℕ) (xs : List ℕ) → IsRts c xs → IsRts (polled c i) xs
  unfolding poll_flags
  polled-IsRts c i xs q =
      IsRts-same c (polled c i) xs q (λ j. (ground arith, ground arith)) refl refl refl

  pub flags_self :
      (c : PThreadContext A) (i j : ℕ)
      → (j == i) ≡ true
      → ((polled c i).devices j).rts_flags ≡ polled_flags c i
  unfolding poll_flags
  flags_self c i j e = ground arith

  flags_ne :
      (c : PThreadContext A) (i j : ℕ)
      → (j == i) ≡ false
      → ((polled c i).devices j).rts_flags ≡ (c.devices j).rts_flags
  unfolding poll_flags
  flags_ne c i j e = ground arith

  num_devices-polled : (c : PThreadContext A) (i : ℕ) → (polled c i).num_devices ≡ c.num_devices
  unfolding poll_flags
  num_devices-polled c i = refl

  -- Relinking leaves the flags as the poll set them.
  Tracks-of :
      (c c' : PThreadContext A) (i : ℕ) (xs : List ℕ)
      → Tracks c xs
      → IsRts c' (requeue (any_ready (polled_flags c i)) i xs)
      → Relinked (polled c i) c'
      → Tracks c' (requeue (any_ready (polled_flags c i)) i xs)
  Tracks-of c c' i xs t q r = record {
    list = q;
    ready = λ j hj.
        let within : j < c.num_devices =
          subst (λ n. j < n) (ap (λ k. k.num_devices) r.rest ∙ num_devices-polled c i) hj in
        let kept : (c'.devices j).rts_flags ≡ ((polled c i).devices j).rts_flags =
          ap (λ d. d.rts_flags) (r.devices j) in
        elim (Bool-cases (j == i)) [
          | inl here ↦
              let same : j ≡ i = ground arith in
              ap (λ k. has k (requeue (any_ready (polled_flags c i)) i xs)) same
              ∙ has-requeue_self (any_ready (polled_flags c i)) i xs t.list.distinct
              ∙ sym (ap any_ready (kept ∙ flags_self c i j here))
          | inr there ↦
              has-requeue_ne (any_ready (polled_flags c i)) i j xs there
              ∙ t.ready j within
              ∙ sym (ap any_ready (kept ∙ flags_ne c i j there))
        ];
  }

  abbrev relink : PThreadContext A → ℕ → Bool → Bool → Option (PThreadContext A)
  relink c i before now =
      if bool_eq before now then some c else if now then rts_append c i else rts_remove c i

  relink-IsRts :
      (c : PThreadContext A) (i : ℕ) (xs : List ℕ) (now : Bool)
      → IsRts c xs
      → i < c.num_devices
      → Yields (relink c i (has i xs) now) (λ c'. IsRts c' (requeue now i xs) × Relinked c c')
  relink-IsRts c i xs true q h = elim (Bool-cases (has i xs)) [
    | inl on ↦ rw on (q, record { devices = λ j. refl; rest = refl })
    | inr off ↦ rw off (rts_append-IsRts c i xs q h off)
  ]
  relink-IsRts c i xs false q h = elim (Bool-cases (has i xs)) [
    | inl on ↦ rw on (rts_remove-IsRts c i xs q on)
    | inr off ↦ rw off (q, record { devices = λ j. refl; rest = refl })
  ]

  update_rts_lem :
      (c : PThreadContext A) (i : ℕ)
      → i < c.num_devices
      → softswitch_update_rts c i
        ≡ relink (polled c i) i (any_ready (c.devices i).rts_flags) (any_ready (polled_flags c i))
  unfolding softswitch_update_rts
  update_rts_lem c i h = rw (lt→ltb _ _ h) refl

  -- On a thread whose list holds exactly the devices with a ready output pin, softswitch_UpdateRTS
  -- on one of its devices is defined and keeps that so: if the handler now finds the device ready
  -- it goes to the back of the list unless it was on it, otherwise it leaves the list; beyond the
  -- poll itself only links change.
  pub update-Tracks :
      (c : PThreadContext A) (i : ℕ) (xs : List ℕ)
      → Tracks c xs
      → i < c.num_devices
      → Yields
          (softswitch_update_rts c i)
          (λ c'. Tracks c' (requeue (any_ready (polled_flags c i)) i xs) × Relinked (polled c i) c')
  update-Tracks c i xs t h =
      rw (update_rts_lem c i h, ← t.ready i h)
        (Yields_mono (relink (polled c i) i (has i xs) (any_ready (polled_flags c i)))
          (relink-IsRts (polled c i) i xs (any_ready (polled_flags c i))
            (polled-IsRts c i xs t.list) (rw (num_devices-polled c i) h))
          λ c' (q, r). (Tracks-of c c' i xs t q r, r))
