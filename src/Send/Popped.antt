-- ===== src/Send/Popped.antt =====
-- The device that was taken off the list is polled again once its message is prepared.

use toy_softswitch.Prelude.{
  ℕ, ◌<◌, ◌≡◌, ap, refl, inl, inr, Bool, true, false, arith, ◌==◌, if◌then◌else◌, Bool-cases,
  Yields, List, [], ◌∷◌, ◌++◌, has, lt→ltb,
}
use toy_softswitch.Context.{App, PThreadContext, store}
use toy_softswitch.Rts.{any_ready}
use toy_softswitch.Rts.Queue.{IsRts, Relinked, flags_of}
use toy_softswitch.Rts.Update.{Tracks, requeue, polled, polled_flags, IsRts-same, update-Tracks}
use toy_softswitch.Send.{finish_send}

-- The list after its head was served and then found ready or not.
abbrev pub rotated : Bool → ℕ → List ℕ → List ℕ
rotated now i xs = if now then xs ++ i ∷ [] else xs

requeue_out :
    (now : Bool) (i : ℕ) (xs : List ℕ) → has i xs ≡ false → requeue now i xs ≡ rotated now i xs
requeue_out true i xs out = rw out
requeue_out false i xs out = rw out

module _ {A : App} where
  abbrev pub cleared : PThreadContext A → ℕ → PThreadContext A
  cleared c i = store c i (record (c.devices i) { rts_flags = 0 })

  -- A device that is off the list, while the list tracks all the others.
  pub record Popped (c : PThreadContext A) (i : ℕ) (ys : List ℕ) : Type 0 where
    pub list : IsRts c ys
    pub within : i < c.num_devices
    pub out : has i ys ≡ false
    pub others :
        (j : ℕ) → j < c.num_devices → (j == i) ≡ false → has j ys ≡ any_ready (flags_of c j)

  cleared-Tracks :
      (c : PThreadContext A) (i : ℕ) (ys : List ℕ) → Popped c i ys → Tracks (cleared c i) ys
  cleared-Tracks c i ys p = record {
    list = IsRts-same c (cleared c i) ys p.list (λ j. (ground arith, ground arith)) refl refl refl;
    ready = λ j h. elim (Bool-cases (j == i)) [
      | inl here ↦ let same : j ≡ i = ground arith in ground (arith, p.out, ap (λ k. has k ys) same)
      | inr there ↦ ground (arith, p.others j h there)
    ];
  }

  pub finish_send-Tracks :
      (c : PThreadContext A) (i : ℕ) (ys : List ℕ)
      → Popped c i ys
      → Yields (finish_send c i) (λ c'.
        Tracks c' (rotated (any_ready (polled_flags (cleared c i) i)) i ys)
        × Relinked (polled (cleared c i) i) c')
  unfolding finish_send
  finish_send-Tracks c i ys p =
      rw (lt→ltb _ _ p.within, ← requeue_out (any_ready (polled_flags (cleared c i) i)) i ys p.out)
        (update-Tracks (cleared c i) i ys (cleared-Tracks c i ys p) p.within)
