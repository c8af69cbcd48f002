-- ===== src/Rts/Tests.antt =====
-- The ready-to-send list on the two devices of a ring.
use toy_softswitch.Prelude.{ℕ, ◌<◌, List, ◌≡◌, refl, true, false, some, [], ◌∷◌, arith, Yields}
use toy_softswitch.Rts.{
  any_ready, poll_flags, rts_sanity, softswitch_update_rts, softswitch_pop_rts,
}
use toy_softswitch.Rts.Queue.{IsRts, Relinked}
use toy_softswitch.Rts.Update.{Tracks, requeue, polled, polled_flags, update-Tracks}
use toy_softswitch.Rts.Unordered.{devices_of, ready_set, poll, Takes, Tracks-ReadySet}
use toy_softswitch.Rts.Sanity.{Tracks-rts_sanity, removal_asserts}
use toy_softswitch.Examples.{busy, busy-Tracks, spent, spent-Tracks}

update-Tracks_example : Yields (softswitch_update_rts spent 0) (λ c'.
    Tracks c' (requeue (any_ready (polled_flags spent 0)) 0 (0 ∷ []))
    × Relinked (polled spent 0) c')
update-Tracks_example = update-Tracks spent 0 (0 ∷ []) spent-Tracks (omega arith)

Tracks-rts_sanity_example : rts_sanity busy ≡ some true
Tracks-rts_sanity_example = Tracks-rts_sanity busy (0 ∷ []) busy-Tracks

removal_asserts_example : rts_sanity (polled spent 0) ≡ some false
unfolding poll_flags
removal_asserts_example = removal_asserts spent 0 (0 ∷ []) spent-Tracks refl refl

Tracks-ReadySet_example :
    (devices_of (0 ∷ []) ≡ ready_set spent)
    × ((i : ℕ)
        → i < 2
        → Yields (softswitch_update_rts spent i) (λ c'.
          (ys : List ℕ) × Tracks c' ys
          × (devices_of ys ≡ poll (any_ready (polled_flags spent i)) i (devices_of (0 ∷ [])))))
    × Yields
        (softswitch_pop_rts spent)
        (λ (c', p). (ys : List ℕ) × IsRts c' ys × Takes p (devices_of (0 ∷ [])) (devices_of ys))
Tracks-ReadySet_example = Tracks-ReadySet spent (0 ∷ []) spent-Tracks
