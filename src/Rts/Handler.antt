-- ===== src/Rts/Handler.antt =====
-- A handler changes a device, and the device is polled: what the receive handler, the compute handler
-- and the hardware idle handler have in common.
use toy_softswitch.Prelude.{
  ℕ, ◌<◌, ◌≡◌, refl, ap, sym, subst, ◌∙◌, false, List, arith, ◌==◌, if◌then◌else◌, Yields,
  Yields_mono, Bool-cases, ◌⊎◌, inl, inr, ==_self,
}
use toy_softswitch.Context.{App, DeviceContext, PThreadContext, store}
use toy_softswitch.Rts.{any_ready, wants_compute, poll_flags, softswitch_update_rts}
use toy_softswitch.Rts.Queue.{next_of, prev_of, flags_of, unlinked, unlinked-Relinked}
use toy_softswitch.Rts.Update.{Tracks, requeue, polled, polled_flags, IsRts-same, update-Tracks}

module _ {A : App} where
  -- What the ready-to-send handler answers on a device.
  abbrev pub asked : A.GraphProps → DeviceContext A → A.DevState × ℕ
  asked g d = d.vtable.ready_to_send_handler g d.properties d.state

  -- The context with the thread's notes for handler logging.
  abbrev pub noted : PThreadContext A → ℕ → ℕ → ℕ → PThreadContext A
  noted c d h p = record c { current_device = d; current_handler_type = h; current_pin = p }

-- A handler left device `i` as `d`, and the device was polled.
pub record AfterHandler {A : App} (c : PThreadContext A) (i : ℕ) (d : DeviceContext A) (xs : List ℕ)
    (c' : PThreadContext A) : Type 0 where
  pub tracks : Tracks c' (requeue (any_ready (asked c.graph_props d).1) i xs)
  pub device :
      unlinked (c'.devices i)
      ≡ unlinked
          (record d { state = (asked c.graph_props d).0; rts_flags = (asked c.graph_props d).1 })
  pub others : (j : ℕ) → (j == i) ≡ false → unlinked (c'.devices j) ≡ unlinked (c.devices j)
  pub size : c'.num_devices ≡ c.num_devices
  pub graph : c'.graph_props ≡ c.graph_props
  pub host : c'.host ≡ c.host
  pub offset : c'.rtc_offset ≡ c.rtc_offset
  -- A wish to compute starts another complete sweep.
  pub checked :
      c'.rtc_checked ≡ (if wants_compute (asked c.graph_props d).1 then 0 else c.rtc_checked)

module _ {A : App} where
  -- A change that spares links and flags spares the list and what it tracks.
  pub Tracks-same :
      (c c' : PThreadContext A) (xs : List ℕ)
      → Tracks c xs
      → ((j : ℕ)
          → (next_of c' j ≡ next_of c j)
            × (prev_of c' j ≡ prev_of c j)
            × (flags_of c' j ≡ flags_of c j))
      → c'.rts_head ≡ c.rts_head
      → c'.rts_tail ≡ c.rts_tail
      → c'.num_devices ≡ c.num_devices
      → Tracks c' xs
  Tracks-same c c' xs t same eh et en = record {
    list = IsRts-same c c' xs t.list (λ j. let (n, p, f) = same j in (n, p)) eh et en;
    ready =
        λ j h. let (n, p, f) = same j in t.ready j (subst (λ k. j < k) en h) ∙ sym (ap any_ready f);
  }

  module _ (c : PThreadContext A) (i a h p : ℕ) (d : DeviceContext A) where
    abbrev touched : PThreadContext A
    touched = store (noted c a h p) i d

    touched_self : touched.devices i ≡ d
    touched_self = rw (==_self i) refl

    touched_at : (j : ℕ) → (touched.devices j ≡ c.devices j) ⊎ ((i ≡ j) × (touched.devices j ≡ d))
    touched_at j = elim (Bool-cases (i == j)) [
      | inl here ↦ inr (ground arith, rw here refl)
      | inr there ↦ inl (rw there refl)
    ]

    touched-Tracks :
        (xs : List ℕ)
        → Tracks c xs
        → d.next ≡ next_of c i
        → d.prev ≡ prev_of c i
        → d.rts_flags ≡ flags_of c i
        → Tracks touched xs
    touched-Tracks xs t en ep ef =
        Tracks-same c touched xs t
          (λ j. elim (touched_at j) [
            | inl same ↦ (ap (λ k. k.next) same, ap (λ k. k.prev) same, ap (λ k. k.rts_flags) same)
            | inr (at, new) ↦ (
              ap (λ k. k.next) new ∙ en ∙ ap (next_of c) at,
              ap (λ k. k.prev) new ∙ ep ∙ ap (prev_of c) at,
              ap (λ k. k.rts_flags) new ∙ ef ∙ ap (flags_of c) at,
            )
          ])
          refl refl refl

    polled_touched_flags : polled_flags touched i ≡ (asked c.graph_props d).1
    unfolding poll_flags
    polled_touched_flags = ap (λ e. (asked c.graph_props e).1) touched_self

    polled-touched_self :
        (polled touched i).devices i
        ≡ record d { state = (asked c.graph_props d).0; rts_flags = (asked c.graph_props d).1 }
    unfolding poll_flags
    polled-touched_self = rw (==_self i) refl

    polled-touched_ne : (j : ℕ) → (j == i) ≡ false → (polled touched i).devices j ≡ c.devices j
    unfolding poll_flags
    polled-touched_ne j ne = let ne' : (i == j) ≡ false = ground arith in rw ne' refl

    polled-touched_rest :
        ((polled touched i).num_devices ≡ c.num_devices)
        × ((polled touched i).graph_props ≡ c.graph_props)
        × ((polled touched i).host ≡ c.host)
        × ((polled touched i).rtc_offset ≡ c.rtc_offset)
        × ((polled touched i).rtc_checked
            ≡ (if wants_compute (polled_flags touched i) then 0 else c.rtc_checked))
    unfolding poll_flags
    polled-touched_rest = (refl, refl, refl, refl, refl)

    -- A handler that spares the device's links and flags may run and be followed by a poll.
    pub touched-AfterHandler :
        (xs : List ℕ)
        → Tracks c xs
        → i < c.num_devices
        → d.next ≡ next_of c i
        → d.prev ≡ prev_of c i
        → d.rts_flags ≡ flags_of c i
        → Yields (softswitch_update_rts touched i) (AfterHandler c i d xs)
    touched-AfterHandler xs t within en ep ef =
        Yields_mono (softswitch_update_rts touched i)
          (update-Tracks touched i xs (touched-Tracks xs t en ep ef) within)
          λ c' (q, r).
            let (size, graph, host, offset, checked) = polled-touched_rest in
            record {
              tracks = subst (λ f. Tracks c' (requeue (any_ready f) i xs)) polled_touched_flags q;
              device =
                  unlinked-Relinked (polled touched i) c' i r ∙ ap unlinked polled-touched_self;
              others = λ j ne.
                  unlinked-Relinked (polled touched i) c' j r
                  ∙ ap unlinked (polled-touched_ne j ne);
              size = ap (λ k. k.num_devices) r.rest ∙ size;
              graph = ap (λ k. k.graph_props) r.rest ∙ graph;
              host = ap (λ k. k.host) r.rest ∙ host;
              offset = ap (λ k. k.rtc_offset) r.rest ∙ offset;
              checked =
                  ap (λ k. k.rtc_checked) r.rest
                  ∙ checked
                  ∙ ap (λ f. if wants_compute f then 0 else c.rtc_checked) polled_touched_flags;
            }
