-- ===== src/Send/Rotation.antt =====
-- `softswitch_onSend` serves the head of the list and sends it to the back.
use mathlib.Core.Path.{subst₃}
use toy_softswitch.Prelude.{
  if◌then◌else◌, ℕ, ◌+◌, ◌%◌, ◌^◌, ◌≡◌, ap, ◌∙◌, refl, subst, none, some, Yields, Yields_mono,
  Yields_bind, List, [], ◌∷◌, get_elem?,
}
use toy_softswitch.Context.{App, PThreadContext, DeviceContext, OutputPinVTable, OutputPinTargets}
use toy_softswitch.Rts.{wants_compute, any_ready, rts_pop}
use toy_softswitch.Rts.Queue.{
  IsRts, Relinked, rts_pop-IsRts, unlinked, unlinked-Relinked, flags_of, rts_pop_empty,
  softswitch_pop_rts_lem,
}
use toy_softswitch.Rts.Update.{Tracks}
use toy_softswitch.Send.{Buffer, Prepared, right_most_one, prepare, softswitch_on_send}
use toy_softswitch.Send.Popped.{rotated}
use toy_softswitch.Send.Message.{repolled, IsMessage, AfterSend, pop-Popped, prepare-Served}

module _ {A : App} where
  -- Neither a message nor what is left of a device depends on its links.
  IsMessage-same :
      {g g' : A.GraphProps} {tid tid' : ℕ} (d d' : DeviceContext A) {k : ℕ}
      {pin : OutputPinVTable A} {t : OutputPinTargets} {m : Buffer A} {r : Prepared A}
      → g ≡ g'
      → tid ≡ tid'
      → unlinked d ≡ unlinked d'
      → IsMessage g tid d k pin t m r
      → IsMessage g' tid' d' k pin t m r
  IsMessage-same {g} {g'} {tid} {tid'} d d' {k} {pin} {t} {m} {r} eg et ed i =
      from (subst₃ (λ x y z. IsMessage x y z k pin t m r) eg et ed (to i))
    where
      to : IsMessage g tid d k pin t m r → IsMessage g tid (unlinked d) k pin t m r
      to j = record {
        size = j.size;
        declined = j.declined;
        multicast = j.multicast;
        to_host = j.to_host;
      }

      from : IsMessage g' tid' (unlinked d') k pin t m r → IsMessage g' tid' d' k pin t m r
      from j = record {
        size = j.size;
        declined = j.declined;
        multicast = j.multicast;
        to_host = j.to_host;
      }

  AfterSend-same :
      (c c₁ : PThreadContext A) {y : ℕ} {ys : List ℕ} {pin : OutputPinVTable A} {m : Buffer A}
      {c' : PThreadContext A}
      → Relinked c c₁
      → AfterSend c₁ y ys (c₁.devices y) pin m c'
      → AfterSend c y ys (c.devices y) pin m c'
  AfterSend-same c c₁ {y} {ys} {pin} {m} {c'} r a = record {
    tracks = subst (λ f. Tracks c' (rotated (any_ready f) y ys)) (ap (λ p. p.1) again) a.tracks;
    device = a.device ∙ λ i. record (unlinked-Relinked c c₁ y r i) {
      state = (again i).0;
      rts_flags = (again i).1;
    };
    clock = a.clock ∙ ap (λ k. (k.lamport + 1) % 2 ^ 32) r.rest;
    size = a.size ∙ ap (λ k. k.num_devices) r.rest;
    host = a.host ∙ ap (λ k. k.host) r.rest;
    offset = a.offset ∙ ap (λ k. k.rtc_offset) r.rest;
    checked = a.checked ∙ λ i.
        if wants_compute ((again i).1) then 0 else ap (λ k. k.rtc_checked) r.rest i;
    others = λ j ne. a.others j ne ∙ unlinked-Relinked c c₁ j r;
  }
    where
      again :
          repolled c₁.graph_props (c₁.devices y) pin m ≡ repolled c.graph_props (c.devices y) pin m
      again = λ i. repolled (ap (λ k. k.graph_props) r.rest i) (unlinked-Relinked c c₁ y r i) pin m

  -- With an empty list nothing is prepared and nothing changes.
  pub softswitch_on_send_empty :
      (c : PThreadContext A) (m : Buffer A) (app : ℕ)
      → Tracks c []
      → softswitch_on_send c m app
        ≡ some (record {
          context = c;
          message = m;
          num_targets = 0;
          targets = none;
          is_app = app;
          size = 0;
        })
  unfolding softswitch_on_send
  softswitch_on_send_empty c m app t = rw (softswitch_pop_rts_lem c, rts_pop_empty c t.list) refl

  -- On a thread whose list begins with device y, whose lowest ready pin is k with vtable entry pin
  -- and targets t, softswitch_onSend prepares the message of that pin: nothing to send if the
  -- handler declines, a packet to the targets, or one message to the host; y then goes to the back
  -- of the list if the poll after the handler finds it ready and is off it otherwise, the clock
  -- counts one, and no other device changes.
  pub softswitch_on_send-IsMessage :
      (c : PThreadContext A) (y k : ℕ) (ys : List ℕ) (pin : OutputPinVTable A)
      (t : OutputPinTargets) (m : Buffer A) (app : ℕ)
      → Tracks c (y ∷ ys)
      → right_most_one (flags_of c y) ≡ some k
      → get_elem? (c.devices y).vtable.output_pins k ≡ some pin
      → get_elem? (c.devices y).targets k ≡ some t
      → Yields (softswitch_on_send c m app) (λ r.
        IsMessage c.graph_props c.thread_id (c.devices y) k pin t m r
        × AfterSend c y ys (c.devices y) pin m r.context)
  unfolding softswitch_on_send
  softswitch_on_send-IsMessage c y k ys pin t m app tr found its goes =
      rw (softswitch_pop_rts_lem c) (
        Yields_bind (rts_pop c) _ Done (rts_pop-IsRts c y ys tr.list)
          λ (c₁, p) (e, q, r). rw e (serve c₁ q r))
    where
      Done : Prepared A → Type 0
      Done r =
          IsMessage c.graph_props c.thread_id (c.devices y) k pin t m r
          × AfterSend c y ys (c.devices y) pin m r.context

      serve :
          (c₁ : PThreadContext A) → IsRts c₁ ys → Relinked c c₁ → Yields (prepare c₁ y m app) Done
      serve c₁ q r =
          Yields_mono (prepare c₁ y m app)
            (prepare-Served c₁ y k ys pin t m app (pop-Popped c c₁ y ys tr q r)
              (ap (λ d. right_most_one d.rts_flags) (r.devices y) ∙ found)
              (ap (λ d. get_elem? d.vtable.output_pins k) (r.devices y) ∙ its)
              (ap (λ d. get_elem? d.targets k) (r.devices y) ∙ goes))
            λ out (i, a). (
              IsMessage-same (c₁.devices y) (c.devices y) (ap (λ k. k.graph_props) r.rest)
                  (ap (λ k. k.thread_id) r.rest) (unlinked-Relinked c c₁ y r) i,
              AfterSend-same c c₁ r a,
            )
