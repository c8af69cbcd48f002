-- ===== src/Main/Inside.antt =====
-- Sends inside the thread, in a build with them: what they need.
use toy_softswitch.Prelude.{◌%◌, ◌<◌, ◌≡◌, ap, sym, subst, ◌∙◌, false, get_elem?, ◌⊎◌, inl, inr}
use toy_softswitch.Context.{App, PThreadContext}
use toy_softswitch.Context.Host.{HostBuffer}
use toy_softswitch.Send.{Packet}
use toy_softswitch.Wiring.{Keeps, IsWire, NoApps}
use toy_softswitch.Receive.Wires.{find_edge-wires}
use toy_softswitch.Main.{Config, Locals, with_host}
use toy_softswitch.Main.Thread.{Deliverable}
use toy_softswitch.Main.Wires.{Along, with_host-Along}

module _ {A : App} where
  -- What a packet asks of a thread is kept with the thread's wires.
  pub Keeps-Deliverable :
      (c c' : PThreadContext A) (m : Packet A) → Keeps c c' → Deliverable c m → Deliverable c' m
  Keeps-Deliverable c c' m k (Deliverable.external h e) =
      let same = k.device m.dest.device in
      Deliverable.external (subst (λ n. m.dest.device < n) (sym k.size) h)
        (λ z. e (ap (λ w. w.is_external % 256) (sym same) ∙ z))
  Keeps-Deliverable c c' m k (Deliverable.own pin edge h e its found) =
      let same = k.device m.dest.device in
      let (edge', found') =
        find_edge-wires (c.devices m.dest.device) (c'.devices m.dest.device) m.dest.pin pin m.source
          edge same found in
      Deliverable.own pin edge' (subst (λ n. m.dest.device < n) (sym k.size) h)
        (ap (λ w. w.is_external % 256) same ∙ e)
        (ap (λ w. get_elem? w.vtable.input_pins m.dest.pin) same ∙ its) found'

-- A thread of a build with sends inside the thread: the wires that lead back to it end at devices
-- and pins that are there, and no output pin sends to the host.
pub record IsOwn {A : App} (cfg : Config) (c : PThreadContext A) : Type 0 where
  pub connected :
      (m : Packet A)
      → m.dest.thread ≡ cfg.this_thread_id
      → IsWire c m.source m.dest
      → Deliverable c m
  pub no_apps : NoApps c

-- The loop of such a thread, which started on the context `base`.
pub record SendsInside {A : App} (cfg : Config) (l : Locals A) : Type 0 where
  pub base : PThreadContext A
  pub own : IsOwn cfg base
  pub along : Along base l

-- The build sends nothing inside the thread, or the thread allows it.
abbrev pub Allows : {A : App} → Config → Locals A → Type 0
Allows cfg l = (cfg.enable_intra_thread_send ≡ false) ⊎ SendsInside cfg l

module _ {A : App} where
  pub with_host-Allows :
      (cfg : Config) (l : Locals A) (b : HostBuffer)
      → Allows cfg l
      → Allows cfg (record l { ctxt = with_host l.ctxt b })
  with_host-Allows cfg l b (inl d) = inl d
  with_host-Allows cfg l b (inr s) =
      inr (record { base = s.base; own = s.own; along = with_host-Along s.base l b s.along })
