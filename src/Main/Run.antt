-- ===== src/Main/Run.antt =====
-- The whole of `softswitch_main`: what comes before the loop, and then any number of rounds.
use toy_softswitch.Prelude.{
  ◌⊎◌, inl, inr, ℕ, ◌+◌, ◌^◌, ◌<◌, ◌≡◌, true, false, some, List, Yields, Yields_at,
}
use toy_softswitch.Context.{App, PThreadContext}
use toy_softswitch.Send.{Buffer}
use toy_softswitch.Main.{
  Config, Hardware, Locals, Output, softswitch_main_start, want_to_send, main_round,
}
use toy_softswitch.Main.Sound.{Answers}
use toy_softswitch.Main.Thread.{Deliverable}
use toy_softswitch.Main.Wires.{Along, Goes, main_round-Goes, softswitch_main_start-Along}
use toy_softswitch.Main.Inside.{IsOwn, Allows}
use toy_softswitch.Wiring.{Always_at}
use toy_softswitch.Main.Message.{IsLoop, Loops}
use toy_softswitch.Main.Invariant.{Wakes, main_round-IsLoop}
use toy_softswitch.Main.Start.{softswitch_main_start-IsLoop}

module _ {A : App} where
  -- What is asked of the hardware: the packet that it hands over names a device and a pin that are
  -- there, and the wait ends only with something to do.
  pub record IsFair (cfg : Config) (l : Locals A) (hw : Hardware A) : Type 0 where
    pub wakes : Wakes cfg hw (want_to_send l)
    pub packet : hw.woken_can_recv ≡ true → Deliverable l.ctxt hw.incoming

  pub data Run (cfg : Config) (c : PThreadContext A) (slot : Buffer A) : Locals A → Type 0 where
    started : (l : Locals A) → softswitch_main_start c slot ≡ some l → Run cfg c slot l
    round :
        (l l' : Locals A) (hw : Hardware A) (out : List (Output A))
        → Run cfg c slot l
        → IsFair cfg l hw
        → main_round cfg hw l ≡ some (l', out)
        → Run cfg c slot l'

  -- A context that the main loop can be started on.
  pub record CanStart (c : PThreadContext A) : Type 0 where
    pub few : c.num_devices + 32 < 2 ^ 32
    pub offset : c.rtc_offset < c.num_devices
    pub checked : c.rtc_checked ≡ 0
    pub answers : (i : ℕ) → i < c.num_devices → Answers (c.devices i)

  -- The build sends nothing inside the thread, or the thread that starts on `c` allows it.
  abbrev pub Suits : Config → PThreadContext A → Type 0
  Suits cfg c = (cfg.enable_intra_thread_send ≡ false) ⊎ IsOwn cfg c

  pub Run-Along :
      (cfg : Config) (c : PThreadContext A) (slot : Buffer A) (l : Locals A)
      → Run cfg c slot l
      → Along c l
  Run-Along cfg c slot l (Run.started _ e) =
      Always_at (Along c) (softswitch_main_start c slot) l (softswitch_main_start-Along c slot) e
  Run-Along cfg c slot l (Run.round before _ hw out r f e) =
      (Always_at (Goes c) (main_round cfg hw before) (l, out)
        (main_round-Goes c cfg hw before (Run-Along cfg c slot before r)) e).0

  Run-Allows :
      (cfg : Config) (c : PThreadContext A) (slot : Buffer A) (l : Locals A)
      → Suits cfg c
      → Run cfg c slot l
      → Allows cfg l
  Run-Allows cfg c slot l (inl d) r = inl d
  Run-Allows cfg c slot l (inr own) r =
      inr (record { base = c; own = own; along = Run-Along cfg c slot l r })

  Run-IsLoop :
      (cfg : Config) (c : PThreadContext A) (slot : Buffer A) (l : Locals A)
      → Suits cfg c
      → CanStart c
      → Run cfg c slot l
      → IsLoop l
  Run-IsLoop cfg c slot l d s (Run.started _ e) =
      Yields_at IsLoop (softswitch_main_start c slot) l
        (softswitch_main_start-IsLoop c slot s.few s.offset s.checked s.answers) e
  Run-IsLoop cfg c slot l d s (Run.round before _ hw out r f e) =
      Yields_at Loops (main_round cfg hw before) (l, out)
        (main_round-IsLoop cfg hw before (Run-Allows cfg c slot before d r) f.wakes
          (Run-IsLoop cfg c slot before d s r) f.packet)
        e

  -- In a build that suits the thread, with hardware idle or without: after
  -- softswitch_main has started on a context whose ready-to-send handlers only ever ask for pins
  -- and compute handlers that their device types have, and whose sweep stands on a device and has
  -- checked none of fewer than 2^32 by a chunk, and after any number of rounds, the next round is
  -- defined again, and leaves the thread in order. The hardware may answer anything, but the
  -- packets that it hands over name a device and a pin that are there, and, where sending is
  -- preferred, a wait that ends without room to send ends with a packet.
  pub Run-defined :
      (cfg : Config) (c : PThreadContext A) (slot : Buffer A) (l : Locals A) (hw : Hardware A)
      → Suits cfg c
      → CanStart c
      → Run cfg c slot l
      → IsFair cfg l hw
      → Yields (main_round cfg hw l) Loops
  Run-defined cfg c slot l hw d s r f =
      main_round-IsLoop cfg hw l (Run-Allows cfg c slot l d r) f.wakes
        (Run-IsLoop cfg c slot l d s r) f.packet
