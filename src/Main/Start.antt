-- ===== src/Main/Start.antt =====
-- What comes before the loop puts the thread in order.
use toy_softswitch.Prelude.{
  ℕ, ◌+◌, ◌^◌, ◌<◌, ◌≡◌, refl, sym, subst, ◌∙◌, false, arith, ◌==◌, inl, Yields, Yields_bind,
}
use toy_softswitch.Context.{App, DeviceContext, PThreadContext}
use toy_softswitch.Rts.Queue.{flags_of}
use toy_softswitch.Devices.{ready_below}
use toy_softswitch.Init.{initialised, softswitch_init}
use toy_softswitch.Init.Order.{softswitch_init-Started, Started-Tracks}
use toy_softswitch.Idle.Sweep.{IsSwept, ahead}
use toy_softswitch.Send.{Buffer}
use toy_softswitch.Host.Queue.{IsHostBuffer}
use toy_softswitch.Main.{softswitch_main_start, with_host}
use toy_softswitch.Main.Sound.{Answers, IsSound, IsSound-unlinked}
use toy_softswitch.Main.Message.{IsLoop}

module _ {A : App} where
  initialised-IsSound :
      (g : A.GraphProps) (d : DeviceContext A) → Answers d → IsSound (initialised g d)
  unfolding initialised
  initialised-IsSound g d a = record { now = a g d.properties _; always = a }

  -- From a context with some devices, fewer than 2^32 by a chunk of the sweep, whose sweep stands
  -- on one of them and has checked none, and whose ready-to-send handlers only ask for pins and
  -- compute handlers that are there, the start of softswitch_main is defined and leaves the thread
  -- in order for the loop.
  pub softswitch_main_start-IsLoop :
      (c : PThreadContext A) (slot : Buffer A)
      → c.num_devices + 32 < 2 ^ 32
      → c.rtc_offset < c.num_devices
      → c.rtc_checked ≡ 0
      → ((i : ℕ) → i < c.num_devices → Answers (c.devices i))
      → Yields (softswitch_main_start c slot) IsLoop
  unfolding softswitch_main_start
  softswitch_main_start-IsLoop c slot few on none_checked answers =
      let some_devices : c.num_devices == 0 ≡ false = ground arith in
      rw some_devices (
        Yields_bind (softswitch_init emptied) _ IsLoop (softswitch_init-Started emptied) λ c' s.
          record {
            thread = record {
              listed = ready_below (flags_of c') c.num_devices;
              tracks = Started-Tracks emptied c' s;
              swept = swept c' s.size s.offset s.checked;
              host =
                  subst IsHostBuffer (sym s.host)
                    (record { head = omega arith; tail = omega arith });
              sound = λ i h.
                  let within : i < c.num_devices = subst (λ n. i < n) s.size h in
                  IsSound-unlinked _ (c'.devices i) (s.done i within)
                    (initialised-IsSound c.graph_props (c.devices i) (answers i within));
            };
            sending = inl refl;
          })
    where
      emptied : PThreadContext A
      emptied = with_host c (record (c.host) { hbuf_head = 0; hbuf_tail = 0 })

      start : (n o k j : ℕ) → o < n → j < n → k ≡ 0 → ahead n o j + k < n
      start n o k j h hj e = ground arith

      swept :
          (c' : PThreadContext A)
          → c'.num_devices ≡ c.num_devices
          → c'.rtc_offset ≡ c.rtc_offset
          → c'.rtc_checked ≡ c.rtc_checked
          → IsSwept c'
      swept c' en eo ek = record {
        offset = omega (arith, en, eo);
        few = omega (arith, en);
        waiting = λ j h ne w.
            start c'.num_devices c'.rtc_offset c'.rtc_checked j (omega (arith, en, eo)) h
              (ek ∙ none_checked);
      }
