-- ===== src/Applications/Ring/Tests.antt =====
-- A ring of two devices: the token makes a hop.
use toy_softswitch.Prelude.{refl, [], arith}
use toy_softswitch.Applications.Ring.{GraphProps, inst0_props}
use toy_softswitch.Applications.Ring.Token.{
  System, start, send_token, receive_token, Step, Run, OneToken,
}
use toy_softswitch.Applications.Ring.Rounds.{Run-OneToken, Run-goes_on}

abbrev sent : System
sent = send_token inst0_props 2 (start inst0_props 2) 0

sent-Run : Run inst0_props 2 1 sent
sent-Run = Run.next Run.here (Step.dev_out 0 (omega arith) refl)

Run-OneToken_example : OneToken inst0_props 2 1 sent
Run-OneToken_example = Run-OneToken inst0_props 2 1 sent (omega arith) sent-Run

Run-goes_on_example : (u : System) × Step inst0_props 2 sent u
Run-goes_on_example = Run-goes_on inst0_props 2 1 sent (omega arith) refl sent-Run

-- An increment of -1 brings the count to 0 with the first hop.
abbrev downward : GraphProps
downward = record { increment = 0xffff_ffff }

abbrev landed : System
landed =
    receive_token downward 2 (send_token downward 2 (start downward 2) 0) 1 (record { count = 0 })
      []

landed-Run : Run downward 2 2 landed
landed-Run =
    Run.next (Run.next Run.here (Step.dev_out 0 (omega arith) refl)) (Step.dev_in [] [] 1 _ refl)
