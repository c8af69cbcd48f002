-- ===== src/Send/Tests.antt =====
-- The device that holds the token of a ring sends it on.
use toy_softswitch.Prelude.{refl, [], ◌∷◌, Yields}
use toy_softswitch.Context.{OutputPinTargets}
use toy_softswitch.Send.{right_most_one, right_most_loop, softswitch_on_send}
use toy_softswitch.Send.Message.{IsMessage, AfterSend}
use toy_softswitch.Send.Rotation.{softswitch_on_send-IsMessage}
use toy_softswitch.Applications.Ring.{ring_app, input_of, inst0_props, dev_out_send_handler}
use toy_softswitch.Context.{OutputPinVTable}
use toy_softswitch.Examples.{busy, busy-Tracks, empty_buffer}

abbrev out_pin : OutputPinVTable ring_app
out_pin = record {
  send_handler = dev_out_send_handler;
  message_size = 20;
  is_app = 0;
  message_type_numid = 0;
}

abbrev to_device_1 : OutputPinTargets
to_device_1 = record { num_targets = 1; targets = input_of 0 1 ∷ [] }

softswitch_on_send-IsMessage_example : Yields (softswitch_on_send busy empty_buffer 0) (λ r.
    IsMessage inst0_props 0 (busy.devices 0) 0 out_pin to_device_1 empty_buffer r
    × AfterSend busy 0 [] (busy.devices 0) out_pin empty_buffer r.context)
unfolding right_most_one right_most_loop
softswitch_on_send-IsMessage_example =
    softswitch_on_send-IsMessage busy 0 0 [] out_pin to_device_1 empty_buffer 0 busy-Tracks refl
      refl refl
