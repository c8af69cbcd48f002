-- ===== src/Examples/Sound.antt =====
-- What the main loop needs, for the examples.
use toy_softswitch.Prelude.{
  ℕ, sym, ◌==◌, Bool-cases, inl, inr, subst, ap, ◌≡◌, refl, false, List, [], ◌∷◌, arith,
}
use toy_softswitch.Context.{Address, OutputPinTargets}
use toy_softswitch.Main.Sound.{IsWired, Serves, Answers, AllSound}
use toy_softswitch.Main.Thread.{IsThread}
use toy_softswitch.Rts.{any_ready, wants_compute}
use toy_softswitch.Send.Bits.{right_most_one_first}
use toy_softswitch.Applications.Ring.{
  dev_out_send_handler, dev_ready_to_send_handler, ring_device, input_of, dev_vtable,
}
use toy_softswitch.Examples.{
  counting, counting_vtable, counting-Tracks, counting-IsSwept, count_up, busy-Tracks, busy,
}

abbrev targets_of : Address → List OutputPinTargets
targets_of out = (record { num_targets = 1; targets = out ∷ [] }) ∷ []

-- A ring device asks for nothing, or to send on its pin.
ring_quiet : (out : Address) (f : ℕ) → f ≡ 0 → Serves dev_vtable (targets_of out) f
ring_quiet out f e = record {
  sends = λ r. let off : any_ready f ≡ false = ap any_ready e in absurd cc;
  computes = λ w. let off : wants_compute f ≡ false = ap wants_compute e in absurd cc;
}

ring_ready : (out : Address) (f : ℕ) → f ≡ 1 → Serves dev_vtable (targets_of out) f
ring_ready out f e = record {
  sends = λ r. subst (IsWired dev_vtable (targets_of out)) (sym e) (record {
    pin_index = 0;
    pin = record {
      send_handler = dev_out_send_handler;
      message_size = 20;
      is_app = 0;
      message_type_numid = 0;
    };
    targets = record { num_targets = 1; targets = out ∷ [] };
    lowest = right_most_one_first;
    its = refl;
    goes = refl;
    listed = omega arith;
  });
  computes = λ w. let off : wants_compute f ≡ false = ap wants_compute e in absurd cc;
}

pub ring-Answers : (index count : ℕ) (out : Address) → Answers (ring_device index count out)
ring-Answers index count out g p s = elim (Bool-cases (s.count == 0)) [
  | inl gone ↦ ring_quiet out (dev_ready_to_send_handler g p s).1 (rw gone refl)
  | inr here ↦ ring_ready out (dev_ready_to_send_handler g p s).1 (rw here refl)
]

busy-AllSound : AllSound busy
busy-AllSound i h = elim (Bool-cases (i == 0)) [
  | inl at ↦
      rw at (record {
        now = ring_ready (input_of 0 1) 1 refl;
        always = ring-Answers 0 1 (input_of 0 1);
      })
  | inr off ↦
      rw off (record {
        now = ring_quiet (input_of 0 0) 0 refl;
        always = ring-Answers 1 0 (input_of 0 0);
      })
]

pub busy-IsThread : IsThread busy
busy-IsThread = record {
  listed = 0 ∷ [];
  tracks = busy-Tracks;
  swept = record {
    offset = omega arith;
    few = omega arith;
    waiting =
        λ j h ne w. elim (Bool-cases (j == 0)) [ inl at ↦ ground arith | inr off ↦ ground arith ];
  };
  host = record { head = omega arith; tail = omega arith };
  sound = busy-AllSound;
}

counting-Serves :
    (f : ℕ)
    → Serves dev_vtable (targets_of (input_of 0 0)) f
    → Serves counting_vtable (targets_of (input_of 0 0)) f
counting-Serves f v = record {
  sends = λ r.
      let w = v.sends r in
      record {
        pin_index = w.pin_index;
        pin = w.pin;
        targets = w.targets;
        lowest = w.lowest;
        its = w.its;
        goes = w.goes;
        listed = w.listed;
      };
  computes = λ w. (count_up, refl);
}

pub counting-IsThread : IsThread counting
counting-IsThread = record {
  listed = [];
  tracks = counting-Tracks;
  swept = counting-IsSwept;
  host = record { head = omega arith; tail = omega arith };
  sound = λ i h. record {
    now = record { sends = λ r. absurd (ground arith); computes = λ w. (count_up, refl) };
    always = λ g p s.
        counting-Serves (dev_ready_to_send_handler g p s).1 (ring-Answers i 0 (input_of 0 0) g p s);
  };
}
