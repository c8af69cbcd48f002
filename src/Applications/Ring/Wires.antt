-- ===== src/Applications/Ring/Wires.antt =====
-- The wires of src/applications/ring/ring_dev4_threads2.cpp: every packet has a device and a pin.
use toy_softswitch.Prelude.{
  none, ℕ, zero, suc, ◌<◌, ◌≡◌, refl, sym, subst, some, [], ◌∷◌, arith, ◌==◌, inl, inr, Bool-cases,
  get_elem?,
}
use toy_softswitch.Context.{Address, InputPinVTable, OutputPinTargets, PThreadContext}
use toy_softswitch.Send.{Packet}
use toy_softswitch.Receive.Delivery.{find_edge_plain}
use toy_softswitch.Wiring.{NoApps}
use toy_softswitch.Main.Thread.{Deliverable}
use toy_softswitch.Main.Run.{CanStart}
use toy_softswitch.System.Connected.{IsConnected}
use toy_softswitch.Applications.Ring.{
  dev_vtable, ring_app, dev_in_receive_handler, ring_device, input_of, dev4_threads2,
}
use toy_softswitch.Examples.Sound.{ring-Answers}

-- The only target of a pin that has one.
one_target :
    (out dest : Address) (pin place : ℕ) (t : OutputPinTargets)
    → get_elem? ((record { num_targets = 1; targets = out ∷ [] }) ∷ []) pin ≡ some t
    → place < t.num_targets
    → get_elem? t.targets place ≡ some dest
    → out ≡ dest
one_target out dest zero place t its counted goes =
    let same : record { num_targets = 1; targets = out ∷ [] } ≡ t = ground arith in
    first place (subst (λ u. place < u.num_targets) (sym same) counted)
      (subst (λ u. get_elem? u.targets place ≡ some dest) (sym same) goes)
  where
    first : (place : ℕ) → place < 1 → get_elem? (out ∷ []) place ≡ some dest → out ≡ dest
    first zero h e = ground arith
    first (suc place) h e = absurd (omega arith)
one_target out dest (suc pin) place t its counted goes = absurd (ground arith)

record IsRingDevice (t i : ℕ) : Type 0 where
  index : ℕ
  count : ℕ
  out : Address
  is : (dev4_threads2 t).devices i ≡ ring_device index count out
  device : out.device < 2
  pin : out.pin ≡ 0

dev4_threads2-IsRingDevice : (t i : ℕ) → IsRingDevice t i
dev4_threads2-IsRingDevice t i = elim (Bool-cases (t == 0)) [
  | inl first ↦ elim (Bool-cases (i == 0)) [
    | inl at ↦ record {
      index = 0;
      count = 1;
      out = input_of 0 1;
      is = rw (first, at) refl;
      device = omega arith;
      pin = refl;
    }
    | inr off ↦ record {
      index = 0;
      count = 0;
      out = input_of 1 0;
      is = rw (first, off) refl;
      device = omega arith;
      pin = refl;
    }
  ]
  | inr second ↦ elim (Bool-cases (i == 0)) [
    | inl at ↦ record {
      index = 0;
      count = 0;
      out = input_of 1 1;
      is = rw (second, at) refl;
      device = omega arith;
      pin = refl;
    }
    | inr off ↦ record {
      index = 0;
      count = 0;
      out = input_of 0 0;
      is = rw (second, off) refl;
      device = omega arith;
      pin = refl;
    }
  ]
]

ring-Deliverable :
    (c : PThreadContext ring_app) (m : Packet ring_app) (index count : ℕ) (out : Address)
    → m.dest.device < c.num_devices
    → m.dest.pin ≡ 0
    → c.devices m.dest.device ≡ ring_device index count out
    → Deliverable c m
ring-Deliverable c m index count out h at is =
    let pin : InputPinVTable ring_app = record {
      receive_handler = dev_in_receive_handler;
      message_size = 20;
      properties_size = 0;
      state_size = 0;
    } in
    Deliverable.own pin none h (rw is refl) (rw (is, at) refl)
      (rw is (find_edge_plain (ring_device index count out) m.dest.pin pin m.source refl refl))

pub dev4_threads2-IsConnected : IsConnected 2 dev4_threads2
dev4_threads2-IsConnected t m h to w =
    let d = dev4_threads2-IsRingDevice t w.device in
    let e = dev4_threads2-IsRingDevice m.dest.thread m.dest.device in
    let same =
      one_target d.out m.dest w.pin w.place w.target
        (subst (λ x. get_elem? x.targets w.pin ≡ some w.target) d.is w.its) w.counted w.goes in
    ring-Deliverable (dev4_threads2 m.dest.thread) m e.index e.count e.out
      (subst (λ a. a.device < 2) same d.device) (subst (λ a. a.pin ≡ 0) same d.pin) e.is

pub dev4_threads2-NoApps : (t : ℕ) → NoApps (dev4_threads2 t)
dev4_threads2-NoApps t i k pin h its =
    let d = dev4_threads2-IsRingDevice t i in
    only k (subst (λ x. get_elem? x.vtable.output_pins k ≡ some pin) d.is its)
  where
    only : (k : ℕ) → get_elem? dev_vtable.output_pins k ≡ some pin → pin.is_app ≡ 0
    only zero e = ground arith
    only (suc k) e = absurd (ground arith)

pub dev4_threads2-CanStart : (t : ℕ) → CanStart (dev4_threads2 t)
dev4_threads2-CanStart t = record {
  few = omega arith;
  offset = omega arith;
  checked = refl;
  answers = λ i h.
      let d = dev4_threads2-IsRingDevice t i in rw (d.is) (ring-Answers d.index d.count d.out);
}
