-- ===== src/Wiring.antt =====
-- How the devices of a thread are wired, which no operation of include/softswitch.hpp's contexts
-- changes: the vtables, the targets and the sources of their pins.
use toy_softswitch.Prelude.{
  Yields, ℕ, get_elem?, ◌<◌, ◌≡◌, refl, ◌∙◌, true, false, Option, none, some, List, [], zero, suc,
  ◌+◌, Bool, arith, ltb, ◌==◌, if◌then◌else◌, ◌>>=◌, inl, inr, Bool-cases, update, map, ap, subst,
  sym,
}
use toy_softswitch.Devices.{each_device}
use toy_softswitch.Context.{
  OutputPinVTable, Address, App, Ptr, DeviceContext, DeviceTypeVTable, OutputPinTargets,
  InputPinBinding, InputPinSources, PThreadContext, load, store, modify,
}

-- A property of the result of a run, if it has one.
abbrev pub Always {ℓ} : {A : Type ℓ} → Option A → (A → Type 0) → Type 0
Always none P = Unit
Always (some a) P = P a

pub Always_mono {ℓ} :
    {A : Type ℓ} {P Q : A → Type 0} (r : Option A) → Always r P → ((a : A) → P a → Q a) → Always r Q
Always_mono none y weaken = tt
Always_mono (some a) y weaken = weaken a y

pub Always_bind {ℓ κ} :
    {A : Type ℓ} {B : Type κ} (P : A → Type 0) (r : Option A) (f : A → Option B) (Q : B → Type 0)
    → Always r P
    → ((a : A) → P a → Always (f a) Q)
    → Always (r >>= f) Q
Always_bind P none f Q y next = tt
Always_bind P (some a) f Q y next = next a y

-- The next step may use what the first one gave.
pub Always_next {ℓ κ} :
    {A : Type ℓ} {B : Type κ} (r : Option A) (f : A → Option B) (Q : B → Type 0)
    → ((a : A) → r ≡ some a → Always (f a) Q)
    → Always (r >>= f) Q
Always_next none f Q next = tt
Always_next (some a) f Q next = next a refl

pub Always_at {ℓ} :
    {A : Type ℓ} (P : A → Type 0) (r : Option A) (a : A) → Always r P → r ≡ some a → P a
Always_at P r a y e = subst (λ o. Always o P) e y

pub either-Always {ℓ} :
    {B : Type ℓ} (b : Bool) (Q : B → Type 0) (r s : Option B)
    → Always r Q
    → Always s Q
    → Always (if b then r else s) Q
either-Always true Q r s y z = y
either-Always false Q r s y z = z

pub Yields-Always {ℓ} :
    {A : Type ℓ} (P Q : A → Type 0) (r : Option A)
    → Yields r P
    → Always r Q
    → Yields r (λ a. P a × Q a)
Yields-Always P Q none y z = y
Yields-Always P Q (some a) y z = (y, z)

module _ {A : App} where
  -- Edge states change; the handlers of a device write them.
  abbrev pub stateless : InputPinBinding A → InputPinBinding A
  stateless b = record b { edge_state = none }

  abbrev pub stateless_pin : InputPinSources A → InputPinSources A
  stateless_pin s = record s { source_bindings = map stateless s.source_bindings }

pub record Wires (A : App) : Type 0 where
  pub vtable : DeviceTypeVTable A
  pub index : ℕ
  pub targets : List OutputPinTargets
  pub sources : List (InputPinSources A)
  pub is_external : ℕ

abbrev pub wires : {A : App} → DeviceContext A → Wires A
wires d = record {
  vtable = d.vtable;
  index = d.index;
  targets = d.targets;
  sources = map stateless_pin d.sources;
  is_external = d.is_external;
}

pub record Keeps {A : App} (c c' : PThreadContext A) : Type 0 where
  pub thread : c'.thread_id ≡ c.thread_id
  pub size : c'.num_devices ≡ c.num_devices
  pub device : (i : ℕ) → wires (c'.devices i) ≡ wires (c.devices i)

module _ {A : App} where
  pub Keeps-refl : (c : PThreadContext A) → Keeps c c
  Keeps-refl c = record { thread = refl; size = refl; device = λ i. refl }

  pub Keeps-trans : (c c' c'' : PThreadContext A) → Keeps c c' → Keeps c' c'' → Keeps c c''
  Keeps-trans c c' c'' k k' = record {
    thread = k'.thread ∙ k.thread;
    size = k'.size ∙ k.size;
    device = λ i. k'.device i ∙ k.device i;
  }

  -- A device that is written back with its wires.
  pub store-Keeps :
      (c : PThreadContext A) (i : ℕ) (d : DeviceContext A)
      → wires d ≡ wires (c.devices i)
      → Keeps c (store c i d)
  store-Keeps c i d e = record { thread = refl; size = refl; device = at }
    where
      at : (j : ℕ) → wires (update c.devices i d j) ≡ wires (c.devices j)
      at j = elim (Bool-cases (i == j)) [
        | inl here ↦
            let same : i ≡ j = ground arith in rw here (e ∙ ap (λ k. wires (c.devices k)) same)
        | inr there ↦ rw there refl
      ]

  pub modify-Keeps :
      (c : PThreadContext A) (p : Ptr) (f : DeviceContext A → DeviceContext A)
      → ((d : DeviceContext A) → wires (f d) ≡ wires d)
      → Always (modify c p f) (Keeps c)
  modify-Keeps c none f e = tt
  modify-Keeps c (some i) f e = elim (Bool-cases (ltb i c.num_devices)) [
    | inl h ↦ rw h (store-Keeps c i (f (c.devices i)) (e (c.devices i)))
    | inr h ↦ rw h tt
  ]

  -- What is read is a device of the thread.
  pub load-Always {κ} :
      {B : Type κ} (c : PThreadContext A) (i : ℕ) (f : DeviceContext A → Option B) (Q : B → Type 0)
      → (i < c.num_devices → Always (f (c.devices i)) Q)
      → Always (load c i >>= f) Q
  load-Always c i f Q next = elim (Bool-cases (ltb i c.num_devices)) [
    | inl h ↦ rw h (next (ground arith))
    | inr h ↦ rw h tt
  ]

  pub from-Keeps :
      (c c' : PThreadContext A) (r : Option (PThreadContext A))
      → Keeps c c'
      → Always r (Keeps c')
      → Always r (Keeps c)
  from-Keeps c c' r k y = Always_mono r y λ c'' k'. Keeps-trans c c' c'' k k'

  pub then-Keeps :
      (c : PThreadContext A) (r : Option (PThreadContext A))
      (f : PThreadContext A → Option (PThreadContext A))
      → Always r (Keeps c)
      → ((c' : PThreadContext A) → Always (f c') (Keeps c'))
      → Always (r >>= f) (Keeps c)
  then-Keeps c r f y next =
      Always_bind (Keeps c) r f (Keeps c) y λ c' k. from-Keeps c c' (f c') k (next c')

  pub each_device-Keeps :
      (body : PThreadContext A → ℕ → Option (PThreadContext A))
      → ((c : PThreadContext A) (i : ℕ) → Always (body c i) (Keeps c))
      → (n i : ℕ) (c : PThreadContext A) → Always (each_device body n i c) (Keeps c)
  unfolding each_device
  each_device-Keeps body keep zero i c = Keeps-refl c
  each_device-Keeps body keep (suc n) i c =
      then-Keeps c (body c i) _ (keep c i) λ c'. each_device-Keeps body keep n (i + 1) c'

-- A packet from `source` to `dest` goes along one of the thread's wires: it comes from a pin of a
-- device, and goes to one of the targets that the pin counts.
pub record IsWire {A : App} (c : PThreadContext A) (source dest : Address) : Type 0 where
  pub device : ℕ
  pub pin : ℕ
  pub place : ℕ
  pub target : OutputPinTargets
  pub within : device < c.num_devices
  pub from : source ≡ record { thread = c.thread_id; device = (c.devices device).index; pin = pin }
  pub its : get_elem? (c.devices device).targets pin ≡ some target
  pub counted : place < target.num_targets
  pub goes : get_elem? target.targets place ≡ some dest

-- The targets that a message in progress has still to reach.
abbrev pub listed : Option (List Address) → List Address
listed none = []
listed (some ts) = ts

module _ {A : App} where
  abbrev pub Pending : PThreadContext A → Address → ℕ → ℕ → Option (List Address) → Type 0
  Pending c source todo app ts =
      (n : ℕ) (a : Address)
      → n < todo
      → app ≡ 0
      → get_elem? (listed ts) n ≡ some a
      → IsWire c source a

  pub IsWire-Keeps :
      (c c' : PThreadContext A) (source dest : Address)
      → Keeps c c'
      → IsWire c' source dest
      → IsWire c source dest
  IsWire-Keeps c c' source dest k w = record {
    device = w.device;
    pin = w.pin;
    place = w.place;
    target = w.target;
    within = subst (λ n. w.device < n) k.size w.within;
    from =
        w.from
        ∙ ap (λ n. record { thread = n; device = (c'.devices w.device).index; pin = w.pin })
            k.thread
        ∙ ap (λ d. record { thread = c.thread_id; device = d.index; pin = w.pin })
            (k.device w.device);
    its = ap (λ d. get_elem? d.targets w.pin) (sym (k.device w.device)) ∙ w.its;
    counted = w.counted;
    goes = w.goes;
  }

  -- No output pin of the thread sends to the host.
  abbrev pub NoApps : PThreadContext A → Type 0
  NoApps c =
      (i k : ℕ) (pin : OutputPinVTable A)
      → i < c.num_devices
      → get_elem? (c.devices i).vtable.output_pins k ≡ some pin
      → pin.is_app ≡ 0

  pub NoApps-Keeps : (c c' : PThreadContext A) → Keeps c c' → NoApps c → NoApps c'
  NoApps-Keeps c c' k plain i p pin h its =
      plain i p pin (subst (λ n. i < n) k.size h)
        (ap (λ d. get_elem? d.vtable.output_pins p) (sym (k.device i)) ∙ its)
