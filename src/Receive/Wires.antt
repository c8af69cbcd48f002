-- ===== src/Receive/Wires.antt =====
-- A receive keeps the thread's wires: the write to an edge's state changes nothing else, and the
-- search for an edge does not look at states.
use toy_softswitch.Prelude.{
  ℕ, arith, ◌%◌, ◌/◌, ◌-◌, sym, [], ◌∷◌, zero, suc, ◌+◌, ◌≡◌, refl, ap, ◌∙◌, Bool, true, false,
  Option, none, some, if◌then◌else◌, ◌>>=◌, List, get_elem?, not, ◌==◌, ◌||◌, map, set,
}
use toy_softswitch.Context.{App, Address, DeviceContext, PThreadContext}
use toy_softswitch.Wiring.{
  Always, Always_bind, Always_next, wires, Keeps, Keeps-refl, load-Always, either-Always, stateless,
  stateless_pin,
}
use mathlib.Core.Option
use toy_softswitch.Context.{InputPinVTable, InputPinBinding, InputPinSources}
use toy_softswitch.Rts.Perf.{bind_along, bind_equal}
use toy_softswitch.Rts.Wires.{polled-Keeps}
use toy_softswitch.Send.{Packet}
use toy_softswitch.Receive.{
  cmp_address, lower_bound_loop, lower_bound, find_edge, set_binding, store_edge_state,
  call_receive_handler, softswitch_on_receive,
}

get_elem?-map :
    {A B : Type 0} (f : A → B) (xs : List A) (i : ℕ)
    → get_elem? (map f xs) i ≡ Option.map f (get_elem? xs i)
get_elem?-map f [] i = refl
get_elem?-map f (x ∷ xs) zero = refl
get_elem?-map f (x ∷ xs) (suc i) = get_elem?-map f xs i

-- A write of an element that looks the same.
map-set :
    {A B : Type 0} (f : A → B) (xs : List A) (i : ℕ) (x y : A)
    → get_elem? xs i ≡ some x
    → f y ≡ f x
    → map f (set xs i y) ≡ map f xs
map-set f [] i x y e s = refl
map-set f (z ∷ zs) zero x y e s =
    let same : z ≡ x = ground arith in ap (λ w. w ∷ map f zs) (s ∙ ap f (sym same))
map-set f (z ∷ zs) (suc i) x y e s = ap (λ w. f z ∷ w) (map-set f zs i x y e s)

module _ {A : App} where
  set_binding-stateless :
      (ss : List (InputPinSources A)) (k e : ℕ) (s : InputPinSources A) (b b' : InputPinBinding A)
      → get_elem? ss k ≡ some s
      → get_elem? s.source_bindings e ≡ some b
      → stateless b' ≡ stateless b
      → map stateless_pin (set_binding ss k e b') ≡ map stateless_pin ss
  set_binding-stateless [] k e s b b' at its same = refl
  set_binding-stateless (t ∷ ts) zero e s b b' at its same =
      let here : t ≡ s = ground arith in
      ap (λ bs. record t { source_bindings = bs } ∷ map stateless_pin ts)
        (map-set stateless t.source_bindings e b b'
          (ap (λ u. get_elem? u.source_bindings e) here ∙ its) same)
  set_binding-stateless (t ∷ ts) (suc k) e s b b' at its same =
      ap (λ w. stateless_pin t ∷ w) (set_binding-stateless ts k e s b b' at its same)

  -- The edge that is found is one of the pin's.
  find_edge-stateless :
      (d : DeviceContext A) (k : ℕ) (pin : InputPinVTable A) (a : Address)
      → Always (find_edge d k pin a) (λ edge.
        (s : Option A.EdgeState)
        → map stateless_pin (store_edge_state d.sources k edge s) ≡ map stateless_pin d.sources)
  unfolding find_edge
  find_edge-stateless d k pin a =
      either-Always (not (pin.properties_size == 0) || not (pin.state_size == 0)) _ _ _
        (Always_next (get_elem? d.sources k) _ _ λ s at.
          Always_next (lower_bound s.source_bindings s.num_sources a) _ _ λ e _.
            Always_next (get_elem? s.source_bindings e) _ _ λ b its state.
              set_binding-stateless d.sources k e s b (record b { edge_state = state }) at its refl)
        λ s. refl

  lower_bound_loop-stateless :
      (fuel : ℕ) (bs : List (InputPinBinding A)) (a : Address) (first len : ℕ)
      → lower_bound_loop fuel (map stateless bs) a first len ≡ lower_bound_loop fuel bs a first len
  unfolding lower_bound_loop
  lower_bound_loop-stateless zero bs a first len = refl
  lower_bound_loop-stateless (suc fuel) bs a first len =
      rw
        (
          get_elem?-map stateless bs (first + len / 2),
          lower_bound_loop-stateless fuel bs a (first + len / 2 + 1) (len - len / 2 - 1),
          lower_bound_loop-stateless fuel bs a first (len / 2),
        )
        (ap (λ r. if len == 0 then some first else r) (look (get_elem? bs (first + len / 2))))
    where
      look :
          (r : Option (InputPinBinding A))
          → (Option.map stateless r >>= λ middle.
              if cmp_address middle.source a
              then lower_bound_loop fuel bs a (first + len / 2 + 1) (len - len / 2 - 1)
              else lower_bound_loop fuel bs a first (len / 2))
            ≡ (r >>= λ middle.
                if cmp_address middle.source a
                then lower_bound_loop fuel bs a (first + len / 2 + 1) (len - len / 2 - 1)
                else lower_bound_loop fuel bs a first (len / 2))
      look none = refl
      look (some b) = refl

  abbrev forgotten : Option (ℕ × InputPinBinding A) → Option (ℕ × InputPinBinding A)
  forgotten none = none
  forgotten (some (e, b)) = some (e, stateless b)

  find_edge-forgotten :
      (d : DeviceContext A) (k : ℕ) (pin : InputPinVTable A) (a : Address)
      → find_edge (record d { sources = map stateless_pin d.sources }) k pin a
        ≡ Option.map forgotten (find_edge d k pin a)
  unfolding find_edge lower_bound
  find_edge-forgotten d k pin a =
      choose (not (pin.properties_size == 0) || not (pin.state_size == 0))
    where
      search : List (InputPinSources A) → Option (Option (ℕ × InputPinBinding A))
      search ss = do
        s ← get_elem? ss k
        edge ← lower_bound s.source_bindings s.num_sources a
        binding ← get_elem? s.source_bindings edge
        some (some (edge, binding))

      searched : search (map stateless_pin d.sources) ≡ Option.map forgotten (search d.sources)
      searched =
          bind_along stateless_pin forgotten (get_elem? d.sources k) _ _
            (get_elem?-map stateless_pin d.sources k)
            λ s.
              bind_equal forgotten (lower_bound s.source_bindings s.num_sources a) _ _
                (lower_bound_loop-stateless (s.num_sources + 1) s.source_bindings a 0 s.num_sources)
                λ e.
                  bind_along stateless forgotten (get_elem? s.source_bindings e) _ _
                    (get_elem?-map stateless s.source_bindings e) λ b. refl

      choose :
          (b : Bool)
          → (if b then search (map stateless_pin d.sources) else some none)
            ≡ Option.map forgotten (if b then search d.sources else some none)
      choose true = searched
      choose false = refl

  -- An edge is found in devices with the same wires, or in neither.
  pub find_edge-wires :
      (d d' : DeviceContext A) (k : ℕ) (pin : InputPinVTable A) (a : Address)
      (edge : Option (ℕ × InputPinBinding A))
      → wires d' ≡ wires d
      → find_edge d k pin a ≡ some edge
      → (edge' : Option (ℕ × InputPinBinding A)) × (find_edge d' k pin a ≡ some edge')
  unfolding find_edge
  find_edge-wires d d' k pin a edge e found = some_of (find_edge d' k pin a) (
      sym (find_edge-forgotten d' k pin a)
      ∙ over
      ∙ find_edge-forgotten d k pin a
      ∙ ap (Option.map forgotten) found)
    where
      over :
          find_edge (record d' { sources = map stateless_pin d'.sources }) k pin a
          ≡ find_edge (record d { sources = map stateless_pin d.sources }) k pin a
      over = ap (λ w. find_edge (record d { sources = w.sources }) k pin a) e

      some_of :
          (r : Option (Option (ℕ × InputPinBinding A)))
          → Option.map forgotten r ≡ some (forgotten edge)
          → (edge' : Option (ℕ × InputPinBinding A)) × (r ≡ some edge')
      some_of none q = absurd (ground arith)
      some_of (some x) q = (x, refl)

  pub softswitch_on_receive-Keeps :
      (c : PThreadContext A) (m : Packet A) → Always (softswitch_on_receive c m) (Keeps c)
  unfolding softswitch_on_receive call_receive_handler
  softswitch_on_receive-Keeps c m = load-Always c m.dest.device _ (Keeps c) λ h.
      either-Always ((c.devices m.dest.device).is_external % 256 == 0) (Keeps c) _ (some c)
        (Always_next (get_elem? (c.devices m.dest.device).vtable.input_pins m.dest.pin) _ (Keeps c)
          λ pin _.
            Always_bind _ (find_edge (c.devices m.dest.device) m.dest.pin pin m.source) _ (Keeps c)
              (find_edge-stateless (c.devices m.dest.device) m.dest.pin pin m.source)
              λ edge same.
                polled-Keeps c _ m.dest.device _
                  (record { thread = refl; size = refl; device = λ j. refl })
                  (ap
                    (λ ss. record {
                      vtable = (c.devices m.dest.device).vtable;
                      index = (c.devices m.dest.device).index;
                      targets = (c.devices m.dest.device).targets;
                      sources = ss;
                      is_external = (c.devices m.dest.device).is_external;
                    })
                    (same _)))
        (Keeps-refl c)
