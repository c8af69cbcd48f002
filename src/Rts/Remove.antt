-- ===== src/Rts/Remove.antt =====
-- Taking a device out of the middle of the ready-to-send list.
use toy_softswitch.Prelude.{
  ℕ, ◌<◌, ◌≡◌, refl, sym, ap, subst, ◌∙◌, true, false, none, some, List, arith, ◌==◌, if◌then◌else◌,
  has, erase, All, erase-Distinct, erase-All, All-has, lt→ltb, Yields, Yields_mono,
}
use toy_softswitch.Context.{App, Ptr, PThreadContext, ptr_eq}
use toy_softswitch.Rts.Links.{Forward-first}
use toy_softswitch.Rts.Splice.{
  Forward-erase, Backward-erase, last_or-erase, next_has, next_ne, prev_in, head_iff, tail_iff,
}
use toy_softswitch.Rts.{rts_remove}
use toy_softswitch.Rts.Queue.{next_of, prev_of, IsRts, Relinked}

-- `i` is out of the chain, and all other links are as they were.
record Unlinked {A : App} (c : PThreadContext A) (i : ℕ) (c' : PThreadContext A) : Type 0 where
  relinked : Relinked c c'
  head : c'.rts_head ≡ (if ptr_eq c.rts_head (some i) then next_of c i else c.rts_head)
  tail : c'.rts_tail ≡ (if ptr_eq c.rts_tail (some i) then prev_of c i else c.rts_tail)
  nexts :
      (j : ℕ) → next_of c' j ≡ (if ptr_eq (prev_of c i) (some j) then next_of c i else next_of c j)
  prevs :
      (j : ℕ) → prev_of c' j ≡ (if ptr_eq (next_of c i) (some j) then prev_of c i else prev_of c j)

-- A neighbour lies in the array and is another device.
abbrev Neighbour : {A : App} → PThreadContext A → ℕ → Ptr → Type 0
Neighbour c i p = (j : ℕ) → p ≡ some j → (j < c.num_devices) × ((j == i) ≡ false)

module _ {A : App} where
  remove-Unlinked :
      (c : PThreadContext A) (i : ℕ) (p n : Ptr)
      → prev_of c i ≡ p
      → next_of c i ≡ n
      → i < c.num_devices
      → ptr_eq c.rts_head (some i) ≡ ptr_eq p none
      → ptr_eq c.rts_tail (some i) ≡ ptr_eq n none
      → Neighbour c i p
      → Neighbour c i n
      → Yields (rts_remove c i) (Unlinked c i)
  unfolding rts_remove
  remove-Unlinked c i none none ep en h eh et bp bn =
      rw (lt→ltb _ _ h, eh, lt→ltb _ _ h, et)
        (record {
          relinked = record { devices = λ j. refl; rest = refl };
          head = rw eh;
          tail = rw et;
          nexts = λ j. rw ep;
          prevs = λ j. rw en;
        })
  remove-Unlinked c i none (some k) ep en h eh et bp bn =
      rw (lt→ltb _ _ h, eh, lt→ltb _ _ h, et, en, lt→ltb _ _ (bn k refl).0)
        (record {
          relinked = record { devices = λ j. ground arith; rest = ground arith };
          head = ground arith;
          tail = rw et;
          nexts = λ j. ground arith;
          prevs = λ j. ground arith;
        })
  remove-Unlinked c i (some j) none ep en h eh et bp bn =
      rw (lt→ltb _ _ h, eh, ep, lt→ltb _ _ (bp j refl).0, lt→ltb _ _ h, et)
        (record {
          relinked = record { devices = λ m. ground arith; rest = ground arith };
          head = ground arith;
          tail = ground (arith, bp j refl);
          nexts = λ m. ground (arith, bp j refl);
          prevs = λ m. ground arith;
        })
  remove-Unlinked c i (some j) (some k) ep en h eh et bp bn =
      rw
        (
          lt→ltb _ _ h,
          eh,
          ep,
          lt→ltb _ _ (bp j refl).0,
          lt→ltb _ _ h,
          et,
          (bp j refl).1,
          en,
          lt→ltb _ _ (bn k refl).0,
        )
        (record {
          relinked = record { devices = λ m. ground arith; rest = refl };
          head = rw eh;
          tail = rw et;
          nexts = λ m. ground arith;
          prevs = λ m. ground arith;
        })

  -- rts_remove of a device on the list is defined, takes just that device off the list, and changes
  -- nothing but links.
  pub rts_remove-IsRts :
      (c : PThreadContext A) (i : ℕ) (xs : List ℕ)
      → IsRts c xs
      → has i xs ≡ true
      → Yields (rts_remove c i) (λ c'. IsRts c' (erase i xs) × Relinked c c')
  rts_remove-IsRts c i xs q m =
      Yields_mono (rts_remove c i)
        (remove-Unlinked c i (prev_of c i) (next_of c i) refl refl (All-has _ i xs q.bounded m)
          (head_iff (prev_of c) c.rts_head i xs (Forward-first _ _ xs q.forward) q.backward m
            q.distinct)
          (rw q.tail (tail_iff (next_of c) none c.rts_head i xs q.forward m q.distinct))
          (λ j e.
            let (within, ne) = prev_in (prev_of c) i xs q.backward q.distinct m j e in
            (All-has _ j xs q.bounded within, ne))
          (λ j e. (
            All-has _ j xs q.bounded (next_has (next_of c) c.rts_head i xs q.forward m j e),
            next_ne (next_of c) c.rts_head i xs q.forward q.distinct m j e,
          )))
        λ c' u. (
          record {
            forward = rw u.head (
                Forward-erase (next_of c) (prev_of c) _ none c.rts_head i xs q.forward q.backward
                  q.distinct m (λ j mj. ground arith) u.nexts);
            backward =
                Backward-erase (next_of c) (prev_of c) _ none c.rts_head i xs q.forward q.backward
                  q.distinct m u.prevs;
            tail =
                u.tail
                ∙ rw q.tail (sym (last_or-erase (prev_of c) none i xs q.backward q.distinct m));
            distinct = erase-Distinct i xs q.distinct;
            bounded =
                subst (λ n. All (λ j. j < n) (erase i xs))
                  (sym (ap (λ k. k.num_devices) u.relinked.rest)) (erase-All _ i xs q.bounded);
          },
          u.relinked,
        )
