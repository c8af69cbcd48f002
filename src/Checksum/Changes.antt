-- ===== src/Checksum/Changes.antt =====
-- The checksum finds a changed byte.
use toy_softswitch.Prelude.{
  ℕ, zero, suc, ◌+◌, ◌*◌, ◌^◌, ◌<◌, ◌≤◌, ◌≡◌, ◌≢◌, refl, ap, sym, subst, ◌∙◌, true, false, ◌==◌,
  ltb, ltb→lt, arith, inl, inr, Bool-cases, ==_self, update,
}
use toy_softswitch.Checksum.{
  Hashed, hash_step, hash_loop, hash_struct_impl, hash_struct_init, hash_struct_check,
}

-- Below 2^31 the sum does not wrap, and grows by less than 33100.
hash_step_mono :
    (acc acc' b : ℕ) → acc < acc' → acc' < 2 ^ 31 → b < 256 → hash_step acc b < hash_step acc' b
hash_step_mono acc acc' b h k l = omega arith

hash_step_bound : (acc b : ℕ) → acc < 2 ^ 31 → b < 256 → hash_step acc b < acc + 33100
hash_step_bound acc b k l = omega arith

hash_step_lt :
    (acc b b' : ℕ) → acc < 2 ^ 31 → b < b' → b' < 256 → hash_step acc b < hash_step acc b'
hash_step_lt acc b b' k h l = omega arith

hash_loop_mono :
    (n i acc acc' : ℕ) (p q : ℕ → ℕ)
    → acc < acc'
    → acc' + 33100 * n < 2 ^ 31
    → ((j : ℕ) → i ≤ j → p j ≡ q j)
    → ((j : ℕ) → p j < 256)
    → hash_loop n i acc p < hash_loop n i acc' q
hash_loop_mono zero i acc acc' p q h k e l = h
hash_loop_mono (suc n) i acc acc' p q h k e l =
    let here = e i (omega arith) in
    let small : q i < 256 = subst (λ b. b < 256) here (l i) in
    let low : acc' < 2 ^ 31 = omega arith in
    let grown = hash_step_bound acc' (q i) low small in
    let more : hash_step acc (p i) < hash_step acc' (q i) =
      subst (λ b. hash_step acc b < hash_step acc' (q i)) (sym here)
        (hash_step_mono acc acc' (q i) h low small) in
    hash_loop_mono n (i + 1) (hash_step acc (p i)) (hash_step acc' (q i)) p q more
      (rest (hash_step acc' (q i)) grown) (λ j m. e j (omega arith)) l
  where
    rest : (x : ℕ) → x < acc' + 33100 → x + 33100 * n < 2 ^ 31
    rest x g = omega arith

update_here : (p : ℕ → ℕ) (i b k : ℕ) → (k == i) ≡ true → update p i b k ≡ b
update_here p i b k h = let at : (i == k) ≡ true = ground arith in rw at refl

update_there : (p : ℕ → ℕ) (i b k : ℕ) → (k == i) ≡ false → update p i b k ≡ p k
update_there p i b k h = let off : (i == k) ≡ false = ground arith in rw off refl

update_small :
    (p : ℕ → ℕ) (i b : ℕ) → ((j : ℕ) → p j < 256) → b < 256 → (j : ℕ) → update p i b j < 256
update_small p i b s t j = elim (Bool-cases (j == i)) [
  | inl at ↦ subst (λ x. x < 256) (sym (update_here p i b j at)) t
  | inr off ↦ subst (λ x. x < 256) (sym (update_there p i b j off)) (s j)
]

-- Two sums that go apart at byte `k`, over the same bytes from there on.
apart_here :
    (n k acc : ℕ) (p q : ℕ → ℕ)
    → p k < q k
    → acc + 33100 * suc n < 2 ^ 31
    → ((j : ℕ) → k + 1 ≤ j → p j ≡ q j)
    → ((j : ℕ) → p j < 256)
    → q k < 256
    → hash_loop (suc n) k acc p < hash_loop (suc n) k acc q
apart_here n k acc p q h l same s t =
    let low : acc < 2 ^ 31 = omega arith in
    let grown = hash_step_bound acc (q k) low t in
    hash_loop_mono n (k + 1) (hash_step acc (p k)) (hash_step acc (q k)) p q
      (hash_step_lt acc (p k) (q k) low h t) (rest (hash_step acc (q k)) grown) same s
  where
    rest : (x : ℕ) → x < acc + 33100 → x + 33100 * n < 2 ^ 31
    rest x g = omega arith

hash_loop_differs :
    (n k acc : ℕ) (p : ℕ → ℕ) (i b : ℕ)
    → k ≤ i
    → i < k + n
    → acc + 33100 * n < 2 ^ 31
    → ((j : ℕ) → p j < 256)
    → b < 256
    → b ≢ p i
    → hash_loop n k acc p ≢ hash_loop n k acc (update p i b)
hash_loop_differs zero k acc p i b h m l s t ne e = absurd (omega arith)
hash_loop_differs (suc n) k acc p i b h m l s t ne e = elim (Bool-cases (k == i)) [
  | inl at ↦
      let same : i ≡ k = ground arith in
      let there : (j : ℕ) → k + 1 ≤ j → update p i b j ≡ p j =
        λ j g. update_there p i b j (ground arith) in
      let here = update_here p i b k at in
      let other : b ≢ p k = subst (λ x. b ≢ p x) same ne in
      elim (Bool-cases (ltb b (p k))) [
        | inl less ↦
            let less' : update p i b k < p k = omega (arith, here, ltb→lt _ _ less) in
            let order =
              apart_here n k acc (update p i b) p less' l there (update_small p i b s t) (s k) in
            omega arith
        | inr more ↦
            let more' : p k < update p i b k =
              subst (λ x. p k < x) (sym here) (above b (p k) more other) in
            let order =
              apart_here n k acc p (update p i b) more' l (λ j g. sym (there j g)) s
                (update_small p i b s t k) in
            omega arith
      ]
  | inr off ↦
      let low : acc < 2 ^ 31 = omega arith in
      let grown = hash_step_bound acc (p k) low (s k) in
      hash_loop_differs n (k + 1) (hash_step acc (p k)) p i b (ground arith) (omega arith)
        (rest (hash_step acc (p k)) grown) s t ne
        (e
          ∙ ap (λ x. hash_loop n (k + 1) (hash_step acc x) (update p i b))
              (update_there p i b k off))
]
  where
    above : (x y : ℕ) → ltb x y ≡ false → x ≢ y → y < x
    above x y h ne = ground arith

    rest : (x : ℕ) → x < acc + 33100 → x + 33100 * n < 2 ^ 31
    rest x g = omega arith

-- The checksum that hash_struct_init writes passes hash_struct_check. If one of at most 64000 bytes
-- before it is then changed, hash_struct_check fails.
pub hash_struct_check-changed :
    (s : Hashed) (i b : ℕ)
    → s.size ≤ 64000
    → i < s.size
    → ((j : ℕ) → s.bytes j < 256)
    → b < 256
    → b ≢ s.bytes i
    → (hash_struct_check (hash_struct_init s) ≡ true)
      × (hash_struct_check (record (hash_struct_init s) { bytes = update s.bytes i b }) ≡ false)
unfolding hash_struct_impl
hash_struct_check-changed s i b few h small t ne = (
  ==_self (hash_struct_impl s.size s.bytes),
  unequal (hash_struct_impl s.size s.bytes) (hash_struct_impl s.size (update s.bytes i b)) (
      hash_loop_differs s.size 0 12345678 s.bytes i b (omega arith) (omega arith) (omega arith)
        small t ne),
)
  where
    unequal : (x y : ℕ) → x ≢ y → x == y ≡ false
    unequal x y ne = ground arith
