-- ===== src/Runtime/Words.antt =====
-- The copies by words do what memcpy does.
use toy_softswitch.Prelude.{
  ℕ, zero, suc, ◌+◌, ◌*◌, ◌/◌, ◌%◌, ◌<◌, ◌≡◌, refl, ap, sym, ◌∙◌, Bool, true, false, arith, ◌==◌,
  update, leb, if◌then◌else◌,
}
use toy_softswitch.Runtime.{
  Memory, memcpy_loop, memcpy, copy_word, copy_words_loop, tinsel_memcpy32, tinsel_memcpy_t,
}
use toy_softswitch.Runtime.Copy.{Disjoint}

-- A write to the destination is not seen in the source.
skip :
    (mem : Memory) (d s n j k v : ℕ)
    → Disjoint d s n
    → j < n
    → k < n
    → update mem (d + j) v (s + k) ≡ mem (s + k)
skip mem d s n j k v apart h h' = let off : (d + j == s + k) ≡ false = ground arith in rw off refl

-- A word is four bytes.
memcpy_loop-copy_word :
    (n j : ℕ) (mem : Memory) (d s : ℕ)
    → Disjoint d s (j + 4 + n)
    → memcpy_loop (suc (suc (suc (suc n)))) j mem d s
      ≡ memcpy_loop n (j + 4) (copy_word mem d s j) d s
memcpy_loop-copy_word n j mem d s apart =
    let m₁ : Memory = update mem (d + j) (mem (s + j)) in
    let m₂ : Memory = update m₁ (d + (j + 1)) (mem (s + (j + 1))) in
    let m₃ : Memory = update m₂ (d + (j + 2)) (mem (s + (j + 2))) in
    let see : (m : Memory) (p q v : ℕ)
        → p < j + 4
        → q < j + 4
        → update m (d + p) v (s + q) ≡ m (s + q) =
      λ m p q v h h'. skip m d s (j + 4 + n) p q v apart (omega arith) (omega arith) in
    let e₁ : m₁ (s + (j + 1)) ≡ mem (s + (j + 1)) =
      see mem j (j + 1) _ (omega arith) (omega arith) in
    let e₂ : m₂ (s + (j + 2)) ≡ mem (s + (j + 2)) =
      see m₁ (j + 1) (j + 2) _ (omega arith) (omega arith)
      ∙ see mem j (j + 2) _ (omega arith) (omega arith) in
    let e₃ : m₃ (s + (j + 3)) ≡ mem (s + (j + 3)) =
      see m₂ (j + 2) (j + 3) _ (omega arith) (omega arith)
      ∙ see m₁ (j + 1) (j + 3) _ (omega arith) (omega arith)
      ∙ see mem j (j + 3) _ (omega arith) (omega arith) in
    let end : j + 1 + 1 + 1 + 1 ≡ j + 4 = omega arith in
    let two : j + 1 + 1 ≡ j + 2 = omega arith in
    let three : j + 1 + 1 + 1 ≡ j + 3 = omega arith in
    ap (λ v. memcpy_loop (suc (suc n)) (j + 1 + 1) (update m₁ (d + (j + 1)) v) d s) e₁
    ∙ ap (λ k. memcpy_loop (suc n) (j + 1 + 1 + 1) (update m₂ (d + k) (m₂ (s + k))) d s) two
    ∙ ap (λ v. memcpy_loop (suc n) (j + 1 + 1 + 1) (update m₂ (d + (j + 2)) v) d s) e₂
    ∙ ap (λ k. memcpy_loop n (j + 1 + 1 + 1 + 1) (update m₃ (d + k) (m₃ (s + k))) d s) three
    ∙ ap (λ v. memcpy_loop n (j + 1 + 1 + 1 + 1) (update m₃ (d + (j + 3)) v) d s) e₃
    ∙ ap (λ k. memcpy_loop n k (copy_word mem d s j) d s) end

copy_words_loop-memcpy_loop :
    (n i : ℕ) (mem : Memory) (d s : ℕ)
    → Disjoint d s (4 * (i + n))
    → copy_words_loop n i mem d s ≡ memcpy_loop (4 * n) (4 * i) mem d s
copy_words_loop-memcpy_loop zero i mem d s apart = refl
copy_words_loop-memcpy_loop (suc n) i mem d s apart =
    let next : 4 * (i + 1) ≡ 4 * i + 4 = omega arith in
    let more : suc (suc (suc (suc (4 * n)))) ≡ 4 * suc n = omega arith in
    copy_words_loop-memcpy_loop n (i + 1) (copy_word mem d s (4 * i)) d s (ground arith)
    ∙ ap (λ j. memcpy_loop (4 * n) j (copy_word mem d s (4 * i)) d s) next
    ∙ sym (memcpy_loop-copy_word (4 * n) (4 * i) mem d s (ground arith))
    ∙ ap (λ m. memcpy_loop m (4 * i) mem d s) more

-- On blocks that do not meet, tinsel_memcpy_T, whose copies are by words, and for more than 12
-- bytes those of tinsel_memcpy32, leaves the memory as memcpy does, for every size that is a whole
-- number of words.
pub tinsel_memcpy_t-memcpy :
    (size : ℕ) (mem : Memory) (dst src : ℕ)
    → size % 4 ≡ 0
    → Disjoint dst src size
    → tinsel_memcpy_t size mem dst src ≡ memcpy mem dst src size
unfolding tinsel_memcpy_t tinsel_memcpy32 memcpy
tinsel_memcpy_t-memcpy size mem dst src whole apart =
    either (leb size 12) (copy_words_loop (size / 4) 0 mem dst src)
    ∙ copy_words_loop-memcpy_loop (size / 4) 0 mem dst src (ground arith)
    ∙ ap (λ n. memcpy_loop n 0 mem dst src) bytes
  where
    bytes : 4 * (size / 4) ≡ size
    bytes = omega arith

    either : (b : Bool) (m : Memory) → (if b then m else m) ≡ m
    either true m = refl
    either false m = refl
