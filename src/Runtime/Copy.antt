-- ===== src/Runtime/Copy.antt =====
-- What the block operations do to the memory.
use toy_softswitch.Prelude.{
  ℕ, zero, suc, ◌+◌, ◌%◌, ◌<◌, ◌≤◌, ◌≡◌, refl, ap, ◌∙◌, true, false, arith, ◌==◌, update, ◌⊎◌, inl,
  inr, Bool-cases,
}
use toy_softswitch.Runtime.{Memory, memcpy_loop, memcpy, memset}

-- The two blocks do not meet.
abbrev pub Disjoint : ℕ → ℕ → ℕ → Type 0
Disjoint d s n = (d + n ≤ s) ⊎ (s + n ≤ d)

memcpy_loop_out :
    (n i : ℕ) (mem : Memory) (d s x : ℕ)
    → (x < d + i) ⊎ (d + (i + n) ≤ x)
    → memcpy_loop n i mem d s x ≡ mem x
memcpy_loop_out zero i mem d s x h = refl
memcpy_loop_out (suc n) i mem d s x h =
    let off : (d + i == x) ≡ false = ground arith in
    memcpy_loop_out n (i + 1) (update mem (d + i) (mem (s + i))) d s x (ground arith) ∙ rw off refl

memcpy_loop_in :
    (n i : ℕ) (mem : Memory) (d s k : ℕ)
    → Disjoint d s (i + n)
    → i ≤ k
    → k < i + n
    → memcpy_loop n i mem d s (d + k) ≡ mem (s + k)
memcpy_loop_in zero i mem d s k apart h hk = absurd (omega arith)
memcpy_loop_in (suc n) i mem d s k apart h hk = elim (Bool-cases (i == k)) [
  | inl at ↦
      let here : i ≡ k = ground arith in
      let hit : (d + i == d + k) ≡ true = ground arith in
      memcpy_loop_out n (i + 1) (update mem (d + i) (mem (s + i))) d s (d + k) (ground arith)
      ∙ rw hit (ap (λ j. mem (s + j)) here)
  | inr past ↦
      let off : (d + i == s + k) ≡ false = ground arith in
      memcpy_loop_in n (i + 1) (update mem (d + i) (mem (s + i))) d s k (ground arith)
        (ground arith) (omega arith)
      ∙ rw off refl
]

-- On blocks that do not meet, the destination of memcpy holds what the source held, byte for byte,
-- and no other byte changes.
pub memcpy-copies :
    (mem : Memory) (destination source num : ℕ)
    → Disjoint destination source num
    → ((k : ℕ) → k < num → memcpy mem destination source num (destination + k) ≡ mem (source + k))
      × ((x : ℕ)
          → (x < destination) ⊎ (destination + num ≤ x)
          → memcpy mem destination source num x ≡ mem x)
unfolding memcpy
memcpy-copies mem d s n apart = (
  λ k h. memcpy_loop_in n 0 mem d s k (ground arith) (omega arith) (omega arith),
  λ x h. memcpy_loop_out n 0 mem d s x (ground arith),
)

-- However large the count, only the first byte is set.
memset-first :
    (mem : Memory) (dest ch count x : ℕ)
    → memset mem dest ch (suc count) x ≡ update mem dest (ch % 256) x
unfolding memset
memset-first mem dest ch zero x = refl
memset-first mem dest ch (suc count) x =
    memset-first (update mem dest (ch % 256)) dest ch count x ∙ again (Bool-cases (dest == x))
  where
    again :
        ((dest == x) ≡ true) ⊎ ((dest == x) ≡ false)
        → update (update mem dest (ch % 256)) dest (ch % 256) x ≡ update mem dest (ch % 256) x
    again (inl at) = rw at refl
    again (inr off) = rw off refl
