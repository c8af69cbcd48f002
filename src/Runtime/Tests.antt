-- ===== src/Runtime/Tests.antt =====
-- The string "hi" at address 10, and "ho" at address 20.
use toy_softswitch.Prelude.{ℕ, ◌+◌, ◌≤◌, ◌<◌, ◌≡◌, refl, arith, ◌⊎◌, inr, if◌then◌else◌, ◌==◌}
use toy_softswitch.Runtime.{Memory, memcpy, tinsel_memcpy_t}
use toy_softswitch.Runtime.Copy.{memcpy-copies}
use toy_softswitch.Runtime.Words.{tinsel_memcpy_t-memcpy}
use toy_softswitch.Runtime.Strings.{IsString}

abbrev words : Memory
words x =
    if x == 10
    then 104
    else if x == 11
    then 105
    else if x == 20
    then 104
    else if x == 21
    then 111
    else 0

words-IsString : IsString words 10 2
words-IsString = record { ends = refl; characters = λ k h e. ground arith }

memcpy-copies_example :
    ((k : ℕ) → k < 3 → memcpy words 40 10 3 (40 + k) ≡ words (10 + k))
    × ((x : ℕ) → (x < 40) ⊎ (43 ≤ x) → memcpy words 40 10 3 x ≡ words x)
memcpy-copies_example = memcpy-copies words 40 10 3 (inr (omega arith))

tinsel_memcpy_t-memcpy_example : tinsel_memcpy_t 4 words 40 10 ≡ memcpy words 40 10 4
tinsel_memcpy_t-memcpy_example = tinsel_memcpy_t-memcpy 4 words 40 10 refl (inr (omega arith))
