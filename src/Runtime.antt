-- ===== src/Runtime.antt =====
-- src/true_tinsel/true_tinsel.cpp: the routines of the C library that the softswitch brings along.
--
-- The memory is a function from addresses to bytes. Addresses do not wrap round; a loop that ends
-- only at a zero byte runs on fuel. A plain `char` is unsigned on RISC-V.
-- The addresses of words are taken to be aligned.
pub mod Copy
pub mod Words
pub mod Strings
pub mod Padding
pub mod Tests
use toy_softswitch.Prelude.{
  ℕ, zero, suc, ◌+◌, ◌*◌, ◌/◌, ◌%◌, leb, Bool, true, false, Option, none, some, ltb, ◌==◌,
  if◌then◌else◌, ◌>>=◌, update,
}

abbrev pub Memory : Type 0
Memory = ℕ → ℕ

-- `n` rounds of the loop from round `i` on.
abbrev pub memcpy_loop : ℕ → ℕ → Memory → ℕ → ℕ → Memory
memcpy_loop zero i mem destination source = mem
memcpy_loop (suc n) i mem destination source =
    memcpy_loop n (i + 1) (update mem (destination + i) (mem (source + i))) destination source

pub memcpy : Memory → ℕ → ℕ → ℕ → Memory
memcpy mem destination source num = memcpy_loop num 0 mem destination source

-- A word: its four bytes are read, and then written.
abbrev pub copy_word : Memory → ℕ → ℕ → ℕ → Memory
copy_word mem destination source j =
    update
      (update
        (update (update mem (destination + j) (mem (source + j))) (destination + (j + 1))
          (mem (source + (j + 1))))
        (destination + (j + 2)) (mem (source + (j + 2))))
      (destination + (j + 3)) (mem (source + (j + 3)))

-- `n` rounds of a loop over words from word `i` on.
abbrev pub copy_words_loop : ℕ → ℕ → Memory → ℕ → ℕ → Memory
copy_words_loop zero i mem destination source = mem
copy_words_loop (suc n) i mem destination source =
    copy_words_loop n (i + 1) (copy_word mem destination source (4 * i)) destination source

pub tinsel_memcpy32 : Memory → ℕ → ℕ → ℕ → Memory
tinsel_memcpy32 mem destination source num_words =
    copy_words_loop num_words 0 mem destination source

-- `tinsel_memcpy_T` of include/tinsel_api.hpp, for objects of `size` bytes.
pub tinsel_memcpy_t : ℕ → Memory → ℕ → ℕ → Memory
tinsel_memcpy_t size mem dst src =
    if leb size 12
    then copy_words_loop (size / 4) 0 mem dst src
    else tinsel_memcpy32 mem dst src (size / 4)

-- The pointer that is written through does not move.
abbrev memset_loop : ℕ → Memory → ℕ → ℕ → Memory
memset_loop zero mem dest ch = mem
memset_loop (suc n) mem dest ch = memset_loop n (update mem dest (ch % 256)) dest ch

pub memset : Memory → ℕ → ℕ → ℕ → Memory
memset mem dest ch count = memset_loop count mem dest ch

pub strlen : ℕ → Memory → ℕ → Option ℕ
strlen zero mem str = none
strlen (suc fuel) mem str =
    let rest = (do len ← strlen fuel mem (str + 1); some (len + 1)) in
    if mem str == 0 then some 0 else rest

-- `n` rounds, with `curr` and `source` as they are in the loop.
abbrev pub strncpy_loop : ℕ → Memory → ℕ → ℕ → Memory
strncpy_loop zero mem curr source = mem
strncpy_loop (suc n) mem curr source =
    strncpy_loop n (update mem curr (mem source)) (curr + 1)
      (if mem source == 0 then source else source + 1)

pub strncpy : Memory → ℕ → ℕ → ℕ → Memory
strncpy mem destination source num = strncpy_loop num mem destination source

pub data Comparison : Type 0 where
  less : Comparison
  same : Comparison
  greater : Comparison

pub strcmp : ℕ → Memory → ℕ → ℕ → Option Comparison
strcmp zero mem a b = none
strcmp (suc fuel) mem a b =
    let rest = strcmp fuel mem (a + 1) (b + 1) in
    if ltb (mem a) (mem b)
    then some Comparison.less
    else if ltb (mem b) (mem a)
    then some Comparison.greater
    else if mem a == 0
    then some Comparison.same
    else rest
