-- ===== src/Checksum.antt =====
-- include/softswitch.hpp: the checksum at the end of a struct.
pub mod Changes
pub mod Tests
use toy_softswitch.Prelude.{ℕ, zero, suc, ◌+◌, ◌/◌, ◌%◌, ◌^◌, Bool, ◌==◌}

-- A struct whose last member is `checksum`: the bytes before it, and how many there are.
pub record Hashed : Type 0 where
  pub size : ℕ
  pub bytes : ℕ → ℕ
  pub checksum : ℕ

-- `acc += (acc>>16) + tmp[i]`.
abbrev pub hash_step : ℕ → ℕ → ℕ
hash_step acc byte = (acc + (acc / 2 ^ 16 + byte)) % 2 ^ 32

-- `n` rounds of the loop from round `i` on.
abbrev pub hash_loop : ℕ → ℕ → ℕ → (ℕ → ℕ) → ℕ
hash_loop zero i acc bytes = acc
hash_loop (suc n) i acc bytes = hash_loop n (i + 1) (hash_step acc (bytes i)) bytes

pub hash_struct_impl : ℕ → (ℕ → ℕ) → ℕ
hash_struct_impl n bytes = hash_loop n 0 12345678 bytes

abbrev pub hash_struct_init : Hashed → Hashed
hash_struct_init s = record s { checksum = hash_struct_impl s.size s.bytes }

-- Whether the assertion holds.
abbrev pub hash_struct_check : Hashed → Bool
hash_struct_check s = s.checksum == hash_struct_impl s.size s.bytes
