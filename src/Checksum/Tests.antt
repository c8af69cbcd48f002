-- ===== src/Checksum/Tests.antt =====
-- A struct of 4 bytes before its checksum, of which one is changed.
use toy_softswitch.Prelude.{
  ℕ, ◌<◌, ◌≡◌, true, false, ◌==◌, if◌then◌else◌, arith, inl, inr, Bool-cases, update,
}
use toy_softswitch.Checksum.{Hashed, hash_struct_init, hash_struct_check}
use toy_softswitch.Checksum.Changes.{hash_struct_check-changed}

abbrev four_bytes : Hashed
four_bytes = record { size = 4; bytes = λ j. if j == 1 then 7 else 255; checksum = 0 }

four_bytes_small : (j : ℕ) → four_bytes.bytes j < 256
four_bytes_small j = elim (Bool-cases (j == 1)) [
  | inl at ↦ rw at (omega arith)
  | inr off ↦ rw off (omega arith)
]

hash_struct_check-changed_example :
    (hash_struct_check (hash_struct_init four_bytes) ≡ true)
    × (hash_struct_check
          (record (hash_struct_init four_bytes) { bytes = update four_bytes.bytes 1 8 })
        ≡ false)
hash_struct_check-changed_example =
    hash_struct_check-changed four_bytes 1 8 (omega arith) (omega arith) four_bytes_small
      (omega arith) (λ e. absurd (omega arith))
