-- ===== src/Text/Words.antt =====
-- The 32-bit words of common.cpp as vectors of bytes.
use mathlib.Core.List.{reverse}
use my_linux_pbs.Base.{
  ℕ, ◌+◌, ◌*◌, ◌/◌, ◌%◌, ◌<◌, ◌^◌, ◌≡◌, List, [], ◌∷◌, length, ltb, get_or, if◌then◌else◌, arith,
}

-- Most significant byte first.
unfoldable pub uint32_to_vector : ℕ → List ℕ
uint32_to_vector v = v / 16777216 % 256 ∷ v / 65536 % 256 ∷ v / 256 % 256 ∷ v % 256 ∷ []

abbrev pub convert_to_little_endian : List ℕ → List ℕ
convert_to_little_endian ns = reverse ns

-- `memcpy` of four bytes, on a machine that keeps the least significant byte first; out of range is 0.
unfoldable pub convert_to_uint32 : List ℕ → ℕ → ℕ
convert_to_uint32 ns offset =
    if ltb (length ns) (offset + 4)
    then 0
    else get_or ns offset 0
      + 256 * get_or ns (offset + 1) 0
      + 65536 * get_or ns (offset + 2) 0
      + 16777216 * get_or ns (offset + 3) 0

-- A word below 2^32 that is written most significant byte first is read back through
-- `FnConvertToLittleEndian`.
pub convert_to_uint32-uint32_to_vector :
    (v : ℕ) → v < 2 ^ 32 → convert_to_uint32 (convert_to_little_endian (uint32_to_vector v)) 0 ≡ v
unfolding convert_to_uint32 uint32_to_vector
convert_to_uint32-uint32_to_vector v h = omega arith
