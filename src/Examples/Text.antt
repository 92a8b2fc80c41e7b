-- ===== src/Examples/Text.antt =====
-- The conversions of common.cpp on short texts.
use my_linux_pbs.Base.{◌≡◌, false, true, [], ◌∷◌, arith}
use my_linux_pbs.Text.Hex.{
  hex_to_vector, vector_to_hex, reverse_by_pair, hex_to_vector-vector_to_hex,
  reverse_by_pair-vector_to_hex,
}
use my_linux_pbs.Text.Words.{
  uint32_to_vector, convert_to_little_endian, convert_to_uint32, convert_to_uint32-uint32_to_vector,
}

hex_to_vector-vector_to_hex_example :
    hex_to_vector (vector_to_hex (1 ∷ 171 ∷ 255 ∷ []) true) ≡ 255 ∷ 171 ∷ 1 ∷ []
hex_to_vector-vector_to_hex_example =
    hex_to_vector-vector_to_hex (1 ∷ 171 ∷ 255 ∷ []) true
      (omega arith, (omega arith, (omega arith, tt)))

reverse_by_pair-vector_to_hex_example :
    reverse_by_pair (vector_to_hex (1 ∷ 171 ∷ []) false) ≡ vector_to_hex (1 ∷ 171 ∷ []) true
reverse_by_pair-vector_to_hex_example = reverse_by_pair-vector_to_hex (1 ∷ 171 ∷ [])

convert_to_uint32-uint32_to_vector_example :
    convert_to_uint32 (convert_to_little_endian (uint32_to_vector 305419896)) 0 ≡ 305419896
convert_to_uint32-uint32_to_vector_example =
    convert_to_uint32-uint32_to_vector 305419896 (omega arith)
