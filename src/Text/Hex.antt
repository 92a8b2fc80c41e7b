-- ===== src/Text/Hex.antt =====
-- Hexadecimal and byte-order conversions of common.cpp.
use mathlib.Core.List.{reverse, reverse_aux}
use my_linux_pbs.Base.{
  ◌-◌, length, ℕ, ◌+◌, ◌*◌, ◌/◌, ◌%◌, ◌<◌, ◌≡◌, refl, ap, Bool, true, false, ◌&&◌, ◌||◌, List, [],
  ◌∷◌, ◌==◌, ltb, leb, if◌then◌else◌, Bytes, All, Option, none, some, arith,
}

-- A digit as `std::hex` prints it.
abbrev pub hex_digit : ℕ → ℕ
hex_digit n = if ltb n 10 then b'0' + n else b'a' + (n - 10)

-- `std::setw(2) << std::setfill('0') << std::hex` of a byte.
abbrev pub uint8_to_hex : ℕ → Bytes → Bytes
uint8_to_hex n rest = hex_digit (n / 16) ∷ hex_digit (n % 16) ∷ rest

-- The bytes one after the other.
abbrev pub bytes_to_hex : List ℕ → Bytes
bytes_to_hex [] = []
bytes_to_hex (n ∷ ns) = uint8_to_hex n (bytes_to_hex ns)

abbrev pub vector_to_hex : List ℕ → Bool → Bytes
vector_to_hex ns little_endian = bytes_to_hex (if little_endian then reverse ns else ns)

-- The value of a digit in either case.
abbrev pub hex_value : ℕ → Option ℕ
hex_value c =
    if leb b'0' c && leb c b'9'
    then some (c - b'0')
    else if leb b'a' c && leb c b'f'
    then some (c - b'a' + 10)
    else if leb b'A' c && leb c b'F'
    then some (c - b'A' + 10)
    else none

-- `std::isspace`.
abbrev pub is_space : ℕ → Bool
is_space c = c == 32 || leb 9 c && leb c 13

-- The byte of `std::stoi` of two characters to the base 16: it skips a blank, takes a sign, and stops
-- at the first character that is no digit; without a digit it throws.
abbrev pub second_digit : ℕ → Option ℕ → Option ℕ
second_digit c none = none
second_digit c (some n) =
    if is_space c || c == b'+' then some n else if c == b'-' then some ((256 - n) % 256) else none

abbrev pub pair_value : Option ℕ → ℕ → Option ℕ → Option ℕ
pair_value (some m) c (some n) = some (16 * m + n)
pair_value (some m) c none = some m
pair_value none c n = second_digit c n

-- A pair that throws ends the result there.
abbrev pub pushed : Option ℕ → List ℕ → List ℕ
pushed none ns = []
pushed (some n) ns = n ∷ ns

abbrev pub pairs_to_bytes : Bytes → List ℕ
pairs_to_bytes [] = []
pairs_to_bytes (c ∷ []) = []
pairs_to_bytes (c ∷ d ∷ cs) = pushed (pair_value (hex_value c) c (hex_value d)) (pairs_to_bytes cs)

-- An odd length throws before the first byte.
abbrev pub hex_to_vector : Bytes → List ℕ
hex_to_vector cs = if length cs % 2 == 0 then pairs_to_bytes cs else []

-- `FnReverseByPair` walks from the end, two characters at a time.
abbrev pub pairs_swapped : Bytes → Bytes
pairs_swapped [] = []
pairs_swapped (c ∷ []) = []
pairs_swapped (c ∷ d ∷ cs) = d ∷ c ∷ pairs_swapped cs

abbrev pub reverse_by_pair : Bytes → Bytes
reverse_by_pair cs = if length cs % 2 == 0 then pairs_swapped (reverse cs) else []

-- A list of bytes.
abbrev pub IsBytes : List ℕ → Type 0
IsBytes = All (λ n. n < 256)

bytes_to_hex-even : (ns : List ℕ) → length (bytes_to_hex ns) % 2 ≡ 0
bytes_to_hex-even [] = omega arith
bytes_to_hex-even (n ∷ ns) = omega (arith, bytes_to_hex-even ns)

hex_value-hex_digit : (n : ℕ) → n < 16 → hex_value (hex_digit n) ≡ some n
hex_value-hex_digit n h = ground arith

pairs_to_bytes-bytes_to_hex : (ns : List ℕ) → IsBytes ns → pairs_to_bytes (bytes_to_hex ns) ≡ ns
pairs_to_bytes-bytes_to_hex [] _ = refl
pairs_to_bytes-bytes_to_hex (n ∷ ns) (h, hs) =
    rw
      (
        hex_value-hex_digit (n / 16) (omega arith),
        hex_value-hex_digit (n % 16) (omega arith),
        pairs_to_bytes-bytes_to_hex ns hs,
      )
      (ap (λ m. m ∷ ns) (omega arith))

IsBytes-reverse_aux : (ns ms : List ℕ) → IsBytes ns → IsBytes ms → IsBytes (reverse_aux ns ms)
IsBytes-reverse_aux [] ms _ h = h
IsBytes-reverse_aux (n ∷ ns) ms (k, ks) h = IsBytes-reverse_aux ns (n ∷ ms) ks (k, h)

-- Numbers below 256 that are printed in hexadecimal are read back in the printed order, which is the
-- reverse for the little-endian form.
pub hex_to_vector-vector_to_hex :
    (ns : List ℕ) (little_endian : Bool)
    → IsBytes ns
    → hex_to_vector (vector_to_hex ns little_endian) ≡ (if little_endian then reverse ns else ns)
hex_to_vector-vector_to_hex ns false h =
    rw (bytes_to_hex-even ns) (pairs_to_bytes-bytes_to_hex ns h)
hex_to_vector-vector_to_hex ns true h =
    rw (bytes_to_hex-even (reverse ns))
      (pairs_to_bytes-bytes_to_hex (reverse ns) (IsBytes-reverse_aux ns [] h _))

pairs_swapped-reverse_aux :
    (ns ms : List ℕ) (acc : Bytes)
    → pairs_swapped acc ≡ bytes_to_hex ms
    → pairs_swapped (reverse_aux (bytes_to_hex ns) acc) ≡ bytes_to_hex (reverse_aux ns ms)
pairs_swapped-reverse_aux [] ms acc h = h
pairs_swapped-reverse_aux (n ∷ ns) ms acc h =
    pairs_swapped-reverse_aux ns (n ∷ ms) _ (ap (uint8_to_hex n) h)

-- Swapping the order of the pairs of a printed vector prints it in the other byte order.
pub reverse_by_pair-vector_to_hex :
    (ns : List ℕ) → reverse_by_pair (vector_to_hex ns false) ≡ vector_to_hex ns true
reverse_by_pair-vector_to_hex ns =
    rw (bytes_to_hex-even ns) (pairs_swapped-reverse_aux ns [] [] refl)
