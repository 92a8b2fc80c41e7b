-- ===== src/Text/Decimal.antt =====
-- `std::to_string` of a number that is not negative, as the sources use it in their messages.
use my_linux_pbs.Base.Int.{ℤ, pos, negsuc}
use my_linux_pbs.Base.{
  inr, inl, Bool-cases, false, ◌==◌, All, arith, ◌<◌, ℕ, zero, suc, ◌+◌, ◌/◌, ◌%◌, ◌≡◌, refl, [],
  ◌∷◌, ltb, if◌then◌else◌, Bytes, codes,
}

-- The digits of `n` before `acc`, with a fuel above the number of digits.
to_string_from : ℕ → ℕ → Bytes → Bytes
to_string_from zero n acc = acc
to_string_from (suc f) n acc =
    let rest = to_string_from f (n / 10) ((b'0' + n % 10) ∷ acc) in
    if ltb n 10 then (b'0' + n) ∷ acc else rest

unfoldable pub to_string : ℕ → Bytes
unfolding to_string_from
to_string n = to_string_from (suc n) n []

printed : to_string 1440 ≡ codes "1440"
unfolding to_string
printed = refl

-- A number as the stream prints it.
abbrev pub print : ℤ → Bytes
print (pos n) = to_string n
print (negsuc n) = b'-' ∷ to_string (suc n)

-- Digits only.
to_string_from-digits :
    (c : ℕ) (f n : ℕ) (acc : Bytes)
    → ((d : ℕ) → d < 10 → (b'0' + d == c) ≡ false)
    → All (λ x. (x == c) ≡ false) acc
    → All (λ x. (x == c) ≡ false) (to_string_from f n acc)
unfolding to_string_from
to_string_from-digits c zero n acc h p = p
to_string_from-digits c (suc f) n acc h p = elim (Bool-cases (ltb n 10)) [
  | inl e ↦ rw e (h n (ground arith), p)
  | inr e ↦
      rw e
        (to_string_from-digits c f (n / 10) ((b'0' + n % 10) ∷ acc) h (h (n % 10) (omega arith), p))
]

-- A printed number has no byte below the digits.
pub to_string-digits : (c : ℕ) (n : ℕ) → c < b'0' → All (λ x. (x == c) ≡ false) (to_string n)
unfolding to_string
to_string-digits c n h = to_string_from-digits c (suc n) n [] (λ d k. ground arith) tt

-- Nor one above them.
pub to_string-digits_above : (c : ℕ) (n : ℕ) → b'9' < c → All (λ x. (x == c) ≡ false) (to_string n)
unfolding to_string
to_string-digits_above c n h = to_string_from-digits c (suc n) n [] (λ d k. ground arith) tt

pub print-digits : (c : ℕ) (n : ℤ) → c < b'-' → All (λ x. (x == c) ≡ false) (print n)
print-digits c (pos n) h = to_string-digits c n (omega arith)
print-digits c (negsuc n) h = (ground arith, to_string-digits c (suc n) (omega arith))
