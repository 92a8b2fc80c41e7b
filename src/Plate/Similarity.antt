-- ===== src/Plate/Similarity.antt =====
-- `operation::getMaxSimilarity` and `operation::getDigitFromString`. The percentage is a `float` in
-- the source; here it is the exact quotient, rounded to the nearest integer, halves up.
use my_linux_pbs.Base.{
  ℕ, zero, suc, ◌+◌, ◌-◌, ◌*◌, ◌/◌, ◌≤◌, ◌<◌, max, ◌≡◌, refl, Bool, ◌&&◌, ◌||◌, [], ◌∷◌, arith, leb,
  ◌==◌, if◌then◌else◌, length, drop, Bytes, is_empty, codes,
}

-- The inner loop: the positions of the source whose byte is that of the target.
unfoldable pub matched : Bytes → Bytes → ℕ
matched [] tgt = 0
matched (x ∷ xs) [] = 0
matched (x ∷ xs) (y ∷ ys) = (if x == y then 1 else 0) + matched xs ys

-- The outer loop, with `n` offsets left, at offset `i`.
unfoldable pub best_from : Bytes → Bytes → ℕ → ℕ → ℕ → ℕ
best_from src tgt zero i best = best
best_from src tgt (suc n) i best = best_from src tgt n (i + 1) (max best (matched src (drop i tgt)))

-- The percentage of `m` matches in `b` positions.
unfoldable pub rate : ℕ → ℕ → ℕ
rate m b = (200 * m + b) / (2 * b)

-- The offsets 0 to the difference of the lengths.
unfoldable pub slide : Bytes → Bytes → ℕ
unfolding best_from
slide src tgt = best_from src tgt (suc (length tgt - length src)) 0 0

unfoldable pub similarity_of : Bytes → Bytes → ℕ
unfolding slide rate
similarity_of src tgt = if length src == 0 then 0 else rate (slide src tgt) (length src)

unfoldable pub max_similarity : Bytes → Bytes → ℕ
max_similarity entry exit =
    if is_empty entry || is_empty exit
    then 0
    else if leb (length exit) (length entry)
    then similarity_of exit entry
    else similarity_of entry exit

-- `std::isdigit` in the C locale.
unfoldable pub is_digit : ℕ → Bool
is_digit c = leb b'0' c && leb c b'9'

unfoldable pub digits_of : Bytes → Bytes
unfolding is_digit
digits_of [] = []
digits_of (c ∷ s) = if is_digit c then c ∷ digits_of s else digits_of s

sliding : max_similarity (codes "WXY1234") (codes "XY12") ≡ 100
unfolding max_similarity similarity_of matched
sliding = refl

one_of_three : max_similarity (codes "ABC") (codes "AXY") ≡ 33
unfolding max_similarity similarity_of matched
one_of_three = refl

two_of_three : max_similarity (codes "ABC") (codes "ABY") ≡ 67
unfolding max_similarity similarity_of matched
two_of_three = refl

pub matched-le : (xs ys : Bytes) → matched xs ys ≤ length xs
unfolding matched
matched-le [] ys = omega arith
matched-le (x ∷ xs) [] = omega arith
matched-le (x ∷ xs) (y ∷ ys) = ground (arith, matched-le xs ys)

pub best_from-le :
    (src tgt : Bytes) (n i best : ℕ) → best ≤ length src → best_from src tgt n i best ≤ length src
unfolding best_from
best_from-le src tgt zero i best h = h
best_from-le src tgt (suc n) i best h =
    best_from-le src tgt n (i + 1) _ (omega (arith, matched-le src (drop i tgt)))

pub slide-le : (src tgt : Bytes) → slide src tgt ≤ length src
unfolding slide
slide-le src tgt = best_from-le src tgt (suc (length tgt - length src)) 0 0 (omega arith)

pub rate-le : (m b : ℕ) → m ≤ b → 0 < b → rate m b ≤ 100
unfolding rate
rate-le m b h p = grind arith

matched_comm : (xs ys : Bytes) → matched xs ys ≡ matched ys xs
unfolding matched
matched_comm [] [] = refl
matched_comm [] (y ∷ ys) = refl
matched_comm (x ∷ xs) [] = refl
matched_comm (x ∷ xs) (y ∷ ys) = ground (arith, matched_comm xs ys)

pub similarity_of-le : (src tgt : Bytes) → similarity_of src tgt ≤ 100
unfolding similarity_of
similarity_of-le src tgt = ground (arith, rate-le (slide src tgt) (length src), slide-le src tgt)

similarity_of_comm :
    (xs ys : Bytes) → length xs ≡ length ys → similarity_of xs ys ≡ similarity_of ys xs
unfolding similarity_of slide best_from
similarity_of_comm xs ys h = ground (arith, matched_comm xs ys)

-- It does not matter which plate was read at the entry and which at the exit, and the result is a
-- percentage.
pub max_similarity_comm :
    (xs ys : Bytes) → (max_similarity xs ys ≡ max_similarity ys xs) × (max_similarity xs ys ≤ 100)
unfolding max_similarity
max_similarity_comm xs ys = (
  ground (arith, similarity_of_comm xs ys),
  ground (arith, similarity_of-le xs ys, similarity_of-le ys xs),
)
