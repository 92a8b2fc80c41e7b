-- ===== src/Examples/Plate.antt =====
-- The matching of plates on a few records.
use my_linux_pbs.Base.{
  ◌≡◌, ◌≤◌, ◌<◌, refl, ◌⊎◌, ◌↔◌, [], ◌∷◌, List, some, none, arith, codes, Bytes, All,
}
use my_linux_pbs.Plate.Similarity.{similarity_of, matched, digits_of, max_similarity}
use my_linux_pbs.Plate.Exact.{IsWithin, max_similarity-full}
use my_linux_pbs.Plate.Matching.{
  whole_rate, digit_rate, choose, consider, keep_digit, keep_whole, EntryRecord, no_score, scored,
  highest, partial_match,
}
use my_linux_pbs.Plate.Best.{
  AtMost, IsScoreOf, highest-by_whole, partial_match_sound, better_digits_lost,
}

abbrev row : Bytes → EntryRecord
row plate = record {
  entry_time = codes "2025-06-06 10:00:00";
  lpn = plate;
  entry_stn = codes "1";
  trans_type = codes "1";
  owe_amt = codes "0.00";
}

abbrev exit_plate : Bytes
exit_plate = codes "ABC1234"

abbrev half_letters : EntryRecord
half_letters = row (codes "ABC1299")

abbrev half_digits : EntryRecord
half_digits = row (codes "XYZ1234")

abbrev other : EntryRecord
other = row (codes "XYZ1239")

abbrev waiting : List EntryRecord
waiting = half_letters ∷ half_digits ∷ other ∷ []

max_similarity-full_example :
    (max_similarity (codes "ABC123") (codes "BC12") ≡ 100)
    ↔ IsWithin (codes "BC12") (codes "ABC123")
max_similarity-full_example =
    max_similarity-full (codes "ABC123") (codes "BC12") (λ e. ground arith) (omega arith)
      (omega arith)

highest-by_whole_example :
    (((highest exit_plate waiting).by_whole ≡ no_score)
      ⊎ IsScoreOf exit_plate waiting (highest exit_plate waiting).by_whole)
    × All (λ e. AtMost (scored exit_plate e) (highest exit_plate waiting).by_whole) waiting
highest-by_whole_example = highest-by_whole exit_plate waiting

half_letters_rates :
    (whole_rate exit_plate half_letters ≡ 71) × (digit_rate exit_plate half_letters ≡ 50)
unfolding whole_rate digit_rate max_similarity similarity_of matched digits_of
half_letters_rates = (refl, refl)

half_digits_rates :
    (whole_rate exit_plate half_digits ≡ 57) × (digit_rate exit_plate half_digits ≡ 100)
unfolding whole_rate digit_rate max_similarity similarity_of matched digits_of
half_digits_rates = (refl, refl)

other_rates : (whole_rate exit_plate other ≡ 43) × (digit_rate exit_plate other ≡ 75)
unfolding whole_rate digit_rate max_similarity similarity_of matched digits_of
other_rates = (refl, refl)

better_digits_lost_example :
    ((highest exit_plate waiting).by_digit ≡ scored exit_plate other)
    × (partial_match 80 75 exit_plate waiting ≡ none)
better_digits_lost_example =
    let (aw, ad) = half_letters_rates in
    let (bw, bd) = half_digits_rates in
    let (cw, cd) = other_rates in
    better_digits_lost 80 75 exit_plate half_letters half_digits other (omega arith) (omega arith)
      (omega arith) (omega arith) (omega arith) (omega arith) (omega arith)

match_found :
    partial_match 80 75 exit_plate (half_digits ∷ []) ≡ some (scored exit_plate half_digits)
unfolding partial_match choose highest consider keep_digit keep_whole no_score scored whole_rate
    digit_rate max_similarity similarity_of matched digits_of
match_found = refl

partial_match_sound_example :
    IsScoreOf exit_plate (half_digits ∷ []) (scored exit_plate half_digits)
    × ((80 ≤ (scored exit_plate half_digits).digit) ⊎ (75 < (scored exit_plate half_digits).whole))
partial_match_sound_example =
    partial_match_sound 80 75 exit_plate (half_digits ∷ []) (omega arith) match_found
