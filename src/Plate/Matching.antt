-- ===== src/Plate/Matching.antt =====
-- The partial matching of `operation::PBSExit`: the best entry record by the whole plate and by its
-- digits.
use my_linux_pbs.Base.{
  ℕ, ◌&&◌, ◌||◌, List, [], ◌∷◌, Option, none, some, ltb, leb, ◌==◌, if◌then◌else◌, Bytes, codes,
}
use my_linux_pbs.Plate.Similarity.{max_similarity, digits_of}

-- `EntryRecord`, a row of the unmatched entries.
pub record EntryRecord : Type 0 where
  pub entry_time : Bytes
  pub lpn : Bytes
  pub entry_stn : Bytes
  pub trans_type : Bytes
  pub owe_amt : Bytes

-- `LpnMatchScore`: a row, or the empty start value, with its two rates.
pub record Score : Type 0 where
  pub row : EntryRecord
  pub whole : ℕ
  pub digit : ℕ

-- The start value `{"", "", "0", "0", "0.00", 0, 0}`.
unfoldable pub no_score : Score
no_score = record {
  row = record {
    entry_time = [];
    lpn = [];
    entry_stn = codes "0";
    trans_type = codes "0";
    owe_amt = codes "0.00";
  };
  whole = 0;
  digit = 0;
}

unfoldable pub whole_rate : Bytes → EntryRecord → ℕ
whole_rate exit e = max_similarity e.lpn exit

unfoldable pub digit_rate : Bytes → EntryRecord → ℕ
digit_rate exit e = max_similarity (digits_of e.lpn) (digits_of exit)

unfoldable pub scored : Bytes → EntryRecord → Score
scored exit e = record { row = e; whole = whole_rate exit e; digit = digit_rate exit e }

-- `highestWholeLpnMatchScore` and `highestDigitLpnMatchScore`.
pub record Highest : Type 0 where
  pub by_whole : Score
  pub by_digit : Score

-- The first test: a strictly higher whole rate, or the same and a strictly higher digit rate.
unfoldable pub keep_whole : Score → Score → Score
keep_whole best c =
    if ltb best.whole c.whole || (c.whole == best.whole && ltb best.digit c.digit) then c else best

-- The second test. It compares with the digit rate of `highestWholeLpnMatchScore`, as the source
-- has it, and with the whole rate of `highestDigitLpnMatchScore`.
unfoldable pub keep_digit : Score → Score → Score → Score
keep_digit by_whole best c =
    if ltb by_whole.digit c.digit || (c.digit == by_whole.digit && ltb best.whole c.whole)
    then c
    else best

-- One round of the loop; the second test sees what the first has just stored.
unfoldable pub consider : Bytes → Highest → EntryRecord → Highest
consider exit h e =
    let w = keep_whole h.by_whole (scored exit e) in
    record { by_whole = w; by_digit = keep_digit w h.by_digit (scored exit e) }

unfoldable pub consider_all : Bytes → Highest → List EntryRecord → Highest
consider_all exit h [] = h
consider_all exit h (e ∷ es) = consider_all exit (consider exit h e) es

unfoldable pub highest : Bytes → List EntryRecord → Highest
unfolding consider_all
highest exit es = consider_all exit (record { by_whole = no_score; by_digit = no_score }) es

-- The choice between the two by the thresholds of the ini file.
unfoldable pub choose : ℕ → ℕ → Highest → Option Score
choose digit_threshold whole_threshold h =
    if leb digit_threshold h.by_digit.digit
    then some h.by_digit
    else if ltb whole_threshold h.by_whole.whole
    then some h.by_whole
    else none

-- The record that the exit plate is matched with, if any.
unfoldable pub partial_match : ℕ → ℕ → Bytes → List EntryRecord → Option Score
partial_match digit_threshold whole_threshold exit es =
    choose digit_threshold whole_threshold (highest exit es)
