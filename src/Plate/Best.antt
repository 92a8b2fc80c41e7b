-- ===== src/Plate/Best.antt =====
-- What the partial matching finds: the best record by the whole plate, and not always the best by
-- the digits.
use my_linux_pbs.Base.{
  subst, ℕ, ◌≤◌, ◌<◌, ◌≡◌, refl, ◌∙◌, ◌⊎◌, inl, inr, List, [], ◌∷◌, none, some, arith, Bytes, All,
}
use my_linux_pbs.Plate.Matching.{
  EntryRecord, Score, Highest, no_score, whole_rate, digit_rate, scored, keep_whole, keep_digit,
  consider, consider_all, highest, choose, partial_match,
}

-- Lower in the order of the first test: by the whole rate, then by the digit rate.
abbrev pub AtMost : Score → Score → Type 0
AtMost a b = (a.whole < b.whole) ⊎ ((a.whole ≡ b.whole) × (a.digit ≤ b.digit))

-- The score of one of the records.
abbrev pub IsScoreOf : Bytes → List EntryRecord → Score → Type 0
IsScoreOf exit [] c = ⊥
IsScoreOf exit (e ∷ es) c = (c ≡ scored exit e) ⊎ IsScoreOf exit es c

AtMost-trans : (a b c : Score) → AtMost a b → AtMost b c → AtMost a c
AtMost-trans a b c p q = ground arith

keep_whole-upper : (best c : Score) → AtMost best (keep_whole best c) × AtMost c (keep_whole best c)
unfolding keep_whole
keep_whole-upper best c = (ground arith, ground arith)

consider_all-upper :
    (exit : Bytes) (es : List EntryRecord) (h : Highest)
    → AtMost h.by_whole (consider_all exit h es).by_whole
      × All (λ e. AtMost (scored exit e) (consider_all exit h es).by_whole) es
unfolding consider_all consider
consider_all-upper exit [] h = (inr (refl, omega arith), tt)
consider_all-upper exit (e ∷ es) h =
    let w = keep_whole h.by_whole (scored exit e) in
    let top = consider_all exit (consider exit h e) es in
    let (rest, all) = consider_all-upper exit es (consider exit h e) in
    let (below, here) = keep_whole-upper h.by_whole (scored exit e) in
    (
      AtMost-trans h.by_whole w top.by_whole below rest,
      (AtMost-trans (scored exit e) w top.by_whole here rest, all),
    )

-- Where each of the two scores comes from.
abbrev IsFrom : Bytes → List EntryRecord → Score → Score → Type 0
IsFrom exit es old c = (c ≡ old) ⊎ IsScoreOf exit es c

record AreFrom (exit : Bytes) (es : List EntryRecord) (h t : Highest) : Type 0 where
  whole_from : IsFrom exit es h.by_whole t.by_whole
  digit_from : IsFrom exit es h.by_digit t.by_digit

keep_whole-cases : (best c : Score) → (keep_whole best c ≡ best) ⊎ (keep_whole best c ≡ c)
unfolding keep_whole
keep_whole-cases best c = ground arith

keep_digit-cases : (w best c : Score) → (keep_digit w best c ≡ best) ⊎ (keep_digit w best c ≡ c)
unfolding keep_digit
keep_digit-cases w best c = ground arith

IsFrom-cons :
    (exit : Bytes) (e : EntryRecord) (es : List EntryRecord) (old mid c : Score)
    → (mid ≡ old) ⊎ (mid ≡ scored exit e)
    → IsFrom exit es mid c
    → IsFrom exit (e ∷ es) old c
IsFrom-cons exit e es old mid c (inl q) (inl p) = inl (p ∙ q)
IsFrom-cons exit e es old mid c (inr q) (inl p) = inr (inl (p ∙ q))
IsFrom-cons exit e es old mid c q (inr p) = inr (inr p)

consider_all-AreFrom :
    (exit : Bytes) (es : List EntryRecord) (h : Highest)
    → AreFrom exit es h (consider_all exit h es)
unfolding consider_all consider
consider_all-AreFrom exit [] h = record { whole_from = inl refl; digit_from = inl refl }
consider_all-AreFrom exit (e ∷ es) h =
    let r = consider_all-AreFrom exit es (consider exit h e) in
    let w = keep_whole h.by_whole (scored exit e) in
    let d = keep_digit w h.by_digit (scored exit e) in
    let t = consider_all exit (consider exit h e) es in
    record {
      whole_from =
          IsFrom-cons exit e es h.by_whole w t.by_whole
            (keep_whole-cases h.by_whole (scored exit e)) r.whole_from;
      digit_from =
          IsFrom-cons exit e es h.by_digit d t.by_digit
            (keep_digit-cases w h.by_digit (scored exit e)) r.digit_from;
    }

-- The score by the whole plate is the score of a record or the start value, and no record is above
-- it in the order of the whole rate and then the digit rate.
pub highest-by_whole :
    (exit : Bytes) (es : List EntryRecord)
    → (((highest exit es).by_whole ≡ no_score) ⊎ IsScoreOf exit es (highest exit es).by_whole)
      × All (λ e. AtMost (scored exit e) (highest exit es).by_whole) es
unfolding highest
highest-by_whole exit es =
    let h : Highest = record { by_whole = no_score; by_digit = no_score } in
    ((consider_all-AreFrom exit es h).whole_from, (consider_all-upper exit es h).1)

choose-cases :
    (dt wt : ℕ) (h : Highest) {r : Score}
    → choose dt wt h ≡ some r
    → ((h.by_digit ≡ r) × (dt ≤ r.digit)) ⊎ ((h.by_whole ≡ r) × (wt < r.whole))
unfolding choose
choose-cases dt wt h {r} e = ground arith

-- A score that is not the start value, since one of its rates is not 0.
scored_one :
    (exit : Bytes) (es : List EntryRecord) (c r : Score)
    → (0 < r.digit) ⊎ (0 < r.whole)
    → c ≡ r
    → IsFrom exit es no_score c
    → IsScoreOf exit es r
unfolding no_score
scored_one exit es c r p e (inl q) = ground arith
scored_one exit es c r p e (inr q) = subst (IsScoreOf exit es) e q

-- With a digit threshold above 0, a match that is found is the score of one of the records, and it
-- has the digit rate or the whole rate that its threshold asks for.
pub partial_match_sound :
    (digit_threshold whole_threshold : ℕ) (exit : Bytes) (es : List EntryRecord) {r : Score}
    → 0 < digit_threshold
    → partial_match digit_threshold whole_threshold exit es ≡ some r
    → IsScoreOf exit es r × ((digit_threshold ≤ r.digit) ⊎ (whole_threshold < r.whole))
unfolding partial_match highest
partial_match_sound dt wt exit es {r} p h =
    let s : Highest = record { by_whole = no_score; by_digit = no_score } in
    let top = consider_all exit s es in
    let f = consider_all-AreFrom exit es s in
    elim (choose-cases dt wt top h) [
      | inl (e, q) ↦ (scored_one exit es top.by_digit r (inl (omega arith)) e f.digit_from, inl q)
      | inr (e, q) ↦ (scored_one exit es top.by_whole r (inr (omega arith)) e f.whole_from, inr q)
    ]

-- Three records `a`, `b`, `c` in this order, `a` with the highest whole rate of the three and a
-- digit rate below that of `c`, and `b` with the highest digit rate of the three: the loop ends with
-- `c` as the record of the highest digit rate. So with a digit threshold that `b` meets and `c` does
-- not, and a whole threshold that `a` does not pass, no match is found.
pub better_digits_lost :
    (digit_threshold whole_threshold : ℕ) (exit : Bytes) (a b c : EntryRecord)
    → whole_rate exit b < whole_rate exit a
    → whole_rate exit c < whole_rate exit a
    → digit_rate exit a < digit_rate exit c
    → digit_rate exit c < digit_rate exit b
    → digit_rate exit c < digit_threshold
    → digit_threshold ≤ digit_rate exit b
    → whole_rate exit a ≤ whole_threshold
    → ((highest exit (a ∷ b ∷ c ∷ [])).by_digit ≡ scored exit c)
      × (partial_match digit_threshold whole_threshold exit (a ∷ b ∷ c ∷ []) ≡ none)
unfolding highest consider_all partial_match consider keep_whole keep_digit choose scored no_score
better_digits_lost dt wt exit a b c p q r s t u v = (ground arith, ground arith)
