-- ===== src/Plate/Exact.antt =====
-- When the similarity of two plates is 100: one is a part of the other.
use my_linux_pbs.Base.{
  ℕ, zero, suc, ◌+◌, ◌-◌, ◌≤◌, ◌<◌, max, ◌≡◌, ◌≢◌, ◌↔◌, ◌⊎◌, inl, inr, refl, sym, ap, ◌∙◌, [], ◌∷◌,
  ◌++◌, arith, length, length-append, take, drop, take-append-drop, Bytes,
}
use native.Mathlib.Decide.{dec_lt}
use my_linux_pbs.Plate.Similarity.{
  matched, best_from, rate, slide, similarity_of, max_similarity, matched-le, slide-le,
}

-- The target holds the source as one piece.
abbrev pub IsWithin : Bytes → Bytes → Type 0
IsWithin src tgt = (pre : Bytes) × (post : Bytes) × (tgt ≡ pre ++ (src ++ post))

matched-full : (xs ys : Bytes) → matched xs ys ≡ length xs → (post : Bytes) × (ys ≡ xs ++ post)
unfolding matched
matched-full [] ys h = (ys, refl)
matched-full (x ∷ xs) [] h = absurd (omega arith)
matched-full (x ∷ xs) (y ∷ ys) h =
    let (post, e) = matched-full xs ys (ground (arith, matched-le xs ys)) in
    (post, ground (arith, matched-le xs ys))

matched-append : (xs post : Bytes) → matched xs (xs ++ post) ≡ length xs
unfolding matched
matched-append [] post = refl
matched-append (x ∷ xs) post = ground (arith, matched-append xs post)

best_from-full :
    (src tgt : Bytes) (n i best : ℕ)
    → best_from src tgt n i best ≡ length src
    → (best ≡ length src) ⊎ ((k : ℕ) × (matched src (drop k tgt) ≡ length src))
unfolding best_from
best_from-full src tgt zero i best h = inl h
best_from-full src tgt (suc n) i best h =
    elim (best_from-full src tgt n (i + 1) (max best (matched src (drop i tgt))) h) [
      | inl e ↦ grind arith
      | inr f ↦ inr f
    ]

best_from_mono : (src tgt : Bytes) (n i best : ℕ) → best ≤ best_from src tgt n i best
unfolding best_from
best_from_mono src tgt zero i best = omega arith
best_from_mono src tgt (suc n) i best =
    omega (arith, best_from_mono src tgt n (i + 1) (max best (matched src (drop i tgt))))

best_from-ge :
    (src tgt : Bytes) (n i best k : ℕ)
    → i ≤ k
    → k < i + n
    → matched src (drop k tgt) ≤ best_from src tgt n i best
unfolding best_from
best_from-ge src tgt zero i best k h p = absurd (omega arith)
best_from-ge src tgt (suc n) i best k h p =
    let best' = max best (matched src (drop i tgt)) in
    elim (dec_lt i k) [
      | yes lt ↦ best_from-ge src tgt n (i + 1) best' k (omega arith) (omega arith)
      | no ge ↦
          let e : k ≡ i = omega arith in
          rw e (omega (arith, best_from_mono src tgt n (i + 1) best'))
    ]

rate-full : (m b : ℕ) → m ≤ b → 0 < b → b < 200 → rate m b ≡ 100 → m ≡ b
unfolding rate
rate-full m b h p q e = grind arith

rate_of_full : (b : ℕ) → 0 < b → rate b b ≡ 100
unfolding rate
rate_of_full b p = grind arith

drop-append : (pre ys : Bytes) → drop (length pre) (pre ++ ys) ≡ ys
drop-append [] ys = refl
drop-append (x ∷ pre) ys = drop-append pre ys

slide-full : (src tgt : Bytes) → 0 < length src → slide src tgt ≡ length src → IsWithin src tgt
unfolding slide
slide-full src tgt p h = elim (best_from-full src tgt (suc (length tgt - length src)) 0 0 h) [
  | inl e ↦ absurd (omega arith)
  | inr (k, e) ↦
      let (post, d) = matched-full src (drop k tgt) e in
      (take k tgt, post, sym (take-append-drop k tgt) ∙ ap (λ (r : Bytes). take k tgt ++ r) d)
]

slide_of_within : (src tgt : Bytes) → IsWithin src tgt → slide src tgt ≡ length src
unfolding slide
slide_of_within src tgt (pre, post, e) =
    let reach : length pre < 0 + suc (length tgt - length src) =
      omega (arith, ap (length {0}) e, length-append pre (src ++ post), length-append src post) in
    let found : matched src (drop (length pre) tgt) ≡ length src =
      rw (e, drop-append pre (src ++ post)) (matched-append src post) in
    omega (
      arith,
      found,
      slide-le src tgt,
      best_from-ge src tgt (suc (length tgt - length src)) 0 0 (length pre) (omega arith) reach,
    )

similarity_of-full :
    (src tgt : Bytes)
    → 0 < length src
    → length src < 200
    → (similarity_of src tgt ≡ 100) ↔ IsWithin src tgt
unfolding similarity_of
similarity_of-full src tgt p q = (there, back)
  where
    there : similarity_of src tgt ≡ 100 → IsWithin src tgt
    there h =
        slide-full src tgt p
          (rate-full (slide src tgt) (length src) (slide-le src tgt) p q (ground arith))

    back : IsWithin src tgt → similarity_of src tgt ≡ 100
    back w = ground (arith, slide_of_within src tgt w, rate_of_full (length src) p)

-- For an entry plate at least as long as the exit plate, which is not empty and shorter than 200
-- bytes, the similarity is 100 exactly if the entry plate holds the exit plate as one piece.
pub max_similarity-full :
    (entry exit : Bytes)
    → exit ≢ []
    → length exit ≤ length entry
    → length exit < 200
    → (max_similarity entry exit ≡ 100) ↔ IsWithin exit entry
unfolding max_similarity
max_similarity-full entry [] p h q = absurd (p refl)
max_similarity-full [] (x ∷ exit) p h q = absurd (omega arith)
max_similarity-full (y ∷ entry) (x ∷ exit) p h q =
    let same : max_similarity (y ∷ entry) (x ∷ exit) ≡ similarity_of (x ∷ exit) (y ∷ entry) =
      ground arith in
    rw same (similarity_of-full (x ∷ exit) (y ∷ entry) (omega arith) q)
