-- ===== src/Text/Split.antt =====
-- `Common::FnBiteString` and `Common::FnParseString`.
use my_linux_pbs.Base.{
  ℕ, zero, suc, ◌≤◌, ◌≡◌, refl, ap, ◌∙◌, false, List, [], ◌∷◌, ◌++◌, length, ◌==◌, if◌then◌else◌,
  Bytes, All, arith, is_empty, true, Bool, ◌||◌,
}

-- The text before the first `c`; all of it where there is none.
abbrev pub bitten : Bytes → ℕ → Bytes
bitten [] c = []
bitten (x ∷ xs) c = if x == c then [] else x ∷ bitten xs c

-- What is left: the text behind the first `c`; nothing where there is none.
abbrev pub left_over : Bytes → ℕ → Bytes
left_over [] c = []
left_over (x ∷ xs) c = if x == c then xs else left_over xs c

-- The loop of `FnParseString`, on a fuel.
abbrev pub parse_from : ℕ → Bytes → ℕ → List Bytes
parse_from zero xs c = []
parse_from (suc f) [] c = []
parse_from (suc f) (x ∷ xs) c = bitten (x ∷ xs) c ∷ parse_from f (left_over (x ∷ xs) c) c

-- Each turn takes a character, so the length is fuel enough.
unfoldable pub parse_string : Bytes → ℕ → List Bytes
parse_string xs c = parse_from (length xs) xs c

left_over-shorter : (xs : Bytes) (c : ℕ) → length (left_over xs c) ≤ length xs
left_over-shorter [] c = omega arith
left_over-shorter (x ∷ xs) c = let ih = left_over-shorter xs c in ground arith

left_over-shorter_cons : (x : ℕ) (xs : Bytes) (c : ℕ) → length (left_over (x ∷ xs) c) ≤ length xs
left_over-shorter_cons x xs c = let ih = left_over-shorter xs c in ground arith

-- Enough fuel is enough.
parse_from-fuel :
    (f : ℕ) (xs : Bytes) (c : ℕ) → length xs ≤ f → parse_from f xs c ≡ parse_string xs c
unfolding parse_string
parse_from-fuel f xs c h = go f (length xs) xs h (omega arith)
  where
    go :
        (f g : ℕ) (ys : Bytes)
        → length ys ≤ f
        → length ys ≤ g
        → parse_from f ys c ≡ parse_from g ys c
    go zero zero ys h k = refl
    go zero (suc g) [] h k = refl
    go zero (suc g) (y ∷ ys) h k = elim h [ ]
    go (suc f) zero [] h k = refl
    go (suc f) zero (y ∷ ys) h k = elim k [ ]
    go (suc f) (suc g) [] h k = refl
    go (suc f) (suc g) (y ∷ ys) h k =
        let shorter = left_over-shorter_cons y ys c in
        ap (λ r. bitten (y ∷ ys) c ∷ r) (go f g (left_over (y ∷ ys) c) (omega arith) (omega arith))

-- No `c` in the text.
abbrev pub IsFree : ℕ → Bytes → Type 0
IsFree c = All (λ x. (x == c) ≡ false)

pub bitten-free : (p rest : Bytes) (c : ℕ) → IsFree c p → bitten (p ++ (c ∷ rest)) c ≡ p
bitten-free [] rest c _ = ground arith
bitten-free (x ∷ p) rest c (h, hs) = rw h (ap (λ q. x ∷ q) (bitten-free p rest c hs))

pub left_over-free : (p rest : Bytes) (c : ℕ) → IsFree c p → left_over (p ++ (c ∷ rest)) c ≡ rest
left_over-free [] rest c _ = ground arith
left_over-free (x ∷ p) rest c (h, hs) = rw h (left_over-free p rest c hs)

-- Every field with a `c` behind it.
abbrev pub terminated : List Bytes → ℕ → Bytes
terminated [] c = []
terminated (p ∷ ps) c = p ++ (c ∷ terminated ps c)

parse_string-cons :
    (x : ℕ) (xs : Bytes) (c : ℕ)
    → parse_string (x ∷ xs) c ≡ bitten (x ∷ xs) c ∷ parse_string (left_over (x ∷ xs) c) c
unfolding parse_string
parse_string-cons x xs c =
    ap (λ r. bitten (x ∷ xs) c ∷ r)
      (parse_from-fuel (length xs) (left_over (x ∷ xs) c) c (left_over-shorter_cons x xs c))

parse_string-step :
    (p rest : Bytes) (c : ℕ)
    → IsFree c p
    → parse_string (p ++ (c ∷ rest)) c ≡ p ∷ parse_string rest c
parse_string-step [] rest c h =
    parse_string-cons c rest c
    ∙ ap (λ q. q ∷ parse_string (left_over (c ∷ rest) c) c) (bitten-free [] rest c h)
    ∙ ap (λ r. [] ∷ parse_string r c) (left_over-free [] rest c h)
parse_string-step (x ∷ p) rest c h =
    parse_string-cons x (p ++ (c ∷ rest)) c
    ∙ ap (λ q. q ∷ parse_string (left_over (x ∷ p ++ (c ∷ rest)) c) c)
        (bitten-free (x ∷ p) rest c h)
    ∙ ap (λ r. (x ∷ p) ∷ parse_string r c) (left_over-free (x ∷ p) rest c h)

-- Fields that hold no separator, each with the separator behind it, are read back, empty ones too.
pub parse_string-terminated :
    (ps : List Bytes) (c : ℕ) → All (IsFree c) ps → parse_string (terminated ps c) c ≡ ps
unfolding parse_string
parse_string-terminated [] c _ = refl
parse_string-terminated (p ∷ ps) c (h, hs) =
    parse_string-step p _ c h ∙ ap (λ qs. p ∷ qs) (parse_string-terminated ps c hs)

-- Fields with a `c` between them.
abbrev pub joined : Bytes → List Bytes → ℕ → Bytes
joined p [] c = p
joined p (q ∷ ps) c = p ++ (c ∷ joined q ps c)

pub bitten-all : (p : Bytes) (c : ℕ) → IsFree c p → bitten p c ≡ p
bitten-all [] c _ = refl
bitten-all (x ∷ p) c (h, hs) = rw h (ap (λ q. x ∷ q) (bitten-all p c hs))

left_over-all : (p : Bytes) (c : ℕ) → IsFree c p → left_over p c ≡ []
left_over-all [] c _ = refl
left_over-all (x ∷ p) c (h, hs) = rw h (left_over-all p c hs)

-- A text without the separator is one field, unless it is empty.
parse_string-all : (p : Bytes) (c : ℕ) → IsFree c p → is_empty p ≡ false → parse_string p c ≡ p ∷ []
unfolding parse_string
parse_string-all [] c h e = cc
parse_string-all (x ∷ p) c h e =
    parse_string-cons x p c
    ∙ ap (λ r. bitten (x ∷ p) c ∷ parse_string r c) (left_over-all (x ∷ p) c h)
    ∙ ap (λ q. q ∷ []) (bitten-all (x ∷ p) c h)

-- Fields that are not empty and hold no separator, with the separator between them, are read back.
pub parse_string-joined :
    (p : Bytes) (ps : List Bytes) (c : ℕ)
    → All (λ q. IsFree c q × (is_empty q ≡ false)) (p ∷ ps)
    → parse_string (joined p ps c) c ≡ p ∷ ps
parse_string-joined p [] c ((h, e), _) = parse_string-all p c h e
parse_string-joined p (q ∷ ps) c ((h, e), hs) =
    parse_string-step p (joined q ps c) c h ∙ ap (λ qs. p ∷ qs) (parse_string-joined q ps c hs)

-- Whether `c` is there.
abbrev pub holds : ℕ → Bytes → Bool
holds c [] = false
holds c (x ∷ xs) = (x == c) || holds c xs

pub holds-separated : (p rest : Bytes) (c : ℕ) → holds c (p ++ (c ∷ rest)) ≡ true
holds-separated [] rest c = ground arith
holds-separated (x ∷ p) rest c = let ih = holds-separated p rest c in ground arith

pub holds-free : (p : Bytes) (c : ℕ) → IsFree c p → holds c p ≡ false
holds-free [] c _ = refl
holds-free (x ∷ p) c (h, hs) = rw h (holds-free p c hs)

-- A text is checked by evaluation.
pub IsFree-holds : (c : ℕ) (p : Bytes) → holds c p ≡ false → IsFree c p
IsFree-holds c [] h = tt
IsFree-holds c (x ∷ p) h = (ground arith, IsFree-holds c p (ground arith))
