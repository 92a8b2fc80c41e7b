-- ===== src/Text/Fields/Framed.antt =====
-- What one station sends is what the other one reads.
use my_linux_pbs.Base.{
  suc, take, ◌≤◌, ◌==◌, ℕ, zero, suc, ◌≤◌, ◌≡◌, refl, ap, ◌∙◌, false, List, [], ◌∷◌, ◌++◌, Bytes,
  codes, length, drop, All, All-append, append_assoc, arith,
}
use my_linux_pbs.Text.Decimal.{to_string, to_string-digits, to_string-digits_above}
use my_linux_pbs.Text.Split.{
  bitten, IsFree, parse_string, terminated, bitten-free, parse_string-terminated,
}
use my_linux_pbs.Text.Fields.{
  max_length, behind_start, parse, framed, received, brackets, parse_buffer,
}

bitten-past : (p rest : Bytes) (c : ℕ) → IsFree c p → bitten (p ++ rest) c ≡ p ++ bitten rest c
bitten-past [] rest c _ = refl
bitten-past (x ∷ p) rest c (h, hs) = rw h (ap (λ q. x ∷ q) (bitten-past p rest c hs))

terminated-IsFree :
    (fs : List Bytes) (s c : ℕ)
    → ((s == c) ≡ false)
    → All (IsFree c) fs
    → IsFree c (terminated fs s)
terminated-IsFree [] s c n _ = tt
terminated-IsFree (f ∷ fs) s c n (h, hs) =
    All-append _ f (s ∷ terminated fs s) h (n, terminated-IsFree fs s c n hs)

-- A text that a datagram can carry in a field.
abbrev pub IsField : Bytes → Type 0
IsField f = IsFree b'|' f × IsFree b']' f × IsFree 0 f

parse_buffer-terminated :
    (fs : List Bytes) (rest : Bytes)
    → All (IsFree b'|') fs
    → All (IsFree b']') fs
    → All (IsFree 0) fs
    → parse_buffer (b'[' ∷ (terminated fs b'|' ++ (b']' ∷ rest))) ≡ fs
unfolding parse_buffer behind_start
parse_buffer-terminated fs rest bar end nul =
    ap (λ t. parse brackets (b'[' ∷ t))
      (bitten-past (terminated fs b'|') (b']' ∷ rest) 0 (terminated-IsFree fs b'|' 0 refl nul))
    ∙ ap (λ t. parse_string t b'|')
        (bitten-free (terminated fs b'|') (bitten rest 0) b']'
          (terminated-IsFree fs b'|' b']' refl end))
    ∙ parse_string-terminated fs b'|' bar

take-all : (n : ℕ) (xs : Bytes) → length xs ≤ n → take n xs ≡ xs
take-all zero [] h = refl
take-all zero (x ∷ xs) h = elim h [ ]
take-all (suc n) [] h = refl
take-all (suc n) (x ∷ xs) h = ap (λ t. x ∷ t) (take-all n xs (omega arith))

-- Whatever was in the receiver's buffer before: a message of at most 1024 bytes whose name, command and
-- text hold no `|`, no `]` and no byte 0 is read as its four fields, the name, the number of the station, the command and
-- the text, an empty text too.
pub parse_buffer-received :
    (name cmd text before : Bytes) (sid : ℕ)
    → IsField name
    → IsField cmd
    → IsField text
    → length (framed name sid cmd text) ≤ max_length
    → parse_buffer (received (framed name sid cmd text) before)
      ≡ name ∷ to_string sid ∷ cmd ∷ text ∷ []
unfolding received framed
parse_buffer-received name cmd text before sid (n1, n2, n3) (c1, c2, c3) (t1, t2, t3) fits =
    let fs = name ∷ to_string sid ∷ cmd ∷ text ∷ [] in
    let rest = drop (length (framed name sid cmd text)) before in
    ap (λ t. parse_buffer (t ++ drop (length t) before))
      (take-all max_length (framed name sid cmd text) fits)
    ∙ ap (λ t. parse_buffer (b'[' ∷ t)) (append_assoc (terminated fs b'|') (codes "]") rest)
    ∙ parse_buffer-terminated fs rest (n1, (bar, (c1, (t1, tt)))) (n2, (end, (c2, (t2, tt))))
        (n3, (to_string-digits 0 sid (omega arith), (c3, (t3, tt))))
  where
    bar : IsFree b'|' (to_string sid)
    bar = to_string-digits_above b'|' sid (omega arith)

    end : IsFree b']' (to_string sid)
    end = to_string-digits_above b']' sid (omega arith)
