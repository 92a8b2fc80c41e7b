-- ===== src/Database/Keys.antt =====
-- Whether a number and a time are in one of the tables, while rows move between them.
use my_linux_pbs.Base.{
  ◌≡◌, refl, Bool, Bool-cases, inl, inr, ◌⊎◌, true, false, ◌||◌, List, [], ◌∷◌, ◌++◌, Bytes,
  bytes_eq, arith,
}
use my_linux_pbs.Database.Rows.{
  EntryTrans, ExitTrans, Tables, entry_is, exit_is, has, without, to_central, to_local, from_local,
}

bytes_eq-≡ : (a b : Bytes) → bytes_eq a b ≡ true → a ≡ b
bytes_eq-≡ [] [] h = refl
bytes_eq-≡ [] (b ∷ bs) h = absurd (ground arith)
bytes_eq-≡ (a ∷ as') [] h = absurd (ground arith)
bytes_eq-≡ (a ∷ as') (b ∷ bs) h = ap2 (bytes_eq-≡ as' bs (ground arith)) (ground arith)
  where
    ap2 : as' ≡ bs → a ≡ b → (a ∷ as') ≡ (b ∷ bs)
    ap2 p q = cc

pub bytes_eq_refl : (a : Bytes) → bytes_eq a a ≡ true
bytes_eq_refl [] = refl
bytes_eq_refl (x ∷ a) = let ih = bytes_eq_refl a in ground arith

module _ {A : Type 0} where
  has-append : (is : A → Bool) (xs ys : List A) → has is (xs ++ ys) ≡ (has is xs || has is ys)
  has-append is [] ys = refl
  has-append is (x ∷ xs) ys = let ih = has-append is xs ys in ground arith

  has-without :
      (is del : A → Bool) (xs : List A)
      → ((x : A) → is x ≡ true → del x ≡ false)
      → has is (without del xs) ≡ has is xs
  has-without is del [] h = refl
  has-without is del (x ∷ xs) h =
      let ih = has-without is del xs h in
      elim (Bool-cases (is x)) [
        | inl e ↦ let k = h x e in rw (k, e) refl
        | inr e ↦ elim (Bool-cases (del x)) [
          | inl k ↦ rw (k, e, ih) refl
          | inr k ↦ rw (k, e, ih) refl
        ]
      ]

  -- In the central table or in the local one.
  abbrev pub kept : (A → Bool) → Tables A → Bool
  kept is t = has is t.central || has is t.local

  pub kept-to_central :
      (is : A → Bool) (x : A) (t : Tables A)
      → (is x || kept is t) ≡ true
      → kept is (to_central x t) ≡ true
  kept-to_central is x t h = let e = has-append is t.central (x ∷ []) in ground arith

  pub kept-to_local :
      (is : A → Bool) (x : A) (t : Tables A)
      → (is x || kept is t) ≡ true
      → kept is (to_local x t) ≡ true
  kept-to_local is x t h = let e = has-append is t.local (x ∷ []) in ground arith

  -- A row that has gone to the central table may leave the local one, with all rows of its key.
  pub kept-moved :
      (is del : A → Bool) (x : A) (t : Tables A)
      → ((is x ≡ true) ⊎ ((y : A) → is y ≡ true → del y ≡ false))
      → kept is t ≡ true
      → kept is (from_local del (to_central x t)) ≡ true
  kept-moved is del x t (inl e) h = let k = has-append is t.central (x ∷ []) in ground arith
  kept-moved is del x t (inr f) h =
      let e = has-append is t.central (x ∷ []) in
      let k = has-without is del t.local f in ground arith

same_entry :
    (iu t : Bytes) (r x : EntryTrans)
    → entry_is r.iu_tk_no r.time x ≡ true
    → entry_is iu t x ≡ entry_is iu t r
same_entry iu t r x h =
    let p = bytes_eq-≡ x.iu_tk_no r.iu_tk_no (ground arith) in
    let q = bytes_eq-≡ x.time r.time (ground arith) in rw (p, q) refl

same_exit :
    (iu t : Bytes) (r x : ExitTrans)
    → exit_is r.iu_tk_no r.time x ≡ true
    → exit_is iu t x ≡ exit_is iu t r
same_exit iu t r x h =
    let p = bytes_eq-≡ x.iu_tk_no r.iu_tk_no (ground arith) in
    let q = bytes_eq-≡ x.time r.time (ground arith) in rw (p, q) refl

pub entry_apart :
    (iu t : Bytes) (r : EntryTrans)
    → (entry_is iu t r ≡ true)
      ⊎ ((y : EntryTrans) → entry_is iu t y ≡ true → entry_is r.iu_tk_no r.time y ≡ false)
entry_apart iu t r = elim (Bool-cases (entry_is iu t r)) [
  | inl e ↦ inl e
  | inr e ↦ inr (λ y h. elim (Bool-cases (entry_is r.iu_tk_no r.time y)) [
    | inl k ↦ let s = same_entry iu t r y k in absurd (ground arith)
    | inr k ↦ k
  ])
]

pub exit_apart :
    (iu t : Bytes) (r : ExitTrans)
    → (exit_is iu t r ≡ true)
      ⊎ ((y : ExitTrans) → exit_is iu t y ≡ true → exit_is r.iu_tk_no r.time y ≡ false)
exit_apart iu t r = elim (Bool-cases (exit_is iu t r)) [
  | inl e ↦ inl e
  | inr e ↦ inr (λ y h. elim (Bool-cases (exit_is r.iu_tk_no r.time y)) [
    | inl k ↦ let s = same_exit iu t r y k in absurd (ground arith)
    | inr k ↦ k
  ])
]
