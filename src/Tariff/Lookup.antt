-- ===== src/Tariff/Lookup.antt =====
-- What the table holds once it is loaded.
use my_linux_pbs.Base.{
  ◌||◌, ℕ, ◌≤◌, ◌≡◌, refl, ◌∙◌, ap, inl, inr, Bool, true, false, ◌&&◌, List, [], ◌∷◌, ◌++◌, ◌==◌,
  if◌then◌else◌, All, Bool-cases, arith,
}
use my_linux_pbs.Text.Decimal.{to_string}
use my_linux_pbs.Tariff.{Tariff}
use my_linux_pbs.Tariff.Table.{
  Tariffs, row, column, write_tariff_to_ram, but_last, write_day_types, load_tariff,
}

-- The entry of a day type.
abbrev entry_of : Tariffs → ℕ → Tariff
entry_of g d = g (row d) (column d)

-- Day types from 1 have places of their own.
place-distinct : (d e : ℕ) → 1 ≤ d → 1 ≤ e → ((row d == row e) && (column d == column e)) ≡ (d == e)
unfolding row column
place-distinct d e h k = ground arith

-- The tariff as it stands under a day type.
abbrev pub under : ℕ → Tariff → Tariff
under d t = record t { day_type = to_string d }

entry_of-write :
    (d e : ℕ) (t : Tariff) (g : Tariffs)
    → 1 ≤ d
    → 1 ≤ e
    → entry_of (write_tariff_to_ram e t g) d ≡ (if d == e then under d t else entry_of g d)
unfolding write_tariff_to_ram
entry_of-write d e t g h k =
    rw (place-distinct d e h k) (elim (Bool-cases (d == e)) [
      | inl b ↦ rw b (ap (λ x. under x t) (same b))
      | inr b ↦ rw b refl
    ])
  where
    same : (d == e) ≡ true → e ≡ d
    same b = ground arith

abbrev pub lists : ℕ → List ℕ → Bool
lists d [] = false
lists d (e ∷ ds) = (d == e) || lists d ds

abbrev pub AreTypes : List ℕ → Type 0
AreTypes = All (λ d. 1 ≤ d)

entry_of-write_day_types :
    (d : ℕ) (ds : List ℕ) (t : Tariff) (g : Tariffs)
    → 1 ≤ d
    → AreTypes ds
    → entry_of (write_day_types ds t g) d ≡ (if lists d ds then under d t else entry_of g d)
entry_of-write_day_types d [] t g h _ = refl
entry_of-write_day_types d (e ∷ ds) t g h (k, ks) =
    entry_of-write_day_types d ds t (write_tariff_to_ram e t g) h ks
    ∙ rw (entry_of-write d e t g h k) (ground arith)

-- The records that do not list a day type leave its entry.
abbrev pub AreOthers : ℕ → List (List ℕ × Tariff) → Type 0
AreOthers d = All (λ r. AreTypes (but_last r.0) × (lists d (but_last r.0) ≡ false))

entry_of-others :
    (d : ℕ) (rows : List (List ℕ × Tariff)) (g : Tariffs)
    → 1 ≤ d
    → AreOthers d rows
    → entry_of (load_tariff rows g) d ≡ entry_of g d
entry_of-others d [] g h _ = refl
entry_of-others d ((ds, t) ∷ rows) g h ((k, l), ks) =
    entry_of-others d rows (write_day_types (but_last ds) t g) h ks
    ∙ entry_of-write_day_types d (but_last ds) t g h k
    ∙ rw l refl

load_tariff-append :
    (xs ys : List (List ℕ × Tariff)) (g : Tariffs)
    → load_tariff (xs ++ ys) g ≡ load_tariff ys (load_tariff xs g)
load_tariff-append [] ys g = refl
load_tariff-append ((ds, t) ∷ xs) ys g =
    load_tariff-append xs ys (write_day_types (but_last ds) t g)

-- A day type finds the tariff of the last record that lists it before its last comma: neither
-- the other day types of that record nor those of the later records overwrite it.
pub load_tariff-row :
    (d : ℕ) (ds : List ℕ) (t : Tariff) (before later : List (List ℕ × Tariff)) (g : Tariffs)
    → 1 ≤ d
    → AreTypes (but_last ds)
    → lists d (but_last ds) ≡ true
    → AreOthers d later
    → load_tariff (before ++ ((ds, t) ∷ later)) g (row d) (column d)
      ≡ record t { day_type = to_string d }
load_tariff-row d ds t before later g h k l ks =
    ap (λ f. f (row d) (column d)) (load_tariff-append before ((ds, t) ∷ later) g)
    ∙ entry_of-others d later (write_day_types (but_last ds) t (load_tariff before g)) h ks
    ∙ entry_of-write_day_types d (but_last ds) t (load_tariff before g) h k
    ∙ rw l refl
