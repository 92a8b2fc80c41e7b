-- ===== src/Database/Emptied.antt =====
-- A move while both databases answer.
use my_linux_pbs.Base.{
  ℕ, ◌+◌, ◌≡◌, refl, ap, sym, ◌∙◌, Bool, Bool-cases, inl, inr, true, false, List, [], ◌∷◌, ◌++◌,
  map, append_assoc, append-nil, is_empty, All, arith,
}
use my_linux_pbs.Station.Env.{entry_station}
use my_linux_pbs.Database.Rows.{
  EntryTrans, Tables, Store, entry_is, has, without, to_central, from_local,
}
use my_linux_pbs.Database.Move.{
  RowAnswers, Moves, moved_entry, delete_local_entry, move_entry, each, selected, move_entries,
  move_offline_trans_to_central,
}

-- A row of the list has the number and the time of `x`.
abbrev pub is_among : List EntryTrans → EntryTrans → Bool
is_among rs x = has (λ r. entry_is r.iu_tk_no r.time x) rs

-- What is left when the rows of a list are deleted one by one.
left_of : List EntryTrans → List EntryTrans → List EntryTrans
left_of [] l = l
left_of (r ∷ rs) l = left_of rs (without (entry_is r.iu_tk_no r.time) l)

fewer :
    (r : EntryTrans) (rs l : List EntryTrans)
    → All (λ x. is_among (r ∷ rs) x ≡ true) l
    → All (λ x. is_among rs x ≡ true) (without (entry_is r.iu_tk_no r.time) l)
fewer r rs [] _ = tt
fewer r rs (x ∷ l) (h, hs) = elim (Bool-cases (entry_is r.iu_tk_no r.time x)) [
  | inl e ↦ rw e (fewer r rs l hs)
  | inr e ↦ rw e (ground arith, fewer r rs l hs)
]

left_of_covered : (rs l : List EntryTrans) → All (λ x. is_among rs x ≡ true) l → left_of rs l ≡ []
unfolding left_of
left_of_covered [] [] _ = refl
left_of_covered [] (x ∷ l) (h, _) = absurd (ground arith)
left_of_covered (r ∷ rs) l h =
    left_of_covered rs (without (entry_is r.iu_tk_no r.time) l) (fewer r rs l h)

move_entry-answered :
    (a : RowAnswers) (r : EntryTrans) (s : Store)
    → a.inserted ≡ true
    → a.deleted ≡ true
    → (move_entry a r s).entries
      ≡ from_local (entry_is r.iu_tk_no r.time) (to_central (moved_entry r) s.entries)
unfolding move_entry delete_local_entry
move_entry-answered a r s h k = rw (h, k) refl

each-answered :
    (row : ℕ → RowAnswers) (j : ℕ) (rs : List EntryTrans) (s : Store)
    → ((j : ℕ) → ((row j).inserted ≡ true) × ((row j).deleted ≡ true))
    → (each move_entry row j rs s).entries ≡ record {
      central = s.entries.central ++ map moved_entry rs;
      local = left_of rs s.entries.local;
    }
unfolding left_of
each-answered row j [] s h =
    ap (λ c. record { central = c; local = s.entries.local }) (sym (append-nil s.entries.central))
each-answered row j (r ∷ rs) s h =
    let t = move_entry (row j) r s in
    let e = move_entry-answered (row j) r s (h j).0 (h j).1 in
    each-answered row (j + 1) rs t h
    ∙ ap
        (λ (u : Tables EntryTrans). record {
          central = u.central ++ map moved_entry rs;
          local = left_of rs u.local;
        })
        e
    ∙ ap
        (λ c. record {
          central = c;
          local = left_of rs (without (entry_is r.iu_tk_no r.time) s.entries.local);
        })
        (append_assoc s.entries.central (moved_entry r ∷ []) (map moved_entry rs))

-- Where the local table of an entry has rows, the databases answer every call with a success and the
-- selection has a row for the number and the time of each local row: the move leaves the local table
-- empty, and behind the central rows stands each selected row once, in the order of the selection.
pub move_offline_trans_to_central-answered :
    (a : Moves) (s : Store)
    → is_empty s.entries.local ≡ false
    → a.counted ≡ true
    → a.selects ≡ true
    → ((j : ℕ) → ((a.row j).inserted ≡ true) × ((a.row j).deleted ≡ true))
    → All (λ x. is_among (a.entries_of s.entries.local) x ≡ true) s.entries.local
    → (move_offline_trans_to_central entry_station a s).entries ≡ record {
      central = s.entries.central ++ map moved_entry (a.entries_of s.entries.local);
      local = [];
    }
unfolding move_offline_trans_to_central move_entries selected
move_offline_trans_to_central-answered a s full counted selects answers among =
    rw (counted, full, selects)
      (each-answered a.row 0 (a.entries_of s.entries.local) (record s { local_error = false })
          answers
        ∙ ap
            (λ l. record {
              central = s.entries.central ++ map moved_entry (a.entries_of s.entries.local);
              local = l;
            })
            (left_of_covered (a.entries_of s.entries.local) s.entries.local among))
