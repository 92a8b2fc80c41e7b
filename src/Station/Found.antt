-- ===== src/Station/Found.antt =====
-- The entry record that `PBSExit` of operation.cpp looks for: `FetchEntryinfo` of db.cpp, and the
-- partial matching of the plate.
use my_linux_pbs.Base.{ℕ, Option, none, some, List, [], ◌∷◌, if◌then◌else◌, Bytes, is_empty}
use my_linux_pbs.Base.Int.{ℤ, pos, negsuc, is_pos}
use my_linux_pbs.Plate.Matching.{EntryRecord, partial_match}
use my_linux_pbs.Station.State.{Exit, Money}
use my_linux_pbs.Station.Exit.{is_minus_one}

-- The columns that `FetchEntryinfo` takes from a row of the entries.
pub record EntryRow : Type 0 where
  pub entry_time : Bytes
  pub trans_type : ℕ
  pub owe_amt : Money
  pub entry_station : ℕ

-- A select that failed with a code, or its rows.
pub data Rows : Type 0 where
  failed : ℤ → Rows
  rows : List EntryRow → Rows

-- What the exit asks: the entries of the central and of the local database by number, the unmatched
-- entries, the thresholds of the ini file, the answers of `GetXTariff`, and `std::stoi` and
-- `std::stof`, which throw where they have no number.
pub record Queries : Type 0 where
  pub central : Bytes → Rows
  pub local : Bytes → Rows
  pub unmatched : Option (List EntryRecord)
  pub digit_threshold : ℕ
  pub whole_threshold : ℕ
  pub auto_debit : ℤ
  pub auto_amount : Money
  pub stoi : Bytes → Option ℕ
  pub stof : Bytes → Option Money

unfoldable pub take_row : Exit → EntryRow → Exit
take_row x e = record x {
  entry_time = e.entry_time;
  trans_type = e.trans_type;
  owe_amt = e.owe_amt;
  entry_id = e.entry_station;
}

-- The answer 3 is no entry; the local database is asked where the central one fails.
unfoldable pub fetched_local : Exit → Rows → Exit × ℤ
fetched_local x (failed r) = (x, r)
fetched_local x (rows []) = (x, pos 3)
fetched_local x (rows (e ∷ es)) = (take_row x e, pos 0)

unfoldable pub fetched : Exit → Rows → Rows → Exit × ℤ
unfolding fetched_local
fetched x (failed r) local = fetched_local x local
fetched x (rows []) local = (x, pos 3)
fetched x (rows (e ∷ es)) local = (take_row x e, pos 0)

unfoldable pub fetch_entry_info : Queries → Bytes → Exit → Exit × ℤ
unfolding fetched
fetch_entry_info q iu x = fetched x (q.central iu) (q.local iu)

-- The record that was matched; what stands behind a text that is no number is not set.
unfoldable pub matched_with : Queries → Exit → EntryRecord → Exit
matched_with q x e =
    let x1 = record x { entry_time = e.entry_time } in
    elim (q.stoi e.trans_type) [
      | none ↦ x1
      | some t ↦ elim (q.stof e.owe_amt) [
        | none ↦ record x1 { trans_type = t }
        | some a ↦ elim (q.stoi e.entry_stn) [
          | none ↦ record x1 { trans_type = t; owe_amt = a }
          | some n ↦ record x1 { trans_type = t; owe_amt = a; entry_id = n }
        ]
      ]
    ]

unfoldable pub best_of : Queries → Bytes → List EntryRecord → Exit → Exit
unfolding matched_with
best_of q iu es x = elim (partial_match q.digit_threshold q.whole_threshold iu es) [
  | none ↦ x
  | some c ↦ matched_with q x c.row
]

unfoldable pub match_entry : Queries → Bytes → Exit → Exit
unfolding best_of
match_entry q iu x = elim q.unmatched [ none ↦ x | some es ↦ best_of q iu es x ]

-- Whether an entry time was found.
unfoldable pub note_entry : Exit → Exit
note_entry x =
    if is_empty x.entry_time
    then record x { no_entry_record = pos 1; parked_time = negsuc 0 }
    else record x { no_entry_record = pos 0 }

unfoldable pub entry_found : Queries → Bytes → Exit → Exit
unfolding fetch_entry_info match_entry note_entry
entry_found q iu x =
    let (y, r) = fetch_entry_info q iu x in
    if is_minus_one x.no_entry_record
    then note_entry (if is_pos r 3 then match_entry q iu y else y)
    else x
