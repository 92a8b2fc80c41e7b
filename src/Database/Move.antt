-- ===== src/Database/Move.antt =====
-- `moveOfflineTransToCentral` with what it calls: the local rows go to the central database one by one.
use my_linux_pbs.Base.{
  ℕ, ◌+◌, Bool, true, false, not, ◌&&◌, List, [], ◌∷◌, ◌++◌, if◌then◌else◌, Bytes, bytes_eq,
  is_empty,
}
use my_linux_pbs.Station.Env.{StationType, entry_station, exit_station}
use my_linux_pbs.Database.Rows.{
  EntryTrans, ExitTrans, Movement, entered, left, Store, entry_is, exit_is, without, to_central,
  from_local,
}

-- What the databases answer for one row.
pub record RowAnswers : Type 0 where
  pub inserted : Bool
  pub movement_deleted : Bool
  pub movement_inserted : Bool
  pub deleted : Bool

-- What they answer to a move: the count of the rows, the selection and each of its rows.
pub record Moves : Type 0 where
  pub counted : Bool
  pub selects : Bool
  pub entries_of : List EntryTrans → List EntryTrans
  pub exits_of : List ExitTrans → List ExitTrans
  pub row : ℕ → RowAnswers

-- `insertTransToCentralEntryTransTmp` leaves out the transaction of the camera.
unfoldable pub moved_entry : EntryTrans → EntryTrans
moved_entry r = record r { lpn_sid = [] }

-- `insertTransToCentralExitTransTmp` leaves out the plate too.
unfoldable pub moved_exit : ExitTrans → ExitTrans
moved_exit r = record r {
  upos_batch_no = [];
  fee_from = [];
  lpn = [];
  entry_id = 0;
  entry_time = [];
  lpn_sid = [];
}

-- `deleteLocalTrans` deletes by the number and the time.
unfoldable pub delete_local_entry : Bool → EntryTrans → Store → Store
delete_local_entry ok r s =
    if ok
    then record s {
      entries = from_local (entry_is r.iu_tk_no r.time) s.entries;
      local_error = false;
    }
    else record s { local_error = true }

unfoldable pub delete_local_exit : Bool → ExitTrans → Store → Store
delete_local_exit ok r s =
    if ok
    then record s { exits = from_local (exit_is r.iu_tk_no r.time) s.exits; local_error = false }
    else record s { local_error = true }

abbrev pub is_open : Bytes → Bytes → Movement → Bool
is_open iu t (entered n u) = bytes_eq n iu && bytes_eq u t
is_open iu t (left r) = false

-- `DeleteBeforeInsertMT`.
unfoldable pub delete_before_insert : Bool → ExitTrans → Store → Store
delete_before_insert ok r s =
    if ok then record s { movements = without (is_open r.iu_tk_no r.entry_time) s.movements } else s

-- `insert2movementtrans`.
unfoldable pub insert_to_movement_trans : Bool → ExitTrans → Store → Store
insert_to_movement_trans ok r s =
    if ok
    then record s { movements = s.movements ++ left r ∷ [] }
    else record s { remote_error = true }

unfoldable pub move_entry : RowAnswers → EntryTrans → Store → Store
unfolding moved_entry delete_local_entry
move_entry a r s =
    if a.inserted
    then (let t =
          delete_local_entry a.deleted r
            (record s { entries = to_central (moved_entry r) s.entries }) in
        record t { remote_error = false })
    else record s { remote_error = true }

unfoldable pub move_exit : RowAnswers → ExitTrans → Store → Store
unfolding moved_exit delete_local_exit delete_before_insert insert_to_movement_trans
move_exit a r s =
    if a.inserted
    then (let t = record s { exits = to_central (moved_exit r) s.exits } in
        let u =
          insert_to_movement_trans a.movement_inserted r
            (delete_before_insert a.movement_deleted r t) in
        record (delete_local_exit a.deleted r u) { remote_error = false })
    else record s { remote_error = true }

-- The loop over the selected rows.
abbrev pub each :
    {A : Type 0} → (RowAnswers → A → Store → Store) → (ℕ → RowAnswers) → ℕ → List A → Store → Store
each f row j [] s = s
each f row j (r ∷ rs) s = each f row (j + 1) rs (f (row j) r s)

-- A selection that fails selects nothing.
unfoldable pub selected : {A : Type 0} → Bool → List A → List A
selected ok rs = if ok then rs else []

unfoldable pub move_entries : Moves → Store → Store
unfolding move_entry selected
move_entries a s =
    if a.counted && not (is_empty s.entries.local)
    then each move_entry a.row 0 (selected a.selects (a.entries_of s.entries.local))
        (record s { local_error = not a.selects })
    else record s { local_error = not a.counted }

unfoldable pub move_exits : Moves → Store → Store
unfolding move_exit selected
move_exits a s =
    if a.counted && not (is_empty s.exits.local)
    then each move_exit a.row 0 (selected a.selects (a.exits_of s.exits.local))
        (record s { local_error = not a.selects })
    else record s { local_error = not a.counted }

unfoldable pub move_offline_trans_to_central : StationType → Moves → Store → Store
unfolding move_entries move_exits
move_offline_trans_to_central entry_station a s = move_entries a s
move_offline_trans_to_central exit_station a s = move_exits a s
