-- ===== src/Examples/Database.antt =====
-- The two databases on concrete inputs.
use my_linux_pbs.Base.{◌≡◌, refl, true, false, Option, none, [], ◌∷◌, Bytes, codes}
use my_linux_pbs.Base.Int.{ℤ, pos}
use my_linux_pbs.Station.State.{Entry}
use my_linux_pbs.Station.Env.{entry_station}
use my_linux_pbs.Database.Rows.{Store}
use my_linux_pbs.Database.Save.{
  Links, insert_entry_trans, stamped, insert_entry_local, reaches_local, entry_row, serial_of,
}
use my_linux_pbs.Database.Move.{Moves, moved_entry, move_offline_trans_to_central}
use my_linux_pbs.Database.Keeps.{entry_kept}
use my_linux_pbs.Database.Kept.{start, entry_saved, moved, Reach-Kept}
use my_linux_pbs.Database.Emptied.{move_offline_trans_to_central-answered}
use my_linux_pbs.Examples.Samples.{no_entry}

abbrev nothing_stored : Store
nothing_stored = record {
  entries = record { central = []; local = [] };
  exits = record { central = []; local = [] };
  movements = [];
  system_online = pos 0;
  offline_data = 0;
  local_error = false;
  remote_error = false;
}

-- The central database is not reached.
abbrev offline : Links
offline = record {
  central_connected = pos 0;
  central_connects = false;
  central_accepts = false;
  local_connected = pos 1;
  local_connects = true;
  local_accepts = true;
}

abbrev answers : Moves
answers = record {
  counted = true;
  selects = true;
  entries_of = λ rs. rs;
  exits_of = λ rs. rs;
  row = λ j. record {
    inserted = true;
    movement_deleted = true;
    movement_inserted = true;
    deleted = true;
  };
}

abbrev car : Entry
car = record no_entry { iu_tk_no = codes "WXY1234" }

abbrev no_number : Bytes → Option ℤ
no_number t = none

abbrev noon : Bytes
noon = codes "2025-06-06 12:00:00"

-- The store behind an entry that was saved without the central database.
abbrev one_stored : Store
one_stored = (insert_entry_trans no_number offline noon (codes "T1") car nothing_stored).store

Reach-Kept_example :
    ((entry_kept
          (move_offline_trans_to_central entry_station answers one_stored)
          (codes "WXY1234", noon)
        ≡ true)
      × Unit {0})
    × Unit {0}
unfolding insert_entry_trans insert_entry_local reaches_local stamped
Reach-Kept_example =
    Reach-Kept {first = nothing_stored}
      (moved (entry_saved start no_number offline noon (codes "T1") car) entry_station answers)

move_offline_trans_to_central-answered_example :
    (move_offline_trans_to_central entry_station answers one_stored).entries ≡ record {
      central =
          moved_entry
            (entry_row (record car { entry_time = noon; serial_no = codes "0" }) (codes "T1") [])
          ∷ [];
      local = [];
    }
unfolding insert_entry_trans insert_entry_local reaches_local stamped serial_of entry_row
move_offline_trans_to_central-answered_example =
    move_offline_trans_to_central-answered answers one_stored refl refl refl (λ j. (refl, refl))
      (refl, tt)
