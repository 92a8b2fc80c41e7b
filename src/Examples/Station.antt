-- ===== src/Examples/Station.antt =====
-- The lanes of a station on concrete vehicles.
use my_linux_pbs.Base.{◌≡◌, refl, true, [], ◌∷◌, arith, codes, Bytes}
use my_linux_pbs.Base.Int.{◌+ℤ◌, ◌-ℤ◌, pos, negsuc}
use my_linux_pbs.Station.State.{Station}
use my_linux_pbs.Station.Env.{Env, entry_station, exit_station}
use my_linux_pbs.Station.Marks.{entry_saved, exit_saved, opened, marks}
use my_linux_pbs.Station.SeasonType.{season_trans_type, season_trans_type-closed}
use my_linux_pbs.Station.SeasonMessage.{contains}
use my_linux_pbs.Station.Admission.Opening.{season_admits}
use my_linux_pbs.Station.Admission.ShowType.{season_shown-show_type}
use my_linux_pbs.Station.Admission.{season_shown, is_blocked, pbs_entry}
use my_linux_pbs.Station.Admission.Admitted.{admits, marks-pbs_entry}
use my_linux_pbs.Station.Barrier.Opens.{can_move}
use my_linux_pbs.Station.Exit.{balance_change, close_exit_operation}
use my_linux_pbs.Station.Exit.Closing.{marks-close_exit_operation}
use my_linux_pbs.Station.Fee.{priced, received_entry_record}
use my_linux_pbs.Station.Lane.{Polls}
use my_linux_pbs.Station.Barrier.{with_process}
use my_linux_pbs.Station.Manual.{elapsed, is_unidentified, loop_timer_tick, manual_open_barrier}
use my_linux_pbs.Station.Manual.Released.{marks-loop_timer_tick}
use my_linux_pbs.Station.Manual.Opened.{marks-manual_open_barrier}
use my_linux_pbs.Station.Lane.Once.{Arrival, arrivals, arrivals_once}
use my_linux_pbs.Station.Op.{Op, continue}
use my_linux_pbs.Base.{List, ◌⊎◌}
use my_linux_pbs.Station.Fee.Settled.{marks-received_entry_record}
use my_linux_pbs.Examples.Samples.{setup, process_at_rest, no_entry, at_rest}

-- A car without a season.
marks-pbs_entry_example :
    marks (pbs_entry (setup entry_station (negsuc 0) 0) (codes "WXY1234") (at_rest [])).sent
    ≡ entry_saved (codes "WXY1234") ∷ opened ∷ []
unfolding admits can_move is_blocked contains season_admits
marks-pbs_entry_example =
    marks-pbs_entry (setup entry_station (negsuc 0) 0) (codes "WXY1234") (at_rest []) refl

marks-close_exit_operation_example :
    marks
      (close_exit_operation
        (setup exit_station (negsuc 0) 0)
        balance_change
        (at_rest (codes "WXY1234"))).sent
    ≡ exit_saved (codes "WXY1234") ∷ opened ∷ []
unfolding can_move
marks-close_exit_operation_example =
    marks-close_exit_operation (setup exit_station (negsuc 0) 0) balance_change
      (at_rest (codes "WXY1234"))

-- The redemption of 100 leaves 150 of the fee of 250 to pay.
marks-received_entry_record_example :
    marks (received_entry_record (setup exit_station (negsuc 0) 0) (at_rest (codes "WXY1234"))).sent
    ≡ []
unfolding priced ◌+ℤ◌ ◌-ℤ◌
marks-received_entry_record_example =
    marks-received_entry_record (setup exit_station (negsuc 0) 0) (at_rest (codes "WXY1234"))

season_trans_type-closed_example : season_trans_type 1 7 1 ≡ 63
season_trans_type-closed_example = season_trans_type-closed 1 7 1 (omega arith)

-- A car that comes twice.
abbrev twice : List Arrival
twice =
    record { env = setup entry_station (negsuc 0) 0; number = codes "WXY1234" }
    ∷ record { env = setup entry_station (negsuc 0) 0; number = codes "WXY1234" }
    ∷ []

abbrev no_check : Env → Bytes → Op
no_check env iu s = continue s []

arrivals_once_example :
    (marks (arrivals no_check twice (at_rest [])).sent ≡ [])
    ⊎ ((iu : Bytes) × ((marks (arrivals no_check twice (at_rest [])).sent ≡ entry_saved iu ∷ [])
          ⊎ (marks (arrivals no_check twice (at_rest [])).sent ≡ entry_saved iu ∷ opened ∷ [])))
arrivals_once_example = arrivals_once no_check twice (at_rest []) (refl, (refl, tt))

-- A station at the entry at which the last car is still done.
abbrev left_behind : Station
left_behind = record (at_rest []) {
  entry = record no_entry { iu_tk_no = codes "ABC1"; entry_ok = true };
  process = record process_at_rest { saved_trans = true; card_is_in = 1 };
}

-- A car on both loops at the second poll.
abbrev car : Polls
car = record { readings = (pos 0, pos 1) ∷ (pos 1, pos 1) ∷ []; last_b = pos 1 }

-- An exit at which no plate and no number came for six seconds.
marks-loop_timer_tick_example :
    marks
      (loop_timer_tick
        (setup exit_station (negsuc 0) 0)
        car
        (with_process (at_rest []) (record process_at_rest { last_action = 994 }))).sent
    ≡ exit_saved (codes "0000000000") ∷ opened ∷ []
unfolding elapsed is_unidentified can_move
marks-loop_timer_tick_example =
    marks-loop_timer_tick (setup exit_station (negsuc 0) 0) car
      (with_process (at_rest []) (record process_at_rest { last_action = 994 }))

marks-manual_open_barrier_example :
    marks (manual_open_barrier (setup exit_station (negsuc 0) 0) (at_rest (codes "WXY1234"))).sent
    ≡ exit_saved (codes "WXY1234") ∷ opened ∷ []
unfolding can_move
marks-manual_open_barrier_example =
    marks-manual_open_barrier (setup exit_station (negsuc 0) 0) (at_rest (codes "WXY1234"))

-- A season that is charged as hourly parking.
season_shown-show_type_example :
    (season_shown (setup entry_station (pos 10) 0) (pos 10) (at_rest [])).state.process.show_type
    ≡ 1
season_shown-show_type_example =
    season_shown-show_type (setup entry_station (pos 10) 0) (pos 10) (at_rest [])
