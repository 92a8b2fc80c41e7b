-- ===== src/Examples/Departure.antt =====
-- The exit lane on a concrete vehicle.
use my_linux_pbs.Base.{◌≡◌, refl, ◌⊎◌, [], ◌∷◌, none, some, codes, true}
use my_linux_pbs.Base.Int.{negsuc, pos, ◌+ℤ◌, ◌-ℤ◌}
use my_linux_pbs.Base.Int.{negsuc}
use my_linux_pbs.Station.State.{Station}
use my_linux_pbs.Station.Barrier.{with_process}
use my_linux_pbs.Station.Env.{exit_station}
use my_linux_pbs.Station.Marks.{exit_saved, opened, marks}
use my_linux_pbs.Station.Found.{Queries, rows}
use my_linux_pbs.Station.Barrier.Opens.{can_move}
use my_linux_pbs.Station.Departure.{pbs_exit, pay_exit, due}
use my_linux_pbs.Station.Departure.Unpaid.{marks-pay_exit}
use my_linux_pbs.Station.Departure.Charged.{marks-pbs_exit}
use my_linux_pbs.Station.Departure.Check.{ant, check_iu_or_card_status}
use my_linux_pbs.Station.Departure.Again.{Answered, marks-check_iu_or_card_status}
use my_linux_pbs.Examples.Samples.{setup, at_rest, process_at_rest}

-- A central database that knows one car, from station 3.
abbrev pub one_car : Queries
one_car = record {
  central = λ n. rows (
      record {
        entry_time = codes "2025-06-06 08:30:00";
        trans_type = 1;
        owe_amt = pos 0;
        entry_station = 3;
      }
      ∷ []);
  local = λ n. rows [];
  unmatched = none;
  digit_threshold = 1;
  whole_threshold = 70;
  auto_debit = pos 0;
  auto_amount = pos 0;
  stoi = λ t. some 1;
  stof = λ t. some (pos 0);
}

marks-pbs_exit_example :
    (marks (pbs_exit (setup exit_station (pos 1) 0) one_car (codes "WXY1234") (at_rest [])).sent
      ≡ [])
    ⊎ (marks (pbs_exit (setup exit_station (pos 1) 0) one_car (codes "WXY1234") (at_rest [])).sent
        ≡ exit_saved (codes "WXY1234") ∷ [])
    ⊎ (marks (pbs_exit (setup exit_station (pos 1) 0) one_car (codes "WXY1234") (at_rest [])).sent
        ≡ exit_saved (codes "WXY1234") ∷ opened ∷ [])
marks-pbs_exit_example =
    marks-pbs_exit (setup exit_station (pos 1) 0) one_car (codes "WXY1234") (at_rest []) refl

-- A number that paid last comes again.
abbrev came_again : Station
came_again = with_process (at_rest []) (record process_at_rest {
  last_paid_trans = codes "WXY1234";
  last_paid_status = true;
  last_trans_time = 990;
})

marks-check_iu_or_card_status_example :
    Answered (setup exit_station (negsuc 0) 0) (codes "WXY1234") [] came_again (
      marks
        (check_iu_or_card_status
          (setup exit_station (negsuc 0) 0)
          one_car
          (codes "WXY1234")
          ant
          []
          0
          came_again).sent)
marks-check_iu_or_card_status_example =
    marks-check_iu_or_card_status (setup exit_station (negsuc 0) 0) one_car (codes "WXY1234") ant []
      0 came_again refl

-- A redemption of 100 against no fee.
marks-pay_exit_example :
    marks (pay_exit (setup exit_station (negsuc 0) 0) (at_rest (codes "WXY1234"))).sent
    ≡ exit_saved (codes "WXY1234") ∷ opened ∷ []
unfolding due can_move ◌+ℤ◌ ◌-ℤ◌
marks-pay_exit_example =
    marks-pay_exit (setup exit_station (negsuc 0) 0) (at_rest (codes "WXY1234"))
