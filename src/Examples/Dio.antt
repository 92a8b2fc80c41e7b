-- ===== src/Examples/Dio.antt =====
-- The scans of dio.cpp on short runs.
use my_linux_pbs.Base.{
  Option, ℕ, ◌≡◌, refl, inl, inr, true, false, [], ◌∷◌, List, some, none, arith,
}
use my_linux_pbs.Base.Int.{ℤ, pos, negsuc}
use my_linux_pbs.Dio.Signals.{Channel, loop_a, loop_b, barrier_status}
use my_linux_pbs.Dio.Scan.{Monitor, set_manual_flag, scan}
use my_linux_pbs.Dio.Trace.{watched, Sample, rounds, replay, watch_loop, watch_too_long}
use my_linux_pbs.Dio.Presence.{present, rounds_presence}
use my_linux_pbs.Dio.OpenTooLong.{IsCoherent, rounds_open_too_long}
use my_linux_pbs.Dio.Alarm.{rounds_raise_alarm}
use my_linux_pbs.Dio.Lost.{departure_lost}
use my_linux_pbs.Dio.ManualFlag.{here, next, scanned, setter_called, Reach-StaysSet}

-- The values of loop A, loop B and the barrier's contact, with all else low.
abbrev reading : ℤ → ℤ → ℤ → Channel → ℤ
reading a b up loop_a = a
reading a b up loop_b = b
reading a b up barrier_status = up
reading a b up _ = pos 0

abbrev sample : ℤ → ℤ → ℤ → ℕ → Sample
sample a b up t = record { curr = reading a b up; now = t }

-- A monitor with a limit of 60 seconds behind the last values `v`.
abbrev idle : (Channel → ℤ) → Option ℕ → ℕ → Monitor
idle v opened flag = record {
  last = v;
  open_time = opened;
  is_too_long = false;
  too_long_time = 60;
  manual_flag = flag;
  loop_a_is_on = false;
  loop_b_is_on = false;
  loop_c_is_on = false;
  lorry_is_on = false;
}

abbrev clear : Channel → ℤ
clear = reading (pos 0) (pos 0) (pos 0)

-- A vehicle that drives over loop A and then loop B.
abbrev drive_over : List Sample
drive_over =
    sample (pos 1) (pos 0) (pos 0) 10
    ∷ sample (pos 1) (pos 1) (pos 0) 11
    ∷ sample (pos 0) (pos 1) (pos 0) 12
    ∷ sample (pos 0) (pos 0) (pos 0) 13
    ∷ []

rounds_presence_example :
    replay watch_loop (present clear) (rounds drive_over (idle clear none 0)).1
    ≡ some (present (rounds drive_over (idle clear none 0)).0.last)
rounds_presence_example =
    rounds_presence drive_over (idle clear none 0)
      (
        (inr refl, inl refl),
        ((inr refl, inr refl), ((inl refl, inr refl), ((inl refl, inl refl), tt))),
      )
      (inl refl, inl refl)

-- The barrier goes up and stays up.
abbrev raised : List Sample
raised = sample (pos 0) (pos 0) (pos 1) 150 ∷ sample (pos 0) (pos 0) (pos 1) 161 ∷ []

rounds_raise_alarm_example :
    (rounds raised (idle (reading (pos 0) (pos 0) (pos 1)) (some 100) 0)).0.is_too_long ≡ true
rounds_raise_alarm_example =
    rounds_raise_alarm raised (idle (reading (pos 0) (pos 0) (pos 1)) (some 100) 0) 100
      (refl, (refl, tt)) refl refl (omega arith) (inr (inl (omega arith)))

idle-IsCoherent : IsCoherent (pos 0) (idle clear none 0)
idle-IsCoherent = record {
  alarm_up = λ e. ground arith;
  alarm_done = λ e. refl;
  timed_up = λ n. absurd (n refl);
}

rounds_open_too_long_example :
    (replay watch_too_long false (rounds raised (idle clear none 0)).1
      ≡ some (rounds raised (idle clear none 0)).0.is_too_long)
    × IsCoherent
        ((rounds raised (idle clear none 0)).0.last barrier_status)
        (rounds raised (idle clear none 0)).0
rounds_open_too_long_example =
    rounds_open_too_long raised (idle clear none 0) (inr refl, (inr refl, tt)) (inl refl)
      idle-IsCoherent

-- A vehicle on loop A, a failed read and a clear one.
abbrev on_a : Monitor
on_a = idle (reading (pos 1) (pos 0) (pos 0)) none 0

abbrev failed_read : Sample
failed_read = sample (negsuc 0) (pos 0) (pos 0) 20

abbrev clear_read : Sample
clear_read = sample (pos 0) (pos 0) (pos 0) 21

departure_lost_example :
    (present on_a.last ≡ true)
    × (watched watch_loop (rounds (failed_read ∷ clear_read ∷ []) on_a).1 ≡ [])
    × (present (rounds (failed_read ∷ clear_read ∷ []) on_a).0.last ≡ false)
departure_lost_example = departure_lost failed_read clear_read on_a 0 refl refl refl refl refl refl

-- The event thread asks for 0 behind a scan.
abbrev flagged : Monitor
flagged = idle clear none 1

Reach-StaysSet_example : (set_manual_flag 0 (scan clear 30 flagged).0).manual_flag ≡ 1
Reach-StaysSet_example =
    Reach-StaysSet
      (next (next here (scanned clear 30 flagged)) (setter_called 0 (scan clear 30 flagged).0)) refl
