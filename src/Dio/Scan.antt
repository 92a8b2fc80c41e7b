-- ===== src/Dio/Scan.antt =====
-- One round of `monitoringDIOChangeThreadFunction` (dio.cpp), in the blocks of its body.
use my_linux_pbs.Base.{
  ℕ, ◌-◌, Bool, true, false, ◌&&◌, List, [], ◌∷◌, ◌++◌, Option, none, some, ltb, if◌then◌else◌,
}
use my_linux_pbs.Base.Int.{ℤ, pos}
use my_linux_pbs.Dio.Signals.{
  Channel, loop_a, loop_b, loop_c, intercom, station_door, barrier_door, barrier_status,
  manual_open, lorry_sensor, arm_broken, DioEvent, loop_a_on, loop_a_off, loop_c_on, loop_c_off,
  intercom_on, intercom_off, station_door_opened, station_door_closed, barrier_door_opened,
  barrier_door_closed, barrier_status_on, barrier_status_off, manual_open_on, manual_open_off,
  lorry_sensor_on, lorry_sensor_off, arm_broken_on, arm_broken_off, open_too_long_on,
  open_too_long_off, Output, event, input_status, is_low, rises, falls,
}

-- What the rounds keep: the members of DIO, the function's static `barrier_open_time_` (the second
-- at which it was taken, `none` for the empty text) and the four flags of `tProcess` that it sets.
pub record Monitor : Type 0 where
  pub last : Channel → ℤ
  pub open_time : Option ℕ
  pub is_too_long : Bool
  pub too_long_time : ℕ
  pub manual_flag : ℕ
  pub loop_a_is_on : Bool
  pub loop_b_is_on : Bool
  pub loop_c_is_on : Bool
  pub lorry_is_on : Bool

-- `DIO::DIO()` and the limit that `FnDIOInit` takes from the parameters.
unfoldable pub start : ℕ → Monitor
start limit = record {
  last = λ _. pos 0;
  open_time = none;
  is_too_long = false;
  too_long_time = limit;
  manual_flag = 0;
  loop_a_is_on = false;
  loop_b_is_on = false;
  loop_c_is_on = false;
  lorry_is_on = false;
}

-- A block of the body: the state behind it and what it has sent.
abbrev pub Block : Type 0
Block = Monitor → Monitor × List Output

infixr 20 ◌then_do◌
unfoldable pub ◌then_do◌ : Block → Block → Block
(f then_do g) s = let (s1, sent) = f s in let (s2, sent') = g s1 in (s2, sent ++ sent')

abbrev pub send : List Output → Block
send out s = (s, out)

-- `FnSetManualOpenBarrierStatusFlag`: the argument is not used.
unfoldable pub set_manual_flag : ℕ → Monitor → Monitor
set_manual_flag flag s = record s { manual_flag = 1 }

-- Loop A and loop B are one presence sensor: the three ways in which it comes on.
unfoldable pub loop_come : ℤ → ℤ → ℤ → ℤ → List Output
loop_come a a' b b' =
    if rises a a' && (is_low b && is_low b')
    then event loop_a_on ∷ []
    else if rises b b' && (is_low a && is_low a')
    then event loop_a_on ∷ []
    else if rises a a' && rises b b'
    then event loop_a_on ∷ []
    else []

-- The three ways in which it goes off.
unfoldable pub loop_gone : ℤ → ℤ → ℤ → ℤ → List Output
loop_gone a a' b b' =
    if falls a a' && (is_low b && is_low b')
    then event loop_a_off ∷ []
    else if falls b b' && (is_low a && is_low a')
    then event loop_a_off ∷ []
    else if falls a a' && falls b b'
    then event loop_a_off ∷ []
    else []

module _ (curr : Channel → ℤ) where
  unfoldable pub presence : Block
  unfolding loop_come loop_gone
  presence s =
      send
        (loop_come (curr loop_a) (s.last loop_a) (curr loop_b) (s.last loop_b)
          ++ loop_gone (curr loop_a) (s.last loop_a) (curr loop_b) (s.last loop_b))
        s

  -- The flag and the monitor's message of loop A.
  unfoldable pub status_a : Block
  status_a s =
      if rises (curr loop_a) (s.last loop_a)
      then (record s { loop_a_is_on = true }, input_status loop_a 1 ∷ [])
      else if falls (curr loop_a) (s.last loop_a)
      then (record s { loop_a_is_on = false }, input_status loop_a 0 ∷ [])
      else (s, [])

  unfoldable pub status_b : Block
  status_b s =
      if rises (curr loop_b) (s.last loop_b)
      then (record s { loop_b_is_on = true }, input_status loop_b 1 ∷ [])
      else if falls (curr loop_b) (s.last loop_b)
      then (record s { loop_b_is_on = false }, input_status loop_b 0 ∷ [])
      else (s, [])

  unfoldable pub status_c : Block
  status_c s =
      if rises (curr loop_c) (s.last loop_c)
      then (record s { loop_c_is_on = true }, event loop_c_on ∷ input_status loop_c 1 ∷ [])
      else if falls (curr loop_c) (s.last loop_c)
      then (record s { loop_c_is_on = false }, event loop_c_off ∷ input_status loop_c 0 ∷ [])
      else (s, [])

  -- An input with nothing but its two events and its message.
  unfoldable pub plain : Channel → DioEvent → DioEvent → Block
  plain ch on off s =
      if rises (curr ch) (s.last ch)
      then (s, event on ∷ input_status ch 1 ∷ [])
      else if falls (curr ch) (s.last ch)
      then (s, event off ∷ input_status ch 0 ∷ [])
      else (s, [])

  -- The barrier's own contact: it starts and stops the open time.
  unfoldable pub status_barrier : ℕ → Block
  status_barrier now s =
      if rises (curr barrier_status) (s.last barrier_status)
      then (
        record s { open_time = some now },
        event barrier_status_on ∷ input_status barrier_status 1 ∷ [],
      )
      else if falls (curr barrier_status) (s.last barrier_status)
      then (
        record s { open_time = none; is_too_long = false },
        event barrier_status_off
            ∷ input_status barrier_status 0
            ∷ (if s.is_too_long then event open_too_long_off ∷ [] else []),
      )
      else (s, [])

  unfoldable pub status_manual : Block
  unfolding set_manual_flag
  status_manual s =
      if rises (curr manual_open) (s.last manual_open)
      then (set_manual_flag 1 s, event manual_open_on ∷ input_status manual_open 1 ∷ [])
      else if falls (curr manual_open) (s.last manual_open)
      then (s, event manual_open_off ∷ input_status manual_open 0 ∷ [])
      else (s, [])

  unfoldable pub status_lorry : Block
  status_lorry s =
      if rises (curr lorry_sensor) (s.last lorry_sensor)
      then (
        record s { lorry_is_on = true },
        event lorry_sensor_on ∷ input_status lorry_sensor 1 ∷ [],
      )
      else if falls (curr lorry_sensor) (s.last lorry_sensor)
      then (
        record s { lorry_is_on = false },
        event lorry_sensor_off ∷ input_status lorry_sensor 0 ∷ [],
      )
      else (s, [])

  -- `duration_sec > iBarrierOpenTooLongTime_` with a limit and a barrier that is open.
  unfoldable pub open_too_long : ℕ → Block
  open_too_long now s = elim s.open_time [
    | none ↦ (s, [])
    | some opened ↦
        if ltb 0 s.too_long_time && ltb s.too_long_time (now - opened)
        then (record s { open_time = none; is_too_long = true }, event open_too_long_on ∷ [])
        else (s, [])
  ]

  unfoldable pub save_last : Block
  save_last s = (record s { last = curr }, [])

  -- One round of the loop, for the values `curr` that it reads and the time `now`.
  unfoldable pub scan : ℕ → Block
  unfolding ◌then_do◌ presence status_a status_b status_c plain status_barrier status_manual
      status_lorry open_too_long save_last
  scan now =
      presence
      then_do status_a
      then_do status_b
      then_do status_c
      then_do plain intercom intercom_on intercom_off
      then_do plain station_door station_door_opened station_door_closed
      then_do plain barrier_door barrier_door_opened barrier_door_closed
      then_do status_barrier now
      then_do status_manual
      then_do status_lorry
      then_do plain arm_broken arm_broken_on arm_broken_off
      then_do open_too_long now
      then_do save_last
