-- ===== src/Station/Server/Opens.antt =====
-- Which datagrams let a vehicle in or out.
use my_linux_pbs.Base.{
  ◌==◌, Bool, false, not, ◌&&◌, none, some, List, [], ◌∷◌, ◌++◌, if◌then◌else◌, Bytes, is_empty,
  get_or,
}
use my_linux_pbs.Base.Int.{ℤ, pos, is_pos, ltb_ℤ}
use my_linux_pbs.Text.Fields.{field}
use my_linux_pbs.Station.State.{Station}
use my_linux_pbs.Station.Op.{Op}
use my_linux_pbs.Station.Barrier.{eq_Bool}
use my_linux_pbs.Station.Gate.{Gate}
use my_linux_pbs.Station.Marks.{Mark, entry_saved, opened}
use my_linux_pbs.Station.Host.{open_barrier_do, output_pin, can_set, Host, Orders, env_of}
use my_linux_pbs.Station.Server.{
  Command, carparkfull, open_by_server, continue_open, time_for_no_entry, set_dio_output,
  set_entry_time,
}
use my_linux_pbs.Station.Admission.Admitted.{admits}
use my_linux_pbs.Station.Barrier.Opens.{can_move}
use my_linux_pbs.Station.Manual.Opened.{recorded_at, pulsed}
use my_linux_pbs.Station.Fee.{priced}
use my_linux_pbs.Station.Fee.Settled.{closed}

-- What a vehicle that stands on loop A leaves when it comes in.
abbrev pub readmitted : Orders → Host → List Mark
readmitted o h =
    let s = h.world.station in
    if s.process.loop_present && not (is_empty s.entry.iu_tk_no)
    then (if admits (env_of o h) s.entry.iu_tk_no
        then entry_saved s.entry.iu_tk_no ∷ pulsed (can_move s)
        else [])
    else []

-- What the flag of a full car park leaves: it is told to change, and from full to not full.
abbrev pub full_marks : Orders → Bool → Host → List Mark
full_marks o b h =
    if eq_Bool b h.carpark_full
    then []
    else if b
    then []
    else readmitted o (record h { carpark_full = false })

-- The exit as the server's entry time leaves it.
abbrev pub timed : Orders → Bytes → Host → Station
timed o text h = (set_entry_time (get_or (o.split text) 1 o.beyond) h.world.station).state

abbrev pub time_marks : Orders → Bytes → Host → List Mark
time_marks o text h =
    if h.world.station.process.loop_present
    then (if ltb_ℤ (pos 0) (priced (env_of o h) (timed o text h).exit).paid_amt
        then []
        else closed (timed o text h))
    else []

-- An output that is switched on opens the barrier where its pin is the barrier's.
abbrev pin_marks : Orders → ℤ → ℤ → List Mark
pin_marks o n v =
    if can_set o (output_pin n) v && ((output_pin n == open_barrier_do o) && is_pos v 1)
    then opened ∷ []
    else []

-- What each command leaves.
unfoldable pub left : Command → Orders → List Bytes → Host → List Mark
unfolding field
left open_by_server o fs h =
    recorded_at o.env.station_type h.world.station ++ pulsed (can_move h.world.station)
left continue_open o fs h = opened ∷ []
left carparkfull o fs h = elim (o.stoi (field fs 3)) [
  | none ↦ []
  | some n ↦ full_marks o (not (is_pos n 0)) h
]
left time_for_no_entry o fs h = time_marks o (field fs 3) h
left set_dio_output o fs h = elim (o.stoi (field fs 3)) [
  | none ↦ []
  | some n ↦ elim (o.stoi (field fs 4)) [ none ↦ [] | some v ↦ pin_marks o n v ]
]
left _ o fs h = []
