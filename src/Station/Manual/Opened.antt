-- ===== src/Station/Manual/Opened.antt =====
-- What a manual opening of the barrier records.
use my_linux_pbs.Base.{
  refl, ap, ◌∙◌, ◌≡◌, Bool, true, List, [], ◌∷◌, ◌++◌, if◌then◌else◌, is_empty, arith,
}
use my_linux_pbs.Station.State.{Station}
use my_linux_pbs.Station.Op.{call, ◌then_op◌, behind}
use my_linux_pbs.Station.Env.{Env, StationType, entry_station, exit_station}
use my_linux_pbs.Station.Marks.{Mark, entry_saved, exit_saved, opened, marks, marks-append}
use my_linux_pbs.Station.Gate.{Gate, through}
use my_linux_pbs.Station.Barrier.{open_barrier}
use my_linux_pbs.Station.Barrier.Opens.{can_move, marks-open_barrier}
use my_linux_pbs.Station.Admission.{save_entry}
use my_linux_pbs.Station.Admission.Admitted.{marks-save_entry, save_entry-can_move}
use my_linux_pbs.Station.Exit.{manualopen}
use my_linux_pbs.Station.Exit.Closing.{marks-close_exit_operation}
use my_linux_pbs.Station.Lane.Arrival.{can_move-kept}
use my_linux_pbs.Station.Manual.{
  set_manual_entry, set_manual_exit, manual_open_at, manual_open_barrier,
}

-- The record of the number that the lane has, if it has one.
abbrev pub recorded_at : StationType → Station → List Mark
recorded_at entry_station s =
    if is_empty s.entry.iu_tk_no then [] else entry_saved s.entry.iu_tk_no ∷ []
recorded_at exit_station s = if is_empty s.exit.iu_no then [] else exit_saved s.exit.iu_no ∷ []

abbrev pub pulsed : Bool → List Mark
pulsed b = if b then opened ∷ [] else []

set_manual_entry-Gate : (env : Env) → Gate true (set_manual_entry env)
unfolding set_manual_entry
set_manual_entry-Gate env = record {
  silent = λ s. refl;
  goes = λ s. refl;
  keeps = λ s. ground arith;
}

set_manual_exit-Gate : (env : Env) → Gate true (set_manual_exit env)
unfolding set_manual_exit
set_manual_exit-Gate env = record {
  silent = λ s. refl;
  goes = λ s. refl;
  keeps = λ s. ground arith;
}

saved_and_opened :
    (env : Env) (s : Station)
    → marks ((call (save_entry env) then_op call open_barrier) s).sent
      ≡ recorded_at entry_station s ++ pulsed (can_move s)
unfolding ◌then_op◌ call behind
saved_and_opened env s =
    let t = (save_entry env s).state in
    marks-append (save_entry env s).sent (open_barrier t).sent
    ∙ ap (λ m. m ++ marks (open_barrier t).sent) (marks-save_entry env s)
    ∙ ap (λ m. recorded_at entry_station s ++ m) (marks-open_barrier t)
    ∙ ap (λ b. recorded_at entry_station s ++ pulsed b) (save_entry-can_move env s)

-- At either station a manual opening records the number that the lane has, if any, and only then
-- pulses the barrier, if no card is in the reader and it is not open for good.
pub marks-manual_open_barrier :
    (env : Env) (s : Station)
    → marks (manual_open_barrier env s).sent ≡ recorded_at env.station_type s ++ pulsed (can_move s)
unfolding manual_open_barrier manual_open_at
marks-manual_open_barrier env s = at env.station_type
  where
    at :
        (t : StationType)
        → marks (manual_open_at t env s).sent ≡ recorded_at t s ++ pulsed (can_move s)
    at entry_station =
        let k = (set_manual_entry-Gate env).keeps s in
        through _ (set_manual_entry-Gate env) s
        ∙ saved_and_opened env (set_manual_entry env s).state
        ∙ ap (λ b. recorded_at entry_station (set_manual_entry env s).state ++ pulsed b)
            (can_move-kept k)
        ∙ ap (λ n. (if is_empty n then [] else entry_saved n ∷ []) ++ pulsed (can_move s))
            k.iu_tk_no
    at exit_station =
        let k = (set_manual_exit-Gate env).keeps s in
        through _ (set_manual_exit-Gate env) s
        ∙ marks-close_exit_operation env manualopen (set_manual_exit env s).state
        ∙ ap (λ b. recorded_at exit_station (set_manual_exit env s).state ++ pulsed b)
            (can_move-kept k)
        ∙ ap (λ n. (if is_empty n then [] else exit_saved n ∷ []) ++ pulsed (can_move s)) k.iu_no
