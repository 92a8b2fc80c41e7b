-- ===== src/Station/Lane/Once.antt =====
-- How often the entry lane records a vehicle between two clearings.
use my_linux_pbs.Base.{
  subst, append-nil, refl, ap, ◌∙◌, ◌≡◌, ◌⊎◌, inl, inr, ◌==◌, Bool, Bool-cases, true, false, List,
  [], ◌∷◌, ◌++◌, if◌then◌else◌, Bytes, is_empty, length, arith,
}
use my_linux_pbs.Station.State.{Station}
use my_linux_pbs.Station.Op.{Op, call, ◌then_op◌, behind, stop_if, continue}
use my_linux_pbs.Station.Env.{Env, StationType, exit_station, entry_station}
use my_linux_pbs.Station.Marks.{Mark, entry_saved, opened, marks, marks-append}
use my_linux_pbs.Station.Gate.{
  marks-behind, Gate, through, through_state, call-Gate, go_on-Gate, stop_if-Gate,
}
use my_linux_pbs.Station.Barrier.{enable_cashcard}
use my_linux_pbs.Station.Barrier.Opens.{can_move}
use my_linux_pbs.Station.Admission.{pbs_entry}
use my_linux_pbs.Station.Admission.Admitted.{admits, marks-pbs_entry, pbs_entry-entry_ok}
use my_linux_pbs.Station.Lane.{reader_off, entry_come, lane_come, vehicle_come}

-- A number that comes, with what the lane reads when it does.
pub record Arrival : Type 0 where
  pub env : Env
  pub number : Bytes

module _ (exit_check : Env → Bytes → Op) where
  -- The numbers one after the other.
  abbrev pub arrivals : List Arrival → Op
  arrivals [] s = continue s []
  arrivals (a ∷ as') s =
      let first = vehicle_come exit_check a.env a.number s in
      behind first.sent (arrivals as' first.state)

abbrev pub AllAtEntry : List Arrival → Type 0
AllAtEntry [] = Unit {0}
AllAtEntry (a ∷ as') = (a.env.station_type ≡ entry_station) × AllAtEntry as'

pub enable_cashcard-Gate : (on : Bool) → Gate true (enable_cashcard on)
unfolding enable_cashcard
enable_cashcard-Gate on = record {
  silent = λ s. ground arith;
  goes = λ s. ground arith;
  keeps = λ s. ground arith;
}

-- One arrival either leaves no mark and the entry as far as it was, or it records a vehicle, opens at
-- most once and marks the entry done.
data Came (ok ok' : Bool) (ms : List Mark) : Type 0 where
  nothing : ok' ≡ ok → ms ≡ [] → Came ok ok' ms
  recorded :
      (iu : Bytes)
      → ok ≡ false
      → ok' ≡ true
      → (ms ≡ entry_saved iu ∷ []) ⊎ (ms ≡ entry_saved iu ∷ opened ∷ [])
      → Came ok ok' ms

admitted-Came :
    (iu : Bytes) (ok b m : Bool)
    → ok ≡ false
    → Came ok
        (if b then true else ok)
        (if b then entry_saved iu ∷ (if m then opened ∷ [] else []) else [])
admitted-Came iu ok true true e = recorded iu e refl (inr refl)
admitted-Came iu ok true false e = recorded iu e refl (inl refl)
admitted-Came iu ok false m e = nothing refl refl

pbs_entry-Came :
    (env : Env) (iu : Bytes) (s : Station)
    → is_empty iu ≡ false
    → s.entry.entry_ok ≡ false
    → Came s.entry.entry_ok
        (pbs_entry env iu s).state.entry.entry_ok
        (marks (pbs_entry env iu s).sent)
pbs_entry-Came env iu s e p =
    rw (pbs_entry-entry_ok env iu s e, marks-pbs_entry env iu s e)
      (admitted-Came iu s.entry.entry_ok (admits env iu) (can_move s) p)

entry_come-Came :
    (exit_check : Env → Bytes → Op) (env : Env) (iu : Bytes) (s : Station)
    → is_empty iu ≡ false
    → Came s.entry.entry_ok
        (entry_come exit_check env iu s).state.entry.entry_ok
        (marks (entry_come exit_check env iu s).sent)
unfolding entry_come call
entry_come-Came exit_check env iu s e = go s.entry.entry_ok refl
  where
    go :
        (b : Bool)
        → s.entry.entry_ok ≡ b
        → Came s.entry.entry_ok
            (if b then continue s [] else call (pbs_entry env iu) s).state.entry.entry_ok
            (marks (if b then continue s [] else call (pbs_entry env iu) s).sent)
    go true p = nothing refl refl
    go false p = pbs_entry-Came env iu s e p

pub reader_off-Gate :
    (exit_check : Env → Bytes → Op) (number : Bytes) → Gate true (reader_off exit_check number)
unfolding reader_off
reader_off-Gate exit_check number = elim (Bool-cases (length number == 16)) [
  | inl e ↦ rw e go_on-Gate
  | inr e ↦ rw e (call-Gate (enable_cashcard-Gate false))
]

-- What stands behind operations that let it run.
pass-Came :
    {f : Op} (g : Op) (s : Station)
    → Gate true f
    → Came
        (f s).state.entry.entry_ok
        (g (f s).state).state.entry.entry_ok
        (marks (g (f s).state).sent)
    → Came s.entry.entry_ok ((f then_op g) s).state.entry.entry_ok (marks ((f then_op g) s).sent)
pass-Came {f = f} g s p c =
    rw (through_state g p s, through g p s)
      (subst (λ b. Came b (g (f s).state).state.entry.entry_ok (marks (g (f s).state).sent))
        (p.keeps s).entry_ok c)

stopped-Came :
    (g : Op) (s : Station)
    → Came s.entry.entry_ok
        ((stop_if true then_op g) s).state.entry.entry_ok
        (marks ((stop_if true then_op g) s).sent)
unfolding stop_if
stopped-Came g s =
    nothing (ap (λ (t : Station). t.entry.entry_ok) (through_state g (stop_if-Gate true) s))
      (through g (stop_if-Gate true) s)

lane_come-Came :
    (exit_check : Env → Bytes → Op) (t : StationType) (env : Env) (iu : Bytes) (s : Station)
    → is_empty iu ≡ false
    → t ≡ entry_station
    → Came s.entry.entry_ok
        (lane_come exit_check t env iu s).state.entry.entry_ok
        (marks (lane_come exit_check t env iu s).sent)
unfolding lane_come
lane_come-Came exit_check entry_station env iu s e h = entry_come-Came exit_check env iu s e
lane_come-Came exit_check exit_station env iu s e h = absurd (ground arith)

vehicle_come-Came :
    (exit_check : Env → Bytes → Op) (env : Env) (iu : Bytes) (s : Station)
    → env.station_type ≡ entry_station
    → Came s.entry.entry_ok
        (vehicle_come exit_check env iu s).state.entry.entry_ok
        (marks (vehicle_come exit_check env iu s).sent)
unfolding vehicle_come call
vehicle_come-Came exit_check env [] s h = stopped-Came _ s
vehicle_come-Came exit_check env (c ∷ cs) s h = pass-Came _ s (stop_if-Gate false) (
    pass-Came _ _ (reader_off-Gate exit_check (c ∷ cs))
      (lane_come-Came exit_check env.station_type env (c ∷ cs) _ refl h))

-- An entry that is done sees no further mark.
done-arrivals :
    (exit_check : Env → Bytes → Op) (as' : List Arrival) (s : Station)
    → AllAtEntry as'
    → s.entry.entry_ok ≡ true
    → marks (arrivals exit_check as' s).sent ≡ []
done-arrivals exit_check [] s h e = refl
done-arrivals exit_check (a ∷ as') s (h, hs) e =
    elim (vehicle_come-Came exit_check a.env a.number s h) [
      | nothing q m ↦
          marks-behind (vehicle_come exit_check a.env a.number s).sent _ m
          ∙ done-arrivals exit_check as' _ hs (q ∙ e)
      | recorded iu q q' m ↦ absurd (ground arith)
    ]

-- At an entry station, whatever numbers come between two clearings, and whatever the settings and
-- the database say each time: at most one vehicle is recorded, and the barrier is pulsed at most once
-- and only behind that record.
pub arrivals_once :
    (exit_check : Env → Bytes → Op) (as' : List Arrival) (s : Station)
    → AllAtEntry as'
    → (marks (arrivals exit_check as' s).sent ≡ [])
      ⊎ ((iu : Bytes) × ((marks (arrivals exit_check as' s).sent ≡ entry_saved iu ∷ [])
            ⊎ (marks (arrivals exit_check as' s).sent ≡ entry_saved iu ∷ opened ∷ [])))
unfolding behind
arrivals_once exit_check [] s h = inl refl
arrivals_once exit_check (a ∷ as') s (h, hs) =
    let first = vehicle_come exit_check a.env a.number s in
    let rest = arrivals exit_check as' first.state in
    elim (vehicle_come-Came exit_check a.env a.number s h) [
      | nothing q m ↦
          rw (marks-behind first.sent rest m) (arrivals_once exit_check as' first.state hs)
      | recorded iu q q' m ↦
          let after = done-arrivals exit_check as' first.state hs q' in
          let all =
            marks-append first.sent rest.sent
            ∙ ap (λ ms. marks first.sent ++ ms) after
            ∙ append-nil (marks first.sent) in
          inr (iu, elim m [ inl k ↦ inl (all ∙ k) | inr k ↦ inr (all ∙ k) ])
    ]
