-- ===== src/Station/Admission/Admitted.antt =====
-- When `PBSEntry` lets a vehicle in, and in which order it is recorded and let in.
use my_linux_pbs.Base.{
  subst, ◌++◌, refl, ◌∙◌, ap, ◌≡◌, ◌==◌, ◌&&◌, Bool, true, false, not, [], ◌∷◌, if◌then◌else◌,
  Bytes, is_empty, arith,
}
use my_linux_pbs.Station.State.{Station}
use my_linux_pbs.Station.Op.{Op, call, ◌then_op◌, behind}
use my_linux_pbs.Station.Env.{Env, lock_station}
use my_linux_pbs.Station.Marks.{entry_saved, opened, marks, marks-append}
use my_linux_pbs.Station.Gate.{Gate, show-Gate}
use my_linux_pbs.Station.Barrier.{open_barrier}
use my_linux_pbs.Station.Barrier.Opens.{open_barrier-entry, can_move, marks-open_barrier}
use my_linux_pbs.Station.Admission.{
  Entry, check_season, show, entry_started, black_list_check, block_check, set_trans_type,
  turn_away, set_vehicle_type, season_tests, season_shown, is_blocked, save_entry, set_entry_ok,
  pbs_entry,
}
use my_linux_pbs.Station.Admission.Opening.{
  season_shown-Gate, season_tests-Gate, check_season-Gate, set_vehicle_type-Gate, turn_away-Gate,
  set_trans_type-Gate, block_check-Gate, black_list_answer-Gate, is_banned, Reaches, reached,
  ◌then_reach◌, season_admits,
}

-- A number that is not empty comes in on this exactly.
unfoldable pub admits : Env → Bytes → Bool
admits env iu =
    not (is_banned (env.is_black_list iu))
    && (not (is_blocked env iu)
        && (not (env.carpark_full && env.full_action == 3)
            && season_admits env iu (env.is_valid_season iu 1)))

pub marks-save_entry :
    (env : Env) (s : Station)
    → marks (save_entry env s).sent
      ≡ (if is_empty s.entry.iu_tk_no then [] else entry_saved s.entry.iu_tk_no ∷ [])
unfolding save_entry
marks-save_entry env s = ground arith

-- What follows the last test.
let_in : Env → Op
let_in env = call (save_entry env) then_op set_entry_ok then_op open_barrier

pub save_entry-can_move : (env : Env) (s : Station) → can_move (save_entry env s).state ≡ can_move s
unfolding save_entry can_move
save_entry-can_move env s = ground arith

set_entry_ok-can_move : (s : Station) → can_move (set_entry_ok s).state ≡ can_move s
unfolding set_entry_ok can_move
set_entry_ok-can_move s = refl

marks-let_in :
    (env : Env) (s : Station)
    → marks (let_in env s).sent ≡ (
        (if is_empty s.entry.iu_tk_no then [] else entry_saved s.entry.iu_tk_no ∷ [])
        ++ (if can_move s then opened ∷ [] else []))
unfolding let_in ◌then_op◌ call behind set_entry_ok
marks-let_in env s =
    let t = (save_entry env s).state in
    let saved = if is_empty s.entry.iu_tk_no then [] else entry_saved s.entry.iu_tk_no ∷ [] in
    marks-append (save_entry env s).sent (open_barrier (set_entry_ok t).state).sent
    ∙ ap (λ m. m ++ marks (open_barrier (set_entry_ok t).state).sent) (marks-save_entry env s)
    ∙ ap (λ m. saved ++ m) (marks-open_barrier (set_entry_ok t).state)
    ∙ ap (λ (b : Bool). saved ++ (if b then opened ∷ [] else []))
        (set_entry_ok-can_move t ∙ save_entry-can_move env s)

black_list_check-Gate :
    (env : Env) (iu : Bytes)
    → Gate (not (is_banned (env.is_black_list iu))) (black_list_check env iu)
unfolding black_list_check
black_list_check-Gate env iu = black_list_answer-Gate env iu (env.is_black_list iu)

-- `PBSEntry` behind its first lines.
tests : Env → Bytes → Op
unfolding let_in
tests env iu =
    let r = env.is_valid_season iu 1 in
    black_list_check env iu
    then_op block_check env iu
    then_op set_trans_type env
    then_op turn_away (env.carpark_full && env.full_action == 3) (show env lock_station)
    then_op set_vehicle_type
    then_op check_season env r
    then_op season_tests env iu r
    then_op season_shown env r
    then_op let_in env

and_true : (b : Bool) → (b && true) ≡ b
and_true b = ground arith

tests-Reaches : (env : Env) (iu : Bytes) → Reaches (admits env iu) (let_in env) (tests env iu)
unfolding tests admits
tests-Reaches env iu =
    let r = env.is_valid_season iu 1 in
    subst
      (λ b.
        Reaches
          (not (is_banned (env.is_black_list iu))
            && (not (is_blocked env iu) && (not (env.carpark_full && env.full_action == 3) && b)))
          (let_in env) (tests env iu))
      (and_true (season_admits env iu r))
      (black_list_check-Gate env iu
        then_reach block_check-Gate env iu
        then_reach set_trans_type-Gate env
        then_reach turn_away-Gate _ (show-Gate env lock_station)
        then_reach set_vehicle_type-Gate
        then_reach check_season-Gate env r
        then_reach season_tests-Gate env iu r
        then_reach season_shown-Gate env r
        then_reach reached)

marks-tests :
    (env : Env) (iu : Bytes) (s : Station)
    → is_empty s.entry.iu_tk_no ≡ false
    → marks (tests env iu s).sent ≡ (
        if admits env iu
        then entry_saved s.entry.iu_tk_no ∷ (if can_move s then opened ∷ [] else [])
        else [])
unfolding can_move
marks-tests env iu s e =
    let reach = tests-Reaches env iu in
    let k = reach.keeps s in
    reach.marks_of s
    ∙ ap (λ m. if admits env iu then m else []) (marks-let_in env (reach.at s))
    ∙ rw (k.iu_tk_no, e, k.card_is_in, k.continue_opened) refl

-- The first lines of `PBSEntry`, for a number that is not empty.
started_marks :
    (env : Env) (iu : Bytes) (f : Op) (s : Station)
    → is_empty iu ≡ false
    → marks ((entry_started env iu then_op f) s).sent
      ≡ marks (f (entry_started env iu s).state).sent
unfolding entry_started ◌then_op◌ behind
started_marks env iu f s e = rw e refl

entry_started-keeps :
    (env : Env) (iu : Bytes) (s : Station)
    → ((entry_started env iu s).state.process ≡ s.process)
      × ((entry_started env iu s).state.entry.iu_tk_no ≡ iu)
unfolding entry_started
entry_started-keeps env iu s = ground arith

-- For a number that is not empty, `PBSEntry` records the vehicle exactly if the lane admits it, and
-- only behind the record does it pulse the barrier, if no card is in the reader and the barrier is not
-- open for good. On every other path it does neither.
pub marks-pbs_entry :
    (env : Env) (iu : Bytes) (s : Station)
    → is_empty iu ≡ false
    → marks (pbs_entry env iu s).sent
      ≡ (if admits env iu then entry_saved iu ∷ (if can_move s then opened ∷ [] else []) else [])
unfolding pbs_entry call tests let_in can_move
marks-pbs_entry env iu s e =
    let k = entry_started-keeps env iu s in
    started_marks env iu (tests env iu) s e
    ∙ marks-tests env iu (entry_started env iu s).state (rw k.1 e)
    ∙ rw (k.0, k.1) refl

save_entry-entry : (env : Env) (s : Station) → (save_entry env s).state.entry ≡ s.entry
unfolding save_entry
save_entry-entry env s = ground arith

let_in-entry_ok : (env : Env) (s : Station) → (let_in env s).state.entry.entry_ok ≡ true
unfolding let_in ◌then_op◌ call behind set_entry_ok
let_in-entry_ok env s =
    ap (λ (e : Entry). e.entry_ok)
      (open_barrier-entry (set_entry_ok (save_entry env s).state).state)

started-state :
    (env : Env) (iu : Bytes) (f : Op) (s : Station)
    → is_empty iu ≡ false
    → ((entry_started env iu then_op f) s).state ≡ (f (entry_started env iu s).state).state
unfolding entry_started ◌then_op◌ behind
started-state env iu f s e = rw e refl

tests-entry_ok :
    (env : Env) (iu : Bytes) (s : Station)
    → (tests env iu s).state.entry.entry_ok ≡ (if admits env iu then true else s.entry.entry_ok)
tests-entry_ok env iu s =
    let reach = tests-Reaches env iu in
    ap (λ (t : Station). t.entry.entry_ok) (reach.state_of s)
    ∙ by_cases (admits env iu) (reach.at s) (reach.keeps s).entry_ok
  where
    by_cases :
        (b : Bool) (t : Station)
        → t.entry.entry_ok ≡ s.entry.entry_ok
        → (if b then (let_in env t).state else t).entry.entry_ok
          ≡ (if b then true else s.entry.entry_ok)
    by_cases true t e = let_in-entry_ok env t
    by_cases false t e = e

started-entry_ok :
    (env : Env) (iu : Bytes) (s : Station)
    → (entry_started env iu s).state.entry.entry_ok ≡ s.entry.entry_ok
unfolding entry_started
started-entry_ok env iu s = ground arith

-- The entry counts as done exactly if the vehicle is admitted.
pub pbs_entry-entry_ok :
    (env : Env) (iu : Bytes) (s : Station)
    → is_empty iu ≡ false
    → (pbs_entry env iu s).state.entry.entry_ok ≡ (if admits env iu then true else s.entry.entry_ok)
unfolding pbs_entry call tests let_in
pbs_entry-entry_ok env iu s e =
    ap (λ (t : Station). t.entry.entry_ok) (started-state env iu (tests env iu) s e)
    ∙ tests-entry_ok env iu (entry_started env iu s).state
    ∙ ap (λ (b : Bool). if admits env iu then true else b) (started-entry_ok env iu s)
