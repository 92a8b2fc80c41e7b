-- ===== src/Station/Admission/Opening.antt =====
-- Which vehicles `PBSEntry` lets in.
use my_linux_pbs.Base.{
  ◌∙◌, [], inl, inr, length, ltb, Bool-cases, ◌&&◌, ◌≡◌, if◌then◌else◌, subst, ℕ, refl, Bool, true,
  false, not, arith, ◌==◌, Bytes,
}
use my_linux_pbs.Base.Int.{ℤ, pos, negsuc, is_pos}
use my_linux_pbs.Station.State.{Station}
use my_linux_pbs.Station.Op.{go_on, Op, ◌then_op◌}
use my_linux_pbs.Station.Env.{
  Env, black_list, season_only, season_passback, season_as_hourly, with_iu,
}
use my_linux_pbs.Station.Marks.{marks}
use my_linux_pbs.Station.Gate.{
  Gate, Keeps, Keeps-trans, through, through_state, ◌then_gate◌, call-Gate, finish-Gate, go_on-Gate,
  stop_if-Gate, show-Gate, show_led_msg-Gate, send_to_server-Gate,
}
use my_linux_pbs.Station.SeasonMessage.{
  format_season_msg, season_delay, check_season, set_season_type,
}
use my_linux_pbs.Station.Barrier.{with_process}
use my_linux_pbs.Station.Admission.{
  black_list_answer, is_blocked, block_check, block_report, set_trans_type, turn_away,
  set_vehicle_type, set_show_type, show_if, both, passback_report, season_tests, season_shown,
}

-- A row of type 0 on the black list.
abbrev pub is_banned : ℤ → Bool
is_banned r = is_pos r 0

pub black_list_answer-Gate :
    (env : Env) (iu : Bytes) (r : ℤ) → Gate (not (is_banned r)) (black_list_answer env iu r)
unfolding black_list_answer
black_list_answer-Gate env iu (negsuc n) = go_on-Gate
black_list_answer-Gate env iu (pos n) =
    call-Gate (show-Gate env black_list)
    then_gate send_to_server-Gate _ _
    then_gate stop_if-Gate (n == 0)

pub turn_away-Gate :
    (stop : Bool) {shown : Op} → Gate true shown → Gate (not stop) (turn_away stop shown)
unfolding turn_away
turn_away-Gate true p = call-Gate p then_gate finish-Gate
turn_away-Gate false p = go_on-Gate

pub show_if-Gate : (on : Bool) {shown : Op} → Gate true shown → Gate true (show_if on shown)
unfolding show_if
show_if-Gate true p = call-Gate p
show_if-Gate false p = go_on-Gate

pub block_check-Gate :
    (env : Env) (iu : Bytes) → Gate (not (is_blocked env iu)) (block_check env iu)
unfolding block_check block_report
block_check-Gate env iu =
    turn_away-Gate (is_blocked env iu) (show_led_msg-Gate _ _ then_gate send_to_server-Gate _ _)

pub set_trans_type-Gate : (env : Env) → Gate true (set_trans_type env)
unfolding set_trans_type
set_trans_type-Gate env = record { silent = λ s. refl; goes = λ s. refl; keeps = λ s. ground arith }

pub set_vehicle_type-Gate : Gate true set_vehicle_type
unfolding set_vehicle_type
set_vehicle_type-Gate = record { silent = λ s. refl; goes = λ s. refl; keeps = λ s. ground arith }

pub set_show_type-Gate : (on : Bool) (n : ℕ) → Gate true (set_show_type on n)
unfolding set_show_type
set_show_type-Gate on n = record {
  silent = λ s. ground arith;
  goes = λ s. ground arith;
  keeps = λ s. ground arith;
}

season_delay-Gate : (env : Env) → Gate true (season_delay env)
unfolding season_delay
season_delay-Gate env = record {
  silent = λ s. ground arith;
  goes = λ s. ground arith;
  keeps = λ s. ground arith;
}

set_season_type-Keeps : (env : Env) (s : Station) → Keeps s (set_season_type env s)
unfolding set_season_type
set_season_type-Keeps env s = ground arith

set_season_type-Keeps_shown :
    (env : Env) (s : Station)
    → Keeps s (
        with_process
          (set_season_type env s)
          (record ((set_season_type env s).process) { show_type = 0 }))
set_season_type-Keeps_shown env s =
    let k = set_season_type-Keeps env s in
    record {
      card_is_in = k.card_is_in;
      continue_opened = k.continue_opened;
      saved_trans = k.saved_trans;
      iu_tk_no = k.iu_tk_no;
      entry_ok = k.entry_ok;
      iu_no = k.iu_no;
    }

format_season_msg-Gate : (env : Env) (r : ℤ) → Gate true (format_season_msg env r)
unfolding format_season_msg
format_season_msg-Gate env r =
    let shown =
      λ (led lcd : Bytes). call-Gate (show_led_msg-Gate led lcd) then_gate season_delay-Gate env in
    record {
      silent = λ s. (shown _ _).silent _;
      goes = λ s. (shown _ _).goes _;
      keeps = λ s. Keeps-trans (set_season_type-Keeps_shown env s) ((shown _ _).keeps _);
    }

pub check_season-Gate : (env : Env) (r : ℤ) → Gate true (check_season env r)
unfolding check_season go_on
check_season-Gate env r = elim (Bool-cases (is_pos r 8)) [
  | inl e ↦ record { silent = λ s. rw e; goes = λ s. rw e; keeps = λ s. rw e (go_on-Gate.keeps s) }
  | inr e ↦
      let p = call-Gate (format_season_msg-Gate env r) in
      record {
        silent = λ s. rw e (p.silent s);
        goes = λ s. rw e (p.goes s);
        keeps = λ s. rw e (p.keeps s);
      }
]

passback_report-Gate : (env : Env) (iu : Bytes) → Gate true (passback_report env iu)
unfolding passback_report
passback_report-Gate env iu =
    send_to_server-Gate _ _ then_gate call-Gate (show-Gate env season_passback)

-- The season's part of the admission, as the answer `r` decides it: a valid season is refused only
-- in a full car park that takes no partial season; no other vehicle comes in where only seasons may,
-- into a full car park, or on a passback with a number of 16 bytes.
unfoldable pub season_admits : Env → Bytes → ℤ → Bool
season_admits env iu r =
    if is_pos r 1
    then not (env.carpark_full && env.full_action == 2 && not (env.season_rate_type == 0))
    else not (ltb 0 env.season_only_ini)
      && not env.carpark_full
      && not (is_pos r 6 && length iu == 16)

season_gates : Env → Bytes → ℤ → Bool
season_gates env iu r =
    not (
      env.carpark_full && (is_pos r 1 && (not (env.season_rate_type == 0) && env.full_action == 2)))
    && (not (ltb 0 env.season_only_ini && not (is_pos r 1))
        && (not (env.carpark_full && not (is_pos r 1)) && not (is_pos r 6 && length iu == 16)))

season_gates-season_admits :
    (env : Env) (iu : Bytes) (r : ℤ) → season_gates env iu r ≡ season_admits env iu r
unfolding season_gates season_admits
season_gates-season_admits env iu r = ground arith

pub season_tests-Gate :
    (env : Env) (iu : Bytes) (r : ℤ) → Gate (season_admits env iu r) (season_tests env iu r)
unfolding season_tests both season_gates
season_tests-Gate env iu r =
    subst (λ (b : Bool). Gate b (season_tests env iu r)) (season_gates-season_admits env iu r)
      (turn_away-Gate _ (show_led_msg-Gate _ _)
        then_gate turn_away-Gate _ (show-Gate env season_only)
        then_gate turn_away-Gate _ (show_led_msg-Gate _ _)
        then_gate turn_away-Gate _ (passback_report-Gate env iu))

pub season_shown-Gate : (env : Env) (r : ℤ) → Gate true (season_shown env r)
unfolding season_shown
season_shown-Gate env r =
    set_show_type-Gate _ 0
    then_gate show_if-Gate _ (show-Gate env season_as_hourly)
    then_gate set_show_type-Gate _ 2
    then_gate show_if-Gate _ (show-Gate env with_iu)
    then_gate set_show_type-Gate _ 1

-- The whole admission of a number that is not empty.
unfoldable pub admits : Env → Bytes → Bool
admits env iu =
    not (is_banned (env.is_black_list iu))
    && (not (is_blocked env iu)
        && (not (env.carpark_full && env.full_action == 3)
            && season_admits env iu (env.is_valid_season iu 1)))

-- An operation that goes on, exactly if `b`, to `tail`, with nothing for the barrier before it.
pub record Reaches (b : Bool) (tail f : Op) : Type 0 where
  pub at : Station → Station
  pub keeps : (s : Station) → Keeps s (at s)
  pub marks_of : (s : Station) → marks (f s).sent ≡ (if b then marks (tail (at s)).sent else [])
  pub state_of : (s : Station) → (f s).state ≡ (if b then (tail (at s)).state else at s)

pub reached : {tail : Op} → Reaches true tail tail
reached = record {
  at = λ s. s;
  keeps = λ s. ground arith;
  marks_of = λ s. refl;
  state_of = λ s. refl;
}

infixr 20 ◌then_reach◌
pub ◌then_reach◌ :
    {b c : Bool} {f g tail : Op} → Gate b f → Reaches c tail g → Reaches (b && c) tail (f then_op g)
◌then_reach◌ {b = true} {f = f} {g = g} p q = record {
  at = λ s. q.at (f s).state;
  keeps = λ s. Keeps-trans (p.keeps s) (q.keeps (f s).state);
  marks_of = λ s. through g p s ∙ q.marks_of (f s).state;
  state_of = λ s. through_state g p s ∙ q.state_of (f s).state;
}
◌then_reach◌ {b = false} {f = f} {g = g} p q = record {
  at = λ s. (f s).state;
  keeps = p.keeps;
  marks_of = through g p;
  state_of = through_state g p;
}
