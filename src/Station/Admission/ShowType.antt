-- ===== src/Station/Admission/ShowType.antt =====
-- The show type that the season answer leaves in `PBSEntry`.
use my_linux_pbs.Base.{refl, ap, ◌∙◌, ◌≡◌, ◌||◌, ℕ, Bool, true, false, not, if◌then◌else◌, arith}
use my_linux_pbs.Base.Int.{ℤ, is_pos}
use my_linux_pbs.Station.State.{Station}
use my_linux_pbs.Station.Op.{◌then_op◌, call, behind, go_on}
use my_linux_pbs.Station.Env.{Env, Message, season_as_hourly, with_iu}
use my_linux_pbs.Station.Display.{show, show_led_msg, queue_led, queue_lcd}
use my_linux_pbs.Station.Gate.{through_state, show-Gate}
use my_linux_pbs.Station.Admission.{set_show_type, show_if, season_shown}
use my_linux_pbs.Station.Admission.Opening.{set_show_type-Gate, show_if-Gate}

show-show_type :
    (env : Env) (m : Message) (s : Station)
    → (show env m s).state.process.show_type ≡ s.process.show_type
unfolding show show_led_msg queue_led queue_lcd ◌then_op◌ behind
show-show_type env m s = ground arith

show_if-show_type :
    (on : Bool) (env : Env) (m : Message) (s : Station)
    → (show_if on (show env m) s).state.process.show_type ≡ s.process.show_type
unfolding show_if call go_on
show_if-show_type true env m s = show-show_type env m s
show_if-show_type false env m s = refl

set-show_type :
    (on : Bool) (n : ℕ) (s : Station)
    → (set_show_type on n s).state.process.show_type ≡ (if on then n else s.process.show_type)
unfolding set_show_type
set-show_type on n s = ground arith

-- Whatever show types the answers 4, 6 and 10 are given on the way, the admission ends with 0 for a
-- valid season, and with 1 for every other answer.
pub season_shown-show_type :
    (env : Env) (r : ℤ) (s : Station)
    → (season_shown env r s).state.process.show_type ≡ (if is_pos r 1 then 0 else 1)
unfolding season_shown
season_shown-show_type env r s =
    let f = λ (t : Station). t.process.show_type in
    let s1 = (set_show_type (is_pos r 1 || is_pos r 4 || is_pos r 6) 0 s).state in
    let s2 = (show_if (is_pos r 10) (show env season_as_hourly) s1).state in
    let s3 = (set_show_type (is_pos r 10) 2 s2).state in
    let s4 = (show_if (not (is_pos r 1)) (show env with_iu) s3).state in
    ap f (through_state _ (set_show_type-Gate _ 0) s)
    ∙ ap f (through_state _ (show_if-Gate _ (show-Gate env season_as_hourly)) s1)
    ∙ ap f (through_state _ (set_show_type-Gate _ 2) s2)
    ∙ ap f (through_state _ (show_if-Gate _ (show-Gate env with_iu)) s3)
    ∙ set-show_type (not (is_pos r 1)) 1 s4
    ∙ ap (λ n. if not (is_pos r 1) then 1 else n)
        (show_if-show_type (not (is_pos r 1)) env with_iu s3
          ∙ set-show_type (is_pos r 10) 2 s2
          ∙ ap (λ n. if is_pos r 10 then 2 else n)
              (show_if-show_type (is_pos r 10) env season_as_hourly s1
                ∙ set-show_type (is_pos r 1 || is_pos r 4 || is_pos r 6) 0 s))
    ∙ by_answer r
  where
    by_answer :
        (r : ℤ)
        → (if not (is_pos r 1)
            then 1
            else if is_pos r 10
            then 2
            else if is_pos r 1 || is_pos r 4 || is_pos r 6
            then 0
            else s.process.show_type)
          ≡ (if is_pos r 1 then 0 else 1)
    by_answer r = ground arith
