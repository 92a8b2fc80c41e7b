-- ===== src/Station/Exit/Closing.antt =====
-- In which order an exit is recorded and the barrier opened, and what is due at an exit.
use my_linux_pbs.Base.{
  List, inl, inr, Bool-cases, refl, ap, ◌∙◌, ◌≡◌, Bool, true, false, [], ◌∷◌, ◌++◌, if◌then◌else◌,
  Bytes, is_empty, arith,
}
use my_linux_pbs.Base.Int.{◌≤ℤ◌}
use my_linux_pbs.Station.State.{Station, Exit}
use my_linux_pbs.Station.Op.{Op, call, ◌then_op◌, behind}
use my_linux_pbs.Station.Env.{Env}
use my_linux_pbs.Station.Marks.{mark, exit_saved, opened, marks, marks-append}
use my_linux_pbs.Station.Gate.{
  Keeps-trans, Gate, Keeps, through, call-Gate, go_on-Gate, show_led_msg-Gate,
}
use my_linux_pbs.Station.Barrier.{open_barrier}
use my_linux_pbs.Station.Barrier.Opens.{can_move, marks-open_barrier}
use my_linux_pbs.Station.Exit.{
  Action, pms_entry, exit_process, to_server, movement, TransType, free_parking, season_parking,
  grace_period, deduction_ok, deduction_fail, manualopen, balance_change, closing_message,
  set_closing_status, show_closing, close_exit_operation, save_exit, exit_queries, limit_redeem,
  count_parked, redeemable,
}

set_closing_status-Gate : (t : TransType) → Gate true (set_closing_status t)
unfolding set_closing_status
set_closing_status-Gate t = record {
  silent = λ s. refl;
  goes = λ s. refl;
  keeps = λ s. ground arith;
}

closing_message-Gate : (t : TransType) (x : Exit) → Gate true (closing_message t x)
unfolding closing_message
closing_message-Gate free_parking x = show_led_msg-Gate _ _
closing_message-Gate season_parking x = go_on-Gate
closing_message-Gate grace_period x = show_led_msg-Gate _ _
closing_message-Gate deduction_ok x = show_led_msg-Gate _ _
closing_message-Gate deduction_fail x = go_on-Gate
closing_message-Gate manualopen x = show_led_msg-Gate _ _
closing_message-Gate balance_change x = show_led_msg-Gate _ _

show_closing-Gate : (t : TransType) → Gate true (show_closing t)
unfolding show_closing
show_closing-Gate t = record {
  silent = λ s. (call-Gate (closing_message-Gate t s.exit)).silent s;
  goes = λ s. (call-Gate (closing_message-Gate t s.exit)).goes s;
  keeps = λ s. (call-Gate (closing_message-Gate t s.exit)).keeps s;
}

recorded_iu_no : (env : Env) (x : Exit) → (count_parked env (limit_redeem x)).iu_no ≡ x.iu_no
unfolding limit_redeem count_parked
recorded_iu_no env x = ground arith

marks-exit_queries :
    (env : Env) (pms : Bool) (x : Exit) → marks (exit_queries env pms x) ≡ exit_saved x.iu_no ∷ []
unfolding exit_queries movement
marks-exit_queries env pms x = ground arith

-- A report to the server leaves no mark.
marks-report :
    (out : List Action) (b : Bool) (cmd text : Bytes)
    → marks (out ++ (if b then to_server cmd text ∷ [] else [])) ≡ marks out
marks-report [] true cmd text = refl
marks-report [] false cmd text = refl
marks-report (a ∷ out) b cmd text = ap (λ m. mark a ++ m) (marks-report out b cmd text)

marks-save_exit :
    (env : Env) (s : Station)
    → marks (save_exit env s).sent
      ≡ (if is_empty s.exit.iu_no then [] else exit_saved s.exit.iu_no ∷ [])
unfolding save_exit
marks-save_exit env s = elim (Bool-cases (is_empty s.exit.iu_no)) [
  | inl e ↦ rw e refl
  | inr e ↦
      let x = count_parked env (limit_redeem s.exit) in
      let pms = pms_entry (limit_redeem s.exit) in
      rw e (
        marks-report (exit_queries env pms x) _ _ _
        ∙ marks-exit_queries env pms x
        ∙ ap (λ n. exit_saved n ∷ []) (recorded_iu_no env s.exit))
]

save_exit-can_move : (env : Env) (s : Station) → can_move (save_exit env s).state ≡ can_move s
unfolding save_exit can_move exit_process
save_exit-can_move env s = elim (Bool-cases (is_empty s.exit.iu_no)) [
  | inl e ↦ rw e refl
  | inr e ↦ rw e refl
]

-- What `CloseExitOperation` does behind its message.
closing : Env → Op
closing env = call (save_exit env) then_op call open_barrier

marks-closing :
    (env : Env) (s : Station)
    → marks (closing env s).sent ≡ (
        (if is_empty s.exit.iu_no then [] else exit_saved s.exit.iu_no ∷ [])
        ++ (if can_move s then opened ∷ [] else []))
unfolding closing ◌then_op◌ call behind
marks-closing env s =
    let saved = if is_empty s.exit.iu_no then [] else exit_saved s.exit.iu_no ∷ [] in
    let t = (save_exit env s).state in
    marks-append (save_exit env s).sent (open_barrier t).sent
    ∙ ap (λ m. m ++ marks (open_barrier t).sent) (marks-save_exit env s)
    ∙ ap (λ m. saved ++ m) (marks-open_barrier t)
    ∙ ap (λ (b : Bool). saved ++ (if b then opened ∷ [] else [])) (save_exit-can_move env s)

closed_behind :
    (env : Env) (s t : Station)
    → Keeps s t
    → marks (closing env t).sent ≡ (
        (if is_empty s.exit.iu_no then [] else exit_saved s.exit.iu_no ∷ [])
        ++ (if can_move s then opened ∷ [] else []))
unfolding can_move
closed_behind env s t k = marks-closing env t ∙ rw (k.iu_no, k.card_is_in, k.continue_opened) refl

-- However an exit closes, the record is written before the barrier is pulsed: it is written once for
-- a number that is not empty, and the barrier moves if no card is in the reader and it is not open for
-- good. An empty number moves the barrier without a record.
pub marks-close_exit_operation :
    (env : Env) (t : TransType) (s : Station)
    → marks (close_exit_operation env t s).sent ≡ (
        (if is_empty s.exit.iu_no then [] else exit_saved s.exit.iu_no ∷ [])
        ++ (if can_move s then opened ∷ [] else []))
unfolding close_exit_operation closing
marks-close_exit_operation env t s =
    let u = (set_closing_status t s).state in
    let v = (show_closing t u).state in
    through _ (set_closing_status-Gate t) s
    ∙ through _ (show_closing-Gate t) u
    ∙ closed_behind env s v
        (Keeps-trans ((set_closing_status-Gate t).keeps s) ((show_closing-Gate t).keeps u))

-- The record never redeems more than the fee less the rebate and what is owed.
pub limit_redeem-redeemable : (x : Exit) → (limit_redeem x).redeem_amt ≤ℤ redeemable x
unfolding limit_redeem
limit_redeem-redeemable x = ground arith
