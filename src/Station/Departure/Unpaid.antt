-- ===== src/Station/Departure/Unpaid.antt =====
-- When `PBSExit` of operation.cpp lets a vehicle out on the amount to pay.
use my_linux_pbs.Base.{
  ◌≡◌, refl, ap, ◌∙◌, Bool, true, false, List, [], ◌++◌, append-nil, if◌then◌else◌, Bytes,
}
use my_linux_pbs.Base.Int.{pos, ltb_ℤ}
use my_linux_pbs.Station.State.{Station, Exit}
use my_linux_pbs.Station.Op.{Op, call, ◌then_op◌, behind}
use my_linux_pbs.Station.Env.{Env}
use my_linux_pbs.Station.Marks.{Mark, marks, marks-append}
use my_linux_pbs.Station.Gate.{Gate, Keeps-trans, through, call-Gate, show_led_msg-Gate}
use my_linux_pbs.Station.Exit.{free_parking, close_exit_operation}
use my_linux_pbs.Station.Exit.Closing.{marks-close_exit_operation}
use my_linux_pbs.Station.Fee.{fee_to_pay, at_least_0, show_fee_to_user}
use my_linux_pbs.Station.Fee.Settled.{
  closed, due_comm, show_fee-Gate, show_fee-exit, enable_cashcard-Gate,
}
use my_linux_pbs.Station.Departure.{
  set_exit, is_complimentary, complimented, complimentary_exit, compl_text, due, request_payment,
  pay_or_close, pay_exit,
}
use my_linux_pbs.Station.Departure.Safe.{set_exit-Gate}
use my_linux_pbs.Station.Departure.Past.{closed-Kept, past}
use my_linux_pbs.Station.Departure.Charged.{due-iu_no, request_payment-Gate}

-- The amount that is shown is the amount that is due.
fee_to_pay-due : (env : Env) (x : Exit) → fee_to_pay (due env x) ≡ (due env x).paid_amt
unfolding fee_to_pay due
fee_to_pay-due env x = ap at_least_0 (due_comm _ _ _ _)

-- A gate behind a call adds nothing.
before :
    {b : Bool} (f : Op) {g : Op}
    → Gate b g
    → (s : Station) → marks ((call f then_op g) s).sent ≡ marks (f s).sent
unfolding call ◌then_op◌ behind
before f {g = g} p s =
    marks-append (f s).sent (g (f s).state).sent
    ∙ ap (λ m. marks (f s).sent ++ m) (p.silent (f s).state)
    ∙ append-nil (marks (f s).sent)

marks-complimentary_exit :
    (env : Env) (text : Bytes) (s : Station) → marks (complimentary_exit env text s).sent ≡ closed s
unfolding complimentary_exit complimented
marks-complimentary_exit env text = past _ (set_exit-Gate complimented (λ x. refl)) closed-Kept (
    past _ (show_led_msg-Gate text text) closed-Kept (λ s.
      before (close_exit_operation env free_parking) (enable_cashcard-Gate false) s
      ∙ marks-close_exit_operation env free_parking s))

-- What is left where a closed exit leaves `ms`.
abbrev let_out : Exit → List Mark → List Mark
let_out x ms = if is_complimentary x then ms else if ltb_ℤ (pos 0) x.paid_amt then [] else ms

marks-pay_or_close :
    (env : Env) (x : Exit) (s : Station) → marks (pay_or_close env x s).sent ≡ let_out x (closed s)
unfolding pay_or_close call
marks-pay_or_close env x s = chosen (is_complimentary x) (ltb_ℤ (pos 0) x.paid_amt)
  where
    chosen :
        (b c : Bool)
        → marks
            ((if b
                then complimentary_exit env compl_text
                else if c
                then request_payment
                else call (close_exit_operation env free_parking))
              s).sent
          ≡ (if b then closed s else if c then [] else closed s)
    chosen true c = marks-complimentary_exit env compl_text s
    chosen false true = request_payment-Gate.silent s
    chosen false false = marks-close_exit_operation env free_parking s

-- For every exit record, `PBSExit` behind the fee closes the exit, which leaves its record and the
-- pulse as far as the barrier can move, if the redeemed ticket is complimentary or nothing is due; if
-- something is due and the ticket is not complimentary, it neither records nor pulses.
pub marks-pay_exit :
    (env : Env) (s : Station)
    → marks (pay_exit env s).sent ≡ (
        if is_complimentary (due env s.exit)
        then closed s
        else if ltb_ℤ (pos 0) (due env s.exit).paid_amt
        then []
        else closed s)
unfolding pay_exit set_exit call
marks-pay_exit env s =
    let p = set_exit-Gate (due env) (due-iu_no env) in
    let t = (set_exit (due env) s).state in
    let u = (show_fee_to_user env t).state in
    let k = Keeps-trans (p.keeps s) ((show_fee-Gate env).keeps t) in
    through _ p s
    ∙ through _ (call-Gate (show_fee-Gate env)) t
    ∙ marks-pay_or_close env u.exit u
    ∙ ap (λ x. let_out x (closed u)) (show_fee-exit env t)
    ∙ ap (λ a. let_out (record (due env s.exit) { paid_amt = a }) (closed u))
        (fee_to_pay-due env s.exit)
    ∙ ap (let_out (due env s.exit)) (closed-Kept.same k)
