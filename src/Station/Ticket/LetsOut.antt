-- ===== src/Station/Ticket/LetsOut.antt =====
-- When a scanned ticket lets a vehicle out.
use my_linux_pbs.Base.{
  ◌≡◌, refl, sym, subst, inl, inr, ◌⊎◌, Bool, true, false, not, ◌&&◌, [], if◌then◌else◌, Bytes,
  codes, is_empty, Bool-cases, arith, ◌==◌,
}
use my_linux_pbs.Base.Int.{ℤ, pos, negsuc, is_pos, ltb_ℤ, leb_ℤ}
use my_linux_pbs.Station.State.{Station, Exit}
use my_linux_pbs.Station.Op.{Op, go_on, ◌then_op◌, behind, continue}
use my_linux_pbs.Station.Env.{
  Env, redemption_expired, comp_expired, complimentary, exit_card_in, redemption_ticket,
  invalid_ticket, system_error, used_ticket,
}
use my_linux_pbs.Station.Marks.{marks}
use my_linux_pbs.Station.Gate.{
  Gate, call-Gate, go_on-Gate, ◌then_gate◌, show_led_msg-Gate, show-Gate, send_to_server-Gate,
}
use my_linux_pbs.Station.Exit.{with_exit, is_minus_one, ticket_ok}
use my_linux_pbs.Station.Barrier.{enable_cashcard}
use my_linux_pbs.Station.Display.{show_led_msg, show}
use my_linux_pbs.Station.Fee.{redeem_time_to_amt, show_fee_to_user}
use my_linux_pbs.Station.Fee.Settled.{
  closed, show_fee-Gate, enable_cashcard-Gate, redeem_time_to_amt-iu_no,
}
use my_linux_pbs.Station.Departure.{set_exit}
use my_linux_pbs.Station.Departure.Safe.{set_exit-Gate}
use my_linux_pbs.Station.TicketAnswer.{Tickets, TicketAnswer, is_valid_bar_code_ticket}
use my_linux_pbs.Station.TicketNumber.{Scanned, scanned}
use my_linux_pbs.Station.Ticket.MayClose.{
  split-Gate, MayClose, Gate-MayClose, behind-MayClose, split-MayClose, if-MayClose,
  marks-ticket_ok, ticket_ok-MayClose,
}
use my_linux_pbs.Station.Ticket.{
  ez_pay_hint, exit_sub, rejected, expired, set_tag, wait_card_with, unpaid, set_redeem_time,
  redeem, show_redemption, ok_if_paid, after_redemption, valid_redemption, refund, name_exit,
  free_or_refund, complimentary_with_card, valid_complimentary, set_redeem_no, valid_ticket,
  by_answer, has_length, checked, read_ticket, redeemed_before, ticket_scan,
}

ez_pay_hint-Gate : Gate true ez_pay_hint
unfolding ez_pay_hint
ez_pay_hint-Gate =
    split-Gate (λ s. s.exit.pay_by_ez_pay)
      (show_led_msg-Gate (codes "You may scan^Compl Ticket") []) kept
  where
    kept : Gate true (λ s. continue s [])
    kept = record { silent = λ s. refl; goes = λ s. refl; keeps = λ s. ground arith }

exit_sub-Gate : (env : Env) → Gate true (exit_sub env)
unfolding exit_sub
exit_sub-Gate env =
    call-Gate (show_fee-Gate env) then_gate ez_pay_hint-Gate then_gate enable_cashcard-Gate true

rejected-Gate :
    (env : Env) {f : Op} (number text : Bytes)
    → Gate true f
    → Gate true (rejected env f number text)
unfolding rejected
rejected-Gate env number text p = p then_gate send_to_server-Gate _ _ then_gate exit_sub-Gate env

expired-Gate : (env : Env) (c : Scanned) → Gate true (expired env c)
unfolding expired
expired-Gate env c = chosen c.is_redemption
  where
    chosen :
        (b : Bool)
        → Gate true (
            if b
            then rejected env
                (show env redemption_expired)
                c.number
                (codes ",,,,,Redemption Expired")
            else rejected env (show env comp_expired) c.number (codes ",,,,,Complimentary Expired"))
    chosen true =
        rejected-Gate env c.number (codes ",,,,,Redemption Expired")
          (show-Gate env redemption_expired)
    chosen false =
        rejected-Gate env c.number (codes ",,,,,Complimentary Expired") (show-Gate env comp_expired)

wait_card_with-Gate : (tag number text : Bytes) → Gate true (wait_card_with tag number text)
unfolding wait_card_with set_tag
wait_card_with-Gate tag number text =
    tagged then_gate send_to_server-Gate _ _ then_gate enable_cashcard-Gate true
  where
    tagged : Gate true (set_tag tag)
    tagged = record { silent = λ s. refl; goes = λ s. refl; keeps = λ s. ground arith }

refund-Gate : (text : Bytes) → Gate true (refund text)
unfolding refund
refund-Gate text =
    show_led_msg-Gate text []
    then_gate record { silent = λ s. refl; goes = λ s. refl; keeps = λ s. ground arith }

set_redeem_time-iu_no : (env : Env) (n : ℤ) (x : Exit) → (set_redeem_time env n x).iu_no ≡ x.iu_no
unfolding set_redeem_time
set_redeem_time-iu_no env (pos n) x = chosen (ltb_ℤ (pos 0) x.paid_amt)
  where
    chosen :
        (b : Bool)
        → (if b
            then redeem_time_to_amt env (record x { redeem_time = n })
            else record x { redeem_time = n }).iu_no
          ≡ x.iu_no
    chosen true = redeem_time_to_amt-iu_no env (record x { redeem_time = n })
    chosen false = refl
set_redeem_time-iu_no env (negsuc n) x = refl

redeem-iu_no : (env : Env) (a : TicketAnswer) (x : Exit) → (redeem env a x).iu_no ≡ x.iu_no
unfolding redeem
redeem-iu_no env a x = chosen (ltb_ℤ (pos 0) a.minutes)
  where
    chosen :
        (b : Bool)
        → (if b then set_redeem_time env a.minutes x else record x { redeem_amt = a.amount }).iu_no
          ≡ x.iu_no
    chosen true = set_redeem_time-iu_no env a.minutes x
    chosen false = refl

show_redemption-Gate : (a : TicketAnswer) → Gate true (show_redemption a)
unfolding show_redemption
show_redemption-Gate a = record {
  silent = λ s. (show_led_msg-Gate _ _).silent s;
  goes = λ s. (show_led_msg-Gate _ _).goes s;
  keeps = λ s. (show_led_msg-Gate _ _).keeps s;
}

-- A number that is there is kept.
name_exit-named : (x : Exit) → is_empty x.iu_no ≡ false → name_exit x ≡ x
unfolding name_exit
name_exit-named x h = rw h refl

module _ {P : Type 0} (env : Env) (p : P) where
  ok_if_paid-MayClose : MayClose P (ok_if_paid env)
  unfolding ok_if_paid
  ok_if_paid-MayClose =
      split-MayClose (λ s. leb_ℤ (unpaid s.exit) (pos 0)) (ticket_ok-MayClose env p)
        (Gate-MayClose (enable_cashcard-Gate true))

  after_redemption-MayClose : (number : Bytes) → MayClose P (after_redemption env number)
  unfolding after_redemption
  after_redemption-MayClose number =
      split-MayClose (λ s. is_empty s.exit.iu_no && is_empty s.exit.card_no)
        (Gate-MayClose (
          wait_card_with-Gate (codes "Redemption") number
            (codes ",,,,,Redemption. Ticket Wait for Card")))
        (behind-MayClose (ok_if_paid env) (call-Gate (show_fee-Gate env)) ok_if_paid-MayClose)

  valid_redemption-MayClose :
      (a : TicketAnswer) (number : Bytes) → MayClose P (valid_redemption env a number)
  unfolding valid_redemption
  valid_redemption-MayClose a number =
      behind-MayClose _ (set_exit-Gate (redeem env a) (redeem-iu_no env a))
        (behind-MayClose _ (show_redemption-Gate a) (after_redemption-MayClose number))

  free_or_refund-MayClose : (text : Bytes) → MayClose P (free_or_refund env text)
  unfolding free_or_refund
  free_or_refund-MayClose text =
      split-MayClose (λ s. s.exit.pay_by_ez_pay) (Gate-MayClose (refund-Gate text))
        (ticket_ok-MayClose env p)

  complimentary_with_card-MayClose :
      (number : Bytes) → MayClose P (complimentary_with_card env number)
  unfolding complimentary_with_card
  complimentary_with_card-MayClose number =
      split-MayClose (λ s. is_empty s.exit.iu_no)
        (Gate-MayClose (
          show-Gate env complimentary
          then_gate wait_card_with-Gate (codes "Complimentary") number
              (codes ",,,,,Compl. Ticket Wait for Card")))
        (split-MayClose (λ s. s.exit.pay_by_ez_pay)
          (Gate-MayClose (refund-Gate (codes "Complimentary^EZpay refunded")))
          (behind-MayClose (ticket_ok env) (show-Gate env complimentary)
            (ticket_ok-MayClose env p)))

  named-MayClose : {f : Op} → MayClose P f → MayClose P (set_exit name_exit then_op f)
  unfolding set_exit ◌then_op◌ behind
  named-MayClose {f = f} q = record {
    closes = λ s h.
        subst
          (λ x.
            (marks (f (with_exit s x)).sent ≡ [])
            ⊎ (P × (marks (f (with_exit s x)).sent ≡ closed s)))
          (sym (name_exit-named s.exit h)) (q.closes s h);
  }

  valid_complimentary-MayClose :
      (t : Tickets) (number : Bytes) → MayClose P (valid_complimentary env t number)
  unfolding valid_complimentary
  valid_complimentary-MayClose t number =
      if-MayClose (t.need_card_4_complimentary == 0)
        (λ e.
          behind-MayClose _ (show-Gate env complimentary)
            (named-MayClose (free_or_refund-MayClose _)))
        (complimentary_with_card-MayClose number)

  valid_ticket-MayClose :
      (t : Tickets) (a : TicketAnswer) (c : Scanned) → MayClose P (valid_ticket env t a c)
  unfolding valid_ticket set_redeem_no
  valid_ticket-MayClose t a c =
      behind-MayClose _ (set_exit-Gate (set_redeem_no c.number) (λ x. refl)) (
        if-MayClose c.is_redemption (λ e. valid_redemption-MayClose a c.number)
          (valid_complimentary-MayClose t c.number))

by_answer-MayClose :
    (env : Env) (t : Tickets) (a : TicketAnswer) (c : Scanned)
    → MayClose (is_pos a.code 1 ≡ true) (by_answer env t a c)
unfolding by_answer
by_answer-MayClose env t a c =
    let reject = λ (f : Op) (text : Bytes) (p : Gate true f).
      Gate-MayClose {P = is_pos a.code 1 ≡ true} (rejected-Gate env c.number text p) in
    if-MayClose (is_minus_one a.code) (λ e. reject _ _ (show-Gate env system_error))
      (if-MayClose (is_pos a.code 0) (λ e. Gate-MayClose (expired-Gate env c))
        (if-MayClose (is_pos a.code 1) (λ e. valid_ticket-MayClose env e t a c)
          (if-MayClose (is_pos a.code 2) (λ e. reject _ _ (show-Gate env used_ticket))
            (if-MayClose (is_pos a.code 4) (λ e. reject _ _ (show_led_msg-Gate _ _))
              (if-MayClose (is_pos a.code 6) (λ e. reject _ _ (show_led_msg-Gate _ _))
                (Gate-MayClose (exit_sub-Gate env)))))))

checked-MayClose :
    (env : Env) (t : Tickets) (keyed : Bytes) (c : Scanned)
    → MayClose
        (is_pos (is_valid_bar_code_ticket t c.is_redemption keyed).code 1 ≡ true)
        (checked env t keyed c)
unfolding checked
checked-MayClose env t keyed c =
    if-MayClose (not (has_length c.number))
      (λ e. Gate-MayClose (
        send_to_server-Gate _ _ then_gate show-Gate env invalid_ticket then_gate exit_sub-Gate env))
      (by_answer-MayClose env t (is_valid_bar_code_ticket t c.is_redemption keyed) c)

card_in-Gate : (env : Env) (b : Bool) → Gate true (if b then show env exit_card_in else go_on)
card_in-Gate env true = show-Gate env exit_card_in
card_in-Gate env false = go_on-Gate

read_ticket-MayClose :
    (env : Env) (t : Tickets) (keyed : Bytes) (c : Scanned)
    → MayClose
        (is_pos (is_valid_bar_code_ticket t c.is_redemption keyed).code 1 ≡ true)
        (read_ticket env t keyed c)
unfolding read_ticket
read_ticket-MayClose env t keyed c =
    if-MayClose c.is_refused
      (λ e. Gate-MayClose (show-Gate env redemption_ticket then_gate exit_sub-Gate env))
      (behind-MayClose _ (card_in-Gate env c.shows_card_in) (checked-MayClose env t keyed c))

redeemed_before-marks :
    (env : Env) (s : Station)
    → (marks (redeemed_before env s).sent ≡ [])
      ⊎ ((leb_ℤ (unpaid s.exit) (pos 0) ≡ true) × (marks (redeemed_before env s).sent ≡ closed s))
unfolding redeemed_before
redeemed_before-marks env s = chosen (ltb_ℤ (pos 0) s.exit.fee) (leb_ℤ (unpaid s.exit) (pos 0))
  where
    short : Op
    short =
        show_led_msg (codes "Amount Redeem,^Pls Pay Bal!") (codes "Amount Redeem^Pls Pay Bal!")
        then_op show_fee_to_user env

    tap : Op
    tap =
        show_led_msg (codes "Amount Redeem,^Insert/Tap Card")
          (codes "Amount Redeem^Insert/Tap Card")
        then_op show_fee_to_user env

    chosen :
        (b c : Bool)
        → (marks (if b then (if c then ticket_ok env s else short s) else tap s).sent ≡ [])
          ⊎ ((c ≡ true)
              × (marks (if b then (if c then ticket_ok env s else short s) else tap s).sent
                  ≡ closed s))
    chosen true true = inr (refl, marks-ticket_ok env s)
    chosen true false = inl ((show_led_msg-Gate _ _ then_gate show_fee-Gate env).silent s)
    chosen false c = inl ((show_led_msg-Gate _ _ then_gate show_fee-Gate env).silent s)

-- At an exit with a number, a scanned text leaves no mark, or what the closing of the exit at hand
-- leaves; that only where nothing is left to pay behind an amount redeemed before, or where the
-- database answers that the ticket is valid.
pub marks-ticket_scan :
    (env : Env) (t : Tickets) (keyed : Bytes) (s : Station)
    → is_empty s.exit.iu_no ≡ false
    → (marks (ticket_scan env t keyed s).sent ≡ [])
      ⊎ ((((ltb_ℤ (pos 0) s.exit.redeem_amt ≡ true) × (leb_ℤ (unpaid s.exit) (pos 0) ≡ true))
            ⊎ (is_pos (is_valid_bar_code_ticket t (scanned t keyed).is_redemption keyed).code 1
                ≡ true))
          × (marks (ticket_scan env t keyed s).sent ≡ closed s))
unfolding ticket_scan
marks-ticket_scan env t keyed s h = elim (Bool-cases (ltb_ℤ (pos 0) s.exit.redeem_amt)) [
  | inl e ↦
      rw e
        (elim (redeemed_before-marks env s) [ inl k ↦ inl k | inr k ↦ inr (inl (refl, k.0), k.1) ])
  | inr e ↦ rw e (elim (fresh.closes s h) [ inl k ↦ inl k | inr k ↦ inr (inr k.0, k.1) ])
]
  where
    fresh :
        MayClose
          (is_pos (is_valid_bar_code_ticket t (scanned t keyed).is_redemption keyed).code 1 ≡ true)
          (enable_cashcard false then_op read_ticket env t keyed (scanned t keyed))
    fresh =
        behind-MayClose _ (enable_cashcard-Gate false)
          (read_ticket-MayClose env t keyed (scanned t keyed))
