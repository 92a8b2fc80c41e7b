-- ===== src/Station/Fee/Settled.antt =====
-- What `ReceivedEntryRecord` charges, and when it lets the vehicle out.
use my_linux_pbs.Base.{
  List, ℕ, inr, inl, ltb, Bool-cases, refl, ap, ◌∙◌, ◌≡◌, Bool, true, false, [], ◌∷◌, ◌++◌,
  if◌then◌else◌, Bytes, is_empty, arith,
}
use my_linux_pbs.Base.Int.{ℤ, pos, ◌-ℤ◌, ◌+ℤ◌, ltb_ℤ, int_laws}
use my_linux_pbs.Station.State.{Station, Exit}
use my_linux_pbs.Station.Op.{call, ◌then_op◌, behind}
use my_linux_pbs.Station.Env.{Env}
use my_linux_pbs.Station.Marks.{Mark, exit_saved, opened, marks}
use my_linux_pbs.Station.Gate.{
  Gate, Keeps-trans, through, through_state, call-Gate, show_led_msg-Gate, send_to_server-Gate,
  ◌then_gate◌,
}
use my_linux_pbs.Station.Barrier.{enable_cashcard}
use my_linux_pbs.Station.Barrier.Opens.{can_move}
use my_linux_pbs.Station.Display.{send_to_server, show_led_msg, queue_led, queue_lcd}
use my_linux_pbs.Station.Exit.{free_parking}
use my_linux_pbs.Station.Exit.Closing.{marks-close_exit_operation}
use my_linux_pbs.Station.Fee.{
  redeem_without_entry, with_parked_time, redeem_with_entry, redeem_time_to_amt, at_least_0,
  fee_to_pay, priced, price, wait_ms, show_fee_led, report_fee, set_paid, show_fee_to_user,
  wait_for_card, settle, settle_paid, received_entry_record,
}

pub due_comm : (a b c d : ℤ) → a -ℤ b -ℤ c +ℤ d ≡ a -ℤ c -ℤ b +ℤ d
due_comm a b c d = grind int_laws

-- The amount that `showFee2User` shows is the amount that `ReceivedEntryRecord` charges.
pub fee_to_pay-priced : (env : Env) (x : Exit) → fee_to_pay (priced env x) ≡ (priced env x).paid_amt
unfolding fee_to_pay priced
fee_to_pay-priced env x = ap at_least_0 (due_comm _ _ _ _)

pub redeem_time_to_amt-iu_no : (env : Env) (x : Exit) → (redeem_time_to_amt env x).iu_no ≡ x.iu_no
unfolding redeem_time_to_amt redeem_with_entry with_parked_time redeem_without_entry
redeem_time_to_amt-iu_no env x = ground arith

priced-iu_no : (env : Env) (x : Exit) → (priced env x).iu_no ≡ x.iu_no
unfolding priced
priced-iu_no env x = elim (Bool-cases (ltb 0 x.redeem_time)) [
  | inl e ↦ rw e (redeem_time_to_amt-iu_no env _)
  | inr e ↦ rw e refl
]

price-Gate : (env : Env) → Gate true (price env)
unfolding price
price-Gate env = record {
  silent = λ s. refl;
  goes = λ s. refl;
  keeps = λ s. record {
    card_is_in = refl;
    continue_opened = refl;
    saved_trans = refl;
    iu_tk_no = refl;
    entry_ok = refl;
    iu_no = priced-iu_no env s.exit;
  };
}

pub waits-Gate : (n : ℕ) → Gate true (wait_ms n)
unfolding wait_ms
waits-Gate n = record { silent = λ s. refl; goes = λ s. refl; keeps = λ s. ground arith }

show_fee_led-Gate : (env : Env) → Gate true (show_fee_led env)
unfolding show_fee_led
show_fee_led-Gate env = record {
  silent = λ s. (show_led_msg-Gate _ _).silent s;
  goes = λ s. (show_led_msg-Gate _ _).goes s;
  keeps = λ s. (show_led_msg-Gate _ _).keeps s;
}

report_fee-Gate : (env : Env) → Gate true (report_fee env)
unfolding report_fee
report_fee-Gate env = record {
  silent = λ s. (send_to_server-Gate _ _).silent s;
  goes = λ s. (send_to_server-Gate _ _).goes s;
  keeps = λ s. (send_to_server-Gate _ _).keeps s;
}

set_paid-Gate : Gate true set_paid
unfolding set_paid
set_paid-Gate = record { silent = λ s. refl; goes = λ s. refl; keeps = λ s. ground arith }

pub show_fee-Gate : (env : Env) → Gate true (show_fee_to_user env)
unfolding show_fee_to_user
show_fee-Gate env =
    waits-Gate 1000
    then_gate show_fee_led-Gate env
    then_gate report_fee-Gate env
    then_gate set_paid-Gate

show_led_msg-exit : (led lcd : Bytes) (s : Station) → (show_led_msg led lcd s).state.exit ≡ s.exit
unfolding show_led_msg queue_led queue_lcd ◌then_op◌ behind
show_led_msg-exit led lcd s = ground arith

reported-exit :
    (env : Env) (s : Station)
    → ((report_fee env then_op set_paid) s).state.exit
      ≡ record (s.exit) { paid_amt = fee_to_pay s.exit }
unfolding report_fee set_paid ◌then_op◌ behind send_to_server
reported-exit env s = refl

shown-exit : (env : Env) (s : Station) → (show_fee_led env s).state.exit ≡ s.exit
unfolding show_fee_led
shown-exit env s = show_led_msg-exit _ _ s

waited-exit : (n : ℕ) (s : Station) → (wait_ms n s).state.exit ≡ s.exit
unfolding wait_ms
waited-exit n s = refl

-- `showFee2User` changes nothing of the exit but the amount to pay.
pub show_fee-exit :
    (env : Env) (s : Station)
    → (show_fee_to_user env s).state.exit ≡ record (s.exit) { paid_amt = fee_to_pay s.exit }
unfolding show_fee_to_user
show_fee-exit env s =
    let exit_of = λ (u : Station). u.exit in
    let t = (wait_ms 1000 s).state in
    ap exit_of (through_state _ (waits-Gate 1000) s)
    ∙ ap exit_of (through_state _ (show_fee_led-Gate env) t)
    ∙ reported-exit env (show_fee_led env t).state
    ∙ ap (λ (x : Exit). record x { paid_amt = fee_to_pay x })
        (shown-exit env t ∙ waited-exit 1000 s)

show_fee-paid :
    (env : Env) (s : Station) → (show_fee_to_user env s).state.exit.paid_amt ≡ fee_to_pay s.exit
show_fee-paid env s = ap (λ (x : Exit). x.paid_amt) (show_fee-exit env s)

-- The amount on which `ReceivedEntryRecord` decides.
shown_paid :
    (env : Env) (s : Station)
    → (show_fee_to_user env (price env s).state).state.exit.paid_amt ≡ (priced env s.exit).paid_amt
unfolding price
shown_paid env s = show_fee-paid env _ ∙ fee_to_pay-priced env s.exit

wait_for_card-Gate : Gate true wait_for_card
unfolding wait_for_card
wait_for_card-Gate = record { silent = λ s. refl; goes = λ s. refl; keeps = λ s. ground arith }

pub enable_cashcard-Gate : (on : Bool) → Gate true (enable_cashcard on)
unfolding enable_cashcard
enable_cashcard-Gate on = record {
  silent = λ s. ground arith;
  goes = λ s. ground arith;
  keeps = λ s. ground arith;
}

-- The record and the pulse of an exit with the number and the flags of `s`.
abbrev pub closed : Station → List Mark
closed s =
    (if is_empty s.exit.iu_no then [] else exit_saved s.exit.iu_no ∷ [])
    ++ (if can_move s then opened ∷ [] else [])

marks-settle :
    (env : Env) (b : Bool) (s : Station)
    → marks (settle env b s).sent ≡ (if b then [] else closed s)
unfolding settle
marks-settle env true s = (wait_for_card-Gate then_gate enable_cashcard-Gate true).silent s
marks-settle env false s = marks-close_exit_operation env free_parking s

marks-settle_paid :
    (env : Env) (s : Station)
    → marks (settle_paid env s).sent ≡ (if ltb_ℤ (pos 0) s.exit.paid_amt then [] else closed s)
unfolding settle_paid
marks-settle_paid env s = marks-settle env _ s

-- The barrier stays down and nothing is recorded while something is to pay for the priced record.
-- With nothing to pay, the exit is recorded and then the barrier pulsed, as far as it can move.
pub marks-received_entry_record :
    (env : Env) (s : Station)
    → marks (received_entry_record env s).sent
      ≡ (if ltb_ℤ (pos 0) (priced env s.exit).paid_amt then [] else closed s)
unfolding received_entry_record can_move call
marks-received_entry_record env s =
    let t = (price env s).state in
    let u = (show_fee_to_user env t).state in
    let k = Keeps-trans ((price-Gate env).keeps s) ((show_fee-Gate env).keeps t) in
    through _ (price-Gate env) s
    ∙ through _ (call-Gate (show_fee-Gate env)) t
    ∙ marks-settle_paid env u
    ∙ rw (shown_paid env s, k.iu_no, k.card_is_in, k.continue_opened) refl
