-- ===== src/Station/Departure/Again.antt =====
-- When `CheckIUorCardStatus` of operation.cpp opens the barrier: for a number through `PBSExit`,
-- for a card that is free, and for the number that has paid last.
use my_linux_pbs.Base.{
  codes, ℕ, ◌≡◌, refl, sym, subst, inl, inr, ◌⊎◌, Bool, true, false, List, [], if◌then◌else◌, Bytes,
  is_empty, Bool-cases, bytes_eq, codes,
}
use my_linux_pbs.Base.Int.{is_pos, ℤ, pos, ltb_ℤ}
use my_linux_pbs.Station.State.{Station}
use my_linux_pbs.Station.Op.{Op, call, continue, go_on, ◌then_op◌}
use my_linux_pbs.Station.Env.{Env, StationType, is_entry}
use my_linux_pbs.Station.Marks.{Mark, marks}
use my_linux_pbs.Station.Gate.{
  Gate, through, go_on-Gate, finish-Gate, ◌then_gate◌, show_led_msg-Gate,
}
use my_linux_pbs.Station.Barrier.{enable_cashcard}
use my_linux_pbs.Station.Barrier.Opens.{can_move, marks-open_barrier}
use my_linux_pbs.Station.Exit.{free_parking}
use my_linux_pbs.Station.Exit.Closing.{marks-close_exit_operation}
use my_linux_pbs.Station.Fee.Settled.{enable_cashcard-Gate, waits-Gate}
use my_linux_pbs.Station.Found.{Queries}
use my_linux_pbs.Station.Departure.{set_exit, request_payment, pbs_exit}
use my_linux_pbs.Station.Departure.Check.{
  Device, is_ant, is_faulty, is_short, is_waiting, wait_card, retry, retry_faulty, retry_short,
  short_text, freed_by_card, free_by_card, pay_by_card, card_at_exit, is_last, reader_off_at,
  open_again, not_paid, number_at_exit, by_status, check_iu_or_card_status,
}
use my_linux_pbs.Station.Fee.Settled.{closed}
use my_linux_pbs.Station.Departure.Past.{opening, opening-Kept, closed-Kept, past}
use my_linux_pbs.Station.Departure.Safe.{Recorded, set_exit-Gate}
use my_linux_pbs.Station.Departure.Charged.{marks-pbs_exit, request_payment-Gate}

marks-free_by_card :
    (env : Env) (r : ℤ) (card : Bytes) (ct : ℕ) (s : Station)
    → marks (free_by_card env r card ct s).sent ≡ closed s
unfolding free_by_card call
marks-free_by_card env r card ct =
    let shown = if is_pos r 5 then codes "Master Card!" else codes "Complimentary!" in
    past _ (show_led_msg-Gate shown shown) closed-Kept (
      past _ (waits-Gate 500) closed-Kept (
        past _ (set_exit-Gate (freed_by_card r card ct) (λ x. refl)) closed-Kept
          (marks-close_exit_operation env free_parking)))

reader_off_at-Gate : (t : StationType) → Gate true (reader_off_at t)
reader_off_at-Gate t = chosen (is_entry t)
  where
    chosen : (b : Bool) → Gate true (if b then go_on else enable_cashcard false)
    chosen true = go_on-Gate
    chosen false = enable_cashcard-Gate false

marks-open_again :
    (env : Env) (d : Device) (s : Station) → marks (open_again env d s).sent ≡ opening s
unfolding open_again call
marks-open_again env d =
    past _ (show_led_msg-Gate _ _) opening-Kept
      (past _ (reader_off_at-Gate env.station_type) opening-Kept marks-open_barrier)

-- What the check may leave behind.
abbrev pub Answered : Env → Bytes → Bytes → Station → List Mark → Type 0
Answered env n card s ms =
    Recorded n ms
    ⊎ ((ltb_ℤ (pos 0) (env.check_card card) ≡ true) × (ms ≡ closed s))
    ⊎ ((is_last env n s ≡ true) × (s.process.last_paid_status ≡ true) × (ms ≡ opening s))

pay_by_card-silent : (s : Station) → marks (pay_by_card s).sent ≡ []
unfolding pay_by_card
pay_by_card-silent s = chosen (ltb_ℤ (pos 0) s.exit.paid_amt)
  where
    chosen : (b : Bool) → marks (if b then request_payment s else continue s []).sent ≡ []
    chosen true = request_payment-Gate.silent s
    chosen false = refl

card_at_exit-Answered :
    (env : Env) (n card : Bytes) (ct : ℕ) (s : Station)
    → Answered env n card s (marks (card_at_exit env card ct s).sent)
unfolding card_at_exit
card_at_exit-Answered env n card ct s = chosen (Bool-cases (ltb_ℤ (pos 0) (env.check_card card)))
  where
    chosen :
        (ltb_ℤ (pos 0) (env.check_card card) ≡ true) ⊎ (ltb_ℤ (pos 0) (env.check_card card) ≡ false)
        → Answered env n card s (marks (card_at_exit env card ct s).sent)
    chosen (inl b) = inr (inl (b, rw b (marks-free_by_card env (env.check_card card) card ct s)))
    chosen (inr b) = inl (inl (rw b (pay_by_card-silent s)))

not_paid-Recorded :
    (env : Env) (q : Queries) (n : Bytes) (d : Device) (s : Station)
    → is_empty n ≡ false
    → Recorded n (marks (not_paid env q n d s).sent)
unfolding not_paid
not_paid-Recorded env q n d s h = chosen (ltb_ℤ (pos 0) s.exit.paid_amt) (is_ant d)
  where
    chosen :
        (b c : Bool)
        → Recorded n (
            marks
              (if b
                then (if c then enable_cashcard true s else continue s [])
                else pbs_exit env q n s).sent)
    chosen true true = inl ((enable_cashcard-Gate true).silent s)
    chosen true false = inl refl
    chosen false c = marks-pbs_exit env q n s h

number_at_exit-Answered :
    (env : Env) (q : Queries) (n : Bytes) (d : Device) (card : Bytes) (s : Station)
    → is_empty n ≡ false
    → Answered env n card s (marks (number_at_exit env q n d s).sent)
unfolding number_at_exit
number_at_exit-Answered env q n d card s h =
    chosen (is_last env n s) s.process.last_paid_status refl refl
  where
    chosen :
        (b c : Bool)
        → is_last env n s ≡ b
        → s.process.last_paid_status ≡ c
        → Answered env n card s (
            marks
              ((if b
                then (if c then open_again env d s else not_paid env q n d s)
                else pbs_exit env q n s)).sent)
    chosen true true e f = inr (inr (e, f, marks-open_again env d s))
    chosen true false e f = inl (not_paid-Recorded env q n d s h)
    chosen false c e f = inl (marks-pbs_exit env q n s h)

by_status-Answered :
    (env : Env) (q : Queries) (n : Bytes) (d : Device) (card : Bytes) (ct : ℕ) (s : Station)
    → is_empty n ≡ false
    → Answered env n card s (marks (by_status env q n d card ct s).sent)
unfolding by_status
by_status-Answered env q n d card ct s h = chosen (is_waiting s.exit.deduction_status)
  where
    chosen :
        (b : Bool)
        → Answered env n card s
            (marks (if b then card_at_exit env card ct s else number_at_exit env q n d s).sent)
    chosen true = card_at_exit-Answered env n card ct s
    chosen false = number_at_exit-Answered env q n d card s h

-- A retry stops without a mark, or only the status of the deduction changes before what follows.
retry_then :
    (env : Env) (n card : Bytes) (b same : Bool) (text : Bytes) (g : Op) (s : Station)
    → ((t : Station) → Answered env n card t (marks (g t).sent))
    → Answered env n card s (marks ((retry b same text then_op g) s).sent)
unfolding retry is_last can_move wait_card go_on set_exit
retry_then env n card false same text g s p =
    subst (Answered env n card s) (sym (through g go_on-Gate s)) (p s)
retry_then env n card true true text g s p = inl (
    inl (
      through g
        (show_led_msg-Gate text text then_gate enable_cashcard-Gate true then_gate finish-Gate) s))
retry_then env n card true false text g s p =
    subst (Answered env n card s) (sym (through g (set_exit-Gate wait_card (λ x. refl)) s))
      (p (set_exit wait_card s).state)

faulty_then :
    (env : Env) (n card : Bytes) (g : Op) (s : Station)
    → ((t : Station) → Answered env n card t (marks (g t).sent))
    → Answered env n card s (marks ((retry_faulty n then_op g) s).sent)
unfolding retry_faulty ◌then_op◌
faulty_then env n card g s p =
    retry_then env n card (is_faulty s.exit.deduction_status) (bytes_eq s.process.last_card_no n)
      (codes "Card Fault!") g s p

short_then :
    (env : Env) (n card : Bytes) (g : Op) (s : Station)
    → ((t : Station) → Answered env n card t (marks (g t).sent))
    → Answered env n card s (marks ((retry_short n then_op g) s).sent)
unfolding retry_short ◌then_op◌
short_then env n card g s p =
    retry_then env n card (is_short s.exit.deduction_status) (bytes_eq s.process.last_card_no n)
      (short_text s.exit) g s p

-- For every station state and number that is not empty, what `CheckIUorCardStatus` records and
-- pulses is: nothing, or one exit record of the number, or that one record and then one pulse; or,
-- where the answer for the card is positive, what the closing of the exit at hand leaves; or, where
-- the number is that of the last paid transaction within its interval and the last payment
-- succeeded, the pulse alone, if the barrier can move.
pub marks-check_iu_or_card_status :
    (env : Env) (q : Queries) (n : Bytes) (d : Device) (card : Bytes) (ct : ℕ) (s : Station)
    → is_empty n ≡ false
    → Answered env n card s (marks (check_iu_or_card_status env q n d card ct s).sent)
unfolding check_iu_or_card_status
marks-check_iu_or_card_status env q n d card ct s h =
    faulty_then env n card (retry_short n then_op by_status env q n d card ct) s (λ t.
      short_then env n card (by_status env q n d card ct) t
        (λ u. by_status-Answered env q n d card ct u h))
