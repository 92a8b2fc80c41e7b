-- ===== src/Station/Reader/Answers.antt =====
-- What a pay result does at the exit, from the request of the reader to the barrier.
use mathlib.Core.Option
use my_linux_pbs.Base.{
  ℕ, ◌+◌, ◌≡◌, refl, ap, ◌∙◌, Bool, true, false, Option, none, some, List, [], ◌∷◌, ◌==◌,
  if◌then◌else◌, Bytes, codes, is_empty, All-append, arith,
}
use my_linux_pbs.Base.Int.{ℤ, is_pos, pos_part}
use my_linux_pbs.Text.Decimal.{print, print-digits}
use my_linux_pbs.Text.Split.{holds, IsFree-holds, IsFree, parse_string, parse_string-joined}
use my_linux_pbs.Station.State.{Station, Money}
use my_linux_pbs.Station.Op.{call, continue}
use my_linux_pbs.Station.Env.{Env}
use my_linux_pbs.Station.Marks.{marks}
use my_linux_pbs.Station.Gate.{Gate, through, ◌then_gate◌, show_led_msg-Gate}
use my_linux_pbs.Station.Exit.{deduction_ok}
use my_linux_pbs.Station.Exit.Closing.{marks-close_exit_operation}
use my_linux_pbs.Station.Fee.Settled.{closed, enable_cashcard-Gate}
use my_linux_pbs.Station.Departure.{set_exit, from_exit, both_lines}
use my_linux_pbs.Station.Departure.Check.{short_text, debited, note_debit, debit_ok}
use my_linux_pbs.Station.Departure.Safe.{set_exit-Gate}
use my_linux_pbs.Station.Departure.Past.{closed-Kept, past}
use my_linux_pbs.Station.Ticket.{set_last_action}
use my_linux_pbs.Station.Reader.Messages.{
  PayRequest, PayResult, state_of, text_of, number_of, time_of, pair_text, has_time, read_pair,
  read_pairs, read_pay_result, pay_result_text, as_int64_throws, pay_result_event,
}
use my_linux_pbs.Station.Reader.{set_insufficient, insufficient, pay_answer, answered, pay_result}

-- What a request says, where its numbers are those of an `int64_t`, its texts hold no comma and the
-- conversions read the numbers: the state is `n`, and `std::stoi` reads the printed payment type and
-- balance.
pub record Says (stoi stoll : Bytes → Option ℤ) (r : PayRequest) (n : ℤ) : Type 0 where
  pub state_whole : as_int64_throws r.state ≡ false
  pub pay_type_whole : as_int64_throws r.pay_type ≡ false
  pub balance_whole : as_int64_throws r.balance ≡ false
  pub pay_time_whole : as_int64_throws r.pay_time ≡ false
  pub state : stoi (state_of r.state) ≡ some n
  pub pay_type : stoi (print (number_of r.pay_type)) ≡ some (number_of r.pay_type)
  pub balance : stoi (print (number_of r.balance)) ≡ some (number_of r.balance)
  pub pay_time : has_time stoi (print (time_of stoll r.pay_time)) ≡ true
  pub state_free : IsFree b',' (state_of r.state)
  pub order_free : IsFree b',' (text_of r.order_id)
  pub card_free : IsFree b',' (text_of r.card_no)
  pub stan_free : IsFree b',' (text_of r.stan)
  pub appr_free : IsFree b',' (text_of r.appr_code)

print-IsFree : (n : ℤ) → IsFree b',' (print n)
print-IsFree n = print-digits b',' n (omega arith)

pair_text-IsFree :
    (k v : Bytes) → holds b',' k ≡ false → IsFree b',' v → IsFree b',' (pair_text k v)
pair_text-IsFree k v h p =
    All-append (λ x. (x == b',') ≡ false) k (b'=' ∷ v) (IsFree-holds b',' k h) (refl, p)

pair_text-full : (k v : Bytes) → is_empty (pair_text k v) ≡ false
pair_text-full [] v = refl
pair_text-full (x ∷ k) v = refl

module _ (stoi stoll : Bytes → Option ℤ) (r : PayRequest) (n : ℤ) (says : Says stoi stoll r n) where
  pairs : List Bytes
  pairs =
      pair_text (codes "orderId") (text_of r.order_id)
      ∷ pair_text (codes "payType") (print (number_of r.pay_type))
      ∷ pair_text (codes "cardNo") (text_of r.card_no)
      ∷ pair_text (codes "bal") (print (number_of r.balance))
      ∷ pair_text (codes "payTime") (print (time_of stoll r.pay_time))
      ∷ pair_text (codes "stan") (text_of r.stan)
      ∷ pair_text (codes "apprCode") (text_of r.appr_code)
      ∷ []

  field :
      (k v : Bytes)
      → holds b',' k ≡ false
      → IsFree b',' v
      → IsFree b',' (pair_text k v) × (is_empty (pair_text k v) ≡ false)
  field k v h p = (pair_text-IsFree k v h p, pair_text-full k v)

  parsed :
      parse_string (pay_result_text stoll r) b','
      ≡ pair_text (codes "state") (state_of r.state) ∷ pairs
  unfolding pay_result_text pairs
  parsed = parse_string-joined (pair_text (codes "state") (state_of r.state)) pairs b',' (
    field (codes "state") _ refl says.state_free,
    (
      field (codes "orderId") _ refl says.order_free,
      (
        field (codes "payType") _ refl (print-IsFree _),
        (
          field (codes "cardNo") _ refl says.card_free,
          (
            field (codes "bal") _ refl (print-IsFree _),
            (
              field (codes "payTime") _ refl (print-IsFree _),
              (
                field (codes "stan") _ refl says.stan_free,
                (field (codes "apprCode") _ refl says.appr_free, tt),
              ),
            ),
          ),
        ),
      ),
    ),
  )

  -- The lane reads what the server has written.
  read_pay_result-text :
      read_pay_result stoi (pay_result_text stoll r)
      ≡ some (record { state = n; pay_type = number_of r.pay_type; card_no = text_of r.card_no })
  unfolding read_pay_result read_pairs read_pair pairs
  read_pay_result-text = rw (parsed, says.state, says.pay_type, says.balance, says.pay_time) refl

debited-Gate :
    (card : Bytes) (paid : Option Money) (ct : ℕ) → Gate true (set_exit (debited card paid ct))
unfolding debited
debited-Gate card paid ct = set_exit-Gate (debited card paid ct) (λ x. refl)

note_debit-Gate : (card : Bytes) (bal : Option Money) → Gate true (note_debit card bal)
unfolding note_debit
note_debit-Gate card bal = record {
  silent = λ s. refl;
  goes = λ s. refl;
  keeps = λ s. ground arith;
}

-- A deduction closes the exit at hand.
marks-debit_ok :
    (env : Env) (card : Bytes) (paid bal : Option Money) (ct : ℕ) (s : Station)
    → marks (debit_ok env card paid bal ct s).sent ≡ closed s
unfolding debit_ok call
marks-debit_ok env card paid bal ct =
    past _ (note_debit-Gate card bal) closed-Kept
      (past _ (debited-Gate card paid ct) closed-Kept (marks-close_exit_operation env deduction_ok))

set_last_action-Gate : (env : Env) → Gate true (set_last_action env)
unfolding set_last_action
set_last_action-Gate env = record {
  silent = λ s. refl;
  goes = λ s. refl;
  keeps = λ s. ground arith;
}

short_text-Gate : Gate true (from_exit (λ x. both_lines (short_text x)))
short_text-Gate = record {
  silent = λ s. (show_led_msg-Gate _ _).silent s;
  goes = λ s. (show_led_msg-Gate _ _).goes s;
  keeps = λ s. (show_led_msg-Gate _ _).keeps s;
}

insufficient-Gate : Gate true insufficient
unfolding insufficient set_insufficient
insufficient-Gate =
    set_exit-Gate set_insufficient (λ x. refl)
    then_gate short_text-Gate
    then_gate enable_cashcard-Gate true

marks-pay_answer :
    (env : Env) (r : PayResult) (s : Station)
    → marks (pay_answer env r s).sent ≡ (if is_pos r.state 0 then closed s else [])
unfolding pay_answer
marks-pay_answer env r s =
    through _ (set_last_action-Gate env) s
    ∙ chosen (is_pos r.state 0) (is_pos r.state 18) t
    ∙ ap (λ ms. if is_pos r.state 0 then ms else [])
        (closed-Kept.same ((set_last_action-Gate env).keeps s))
  where
    t : Station
    t = (set_last_action env s).state

    chosen :
        (b c : Bool) (u : Station)
        → marks
            ((if b
                then debit_ok env r.card_no none none (20 + pos_part r.pay_type)
                else if c
                then insufficient
                else (λ v. continue v []))
              u).sent
          ≡ (if b then closed u else [])
    chosen true c u = marks-debit_ok env r.card_no none none (20 + pos_part r.pay_type) u
    chosen false true u = insufficient-Gate.silent u
    chosen false false u = refl

marks-text :
    (env : Env) (stoi stoll : Bytes → Option ℤ) (r : PayRequest) (n : ℤ) (s : Station)
    → Says stoi stoll r n
    → marks (pay_result env stoi (pay_result_text stoll r) s).sent
      ≡ (if is_pos n 0 then closed s else [])
unfolding pay_result answered
marks-text env stoi stoll r n s says =
    ap (λ o. marks (answered env o s).sent) (read_pay_result-text stoi stoll r n says)
    ∙ marks-pay_answer env
        (record { state = n; pay_type = number_of r.pay_type; card_no = text_of r.card_no }) s

-- A pay result, from the members of the reader's request through the event to the lane: where its
-- numbers are those of an `int64_t`, its texts hold no comma and the conversions read its numbers, an
-- event is sent, on which an exit is closed if the state is 0, which records it and pulses the barrier as
-- far as it can move, and nothing is recorded or pulsed for any other state. A request without a state
-- counts as state 0.
pub marks-pay_result :
    (env : Env) (stoi stoll : Bytes → Option ℤ) (r : PayRequest) (n : ℤ) (s : Station)
    → Says stoi stoll r n
    → Option.map (λ t. marks (pay_result env stoi t s).sent) (pay_result_event stoll r)
      ≡ some (if is_pos n 0 then closed s else [])
unfolding pay_result_event
marks-pay_result env stoi stoll r n s says =
    rw (says.state_whole, says.pay_type_whole, says.balance_whole, says.pay_time_whole)
      (ap some (marks-text env stoi stoll r n s says))
