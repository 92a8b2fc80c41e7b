-- ===== src/Station/Departure/Charged.antt =====
-- `PBSExit` records an exit before it opens the barrier, and does not open it while there is
-- something to pay.
use my_linux_pbs.Base.{
  ◌==◌, ◌≡◌, refl, ◌∙◌, inl, inr, ◌⊎◌, Bool, true, false, not, [], ◌∷◌, if◌then◌else◌, Bytes,
  bytes_eq, is_empty, Bool-cases, arith, ltb, codes,
}
use my_linux_pbs.Base.Int.{ℤ, pos, negsuc, is_pos, ltb_ℤ}
use my_linux_pbs.Station.State.{Station, Exit}
use my_linux_pbs.Station.Op.{Op, call, ◌then_op◌, behind}
use my_linux_pbs.Station.Env.{Env, exit_black_list}
use my_linux_pbs.Station.Marks.{exit_saved, opened, marks}
use my_linux_pbs.Station.Gate.{
  Gate, call-Gate, go_on-Gate, stop_if-Gate, ◌then_gate◌, show_led_msg-Gate, show-Gate,
  send_to_server-Gate,
}
use my_linux_pbs.Station.Admission.Opening.{turn_away-Gate, check_season-Gate}
use my_linux_pbs.Station.Exit.{free_parking, season_parking, close_exit_operation}
use my_linux_pbs.Station.Fee.{redeem_time_to_amt}
use my_linux_pbs.Station.Fee.Settled.{
  enable_cashcard-Gate, show_fee-Gate, waits-Gate, redeem_time_to_amt-iu_no,
}
use my_linux_pbs.Station.Found.{
  Queries, Rows, failed, rows, take_row, fetched, fetched_local, fetch_entry_info, matched_with,
  best_of, match_entry, note_entry, entry_found,
}
use my_linux_pbs.Station.Departure.{
  is_blocked, set_exit, set_number, find_entry, black_list_exit, block_exit, classed, season_free,
  ends_if, season_exit, is_complimentary, complimented, complimentary_exit, no_entry_message,
  auto_debited, without_entry, charged_fee, show_season_date, season_dates, starts_later,
  ended_since, is_whole_day, season_closed, with_entry_record, fee_known, due, compl_text,
  request_payment, pay_or_close, pay_exit, exit_steps, exit_rest, pbs_exit,
}
use my_linux_pbs.Station.Departure.Safe.{
  Recorded, Safe, Gate-Safe, close-Safe, call-Safe, ◌then_safe◌, Safe-assoc, from_exit-then,
  if-then, Safe-then, if-Safe, ends-Safe, from_exit-Safe, set_exit-Gate,
}

-- Looking for the entry keeps the number of the exit.
fetched-iu_no : (x : Exit) (a b : Rows) → (fetched x a b).0.iu_no ≡ x.iu_no
unfolding fetched fetched_local take_row
fetched-iu_no x (failed r) (failed t) = refl
fetched-iu_no x (failed r) (rows []) = refl
fetched-iu_no x (failed r) (rows (e ∷ es)) = refl
fetched-iu_no x (rows []) b = refl
fetched-iu_no x (rows (e ∷ es)) b = refl

match_entry-iu_no : (q : Queries) (iu : Bytes) (x : Exit) → (match_entry q iu x).iu_no ≡ x.iu_no
unfolding match_entry best_of matched_with
match_entry-iu_no q iu x = ground arith

note_entry-iu_no : (x : Exit) → (note_entry x).iu_no ≡ x.iu_no
unfolding note_entry
note_entry-iu_no x = ground arith

if-iu_no :
    (n : Bytes) (b : Bool) (x y : Exit) → x.iu_no ≡ n → y.iu_no ≡ n → (if b then x else y).iu_no ≡ n
if-iu_no n true x y h k = h
if-iu_no n false x y h k = k

entry_found-iu_no : (q : Queries) (iu : Bytes) (x : Exit) → (entry_found q iu x).iu_no ≡ x.iu_no
unfolding entry_found fetch_entry_info
entry_found-iu_no q iu x =
    let y = (fetched x (q.central iu) (q.local iu)).0 in
    let r = (fetched x (q.central iu) (q.local iu)).1 in
    let found = fetched-iu_no x (q.central iu) (q.local iu) in
    let z = if is_pos r 3 then match_entry q iu y else y in
    if-iu_no x.iu_no _ (note_entry z) x
      (note_entry-iu_no z
        ∙ if-iu_no x.iu_no (is_pos r 3) (match_entry q iu y) y (match_entry-iu_no q iu y ∙ found)
            found)
      refl

find_entry-Gate : (q : Queries) (iu : Bytes) → Gate true (find_entry q iu)
unfolding find_entry
find_entry-Gate q iu = record {
  silent = λ s. refl;
  goes = λ s. refl;
  keeps = λ s. record {
    card_is_in = refl;
    continue_opened = refl;
    saved_trans = refl;
    iu_tk_no = refl;
    entry_ok = refl;
    iu_no = entry_found-iu_no q iu s.exit;
  };
}

pub request_payment-Gate : Gate true request_payment
unfolding request_payment
request_payment-Gate = record { silent = λ s. refl; goes = λ s. refl; keeps = λ s. ground arith }

pub due-iu_no : (env : Env) (x : Exit) → (due env x).iu_no ≡ x.iu_no
unfolding due
due-iu_no env x =
    if-iu_no x.iu_no (ltb 0 x.redeem_time) (redeem_time_to_amt env x) x
      (redeem_time_to_amt-iu_no env x) refl

season_exit-Safe :
    (env : Env) (r : ℤ) (x : Exit) {g : Op} → Safe g → Safe (season_exit env r x then_op g)
unfolding season_exit season_free
season_exit-Safe env r x p =
    ends-Safe _
      (set_exit-Gate (season_free env r) kept then_safe call-Safe (close-Safe env season_parking)) p
  where
    kept : (x : Exit) → (season_free env r x).iu_no ≡ x.iu_no
    kept x = refl

complimentary_exit-Safe : (env : Env) (text : Bytes) → Safe (complimentary_exit env text)
unfolding complimentary_exit complimented
complimentary_exit-Safe env text =
    set_exit-Gate complimented (λ x. refl)
    then_safe show_led_msg-Gate text text
    then_safe Safe-then (call-Safe (close-Safe env free_parking)) (enable_cashcard-Gate false)

pay_or_close-Safe : (env : Env) (x : Exit) → Safe (pay_or_close env x)
unfolding pay_or_close
pay_or_close-Safe env x = if-Safe (is_complimentary x) (complimentary_exit-Safe env compl_text) (
    if-Safe (ltb_ℤ (pos 0) x.paid_amt) (Gate-Safe request_payment-Gate)
      (call-Safe (close-Safe env free_parking)))

pay_exit-Safe : (env : Env) → Safe (pay_exit env)
unfolding pay_exit
pay_exit-Safe env =
    set_exit-Gate (due env) (due-iu_no env)
    then_safe call-Gate (show_fee-Gate env)
    then_safe from_exit-Safe (pay_or_close-Safe env)

without_entry-Safe :
    (env : Env) (q : Queries) (iu : Bytes) (x : Exit) (g : Op)
    → Safe g
    → Safe (without_entry env q iu x then_op g)
unfolding without_entry auto_debited no_entry_message
without_entry-Safe env q iu x g p =
    let compl =
      ends_if (is_complimentary x)
        (complimentary_exit env (codes "No Entry Record^Compl Ticket")) in
    let refused = ends_if (not (ltb_ℤ (pos 0) q.auto_debit)) (no_entry_message iu) in
    let debited = set_exit (auto_debited env q) in
    Safe-assoc compl (refused then_op debited) g (
      ends-Safe (is_complimentary x)
        (complimentary_exit-Safe env (codes "No Entry Record^Compl Ticket"))
        (Safe-assoc refused debited g (
          ends-Safe (not (ltb_ℤ (pos 0) q.auto_debit))
            (Gate-Safe (send_to_server-Gate (codes "07") iu then_gate show_led_msg-Gate _ _))
            (set_exit-Gate (auto_debited env q) (λ x. refl) then_safe p))))

show_season_date-Gate : (b : Bool) (text : Bytes) → Gate true (show_season_date b text)
unfolding show_season_date
show_season_date-Gate true text = show_led_msg-Gate text text then_gate waits-Gate 500
show_season_date-Gate false text = go_on-Gate

season_dates-Gate : (env : Env) (r : ℤ) (x : Exit) → Gate true (season_dates env r x)
unfolding season_dates
season_dates-Gate env r x =
    show_season_date-Gate (starts_later env r x) _
    then_gate show_season_date-Gate (ended_since env r x) _

with_entry_record-Safe :
    (env : Env) (r : ℤ) (x : Exit) (g : Op) → Safe g → Safe (with_entry_record env r x then_op g)
unfolding with_entry_record charged_fee season_closed
with_entry_record-Safe env r x g p =
    let charged = set_exit (charged_fee env r) in
    let shown = season_dates env r x in
    let closed =
      ends_if (is_whole_day env r x)
        (set_exit (season_closed r) then_op call (close_exit_operation env season_parking)) in
    Safe-assoc charged (shown then_op closed) g (
      set_exit-Gate (charged_fee env r) (λ x. refl)
      then_safe Safe-assoc shown closed g (
          season_dates-Gate env r x
          then_safe ends-Safe (is_whole_day env r x)
              (set_exit-Gate (season_closed r) (λ x. refl)
                then_safe call-Safe (close-Safe env season_parking))
              p))

fee_known-Safe :
    (env : Env) (q : Queries) (iu : Bytes) (r : ℤ) (x : Exit) (g : Op)
    → Safe g
    → Safe (fee_known env q iu r x then_op g)
unfolding fee_known
fee_known-Safe env q iu r x g p =
    if-then (is_pos x.no_entry_record 1) (without_entry env q iu x) (with_entry_record env r x) g
      (without_entry-Safe env q iu x g p) (with_entry_record-Safe env r x g p)

black_list_exit-Safe :
    (env : Env) (iu : Bytes) (r : ℤ) (g : Op) → Safe g → Safe (black_list_exit env iu r then_op g)
unfolding black_list_exit
black_list_exit-Safe env iu (negsuc n) g p = go_on-Gate then_safe p
black_list_exit-Safe env iu (pos n) g p =
    (call-Gate (show-Gate env exit_black_list)
      then_gate send_to_server-Gate _ _
      then_gate stop_if-Gate (n == 0))
    then_safe p

-- Behind the number, every step of `PBSExit` keeps it.
exit_rest-Safe : (env : Env) (q : Queries) (iu : Bytes) → Safe (exit_rest env q iu)
unfolding exit_rest block_exit classed
exit_rest-Safe env q iu =
    let r = env.is_valid_season iu 2 in
    black_list_exit-Safe env iu (env.is_black_list iu) _ (
      turn_away-Gate (is_blocked env iu) (show_led_msg-Gate _ _ then_gate send_to_server-Gate _ _)
      then_safe find_entry-Gate q iu
      then_safe set_exit-Gate (classed env) (λ x. refl)
      then_safe check_season-Gate env r
      then_safe from_exit-then (season_exit env r) _ (λ x. season_exit-Safe env r x (
          from_exit-then (fee_known env q iu r) (pay_exit env)
            (λ y. fee_known-Safe env q iu r y (pay_exit env) (pay_exit-Safe env)))))

-- The steps with the number `iu` sent the marks of the rest at the exit with that number.
exit_steps-Recorded :
    (env : Env) (q : Queries) (iu : Bytes) (s : Station)
    → is_empty iu ≡ false
    → Recorded iu (marks (call (exit_steps env q iu) s).sent)
unfolding call exit_steps set_number ◌then_op◌ behind
exit_steps-Recorded env q iu s h = (exit_rest-Safe env q iu).records (set_number iu s).state h

-- For every station state, database and number that is not empty, `PBSExit` sends no exit record
-- and no pulse, or one exit record of that number, or that one record and then one pulse of the
-- barrier.
pub marks-pbs_exit :
    (env : Env) (q : Queries) (iu : Bytes) (s : Station)
    → is_empty iu ≡ false
    → (marks (pbs_exit env q iu s).sent ≡ [])
      ⊎ (marks (pbs_exit env q iu s).sent ≡ exit_saved iu ∷ [])
      ⊎ (marks (pbs_exit env q iu s).sent ≡ exit_saved iu ∷ opened ∷ [])
unfolding pbs_exit
marks-pbs_exit env q iu s h = ends (Bool-cases (bytes_eq iu s.exit.iu_no))
  where
    ends :
        (bytes_eq iu s.exit.iu_no ≡ true) ⊎ (bytes_eq iu s.exit.iu_no ≡ false)
        → Recorded iu (marks (pbs_exit env q iu s).sent)
    ends (inl b) = rw b (inl refl)
    ends (inr b) = rw b (exit_steps-Recorded env q iu s h)
