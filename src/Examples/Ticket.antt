-- ===== src/Examples/Ticket.antt =====
-- Tickets and payments at the exit on concrete inputs.
use mathlib.Core.Option
use my_linux_pbs.Base.{
  ◌≡◌, refl, ◌⊎◌, true, Option, none, some, [], ◌∷◌, if◌then◌else◌, Bytes, bytes_eq, codes,
}
use my_linux_pbs.Base.Int.{ℤ, pos, negsuc, is_pos, ltb_ℤ, leb_ℤ}
use my_linux_pbs.Text.Split.{IsFree-holds}
use my_linux_pbs.Text.Decimal.{to_string}
use my_linux_pbs.Station.Env.{exit_station}
use my_linux_pbs.Station.Marks.{exit_saved, opened, marks}
use my_linux_pbs.Station.Barrier.Opens.{can_move}
use my_linux_pbs.Station.Fee.Settled.{closed}
use my_linux_pbs.Station.TicketAnswer.{Tickets, rows, is_valid_bar_code_ticket}
use my_linux_pbs.Station.TicketNumber.{scanned}
use my_linux_pbs.Station.Ticket.{unpaid, ticket_scan}
use my_linux_pbs.Station.Ticket.LetsOut.{marks-ticket_scan}
use my_linux_pbs.Station.Reader.{pay_result}
use my_linux_pbs.Station.Reader.Messages.{
  PayRequest, missing, text, number, pay_result_event, as_int, has_time,
}
use my_linux_pbs.Station.Reader.Answers.{Says, marks-pay_result}
use my_linux_pbs.Examples.Samples.{setup, at_rest, leaving}
use my_linux_pbs.Station.State.{Station}

-- A complimentary ticket that is valid between the seconds 0 and 2000, at the second 1000.
abbrev pub one_ticket : Tickets
one_ticket = record {
  exit_ticket_redemption = 1;
  need_card_4_complimentary = 0;
  redemptions = λ n. rows [];
  complimentaries = λ n. rows (
      record {
        valid_from = codes "from";
        valid_to = codes "to";
        used_at = [];
        redeem_amt = [];
        redeem_time = [];
      }
      ∷ []);
  clock = pos 1000;
  parsed = λ d. if bytes_eq d (codes "to") then some (pos 2000) else some (pos 0);
  stod = λ d. none;
  stoi = λ d. none;
}

-- A car that has redeemed nothing yet.
abbrev not_redeemed : Station
not_redeemed = record (at_rest (codes "WXY1234")) {
  exit = record (leaving (codes "WXY1234")) { redeem_amt = pos 0; fee = pos 250 };
}

marks-ticket_scan_example :
    (marks
        (ticket_scan
          (setup exit_station (negsuc 0) 0)
          one_ticket
          (codes "SC1234567890")
          not_redeemed).sent
      ≡ [])
    ⊎ ((((ltb_ℤ (pos 0) not_redeemed.exit.redeem_amt ≡ true)
            × (leb_ℤ (unpaid not_redeemed.exit) (pos 0) ≡ true))
          ⊎ (is_pos
                (is_valid_bar_code_ticket one_ticket
                  (scanned one_ticket (codes "SC1234567890")).is_redemption
                  (codes "SC1234567890")).code
                1
              ≡ true))
        × (marks
              (ticket_scan
                (setup exit_station (negsuc 0) 0)
                one_ticket
                (codes "SC1234567890")
                not_redeemed).sent
            ≡ closed not_redeemed))
marks-ticket_scan_example =
    marks-ticket_scan (setup exit_station (negsuc 0) 0) one_ticket (codes "SC1234567890")
      not_redeemed refl

-- A conversion that reads the numbers of the request below.
abbrev small : Bytes → Option ℤ
small b = if bytes_eq b (codes "2") then some (pos 2) else some (pos 0)

-- A pay result that has no state.
abbrev no_state : PayRequest
no_state = record {
  state = missing;
  order_id = text (codes "A1");
  pay_type = number (pos 2);
  card_no = text (codes "6014640000000000");
  balance = number (pos 0);
  pay_time = missing;
  stan = missing;
  appr_code = missing;
}

no_state-Says : Says small small no_state (pos 0)
unfolding has_time to_string as_int
no_state-Says = record {
  state_whole = refl;
  pay_type_whole = refl;
  balance_whole = refl;
  pay_time_whole = refl;
  state = refl;
  pay_type = refl;
  balance = refl;
  pay_time = refl;
  state_free = IsFree-holds b',' (codes "0") refl;
  order_free = IsFree-holds b',' (codes "A1") refl;
  card_free = IsFree-holds b',' (codes "6014640000000000") refl;
  stan_free = tt;
  appr_free = tt;
}

marks-pay_result_example :
    Option.map
      (λ t.
        marks
          (pay_result (setup exit_station (negsuc 0) 0) small t (at_rest (codes "WXY1234"))).sent)
      (pay_result_event small no_state)
    ≡ some (exit_saved (codes "WXY1234") ∷ opened ∷ [])
unfolding can_move
marks-pay_result_example =
    marks-pay_result (setup exit_station (negsuc 0) 0) small small no_state (pos 0)
      (at_rest (codes "WXY1234")) no_state-Says
