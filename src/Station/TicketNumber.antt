-- ===== src/Station/TicketNumber.antt =====
-- What `ticketScan` of operation.cpp reads from the text of a ticket.
use my_linux_pbs.Base.{
  ℕ, ◌-◌, Bool, true, false, ◌&&◌, ◌||◌, [], ◌==◌, leb, if◌then◌else◌, map, length, take, drop,
  Bytes, bytes_eq, codes,
}
use my_linux_pbs.Station.TicketAnswer.{Tickets}

-- `std::toupper` of the "C" locale, on each byte: `FnToUpper` of common.cpp.
abbrev pub upper : ℕ → ℕ
upper c = if leb b'a' c && leb c b'z' then c - 32 else c

abbrev pub to_upper : Bytes → Bytes
to_upper = map upper

-- What the text of a ticket says of it.
pub record Scanned : Type 0 where
  pub number : Bytes
  pub is_redemption : Bool
  pub is_refused : Bool
  pub shows_card_in : Bool

-- The letter of the type, on the place 7: V and W are redemptions.
unfoldable pub is_redemption_type : Bytes → Bool
is_redemption_type text =
    bytes_eq (take 1 (drop 7 text)) (codes "V") || bytes_eq (take 1 (drop 7 text)) (codes "W")

unfoldable pub typed : Tickets → Bytes → Scanned
typed t text = record {
  number = text;
  is_redemption = is_redemption_type text;
  is_refused = is_redemption_type text && (t.exit_ticket_redemption == 0);
  shows_card_in = true;
}

unfoldable pub lettered : Bool → Bytes → Scanned
lettered redemption text = record {
  number = text;
  is_redemption = redemption;
  is_refused = false;
  shows_card_in = false;
}

unfoldable pub scanned : Tickets → Bytes → Scanned
unfolding typed lettered
scanned t keyed =
    let letters = to_upper (take 2 keyed) in
    if leb 12 (length keyed)
    then if bytes_eq letters (codes "SC") || bytes_eq letters (codes "SR")
      then lettered (bytes_eq letters (codes "SR")) (to_upper (take 12 keyed))
      else if length keyed == 15
      then typed t (to_upper (take 15 keyed))
      else lettered false []
    else if length keyed == 9
    then typed t (to_upper (take 9 keyed))
    else lettered false []
