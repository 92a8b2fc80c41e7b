-- ===== src/Station/Reader/Messages.antt =====
-- The texts that pass from the reader's server to the lane: `serverHandleRequestCb` of
-- touchngo_reader.cpp builds them, and `processTnGResponse` of operation.cpp takes them apart. The
-- request is JSON that another library parses, so its members are given.
use my_linux_pbs.Base.{
  ◌%◌, ℕ, ◌-◌, ◌%◌, ◌^◌, ℕ, ◌&&◌, ◌||◌, Bool, true, false, Option, none, some, List, [], ◌∷◌, ◌++◌,
  ltb, if◌then◌else◌, length, take, drop, Bytes, bytes_eq, codes,
}
use my_linux_pbs.Base.Int.{ℤ, pos, negsuc}
use my_linux_pbs.Text.Decimal.{print}
use my_linux_pbs.Text.Split.{joined, bitten, left_over, parse_string}

-- A member of the request: not there, a text, a whole number of an `int64_t`, any other number, or
-- another value.
pub data Member : Type 0 where
  missing : Member
  text : Bytes → Member
  number : ℤ → Member
  other_number : Member
  other : Member

-- `c_str()` ends at a byte 0.
abbrev pub c_str : Bytes → Bytes
c_str b = bitten b 0

abbrev pub state_of : Member → Bytes
state_of (text b) = c_str b
state_of (number n) = print n
state_of missing = codes "0"
state_of other_number = codes "0"
state_of other = codes "0"

abbrev pub text_of : Member → Bytes
text_of (text b) = c_str b
text_of _ = []

-- The 32 bits of an `int`, and the number that they stand for.
abbrev int_bits : ℤ → ℕ
int_bits (pos n) = n % 2 ^ 32
int_bits (negsuc n) = 2 ^ 32 - 1 - n % 2 ^ 32

unfoldable pub as_int : ℤ → ℤ
as_int n = let w = int_bits n in if ltb w (2 ^ 31) then pos w else negsuc (2 ^ 32 - 1 - w)

-- `static_cast<int>` of an `int64_t`.
abbrev pub number_of : Member → ℤ
number_of (number n) = as_int n
number_of _ = pos 0

-- A text is read by `std::stoll`, where that throws as 0.
abbrev pub time_of : (Bytes → Option ℤ) → Member → ℤ
time_of stoll (number n) = n
time_of stoll (text b) = elim (stoll (c_str b)) [ none ↦ pos 0 | some n ↦ n ]
time_of stoll _ = pos 0

-- The members of a `/w4g/PayResult`.
pub record PayRequest : Type 0 where
  pub state : Member
  pub order_id : Member
  pub pay_type : Member
  pub card_no : Member
  pub balance : Member
  pub pay_time : Member
  pub stan : Member
  pub appr_code : Member

abbrev pub pair_text : Bytes → Bytes → Bytes
pair_text k v = k ++ (b'=' ∷ v)

unfoldable pub pay_result_text : (Bytes → Option ℤ) → PayRequest → Bytes
pay_result_text stoll r =
    joined (pair_text (codes "state") (state_of r.state))
      (pair_text (codes "orderId") (text_of r.order_id)
        ∷ pair_text (codes "payType") (print (number_of r.pay_type))
        ∷ pair_text (codes "cardNo") (text_of r.card_no)
        ∷ pair_text (codes "bal") (print (number_of r.balance))
        ∷ pair_text (codes "payTime") (print (time_of stoll r.pay_time))
        ∷ pair_text (codes "stan") (text_of r.stan)
        ∷ pair_text (codes "apprCode") (text_of r.appr_code)
        ∷ [])
      b','

-- `is_number()` holds of any number, and `as_int64()` throws where it is no `int64_t`.
abbrev pub as_int64_throws : Member → Bool
as_int64_throws other_number = true
as_int64_throws _ = false

-- The text of the event; a request that throws sends none.
unfoldable pub pay_result_event : (Bytes → Option ℤ) → PayRequest → Option Bytes
unfolding pay_result_text
pay_result_event stoll r =
    if as_int64_throws r.state
      || as_int64_throws r.pay_type
      || as_int64_throws r.balance
      || as_int64_throws r.pay_time
    then none
    else some (pay_result_text stoll r)

unfoldable pub card_no_text : Bytes → Bytes → Bytes
card_no_text card order =
    joined (pair_text (codes "cardNo") card) (pair_text (codes "orderId") order ∷ []) b','

-- What the lane keeps of a pay result; the other fields are only logged.
pub record PayResult : Type 0 where
  pub state : ℤ
  pub pay_type : ℤ
  pub card_no : Bytes

abbrev pub no_result : PayResult
no_result = record { state = pos 0; pay_type = pos 0; card_no = [] }

-- `FnConvertDateTimeToUnix` throws where one of its six pieces has no number.
abbrev pub is_number : (Bytes → Option ℤ) → Bytes → Bool
is_number stoi b = elim (stoi b) [ none ↦ false | some n ↦ true ]

unfoldable pub has_time : (Bytes → Option ℤ) → Bytes → Bool
has_time stoi v =
    if ltb (length v) 14
    then true
    else is_number stoi (take 4 v)
      && (is_number stoi (take 2 (drop 4 v))
          && (is_number stoi (take 2 (drop 6 v))
              && (is_number stoi (take 2 (drop 8 v))
                  && (is_number stoi (take 2 (drop 10 v)) && is_number stoi (take 2 (drop 12 v))))))

infixl 5 ◌>>=◌
abbrev pub ◌>>=◌ : {A B : Type 0} → Option A → (A → Option B) → Option B
none >>= f = none
some a >>= f = f a

-- One turn of the loop; it has no result where a conversion throws.
unfoldable pub read_pair : (Bytes → Option ℤ) → PayResult → Bytes → Option PayResult
unfolding has_time
read_pair stoi r pair =
    let param = bitten pair b'=' in
    let value = left_over pair b'=' in
    if bytes_eq param (codes "state")
    then stoi value >>= (λ n. some (record r { state = n }))
    else if bytes_eq param (codes "payType")
    then stoi value >>= (λ n. some (record r { pay_type = n }))
    else if bytes_eq param (codes "cardNo")
    then some (record r { card_no = value })
    else if bytes_eq param (codes "bal")
    then stoi value >>= (λ n. some r)
    else if bytes_eq param (codes "payTime")
    then if has_time stoi value then some r else none
    else some r

unfoldable pub read_pairs : (Bytes → Option ℤ) → PayResult → List Bytes → Option PayResult
read_pairs stoi r [] = some r
read_pairs stoi r (p ∷ ps) = read_pair stoi r p >>= (λ r'. read_pairs stoi r' ps)

unfoldable pub read_pay_result : (Bytes → Option ℤ) → Bytes → Option PayResult
unfolding read_pairs read_pair
read_pay_result stoi b = read_pairs stoi no_result (parse_string b b',')

unfoldable pub read_card : Bytes → List Bytes → Bytes
read_card c [] = c
read_card c (p ∷ ps) =
    read_card (if bytes_eq (bitten p b'=') (codes "cardNo") then left_over p b'=' else c) ps

unfoldable pub read_card_no : Bytes → Bytes
unfolding read_card
read_card_no b = read_card [] (parse_string b b',')
