-- ===== src/Station/Camera.antt =====
-- What a camera sends and the event that comes of it: `processData`, `extractLPRData`,
-- `serializeEventData` and `deserializeEventData` of lpr.cpp. `boost::algorithm::split` at `#` and
-- `std::stoi` are parameters.
pub mod Plates
use my_linux_pbs.Base.{
  ℕ, Bool, true, false, not, ◌&&◌, ◌||◌, Option, none, some, List, [], ◌∷◌, ◌++◌, ◌==◌, ltb,
  if◌then◌else◌, length, get_or, Bytes, bytes_eq, codes,
}
use my_linux_pbs.Base.Int.{ℤ, pos}
use my_linux_pbs.Text.Decimal.{print}
use my_linux_pbs.Text.Split.{holds, bitten, left_over}

-- `LPREventData`; the camera is 0 in front and 1 behind.
pub record Plate : Type 0 where
  pub camera : ℤ
  pub lpn : Bytes
  pub trans_id : Bytes
  pub image_path : Bytes

unfoldable pub serialize_event_data : Plate → Bytes
serialize_event_data p =
    print p.camera ++ (b',' ∷ (p.lpn ++ (b',' ∷ (p.trans_id ++ (b',' ∷ p.image_path)))))

-- A stream, which is at its end behind a line that no comma ends, and the token read last.
pub record Lines : Type 0 where
  pub rest : Option Bytes
  pub token : Bytes

-- `std::getline` at a comma: at the end of the stream the token stays as it is.
unfoldable pub line_of : Bytes → Lines
line_of xs = record {
  rest = if holds b',' xs then some (left_over xs b',') else none;
  token = bitten xs b',';
}

unfoldable pub get_line : Lines → Lines
unfolding line_of
get_line l = elim (l.rest) [ none ↦ l | some xs ↦ line_of xs ]

abbrev pub no_plate_data : Plate
no_plate_data = record { camera = pos 0; lpn = []; trans_id = []; image_path = [] }

-- The four tokens as a plate; a camera that is no number leaves an empty one.
unfoldable pub plate_of : (Bytes → Option ℤ) → Bytes → Bytes → Bytes → Bytes → Plate
plate_of stoi camera lpn id image = elim (stoi camera) [
  | none ↦ no_plate_data
  | some n ↦ record { camera = n; lpn = lpn; trans_id = id; image_path = image }
]

unfoldable pub deserialize_event_data : (Bytes → Option ℤ) → Bytes → Plate
unfolding get_line plate_of
deserialize_event_data stoi text =
    let l1 = get_line (record { rest = some text; token = [] }) in
    let l2 = get_line l1 in
    let l3 = get_line l2 in
    let l4 = get_line l3 in plate_of stoi l1.token l2.token l3.token l4.token

-- `extractSTX` asks for the three bytes before the first `#`; on place 1 or 2 the position wraps
-- round, and `substr` throws.
unfoldable pub extract_stx_throws : Bytes → Bool
extract_stx_throws text =
    holds b'#' text && ((length (bitten text b'#') == 1) || (length (bitten text b'#') == 2))

module _ (split : Bytes → List Bytes) where
  abbrev pub nth : ℕ → Bytes → Bytes
  nth i text = get_or (split text) i []

  -- The plate in a text of 7 or 8 fields, or of 12 with the marks of a cascade.
  unfoldable pub extract_lpr_data : Bytes → ℤ → Option Plate
  extract_lpr_data text camera =
      let n = length (split text) in
      if (n == 7) || (n == 8)
      then some (record {
        camera = camera;
        lpn = nth 3 text;
        trans_id = nth 2 text;
        image_path = nth 4 text;
      })
      else if (n == 12)
          && (bytes_eq (nth 7 text) (codes "LPRS_STX") && bytes_eq (nth 11 text) (codes "LPRS_ETX"))
      then some (record {
        camera = camera;
        lpn = nth 9 text;
        trans_id = nth 8 text;
        image_path = nth 10 text;
      })
      else none

  unfoldable pub is_framed : Bytes → Bool
  is_framed text =
      let n = length (split text) in
      (n == 7)
        && (bytes_eq (nth 1 text) (codes "LPRS_STX") && bytes_eq (nth 5 text) (codes "LPRS_ETX"))
      || (n == 8)
        && (bytes_eq (nth 1 text) (codes "LPRS_STX") && bytes_eq (nth 6 text) (codes "LPRS_ETX"))

  -- The text of the event that is raised, if any.
  unfoldable pub process_data : Bytes → ℤ → Option Bytes
  unfolding extract_lpr_data extract_stx_throws is_framed
  process_data text camera =
      if ltb 25 (length text) && (not (extract_stx_throws text) && is_framed text)
      then elim (extract_lpr_data text camera) [
        | none ↦ none
        | some p ↦ some (serialize_event_data p)
      ]
      else none
