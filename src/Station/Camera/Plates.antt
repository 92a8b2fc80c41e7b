-- ===== src/Station/Camera/Plates.antt =====
-- A plate on its way from the camera to the lane.
use my_linux_pbs.Base.{
  ◌≡◌, refl, ap, ◌∙◌, true, false, Option, none, some, List, [], ◌∷◌, ◌++◌, ltb, length, Bytes,
  codes, All, arith,
}
use my_linux_pbs.Base.Int.{ℤ}
use mathlib.Core.Option
use my_linux_pbs.Text.Decimal.{print, print-digits}
use my_linux_pbs.Text.Split.{
  holds-separated, holds-free, IsFree-holds, IsFree, joined, bitten-free, left_over-free,
  bitten-all,
}
use my_linux_pbs.Station.Camera.{
  Plate, serialize_event_data, plate_of, line_of, get_line, deserialize_event_data,
  extract_lpr_data, extract_stx_throws, is_framed, process_data,
}

line_of-separated :
    (p rest : Bytes)
    → IsFree b',' p
    → line_of (p ++ (b',' ∷ rest)) ≡ record { rest = some rest; token = p }
unfolding line_of
line_of-separated p rest h =
    rw (holds-separated p rest b',', left_over-free p rest b',' h, bitten-free p rest b',' h) refl

line_of-last : (p : Bytes) → IsFree b',' p → line_of p ≡ record { rest = none; token = p }
unfolding line_of
line_of-last p h = rw (holds-free p b',' h, bitten-all p b',' h) refl

abbrev IsPlain : Plate → Type 0
IsPlain p = IsFree b',' p.lpn × IsFree b',' p.trans_id × IsFree b',' p.image_path

plate_of-read :
    (stoi : Bytes → Option ℤ) (p : Plate)
    → stoi (print p.camera) ≡ some p.camera
    → plate_of stoi (print p.camera) p.lpn p.trans_id p.image_path ≡ p
unfolding plate_of
plate_of-read stoi p e = rw (e, plate_of) refl

deserialize-serialize :
    (stoi : Bytes → Option ℤ) (p : Plate)
    → stoi (print p.camera) ≡ some p.camera
    → IsPlain p
    → deserialize_event_data stoi (serialize_event_data p) ≡ p
unfolding deserialize_event_data serialize_event_data get_line
deserialize-serialize stoi p e (h, i, j) =
    let c = print p.camera in
    ap
      (λ l.
        plate_of stoi l.token (get_line l).token (get_line (get_line l)).token
          (get_line (get_line (get_line l))).token)
      (line_of-separated c (p.lpn ++ (b',' ∷ (p.trans_id ++ (b',' ∷ p.image_path))))
        (print-digits b',' p.camera (omega arith)))
    ∙ ap (λ l. plate_of stoi c l.token (get_line l).token (get_line (get_line l)).token)
        (line_of-separated p.lpn (p.trans_id ++ (b',' ∷ p.image_path)) h)
    ∙ ap (λ l. plate_of stoi c p.lpn l.token (get_line l).token)
        (line_of-separated p.trans_id p.image_path i)
    ∙ ap (λ l. plate_of stoi c p.lpn p.trans_id l.token) (line_of-last p.image_path j)
    ∙ plate_of-read stoi p e

-- What a camera sends for a plate.
unfoldable pub camera_text : Plate → Bytes
camera_text p =
    joined [] (codes "LPRS_STX" ∷ p.trans_id ∷ p.lpn ∷ p.image_path ∷ codes "LPRS_ETX" ∷ [] ∷ [])
      b'#'

-- What `boost::algorithm::split` with `is_any_of` documents: the pieces between the separators.
abbrev pub Splits : (Bytes → List Bytes) → Type 0
Splits split =
    (p : Bytes) (ps : List Bytes) → All (IsFree b'#') (p ∷ ps) → split (joined p ps b'#') ≡ p ∷ ps

abbrev pub IsWhole : Plate → Type 0
IsWhole p = IsFree b'#' p.lpn × IsFree b'#' p.trans_id × IsFree b'#' p.image_path

split-camera_text :
    (split : Bytes → List Bytes) (p : Plate)
    → Splits split
    → IsWhole p
    → split (camera_text p)
      ≡ [] ∷ codes "LPRS_STX" ∷ p.trans_id ∷ p.lpn ∷ p.image_path ∷ codes "LPRS_ETX" ∷ [] ∷ []
unfolding camera_text
split-camera_text split p s (h, i, j) = s _ _ (tt, (free, (i, (h, (j, (free', (tt, tt)))))))
  where
    free : IsFree b'#' (codes "LPRS_STX")
    free = IsFree-holds b'#' (codes "LPRS_STX") refl

    free' : IsFree b'#' (codes "LPRS_ETX")
    free' = IsFree-holds b'#' (codes "LPRS_ETX") refl

starts_with_mark : (p : Plate) → extract_stx_throws (camera_text p) ≡ false
unfolding extract_stx_throws camera_text
starts_with_mark p = refl

-- A camera that sends a plate, a transaction and an image without `#` and commas, in a frame of more
-- than 25 bytes, raises one event, and the event thread reads from it the plate, the transaction, the
-- image and the camera.
pub deserialize-process_data :
    (split : Bytes → List Bytes) (stoi : Bytes → Option ℤ) (p : Plate)
    → Splits split
    → stoi (print p.camera) ≡ some p.camera
    → IsFree b',' p.lpn × IsFree b',' p.trans_id × IsFree b',' p.image_path
    → IsFree b'#' p.lpn × IsFree b'#' p.trans_id × IsFree b'#' p.image_path
    → ltb 25 (length (camera_text p)) ≡ true
    → Option.map (deserialize_event_data stoi) (process_data split (camera_text p) p.camera)
      ≡ some p
unfolding process_data extract_lpr_data is_framed
deserialize-process_data split stoi p s e plain whole long =
    rw (starts_with_mark p, long)
      (rw (split-camera_text split p s whole) (ap some (deserialize-serialize stoi p e plain)))
