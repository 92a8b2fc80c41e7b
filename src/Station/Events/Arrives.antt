-- ===== src/Station/Events/Arrives.antt =====
-- A vehicle from the loop and the camera through the event handlers to the barrier of the entry.
use my_linux_pbs.Base.{
  ◌≡◌, refl, ap, sym, ◌∙◌, true, false, not, some, List, [], ◌∷◌, ◌++◌, ◌==◌, ltb, if◌then◌else◌,
  length, Bytes, bytes_eq, codes, is_empty, append-nil,
}
use mathlib.Core.Option
use my_linux_pbs.Base.Int.{pos}
use my_linux_pbs.Text.Decimal.{print}
use my_linux_pbs.Text.Split.{IsFree}
use my_linux_pbs.Station.Op.{Op}
use my_linux_pbs.Station.Env.{entry_station}
use my_linux_pbs.Station.Marks.{entry_saved, opened, marks, marks-append}
use my_linux_pbs.Station.Admission.Admitted.{admits}
use my_linux_pbs.Station.Lane.{use_front_camera, new_trans_id, loop_a_come, received_lpr}
use my_linux_pbs.Station.Lane.Arrival.{let_in_by}
use my_linux_pbs.Station.Lane.Plate.{marks-received_lpr}
use my_linux_pbs.Station.Manual.Released.{loop_a_come-IsSilent}
use my_linux_pbs.Station.Reader.{exit_check}
use my_linux_pbs.Station.Camera.{Plate, process_data, deserialize_event_data}
use my_linux_pbs.Station.Camera.Plates.{Splits, camera_text, deserialize-process_data}
use my_linux_pbs.Station.Events.{
  Event, World, Inputs, int_data, text_data, run, set_present, plate_received, fn_handle_events,
}

-- LOOP_A_ON_EVENT, as dio.cpp posts it, and the event of a plate, as lpr.cpp posts it.
abbrev pub loop_event : Event
loop_event = record { name = codes "Evt_handleDIOEvent"; payload = int_data (pos 0) }

abbrev pub plate_event : Bytes → Event
plate_event t = record { name = codes "Evt_handleLPRReceive"; payload = text_data t }

loop_event-handled :
    (i : Inputs) (w : World)
    → fn_handle_events i loop_event w ≡ run (loop_a_come i.env i.polls) (run (set_present true) w)
unfolding fn_handle_events
loop_event-handled i w = refl

plate_event-handled :
    (i : Inputs) (t : Bytes) (w : World)
    → fn_handle_events i (plate_event t) w
      ≡ run (plate_received i (deserialize_event_data i.stoi t)) w
unfolding fn_handle_events
plate_event-handled i t w = refl

marks-run : (f : Op) (w : World) → marks (run f w).sent ≡ marks w.sent ++ marks (f w.station).sent
unfolding run
marks-run f w = marks-append w.sent (f w.station).sent

run_silent :
    (f : Op) (w : World) → marks (f w.station).sent ≡ [] → marks (run f w).sent ≡ marks w.sent
run_silent f w h = marks-run f w ∙ ap (λ m. marks w.sent ++ m) h ∙ append-nil (marks w.sent)

-- The world behind the event of the loop.
on_loop : Inputs → World → World
on_loop i w = run (loop_a_come i.env i.polls) (run (set_present true) w)

marks-on_loop : (i : Inputs) (w : World) → marks (on_loop i w).sent ≡ marks w.sent
unfolding on_loop set_present
marks-on_loop i w =
    run_silent (loop_a_come i.env i.polls) (run (set_present true) w)
      ((loop_a_come-IsSilent i.env i.polls).silent (run (set_present true) w).station)
    ∙ run_silent (set_present true) w refl

some-injective : {A : Type 0} {x y : A} → some x ≡ some y → x ≡ y
some-injective h = cc

-- At an entry station a vehicle comes onto loop A, and the front or rear camera answers for the
-- transaction of that arrival with a plate, its texts without `#` and commas and in a frame of more than
-- 25 bytes. Through the posted events and their handlers: if the lane admits the plate, what was
-- recorded and pulsed before is followed by the record of the plate and then one pulse of the barrier,
-- unless that is open for good; if not, by nothing.
pub marks-fn_handle_events :
    (at_loop later : Inputs) (split : Bytes → List Bytes) (p : Plate) (text : Bytes) (w : World)
    → at_loop.env.station_type ≡ entry_station
    → later.env.station_type ≡ entry_station
    → Splits split
    → later.stoi (print p.camera) ≡ some p.camera
    → IsFree b',' p.lpn × IsFree b',' p.trans_id × IsFree b',' p.image_path
    → IsFree b'#' p.lpn × IsFree b'#' p.trans_id × IsFree b'#' p.image_path
    → ltb 25 (length (camera_text p)) ≡ true
    → process_data split (camera_text p) p.camera ≡ some text
    → p.trans_id ≡ new_trans_id at_loop.env (use_front_camera at_loop.polls)
    → is_empty p.lpn ≡ false
    → bytes_eq p.lpn (codes "0000000000") ≡ false
    → marks (fn_handle_events later (plate_event text) (fn_handle_events at_loop loop_event w)).sent
      ≡ marks w.sent
        ++ (if admits later.env p.lpn
            then entry_saved p.lpn
              ∷ (if not (w.station.process.continue_opened == 1) then opened ∷ [] else [])
            else [])
unfolding on_loop plate_received run set_present
marks-fn_handle_events at_loop later split p text w g h s e plain whole long sent id full read =
    ap (λ v. marks (fn_handle_events later (plate_event text) v).sent)
      (loop_event-handled at_loop w)
    ∙ ap (λ (v : World). marks v.sent) (plate_event-handled later text (on_loop at_loop w))
    ∙ ap (λ q. marks (run (plate_received later q) (on_loop at_loop w)).sent) same
    ∙ marks-run (plate_received later p) (on_loop at_loop w)
    ∙ ap (λ m. m ++ marks (plate_received later p (on_loop at_loop w).station).sent)
        (marks-on_loop at_loop w)
    ∙ ap (λ m. marks w.sent ++ m) arrived
  where
    same : deserialize_event_data later.stoi text ≡ p
    same = some-injective (
        sym (ap (Option.map (deserialize_event_data later.stoi)) sent)
        ∙ deserialize-process_data split later.stoi p s e plain whole long)

    arrived :
        marks (plate_received later p (on_loop at_loop w).station).sent
        ≡ let_in_by later.env p.lpn (not (w.station.process.continue_opened == 1))
    arrived =
        ap
          (λ t.
            marks
              (received_lpr (exit_check later.queries) later.env p.lpn t
                (on_loop at_loop w).station).sent)
          id
        ∙ marks-received_lpr (exit_check later.queries) at_loop.env later.env at_loop.polls p.lpn
            (run (set_present true) w).station g h refl full read
