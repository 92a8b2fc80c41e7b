-- ===== src/Examples/Events.antt =====
-- The camera and the event queue on concrete inputs.
use mathlib.Core.Option
use my_linux_pbs.Base.{
  ℕ, ◌≡◌, refl, ap, ◌∙◌, Option, some, List, [], ◌∷◌, ◌++◌, ◌==◌, if◌then◌else◌, Bytes, codes,
}
use my_linux_pbs.Base.Int.{ℤ, pos, negsuc}
use my_linux_pbs.Text.Decimal.{to_string}
use my_linux_pbs.Station.Admission.Admitted.{admits}
use my_linux_pbs.Station.Admission.{is_blocked}
use my_linux_pbs.Station.SeasonMessage.{contains}
use my_linux_pbs.Station.Admission.Opening.{season_admits}
use my_linux_pbs.Text.Split.{IsFree, IsFree-holds, joined}
use my_linux_pbs.Dio.Scan.{start}
use my_linux_pbs.Station.Env.{entry_station}
use my_linux_pbs.Station.Marks.{entry_saved, opened, marks}
use my_linux_pbs.Station.Lane.{Polls, new_trans_id, use_front_camera}
use my_linux_pbs.Station.Camera.{
  Plate, serialize_event_data, process_data, extract_stx_throws, extract_lpr_data, is_framed,
  deserialize_event_data,
}
use my_linux_pbs.Station.Camera.Plates.{Splits, camera_text, deserialize-process_data}
use my_linux_pbs.Station.Events.{Event, World, Inputs, fn_handle_events}
use my_linux_pbs.Station.Events.Arrives.{loop_event, plate_event, marks-fn_handle_events}
use my_linux_pbs.Station.Events.Loop.{
  Manager, started, fn_enqueue_event, process_events_from_queue, enqueued, turned, Reach, later,
}
use my_linux_pbs.Station.Events.Serves.{Serves, in_hand, Reach-Refines}
use my_linux_pbs.Examples.Samples.{setup, at_rest}
use my_linux_pbs.Examples.Departure.{one_car}
use my_linux_pbs.Examples.Ticket.{one_ticket}

abbrev onto : ℕ → List Bytes → List Bytes
onto x [] = (x ∷ []) ∷ []
onto x (p ∷ ps) = (x ∷ p) ∷ ps

-- The pieces of a text between the marks `#`.
abbrev cut : Bytes → List Bytes
cut [] = [] ∷ []
cut (x ∷ xs) = let rest = cut xs in if x == b'#' then [] ∷ rest else onto x rest

cut-free : (p : Bytes) → IsFree b'#' p → cut p ≡ p ∷ []
cut-free [] _ = refl
cut-free (x ∷ p) (h, hs) = rw h (ap (onto x) (cut-free p hs))

cut-separated : (p rest : Bytes) → IsFree b'#' p → cut (p ++ (b'#' ∷ rest)) ≡ p ∷ cut rest
cut-separated [] rest _ = refl
cut-separated (x ∷ p) rest (h, hs) = rw h (ap (onto x) (cut-separated p rest hs))

cut-Splits : Splits cut
cut-Splits p [] (h, _) = cut-free p h
cut-Splits p (q ∷ ps) (h, hs) =
    cut-separated p (joined q ps b'#') h ∙ ap (λ qs. p ∷ qs) (cut-Splits q ps hs)

abbrev zero_int : Bytes → Option ℤ
zero_int b = some (pos 0)

-- A car on both loops at the first poll.
abbrev car : Polls
car = record { readings = (pos 1, pos 1) ∷ []; last_b = pos 1 }

abbrev plate : Plate
plate = record {
  camera = pos 0;
  lpn = codes "WXY1234";
  trans_id = codes "KL01-3F-20250606100000";
  image_path = codes "/img/1.jpg";
}

deserialize-process_data_example :
    Option.map (deserialize_event_data zero_int) (process_data cut (camera_text plate) (pos 0))
    ≡ some plate
unfolding camera_text
deserialize-process_data_example =
    deserialize-process_data cut zero_int plate cut-Splits refl
      (
        IsFree-holds b',' (codes "WXY1234") refl,
        IsFree-holds b',' (codes "KL01-3F-20250606100000") refl,
        IsFree-holds b',' (codes "/img/1.jpg") refl,
      )
      (
        IsFree-holds b'#' (codes "WXY1234") refl,
        IsFree-holds b'#' (codes "KL01-3F-20250606100000") refl,
        IsFree-holds b'#' (codes "/img/1.jpg") refl,
      )
      refl

abbrev inputs : Inputs
inputs = record {
  env = setup entry_station (negsuc 0) 0;
  polls = car;
  queries = one_car;
  tickets = one_ticket;
  stoi = zero_int;
}

abbrev pub quiet : World
quiet = record {
  station = at_rest [];
  monitor = start 30;
  faults = λ e. record { err_no = pos 0; err_msg = [] };
  sent = [];
}

marks-fn_handle_events_example :
    marks
      (fn_handle_events inputs
        (plate_event (serialize_event_data plate))
        (fn_handle_events inputs loop_event quiet)).sent
    ≡ entry_saved (codes "WXY1234") ∷ opened ∷ []
unfolding camera_text process_data extract_stx_throws extract_lpr_data is_framed new_trans_id
    to_string use_front_camera admits is_blocked contains season_admits
marks-fn_handle_events_example =
    marks-fn_handle_events inputs inputs cut plate (serialize_event_data plate) quiet refl refl
      cut-Splits refl
      (
        IsFree-holds b',' (codes "WXY1234") refl,
        IsFree-holds b',' (codes "KL01-3F-20250606100000") refl,
        IsFree-holds b',' (codes "/img/1.jpg") refl,
      )
      (
        IsFree-holds b'#' (codes "WXY1234") refl,
        IsFree-holds b'#' (codes "KL01-3F-20250606100000") refl,
        IsFree-holds b'#' (codes "/img/1.jpg") refl,
      )
      refl refl refl refl refl

-- The plate comes before the thread has taken the event of the loop, and the thread then takes that.
abbrev two_posted : Manager
two_posted = process_events_from_queue inputs (
    process_events_from_queue inputs (
      process_events_from_queue inputs (
        fn_enqueue_event (plate_event [])
          (process_events_from_queue inputs (fn_enqueue_event loop_event (started quiet))))))

Reach-Refines_example :
    (es : List Event) × (two_posted.posted ≡ es ++ in_hand two_posted.phase ++ two_posted.queue)
    × Serves quiet es two_posted.world
Reach-Refines_example = Reach-Refines (
    later
      (later
        (later
          (later (later (later Reach.start (enqueued loop_event)) (turned inputs))
            (enqueued (plate_event [])))
          (turned inputs))
        (turned inputs))
      (turned inputs))
