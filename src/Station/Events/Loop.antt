-- ===== src/Station/Events/Loop.antt =====
-- The event thread: `FnEnqueueEvent`, `FnStopEventThread` and `processEventsFromQueue` of
-- event_manager.cpp. The other threads put events on the queue at any time.
use my_linux_pbs.Base.{Bool, true, false, ◌&&◌, List, [], ◌∷◌, ◌++◌, if◌then◌else◌, is_empty}
use my_linux_pbs.Station.Events.{Event, Inputs, World, fn_handle_events}

-- Where the thread is: at the test of the outer loop, at `condition_.wait`, at the test of the inner
-- loop, in `processEvent` with the event that it took, or behind the loop.
pub data Phase : Type 0 where
  outer waiting inner exited : Phase
  busy : Event → Phase

-- `posted` keeps all events that were ever put on the queue, in their order.
pub record Manager : Type 0 where
  pub running : Bool
  pub phase : Phase
  pub queue : List Event
  pub posted : List Event
  pub world : World

unfoldable pub fn_enqueue_event : Event → Manager → Manager
fn_enqueue_event e m = record m { queue = m.queue ++ e ∷ []; posted = m.posted ++ e ∷ [] }

unfoldable pub fn_stop_event_thread : Manager → Manager
fn_stop_event_thread m = record m { running = false }

unfoldable pub take_front : List Event → Manager → Manager
take_front [] m = record m { phase = outer; queue = [] }
take_front (e ∷ es) m = record m { phase = busy e; queue = es }

-- One move of the thread. A handler that throws is caught within it.
unfoldable pub turn_at : Phase → Inputs → Manager → Manager
unfolding take_front
turn_at outer i m = record m { phase = if m.running then waiting else exited }
turn_at waiting i m = record m { phase = if is_empty m.queue && m.running then waiting else inner }
turn_at inner i m = take_front m.queue m
turn_at (busy e) i m = record m { phase = inner; world = fn_handle_events i e m.world }
turn_at exited i m = record m { phase = exited }

unfoldable pub process_events_from_queue : Inputs → Manager → Manager
unfolding turn_at
process_events_from_queue i m = turn_at m.phase i m

-- `FnStartEventThread` with nothing posted.
unfoldable pub started : World → Manager
started w = record { running = true; phase = outer; queue = []; posted = []; world = w }

-- The threads interleave in any order.
pub data Step (m : Manager) : Manager → Type 0 where
  enqueued : (e : Event) → Step m (fn_enqueue_event e m)
  stopped : Step m (fn_stop_event_thread m)
  turned : (i : Inputs) → Step m (process_events_from_queue i m)

pub data Reach (w : World) : Manager → Type 0 where
  start : Reach w (started w)
  later : {m n : Manager} → Reach w m → Step m n → Reach w n
