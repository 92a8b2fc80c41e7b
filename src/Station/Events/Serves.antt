-- ===== src/Station/Events/Serves.antt =====
-- The queue of event_manager.cpp refines a server that takes the events one by one.
use my_linux_pbs.Base.{
  ◌≡◌, refl, ap, sym, ◌∙◌, Bool, true, false, ◌&&◌, List, [], ◌∷◌, ◌++◌, if◌then◌else◌,
  append_assoc, append-nil, is_empty,
}
use my_linux_pbs.Station.Events.{Event, Inputs, World, fn_handle_events}
use my_linux_pbs.Station.Events.Loop.{
  Phase, outer, waiting, inner, exited, busy, Manager, fn_enqueue_event, fn_stop_event_thread,
  take_front, turn_at, process_events_from_queue, started, Step, enqueued, stopped, turned, Reach,
  start, later,
}

-- A server without a queue: the events of the list are handled in its order, each by what its handler
-- reads then.
pub data Serves (w : World) : List Event → World → Type 0 where
  idle : Serves w [] w
  served :
      {es : List Event} {v : World}
      → Serves w es v
      → (i : Inputs) (e : Event) → Serves w (es ++ e ∷ []) (fn_handle_events i e v)

-- The event that the thread has taken and not yet handled.
abbrev pub in_hand : Phase → List Event
in_hand (busy e) = e ∷ []
in_hand _ = []

abbrev pub Refines : World → Manager → Type 0
Refines w m =
    (es : List Event) × (m.posted ≡ es ++ in_hand m.phase ++ m.queue) × Serves w es m.world

-- A phase without an event in hand stands for the same list as another one.
idle_phase :
    (w : World) (m : Manager) (es : List Event) (b : Bool) (p q : Phase)
    → in_hand p ≡ []
    → in_hand q ≡ []
    → m.posted ≡ es ++ [] ++ m.queue
    → Serves w es m.world
    → Refines w (record m { phase = if b then p else q })
idle_phase w m es true p q h k e r = (es, e ∙ ap (λ x. es ++ x ++ m.queue) (sym h), r)
idle_phase w m es false p q h k e r = (es, e ∙ ap (λ x. es ++ x ++ m.queue) (sym k), r)

take_front-Refines :
    (w : World) (m : Manager) (es queue : List Event)
    → m.posted ≡ es ++ [] ++ queue
    → Serves w es m.world
    → Refines w (take_front queue m)
unfolding take_front
take_front-Refines w m es [] e r = (es, e, r)
take_front-Refines w m es (x ∷ queue) e r =
    (es, e ∙ rw (append-nil es, append_assoc es (x ∷ []) queue) refl, r)

turn_at-Refines :
    (w : World) (p : Phase) (i : Inputs) (m : Manager) (es : List Event)
    → m.posted ≡ es ++ in_hand p ++ m.queue
    → Serves w es m.world
    → Refines w (turn_at p i m)
unfolding turn_at
turn_at-Refines w outer i m es e r = idle_phase w m es m.running waiting exited refl refl e r
turn_at-Refines w waiting i m es e r =
    idle_phase w m es (is_empty m.queue && m.running) waiting inner refl refl e r
turn_at-Refines w inner i m es e r = take_front-Refines w m es m.queue e r
turn_at-Refines w exited i m es e r = (es, e, r)
turn_at-Refines w (busy x) i m es e r =
    (es ++ x ∷ [], e ∙ ap (λ l. l ++ m.queue) (sym (append-nil (es ++ x ∷ []))), served r i x)

Step-Refines : {w : World} {m n : Manager} → Step m n → Refines w m → Refines w n
unfolding fn_enqueue_event fn_stop_event_thread process_events_from_queue
Step-Refines {m = m} (enqueued x) (es, e, r) =
    (es, ap (λ l. l ++ x ∷ []) e ∙ append_assoc (es ++ in_hand m.phase) m.queue (x ∷ []), r)
Step-Refines stopped f = f
Step-Refines {w = w} {m = m} (turned i) (es, e, r) = turn_at-Refines w m.phase i m es e r

-- However the threads interleave: the world is the one that a server without a queue reaches with the
-- first of the posted events, one by one in the order in which they were posted, and the posted events
-- behind these are the one that the thread holds, if any, and then those on the queue. So none is
-- lost, doubled or overtaken.
pub Reach-Refines :
    {w : World} {m : Manager}
    → Reach w m
    → (es : List Event) × (m.posted ≡ es ++ in_hand m.phase ++ m.queue) × Serves w es m.world
unfolding started
Reach-Refines start = ([], refl, idle)
Reach-Refines (later r st) = Step-Refines st (Reach-Refines r)
