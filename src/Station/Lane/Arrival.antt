-- ===== src/Station/Lane/Arrival.antt =====
-- A vehicle from loop A to the barrier of the entry.
use my_linux_pbs.Base.{
  Bool-cases, inl, inr, ◌&&◌, refl, ap, ◌∙◌, ◌≡◌, Bool, true, false, ℕ, zero, suc, List, [], ◌∷◌,
  if◌then◌else◌, Bytes, is_empty, arith,
}
use my_linux_pbs.Base.Int.{ℤ}
use my_linux_pbs.Station.State.{Station}
use my_linux_pbs.Station.Op.{Op, call, ◌then_op◌, behind, stop_if, continue, go_on}
use my_linux_pbs.Station.Env.{
  Env, is_entry, exit_loop_a, StationType, exit_station, entry_station, loop_a_msg,
}
use my_linux_pbs.Station.Vehicle.{truth}
use my_linux_pbs.Station.Marks.{Mark, entry_saved, opened, marks}
use my_linux_pbs.Station.Gate.{Keeps, through, stop_if-Gate}
use my_linux_pbs.Station.Barrier.Opens.{can_move}
use my_linux_pbs.Station.Clear.{clear_me}
use my_linux_pbs.Station.Display.{show}
use my_linux_pbs.Station.Admission.{pbs_entry}
use my_linux_pbs.Station.Admission.Admitted.{admits, marks-pbs_entry}
use my_linux_pbs.Station.Lane.{
  Polls, polled, start_loop_timer, set_backlight, send_trans_id, at_exit, use_front_camera,
  loop_a_come, entry_come, lane_come, vehicle_come,
}
use my_linux_pbs.Station.Lane.Once.{reader_off-Gate}

pub can_move-kept : {s t : Station} → Keeps s t → can_move t ≡ can_move s
unfolding can_move
can_move-kept k = rw (k.card_is_in, k.continue_opened) refl

-- What a number that comes leaves while no vehicle is done.
abbrev pub let_in_by : Env → Bytes → Bool → List Mark
let_in_by env iu b = if admits env iu then entry_saved iu ∷ (if b then opened ∷ [] else []) else []

marks-lane_come :
    (exit_check : Env → Bytes → Op) (t : StationType) (env : Env) (iu : Bytes) (s : Station)
    → t ≡ entry_station
    → is_empty iu ≡ false
    → s.entry.entry_ok ≡ false
    → marks (lane_come exit_check t env iu s).sent ≡ let_in_by env iu (can_move s)
unfolding lane_come entry_come call
marks-lane_come exit_check entry_station env iu s h e p =
    ap (λ (b : Bool). marks (if b then continue s [] else call (pbs_entry env iu) s).sent) p
    ∙ marks-pbs_entry env iu s e
marks-lane_come exit_check exit_station env iu s h e p = absurd (ground arith)

pub marks-vehicle_come :
    (exit_check : Env → Bytes → Op) (env : Env) (iu : Bytes) (s : Station)
    → env.station_type ≡ entry_station
    → is_empty iu ≡ false
    → s.entry.entry_ok ≡ false
    → marks (vehicle_come exit_check env iu s).sent ≡ let_in_by env iu (can_move s)
unfolding vehicle_come call stop_if
marks-vehicle_come exit_check env [] s h e p = absurd (ground arith)
marks-vehicle_come exit_check env (c ∷ cs) s h e p =
    let k = (reader_off-Gate exit_check (c ∷ cs)).keeps s in
    through _ (stop_if-Gate false) s
    ∙ through _ (reader_off-Gate exit_check (c ∷ cs)) s
    ∙ marks-lane_come exit_check env.station_type env (c ∷ cs) _ h e (k.entry_ok ∙ p)
    ∙ ap (let_in_by env (c ∷ cs)) (can_move-kept k)

-- Operations that always go on.
Goes : Op → Type 0
Goes f = (s : Station) → (f s).go ≡ true

then_state : (f g : Op) (s : Station) → Goes f → ((f then_op g) s).state ≡ (g (f s).state).state
unfolding Goes ◌then_op◌ behind
then_state f g s p = rw (p s) refl

call-Goes : (f : Op) → Goes (call f)
unfolding Goes call
call-Goes f s = refl

start_loop_timer-Goes : (env : Env) → Goes (start_loop_timer env)
unfolding Goes start_loop_timer
start_loop_timer-Goes env s = refl

set_backlight-Goes : (n : ℕ) → Goes (set_backlight n)
unfolding Goes set_backlight
set_backlight-Goes n s = refl

send_trans_id-Goes : (env : Env) (front : Bool) → Goes (send_trans_id env front)
unfolding Goes send_trans_id
send_trans_id-Goes env front s = refl

-- The polls go on and change nothing.
polled-same :
    (n : ℕ) (rs : List (ℤ × ℤ)) (s : Station)
    → ((polled n rs s).go ≡ true) × ((polled n rs s).state ≡ s)
unfolding polled go_on ◌then_op◌ behind
polled-same zero rs s = (refl, refl)
polled-same (suc n) [] s = (refl, refl)
polled-same (suc n) ((b, a) ∷ rs) s = elim (Bool-cases (truth b && truth a)) [
  | inl e ↦ rw e (refl, refl)
  | inr e ↦ rw e (polled-same n rs s)
]

polled-Goes : (n : ℕ) (rs : List (ℤ × ℤ)) → Goes (polled n rs)
unfolding Goes
polled-Goes n rs s = (polled-same n rs s).0

at_exit-state :
    (env : Env) (f : Op) (s : Station)
    → is_entry env.station_type ≡ true
    → (at_exit env f s).state ≡ s
unfolding at_exit go_on
at_exit-state env f s h = rw h refl

-- The message of `LoopACome` and what it has done before.
unfoldable pub shown : Env → Station → Station
shown env s =
    (show env (if is_entry env.station_type then loop_a_msg else exit_loop_a)
      (start_loop_timer env s).state).state

-- What `LoopACome` leaves behind.
unfoldable pub after_loop : Env → Polls → Station → Station
unfolding shown
after_loop env p s =
    (send_trans_id env (use_front_camera p) (clear_me env (shown env s)).state).state

pub loop_a_come-state :
    (env : Env) (p : Polls) (s : Station)
    → is_entry env.station_type ≡ true
    → (loop_a_come env p s).state ≡ after_loop env p s
unfolding loop_a_come after_loop shown call set_backlight
loop_a_come-state env p s h =
    let s1 = (start_loop_timer env s).state in
    let s2 = (show env _ s1).state in
    let s3 = (clear_me env s2).state in
    then_state _ _ s (start_loop_timer-Goes env)
    ∙ then_state _ _ s1
        (call-Goes (show env (if is_entry env.station_type then loop_a_msg else exit_loop_a)))
    ∙ then_state _ _ s2 (call-Goes (clear_me env))
    ∙ then_state _ _ s3 (set_backlight-Goes 1)
    ∙ then_state _ _ s3 (polled-Goes 50 p.readings)
    ∙ then_state _ _ (polled 50 p.readings s3).state (send_trans_id-Goes env _)
    ∙ at_exit-state env _ _ h
    ∙ ap (λ u. (send_trans_id env (use_front_camera p) u).state) (polled-same 50 p.readings s3).1
