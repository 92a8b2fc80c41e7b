-- ===== src/Station/Lane/Plate.antt =====
-- A vehicle from loop A to the barrier of the entry: the plate that the camera reports.
use my_linux_pbs.Base.{
  refl, ap, ◌∙◌, ◌≡◌, ◌==◌, ◌&&◌, Bool, true, false, not, ℕ, [], ◌∷◌, if◌then◌else◌, Bytes,
  bytes_eq, is_empty, arith, codes,
}
use my_linux_pbs.Station.State.{Station}
use my_linux_pbs.Station.Op.{Op, Outcome, ◌then_op◌, behind}
use my_linux_pbs.Station.Env.{Env, Message, StationType, entry_station, exit_station, is_entry}
use my_linux_pbs.Station.Marks.{marks}
use my_linux_pbs.Station.Barrier.Opens.{can_move}
use my_linux_pbs.Station.Clear.{cleared, cleared_process, cleared_entry, clear_me}
use my_linux_pbs.Station.Display.{show, show_led_msg, queue_led, queue_lcd}
use my_linux_pbs.Station.Admission.{with_entry}
use my_linux_pbs.Station.Lane.{
  Polls, start_loop_timer, send_trans_id, use_front_camera, new_trans_id, loop_a_come, vehicle_come,
  plate_read, received_lpr,
}
use my_linux_pbs.Station.Lane.Arrival.{
  let_in_by, marks-vehicle_come, after_loop, shown, loop_a_come-state,
}

-- What the arrival starts from: nothing of the last vehicle is left.
record IsReady (s t : Station) : Type 0 where
  entry_ok : t.entry.entry_ok ≡ false
  iu_tk_no : t.entry.iu_tk_no ≡ []
  saved_trans : t.process.saved_trans ≡ false
  card_is_in : t.process.card_is_in ≡ 0
  continue_opened : t.process.continue_opened ≡ s.process.continue_opened
  loop_present : t.process.loop_present ≡ s.process.loop_present

cleared-IsReady :
    (sid : ℕ) (t : StationType) (s : Station) → t ≡ entry_station → IsReady s (cleared sid t s)
unfolding cleared cleared_process cleared_entry
cleared-IsReady sid entry_station s h = record {
  entry_ok = refl;
  iu_tk_no = refl;
  saved_trans = refl;
  card_is_in = refl;
  continue_opened = refl;
  loop_present = refl;
}
cleared-IsReady sid exit_station s h = absurd (ground arith)

show-process :
    (env : Env) (m : Message) (s : Station)
    → ((show env m s).state.process.continue_opened ≡ s.process.continue_opened)
      × ((show env m s).state.process.loop_present ≡ s.process.loop_present)
unfolding show show_led_msg queue_led queue_lcd ◌then_op◌ behind
show-process env m s = (ground arith, ground arith)

after_loop-IsReady :
    (env : Env) (p : Polls) (s : Station)
    → env.station_type ≡ entry_station
    → IsReady s (after_loop env p s)
unfolding after_loop shown send_trans_id clear_me start_loop_timer
after_loop-IsReady env p s h =
    let r = cleared-IsReady env.sid env.station_type (shown env s) h in
    let (k, l) = show-process env _ (start_loop_timer env s).state in
    record {
      entry_ok = r.entry_ok;
      iu_tk_no = r.iu_tk_no;
      saved_trans = r.saved_trans;
      card_is_in = r.card_is_in;
      continue_opened = r.continue_opened ∙ k;
      loop_present = r.loop_present ∙ l;
    }

after_loop-trans_id :
    (env : Env) (p : Polls) (s : Station)
    → (after_loop env p s).process.trans_id ≡ new_trans_id env (use_front_camera p)
unfolding after_loop send_trans_id
after_loop-trans_id env p s = refl

bytes_eq_refl : (xs : Bytes) → bytes_eq xs xs ≡ true
bytes_eq_refl [] = refl
bytes_eq_refl (x ∷ xs) = ground (arith, bytes_eq_refl xs)

picked : (b : Bool) (x y : Outcome) → b ≡ true → (if b then x else y) ≡ x
picked true x y h = refl
picked false x y h = absurd (ground arith)

passed : (b : Bool) (x y : Outcome) → b ≡ false → (if b then x else y) ≡ y
passed true x y h = absurd (ground arith)
passed false x y h = refl

marks-plate_read :
    (exit_check : Env → Bytes → Op) (t : StationType) (env : Env) (lpn : Bytes) (s u : Station)
    → t ≡ entry_station
    → env.station_type ≡ entry_station
    → is_empty lpn ≡ false
    → IsReady s u
    → marks (plate_read exit_check t env lpn u).sent
      ≡ let_in_by env lpn (not (s.process.continue_opened == 1))
unfolding plate_read can_move
marks-plate_read exit_check entry_station env lpn s u g h e r =
    let v = with_entry u (record (u.entry) { lpn_front = lpn; lpn_rear = lpn }) in
    ap (λ (o : Outcome). marks o.sent)
      (picked (is_empty u.entry.iu_tk_no) (vehicle_come exit_check env lpn v) _
        (ap is_empty r.iu_tk_no))
    ∙ marks-vehicle_come exit_check env lpn v h e r.entry_ok
    ∙ ap (let_in_by env lpn) (rw (r.card_is_in, r.continue_opened) refl)
marks-plate_read exit_check exit_station env lpn s u g h e r = absurd (ground arith)

is_own :
    (u : Station) (id : Bytes)
    → u.process.trans_id ≡ id
    → u.process.loop_present ≡ true
    → u.process.saved_trans ≡ false
    → (bytes_eq u.process.trans_id id && (u.process.loop_present && not u.process.saved_trans))
      ≡ true
is_own u id e l s = rw (e, l, s) (ground (arith, bytes_eq_refl id))

marks-received_ready :
    (exit_check : Env → Bytes → Op) (env : Env) (lpn id : Bytes) (s u : Station)
    → env.station_type ≡ entry_station
    → s.process.loop_present ≡ true
    → is_empty lpn ≡ false
    → bytes_eq lpn (codes "0000000000") ≡ false
    → IsReady s u
    → u.process.trans_id ≡ id
    → marks (received_lpr exit_check env lpn id u).sent
      ≡ let_in_by env lpn (not (s.process.continue_opened == 1))
unfolding received_lpr
marks-received_ready exit_check env lpn id s u h l e z r i =
    ap (λ (o : Outcome). marks o.sent)
      (passed _ _ _ z ∙ picked _ _ _ (is_own u id i (r.loop_present ∙ l) r.saved_trans))
    ∙ marks-plate_read exit_check env.station_type env lpn s u h h e r

-- At an entry station, a vehicle comes onto loop A, whatever the last one left behind, and while it is
-- there the camera reports its plate for the transaction that `LoopACome` has sent. If the lane admits
-- the plate, it is recorded and then the barrier pulsed, unless it is open for good; otherwise neither
-- happens.
pub marks-received_lpr :
    (exit_check : Env → Bytes → Op) (env later : Env) (p : Polls) (lpn : Bytes) (s : Station)
    → env.station_type ≡ entry_station
    → later.station_type ≡ entry_station
    → s.process.loop_present ≡ true
    → is_empty lpn ≡ false
    → bytes_eq lpn (codes "0000000000") ≡ false
    → marks
        (received_lpr exit_check later lpn
          (new_trans_id env (use_front_camera p))
          (loop_a_come env p s).state).sent
      ≡ let_in_by later lpn (not (s.process.continue_opened == 1))
marks-received_lpr exit_check env later p lpn s g h l e z =
    ap
      (λ (u : Station).
        marks (received_lpr exit_check later lpn (new_trans_id env (use_front_camera p)) u).sent)
      (loop_a_come-state env p s (ap is_entry g))
    ∙ marks-received_ready exit_check later lpn _ s (after_loop env p s) h l e z
        (after_loop-IsReady env p s g) (after_loop-trans_id env p s)
