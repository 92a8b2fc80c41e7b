-- ===== src/Station/Gate.antt =====
-- Operations that leave the barrier alone, and whether they let the caller go on.
use my_linux_pbs.Base.{
  ◌≡◌, refl, ap, ◌∙◌, Bool, true, false, not, ◌&&◌, List, [], ◌++◌, arith, if◌then◌else◌, Bytes,
}
use my_linux_pbs.Station.State.{Station, Action}
use my_linux_pbs.Station.Op.{Op, Outcome, behind, ◌then_op◌, call, stop_if, go_on, finish}
use my_linux_pbs.Station.Marks.{marks, marks-append}
use my_linux_pbs.Station.Env.{Env, Message}
use my_linux_pbs.Station.Display.{queue_led, queue_lcd, show_led_msg, show, send_to_server}

-- The fields on which the barrier's own checks and the saved record depend.
pub record Keeps (s t : Station) : Type 0 where
  pub card_is_in : t.process.card_is_in ≡ s.process.card_is_in
  pub continue_opened : t.process.continue_opened ≡ s.process.continue_opened
  pub saved_trans : t.process.saved_trans ≡ s.process.saved_trans
  pub iu_tk_no : t.entry.iu_tk_no ≡ s.entry.iu_tk_no
  pub entry_ok : t.entry.entry_ok ≡ s.entry.entry_ok
  pub iu_no : t.exit.iu_no ≡ s.exit.iu_no

pub Keeps-trans : {s t u : Station} → Keeps s t → Keeps t u → Keeps s u
Keeps-trans k l = record {
  card_is_in = l.card_is_in ∙ k.card_is_in;
  continue_opened = l.continue_opened ∙ k.continue_opened;
  saved_trans = l.saved_trans ∙ k.saved_trans;
  iu_tk_no = l.iu_tk_no ∙ k.iu_tk_no;
  entry_ok = l.entry_ok ∙ k.entry_ok;
  iu_no = l.iu_no ∙ k.iu_no;
}

-- The operation sends nothing to the barrier and the database's records, and goes on exactly if `b`.
pub record Gate (b : Bool) (f : Op) : Type 0 where
  pub silent : (s : Station) → marks (f s).sent ≡ []
  pub goes : (s : Station) → (f s).go ≡ b
  pub keeps : (s : Station) → Keeps s (f s).state

pub marks-behind :
    (out : List Action) (o : Outcome) → marks out ≡ [] → marks (behind out o).sent ≡ marks o.sent
unfolding behind
marks-behind out o e = marks-append out o.sent ∙ ap (λ m. m ++ marks o.sent) e

-- What stands behind a gate runs if the gate goes on.
pub through :
    {b : Bool} {f : Op} (g : Op)
    → Gate b f
    → (s : Station) → marks ((f then_op g) s).sent ≡ (if b then marks (g (f s).state).sent else [])
unfolding ◌then_op◌
through {b = true} {f = f} g p s =
    rw (p.goes s) (marks-behind (f s).sent (g (f s).state) (p.silent s))
through {b = false} {f = f} g p s = rw (p.goes s) (p.silent s)

pub through_state :
    {b : Bool} {f : Op} (g : Op)
    → Gate b f
    → (s : Station) → ((f then_op g) s).state ≡ (if b then (g (f s).state).state else (f s).state)
unfolding ◌then_op◌ behind
through_state {b = true} {f = f} g p s = rw (p.goes s)
through_state {b = false} {f = f} g p s = rw (p.goes s)

through_go :
    {b : Bool} {f : Op} (g : Op)
    → Gate b f
    → (s : Station) → ((f then_op g) s).go ≡ (if b then (g (f s).state).go else false)
unfolding ◌then_op◌ behind
through_go {b = true} {f = f} g p s = rw (p.goes s)
through_go {b = false} {f = f} g p s = rw (p.goes s)

infixr 20 ◌then_gate◌
pub ◌then_gate◌ : {b c : Bool} {f g : Op} → Gate b f → Gate c g → Gate (b && c) (f then_op g)
◌then_gate◌ {b = true} {f = f} {g = g} p q = record {
  silent = λ s. through g p s ∙ q.silent (f s).state;
  goes = λ s. through_go g p s ∙ q.goes (f s).state;
  keeps = λ s. rw (through_state g p s) (Keeps-trans (p.keeps s) (q.keeps (f s).state));
}
◌then_gate◌ {b = false} {f = f} {g = g} p q = record {
  silent = λ s. through g p s;
  goes = λ s. through_go g p s;
  keeps = λ s. rw (through_state g p s) (p.keeps s);
}

pub call-Gate : {b : Bool} {f : Op} → Gate b f → Gate true (call f)
unfolding call
call-Gate p = record { silent = p.silent; goes = λ s. refl; keeps = p.keeps }

pub go_on-Gate : Gate true go_on
unfolding go_on
go_on-Gate = record { silent = λ s. refl; goes = λ s. refl; keeps = λ s. ground arith }

pub stop_if-Gate : (b : Bool) → Gate (not b) (stop_if b)
unfolding stop_if
stop_if-Gate b = record {
  silent = λ s. ground arith;
  goes = λ s. ground arith;
  keeps = λ s. ground arith;
}

pub finish-Gate : Gate false finish
unfolding finish
finish-Gate = record { silent = λ s. refl; goes = λ s. refl; keeps = λ s. ground arith }

queue_led-Gate : (m : Bytes) → Gate true (queue_led m)
unfolding queue_led
queue_led-Gate m = record {
  silent = λ s. ground arith;
  goes = λ s. ground arith;
  keeps = λ s. ground arith;
}

queue_lcd-Gate : (m : Bytes) → Gate true (queue_lcd m)
unfolding queue_lcd
queue_lcd-Gate m = record {
  silent = λ s. ground arith;
  goes = λ s. ground arith;
  keeps = λ s. ground arith;
}

pub show_led_msg-Gate : (led lcd : Bytes) → Gate true (show_led_msg led lcd)
unfolding show_led_msg
show_led_msg-Gate led lcd = queue_led-Gate led then_gate queue_lcd-Gate lcd

pub show-Gate : (env : Env) (m : Message) → Gate true (show env m)
unfolding show
show-Gate env m = show_led_msg-Gate (env.led m) (env.lcd m)

pub send_to_server-Gate : (cmd text : Bytes) → Gate true (send_to_server cmd text)
unfolding send_to_server
send_to_server-Gate cmd text = record {
  silent = λ s. refl;
  goes = λ s. refl;
  keeps = λ s. ground arith;
}
