-- ===== src/Station/Manual/Released.antt =====
-- When the barrier opens without an identified vehicle, and what is recorded then.
use my_linux_pbs.Base.{
  refl, ◌∙◌, ◌≡◌, ◌&&◌, Bool, Bool-cases, inl, inr, true, false, not, ℕ, zero, suc, List, [], ◌∷◌,
  ltb, if◌then◌else◌, codes,
}
use my_linux_pbs.Base.Int.{ℤ}
use my_linux_pbs.Station.State.{Station}
use my_linux_pbs.Station.Op.{Op, call, ◌then_op◌, behind, go_on}
use my_linux_pbs.Station.Env.{Env, is_entry}
use my_linux_pbs.Station.Marks.{exit_saved, opened, marks}
use my_linux_pbs.Station.Gate.{Gate, marks-behind, show-Gate}
use my_linux_pbs.Station.Vehicle.{truth}
use my_linux_pbs.Station.Barrier.{enable_cashcard}
use my_linux_pbs.Station.Barrier.Opens.{can_move}
use my_linux_pbs.Station.Clear.{clear_me}
use my_linux_pbs.Station.Exit.{manualopen, close_exit_operation}
use my_linux_pbs.Station.Exit.Closing.{marks-close_exit_operation}
use my_linux_pbs.Station.Lane.{
  use_front_camera, Polls, polled, start_loop_timer, set_backlight, send_trans_id, at_exit,
  loop_a_come,
}
use my_linux_pbs.Station.Lane.Once.{enable_cashcard-Gate}
use my_linux_pbs.Station.Manual.{
  elapsed, is_unidentified, set_unidentified, loop_timeout, loop_timer_tick,
}

-- An operation that neither records nor opens.
pub record IsSilent (f : Op) : Type 0 where
  pub silent : (s : Station) → marks (f s).sent ≡ []

IsSilent-then : (f g : Op) → IsSilent f → IsSilent g → IsSilent (f then_op g)
unfolding ◌then_op◌
IsSilent-then f g p q = record { silent = both }
  where
    both :
        (s : Station)
        → marks (if (f s).go then behind (f s).sent (g (f s).state) else f s).sent ≡ []
    both s = elim (Bool-cases (f s).go) [
      | inl e ↦ rw e (marks-behind (f s).sent (g (f s).state) (p.silent s) ∙ q.silent (f s).state)
      | inr e ↦ rw e (p.silent s)
    ]

IsSilent-call : {f : Op} → IsSilent f → IsSilent (call f)
unfolding call
IsSilent-call p = record { silent = p.silent }

Gate-IsSilent : {b : Bool} {f : Op} → Gate b f → IsSilent f
Gate-IsSilent p = record { silent = p.silent }

polled-IsSilent : (n : ℕ) (rs : List (ℤ × ℤ)) → IsSilent (polled n rs)
unfolding polled go_on
polled-IsSilent zero rs = record { silent = λ s. refl }
polled-IsSilent (suc n) [] = record { silent = λ s. refl }
polled-IsSilent (suc n) ((b, a) ∷ rs) = elim (Bool-cases (truth b && truth a)) [
  | inl e ↦ rw e (record { silent = λ s. refl })
  | inr e ↦ rw e (IsSilent-then _ _ (record { silent = λ s. refl }) (polled-IsSilent n rs))
]

at_exit-IsSilent : (env : Env) (f : Op) → IsSilent f → IsSilent (at_exit env f)
unfolding at_exit go_on
at_exit-IsSilent env f p = elim (Bool-cases (is_entry env.station_type)) [
  | inl e ↦ rw e (record { silent = λ s. refl })
  | inr e ↦ rw e p
]

start_loop_timer-IsSilent : (env : Env) → IsSilent (start_loop_timer env)
unfolding start_loop_timer
start_loop_timer-IsSilent env = record { silent = λ s. refl }

clear_me-IsSilent : (env : Env) → IsSilent (clear_me env)
unfolding clear_me
clear_me-IsSilent env = record { silent = λ s. refl }

set_backlight-IsSilent : (n : ℕ) → IsSilent (set_backlight n)
unfolding set_backlight
set_backlight-IsSilent n = record { silent = λ s. refl }

send_trans_id-IsSilent : (env : Env) (front : Bool) → IsSilent (send_trans_id env front)
unfolding send_trans_id
send_trans_id-IsSilent env front = record { silent = λ s. refl }

switch_reader-IsSilent :
    (env : Env) (on : Bool) → IsSilent (at_exit env (call (enable_cashcard on)))
switch_reader-IsSilent env on =
    at_exit-IsSilent env _ (IsSilent-call (Gate-IsSilent (enable_cashcard-Gate on)))

infixr 20 ◌then_silent◌
◌then_silent◌ : {f g : Op} → IsSilent f → IsSilent g → IsSilent (f then_op g)
p then_silent q = IsSilent-then _ _ p q

pub loop_a_come-IsSilent : (env : Env) (p : Polls) → IsSilent (loop_a_come env p)
unfolding loop_a_come
loop_a_come-IsSilent env p =
    start_loop_timer-IsSilent env
    then_silent IsSilent-call (Gate-IsSilent (show-Gate env _))
    then_silent IsSilent-call (clear_me-IsSilent env)
    then_silent set_backlight-IsSilent 1
    then_silent polled-IsSilent 50 p.readings
    then_silent send_trans_id-IsSilent env (use_front_camera p)
    then_silent switch_reader-IsSilent env true

loop_timeout-IsSilent : (env : Env) (p : Polls) → IsSilent (loop_timeout env p)
unfolding loop_timeout
loop_timeout-IsSilent env p =
    switch_reader-IsSilent env false then_silent IsSilent-call (loop_a_come-IsSilent env p)

marks-unidentified :
    (env : Env) (s : Station)
    → marks ((set_unidentified env then_op close_exit_operation env manualopen) s).sent
      ≡ exit_saved (codes "0000000000") ∷ (if can_move s then opened ∷ [] else [])
unfolding set_unidentified ◌then_op◌ behind can_move
marks-unidentified env s = marks-close_exit_operation env manualopen (set_unidentified env s).state

-- A tick of the loop timer lets a vehicle out in one case only: the operation has not timed out, the
-- plate is overdue, and an exit has neither a plate nor a number. Then an exit of the number
-- 0000000000 is recorded first.
pub marks-loop_timer_tick :
    (env : Env) (p : Polls) (s : Station)
    → marks (loop_timer_tick env p s).sent ≡ (
        if not (ltb env.operation_timeout (elapsed env s)) && is_unidentified env s
        then exit_saved (codes "0000000000") ∷ (if can_move s then opened ∷ [] else [])
        else [])
unfolding loop_timer_tick
marks-loop_timer_tick env p s = elim (Bool-cases (ltb env.operation_timeout (elapsed env s))) [
  | inl e ↦ rw e ((loop_timeout-IsSilent env p).silent s)
  | inr e ↦ elim (Bool-cases (is_unidentified env s)) [
    | inl k ↦ rw (e, k) (marks-unidentified env s)
    | inr k ↦ rw (e, k) refl
  ]
]
