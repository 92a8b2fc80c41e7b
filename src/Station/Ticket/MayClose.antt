-- ===== src/Station/Ticket/MayClose.antt =====
-- Operations that may close the exit, and only with a reason.
use my_linux_pbs.Base.{
  ◌≡◌, refl, ap, ◌∙◌, inl, inr, ◌⊎◌, Bool, true, false, [], if◌then◌else◌, is_empty, arith,
}
use my_linux_pbs.Station.State.{Station}
use my_linux_pbs.Station.Op.{Op, ◌then_op◌}
use my_linux_pbs.Station.Env.{Env}
use my_linux_pbs.Station.Marks.{marks}
use my_linux_pbs.Station.Gate.{Gate, Keeps, through}
use my_linux_pbs.Station.Exit.{set_ticket, ticket_ok, free_parking}
use my_linux_pbs.Station.Exit.Closing.{marks-close_exit_operation}
use my_linux_pbs.Station.Fee.Settled.{closed}
use my_linux_pbs.Station.Departure.Past.{closed-Kept, past}

-- A test of the state between two gates.
pub split-Gate :
    (b : Station → Bool) {f g : Op}
    → Gate true f
    → Gate true g
    → Gate true (λ s. if b s then f s else g s)
split-Gate b {f = f} {g = g} p q = record {
  silent = λ s. silent_at s (b s);
  goes = λ s. goes_at s (b s);
  keeps = λ s. keeps_at s (b s);
}
  where
    silent_at : (s : Station) (c : Bool) → marks (if c then f s else g s).sent ≡ []
    silent_at s true = p.silent s
    silent_at s false = q.silent s

    goes_at : (s : Station) (c : Bool) → (if c then f s else g s).go ≡ true
    goes_at s true = p.goes s
    goes_at s false = q.goes s

    keeps_at : (s : Station) (c : Bool) → Keeps s (if c then f s else g s).state
    keeps_at s true = p.keeps s
    keeps_at s false = q.keeps s

-- The operation leaves no mark, or `P` holds and it closes the exit at hand.
pub record MayClose (P : Type 0) (f : Op) : Type 0 where
  pub closes :
      (s : Station)
      → is_empty s.exit.iu_no ≡ false
      → (marks (f s).sent ≡ []) ⊎ (P × (marks (f s).sent ≡ closed s))

module _ {P : Type 0} where
  pub Gate-MayClose : {b : Bool} {f : Op} → Gate b f → MayClose P f
  Gate-MayClose p = record { closes = λ s h. inl (p.silent s) }

  pub behind-MayClose : {f : Op} (g : Op) → Gate true f → MayClose P g → MayClose P (f then_op g)
  behind-MayClose {f = f} g p q = record { closes = λ s h. moved s (through g p s) (at s h) }
    where
      at :
          (s : Station)
          → is_empty s.exit.iu_no ≡ false
          → (marks (g (f s).state).sent ≡ [])
            ⊎ (P × (marks (g (f s).state).sent ≡ closed (f s).state))
      at s h = q.closes (f s).state (ap is_empty (p.keeps s).iu_no ∙ h)

      moved :
          (s : Station)
          → marks ((f then_op g) s).sent ≡ marks (g (f s).state).sent
          → (marks (g (f s).state).sent ≡ [])
            ⊎ (P × (marks (g (f s).state).sent ≡ closed (f s).state))
          → (marks ((f then_op g) s).sent ≡ []) ⊎ (P × (marks ((f then_op g) s).sent ≡ closed s))
      moved s e (inl k) = inl (e ∙ k)
      moved s e (inr (p', k)) = inr (p', e ∙ k ∙ closed-Kept.same (p.keeps s))

  -- A test of the state, which the second part may use where it fails.
  pub split-MayClose :
      (b : Station → Bool) {f g : Op}
      → MayClose P f
      → MayClose P g
      → MayClose P (λ s. if b s then f s else g s)
  split-MayClose b {f = f} {g = g} p q = record { closes = λ s h. at s h (b s) }
    where
      at :
          (s : Station)
          → is_empty s.exit.iu_no ≡ false
          → (c : Bool)
          → (marks (if c then f s else g s).sent ≡ [])
            ⊎ (P × (marks (if c then f s else g s).sent ≡ closed s))
      at s h true = p.closes s h
      at s h false = q.closes s h

  -- The first part may use that the test holds.
  pub if-MayClose :
      (b : Bool) {f g : Op}
      → ((b ≡ true) → MayClose P f)
      → MayClose P g
      → MayClose P (if b then f else g)
  if-MayClose true p q = p refl
  if-MayClose false p q = q

set_ticket-Gate : Gate true set_ticket
unfolding set_ticket
set_ticket-Gate = record { silent = λ s. refl; goes = λ s. refl; keeps = λ s. ground arith }

pub marks-ticket_ok : (env : Env) (s : Station) → marks (ticket_ok env s).sent ≡ closed s
unfolding ticket_ok
marks-ticket_ok env =
    past _ set_ticket-Gate closed-Kept (marks-close_exit_operation env free_parking)

pub ticket_ok-MayClose : {P : Type 0} (env : Env) → P → MayClose P (ticket_ok env)
ticket_ok-MayClose env p = record { closes = λ s h. inr (p, marks-ticket_ok env s) }
