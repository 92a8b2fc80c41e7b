-- ===== src/Station/Departure/Safe.antt =====
-- The barrier at the exit opens behind the record of the exit.
use my_linux_pbs.Base.{
  ◌≡◌, refl, ap, sym, ◌∙◌, subst, inl, inr, ◌⊎◌, Bool, true, false, List, [], ◌∷◌, ◌++◌,
  if◌then◌else◌, Bytes, is_empty, Bool-cases, append-nil, append_assoc,
}
use my_linux_pbs.Station.State.{Station, Exit, Action}
use my_linux_pbs.Station.Op.{Outcome, Op, call, finish, ◌then_op◌, behind}
use my_linux_pbs.Station.Env.{Env}
use my_linux_pbs.Station.Marks.{Mark, exit_saved, opened, marks, marks-append}
use my_linux_pbs.Station.Gate.{Gate, through, go_on-Gate, finish-Gate}
use my_linux_pbs.Station.Exit.{TransType, close_exit_operation}
use my_linux_pbs.Station.Exit.Closing.{marks-close_exit_operation}
use my_linux_pbs.Station.Departure.{ends_if, from_exit, set_exit}
use my_linux_pbs.Station.Barrier.Opens.{can_move}

-- Nothing, the record of the exit of `iu`, or that record and then the pulse.
abbrev pub Recorded : Bytes → List Mark → Type 0
Recorded iu ms = (ms ≡ []) ⊎ (ms ≡ exit_saved iu ∷ []) ⊎ (ms ≡ exit_saved iu ∷ opened ∷ [])

-- An operation that opens only behind the record of the number that it starts with.
pub record Safe (f : Op) : Type 0 where
  pub records :
      (s : Station) → is_empty s.exit.iu_no ≡ false → Recorded s.exit.iu_no (marks (f s).sent)

pub Gate-Safe : {b : Bool} {f : Op} → Gate b f → Safe f
Gate-Safe g = record { records = λ s h. inl (g.silent s) }

pub close-Safe : (env : Env) (t : TransType) → Safe (close_exit_operation env t)
close-Safe env t = record {
  records = λ s h. moved s (marks-close_exit_operation env t s) h (Bool-cases (can_move s));
}
  where
    moved :
        (s : Station) {ms : List Mark}
        → ms
          ≡ (if is_empty s.exit.iu_no then [] else exit_saved s.exit.iu_no ∷ [])
            ++ (if can_move s then opened ∷ [] else [])
        → is_empty s.exit.iu_no ≡ false
        → (can_move s ≡ true) ⊎ (can_move s ≡ false)
        → Recorded s.exit.iu_no ms
    moved s e h (inl b) = inr (inr (e ∙ rw (h, b) refl))
    moved s e h (inr b) = inr (inl (e ∙ rw (h, b) refl))

pub call-Safe : {f : Op} → Safe f → Safe (call f)
unfolding call
call-Safe p = record { records = λ s h. p.records s h }

infixr 20 ◌then_safe◌
-- Behind a gate.
pub ◌then_safe◌ : {b : Bool} {f g : Op} → Gate b f → Safe g → Safe (f then_op g)
◌then_safe◌ {b = b} {f = f} {g = g} p q = record { records = λ s h. chosen b s (through g p s) h }
  where
    chosen :
        (c : Bool) (s : Station)
        → marks ((f then_op g) s).sent ≡ (if c then marks (g (f s).state).sent else [])
        → is_empty s.exit.iu_no ≡ false
        → Recorded s.exit.iu_no (marks ((f then_op g) s).sent)
    chosen false s e h = inl e
    chosen true s e h =
        let k = (p.keeps s).iu_no in
        subst (Recorded s.exit.iu_no) (sym e) (
          subst (λ n. Recorded n (marks (g (f s).state).sent)) k
            (q.records (f s).state (ap is_empty k ∙ h)))

-- Before a gate.
pub Safe-then : {b : Bool} {f g : Op} → Safe f → Gate b g → Safe (f then_op g)
unfolding ◌then_op◌ behind
Safe-then {f = f} {g = g} p q = record { records = λ s h. ends s h (Bool-cases (f s).go) }
  where
    ends :
        (s : Station)
        → is_empty s.exit.iu_no ≡ false
        → ((f s).go ≡ true) ⊎ ((f s).go ≡ false)
        → Recorded s.exit.iu_no (marks ((f then_op g) s).sent)
    ends s h (inl b) = rw b (
        subst (Recorded s.exit.iu_no)
          (sym (
            marks-append (f s).sent (g (f s).state).sent
            ∙ ap (λ m. marks (f s).sent ++ m) (q.silent (f s).state)
            ∙ append-nil (marks (f s).sent)))
          (p.records s h))
    ends s h (inr b) = rw b (p.records s h)

pub if-Safe : (b : Bool) {f g : Op} → Safe f → Safe g → Safe (if b then f else g)
if-Safe true p q = p
if-Safe false p q = q

-- What stands behind a part that ends the operation does not run.
ended-go : (f : Op) (s : Station) → ((f then_op finish) s).go ≡ false
unfolding ◌then_op◌ finish behind
ended-go f s = elim (Bool-cases (f s).go) [ inl b ↦ rw b refl | inr b ↦ rw b refl ]

stopped_sent : (f g : Op) (s : Station) → (f s).go ≡ false → ((f then_op g) s).sent ≡ (f s).sent
unfolding ◌then_op◌
stopped_sent f g s h = rw h refl

pub ends-Safe : (b : Bool) {f g : Op} → Safe f → Safe g → Safe (ends_if b f then_op g)
unfolding ends_if
ends-Safe true {f = f} {g = g} p q = record {
  records = λ s h.
      subst (λ out. Recorded s.exit.iu_no (marks out))
        (sym (stopped_sent (f then_op finish) g s (ended-go f s)))
        ((Safe-then p finish-Gate).records s h);
}
ends-Safe false p q = go_on-Gate then_safe q

-- A last part may also not end.
pub end-Safe : (b : Bool) {f : Op} → Safe f → Safe (ends_if b f)
unfolding ends_if
end-Safe true p = Safe-then p finish-Gate
end-Safe false p = Gate-Safe go_on-Gate

pub from_exit-Safe : {f : Exit → Op} → ((x : Exit) → Safe (f x)) → Safe (from_exit f)
from_exit-Safe p = record { records = λ s h. (p s.exit).records s h }

pub set_exit-Gate :
    (f : Exit → Exit) → ((x : Exit) → (f x).iu_no ≡ x.iu_no) → Gate true (set_exit f)
unfolding set_exit
set_exit-Gate f h = record {
  silent = λ s. refl;
  goes = λ s. refl;
  keeps = λ s. record {
    card_is_in = refl;
    continue_opened = refl;
    saved_trans = refl;
    iu_tk_no = refl;
    entry_ok = refl;
    iu_no = h s.exit;
  };
}

pub from_exit-then :
    (f : Exit → Op) (g : Op) → ((x : Exit) → Safe (f x then_op g)) → Safe (from_exit f then_op g)
unfolding ◌then_op◌
from_exit-then f g p = record { records = λ s h. (p s.exit).records s h }

pub if-then :
    (b : Bool) (f g h : Op)
    → Safe (f then_op h)
    → Safe (g then_op h)
    → Safe ((if b then f else g) then_op h)
if-then true f g h p q = p
if-then false f g h p q = q

-- Sequences associate: what the second part sends stands behind the first in both orders.
next : Outcome → Op → Outcome
next o g = if o.go then behind o.sent (g o.state) else o

behind-next :
    (out : List Action) (t : Station) (out' : List Action) (b : Bool) (h : Op)
    → (next (behind out (record { state = t; sent = out'; go = b })) h).sent
      ≡ (behind out (next (record { state = t; sent = out'; go = b }) h)).sent
unfolding next behind
behind-next out t out' true h = append_assoc out out' (h t).sent
behind-next out t out' false h = refl

next_assoc :
    (t : Station) (out : List Action) (b : Bool) (g h : Op)
    → (next (next (record { state = t; sent = out; go = b }) g) h).sent
      ≡ (next (record { state = t; sent = out; go = b }) (g then_op h)).sent
unfolding next ◌then_op◌
next_assoc t out true g h = behind-next out (g t).state (g t).sent (g t).go h
next_assoc t out false g h = refl

then_op_assoc :
    (f g h : Op) (s : Station)
    → (((f then_op g) then_op h) s).sent ≡ ((f then_op (g then_op h)) s).sent
unfolding ◌then_op◌ next
then_op_assoc f g h s = next_assoc (f s).state (f s).sent (f s).go g h

pub Safe-assoc : (f g h : Op) → Safe (f then_op (g then_op h)) → Safe ((f then_op g) then_op h)
Safe-assoc f g h p = record {
  records = λ s e.
      subst (λ out. Recorded s.exit.iu_no (marks out)) (sym (then_op_assoc f g h s))
        (p.records s e);
}
