-- ===== src/Station/Departure/Past.antt =====
-- Marks behind a part that leaves the barrier alone.
use my_linux_pbs.Base.{◌≡◌, refl, ◌∙◌, true, List, [], ◌∷◌, if◌then◌else◌}
use my_linux_pbs.Station.State.{Station}
use my_linux_pbs.Station.Op.{Op, ◌then_op◌}
use my_linux_pbs.Station.Marks.{Mark, opened, marks}
use my_linux_pbs.Station.Gate.{Gate, Keeps, through}
use my_linux_pbs.Station.Barrier.Opens.{can_move}
use my_linux_pbs.Station.Fee.Settled.{closed}

abbrev pub opening : Station → List Mark
opening s = if can_move s then opened ∷ [] else []

-- Marks that depend on a state through what a gate keeps.
pub record Kept (h : Station → List Mark) : Type 0 where
  pub same : {s t : Station} → Keeps s t → h t ≡ h s

pub opening-Kept : Kept opening
unfolding can_move
opening-Kept = record { same = λ k. rw (k.card_is_in, k.continue_opened) refl }

pub closed-Kept : Kept closed
unfolding can_move
closed-Kept = record { same = λ k. rw (k.iu_no, k.card_is_in, k.continue_opened) refl }

pub past :
    {f : Op} {h : Station → List Mark} (g : Op)
    → Gate true f
    → Kept h
    → ((s : Station) → marks (g s).sent ≡ h s)
    → (s : Station) → marks ((f then_op g) s).sent ≡ h s
past {f = f} g p k q s = through g p s ∙ q (f s).state ∙ k.same (p.keeps s)
