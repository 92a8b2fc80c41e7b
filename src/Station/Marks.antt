-- ===== src/Station/Marks.antt =====
-- The trace of an operation at the barrier: what is saved and when the barrier is pulsed open.
use my_linux_pbs.Base.{
  append_assoc, sym, ◌≡◌, refl, ap, ◌∙◌, List, [], ◌∷◌, ◌++◌, ◌==◌, if◌then◌else◌, Bytes,
}
use my_linux_pbs.Station.State.{Action, entry_inserted, exit_inserted, open_output}

pub data Mark : Type 0 where
  entry_saved : Bytes → Mark
  exit_saved : Bytes → Mark
  opened : Mark

abbrev pub mark : Action → List Mark
mark (entry_inserted e) = entry_saved e.iu_tk_no ∷ []
mark (exit_inserted x) = exit_saved x.iu_no ∷ []
mark (open_output n) = if n == 1 then opened ∷ [] else []
mark _ = []

abbrev pub marks : List Action → List Mark
marks [] = []
marks (a ∷ as') = mark a ++ marks as'

pub marks-append : (xs ys : List Action) → marks (xs ++ ys) ≡ marks xs ++ marks ys
marks-append [] ys = refl
marks-append (x ∷ xs) ys =
    ap (◌++◌ (mark x)) (marks-append xs ys) ∙ sym (append_assoc (mark x) (marks xs) (marks ys))
