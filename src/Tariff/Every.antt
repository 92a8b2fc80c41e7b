-- ===== src/Tariff/Every.antt =====
-- What holds of the state with which a part of a turn goes on. A part that is stuck has no such
-- property, so that `Every` also says that the loops of a part end.
use my_linux_pbs.Base.{Bool, true, false, ◌≡◌, refl, if◌then◌else◌}
use my_linux_pbs.Base.Int.{ℤ}
use my_linux_pbs.Tariff.Day.{Calc, Flow, go, leave, answer, stuck, ◌and_then◌}

abbrev pub Every : (Calc → Type 0) → Flow → Type 0
Every P (go s) = P s
Every P (leave s) = Unit
Every P (answer z) = Unit
Every P stuck = ⊥

module _ (P Q : Calc → Type 0) where
  pub Every-and_then :
      (f : Flow) (k : Calc → Flow)
      → Every P f
      → ((s : Calc) → P s → Every Q (k s))
      → Every Q (f and_then k)
  Every-and_then (go s) k h next = next s h
  Every-and_then (leave s) k h next = tt
  Every-and_then (answer z) k h next = tt
  Every-and_then stuck k h next = h

  pub Every-mono : (f : Flow) → ((s : Calc) → P s → Q s) → Every P f → Every Q f
  Every-mono (go s) k h = k s h
  Every-mono (leave s) k h = tt
  Every-mono (answer z) k h = tt
  Every-mono stuck k h = h

module _ (P : Calc → Type 0) where
  pub Every-if :
      (b : Bool) (x y : Flow)
      → (b ≡ true → Every P x)
      → (b ≡ false → Every P y)
      → Every P (if b then x else y)
  Every-if true x y h k = h refl
  Every-if false x y h k = k refl

  -- A refusal before a part.
  pub Every-unless : (b : Bool) (z : ℤ) (f : Flow) → Every P f → Every P (if b then answer z else f)
  Every-unless true z f h = tt
  Every-unless false z f h = h
