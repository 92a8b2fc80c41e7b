-- ===== src/Dio/Trace.antt =====
-- What a sequence of scans sends, read as a history: the loop of
-- `monitoringDIOChangeThreadFunction` over a list of samples, and the replay of on and off events.
use my_linux_pbs.Base.{
  ℕ, ◌≡◌, refl, Bool, true, false, List, [], ◌∷◌, ◌++◌, Option, none, some, arith,
}
use my_linux_pbs.Base.Int.{ℤ}
use my_linux_pbs.Dio.Signals.{
  Channel, DioEvent, loop_a_on, loop_a_off, open_too_long_on, open_too_long_off, Output, event,
  input_status,
}
use my_linux_pbs.Dio.Scan.{Block, ◌then_do◌, scan}

-- The values that one round reads, and its time.
pub record Sample : Type 0 where
  pub curr : Channel → ℤ
  pub now : ℕ

-- The `while` loop, over the samples of its rounds.
unfoldable pub rounds : List Sample → Block
unfolding ◌then_do◌
rounds [] s = (s, [])
rounds (r ∷ rs) s = (scan r.curr r.now then_do rounds rs) s

-- Which events switch something on or off.
abbrev pub Watch : Type 0
Watch = DioEvent → Option Bool

abbrev pub watch_loop : Watch
watch_loop loop_a_on = some true
watch_loop loop_a_off = some false
watch_loop _ = none

abbrev pub watch_too_long : Watch
watch_too_long open_too_long_on = some true
watch_too_long open_too_long_off = some false
watch_too_long _ = none

-- Switching on what is on, or off what is off, is a fault.
abbrev pub switch : Bool → Option Bool → Option Bool
switch b none = some b
switch true (some false) = some false
switch false (some true) = some true
switch _ (some _) = none

abbrev pub react : Watch → Bool → Output → Option Bool
react w b (event e) = switch b (w e)
react w b (input_status _ _) = some b

-- The state behind a history, and `none` if some event in it switches nothing.
unfoldable pub replay : Watch → Bool → List Output → Option Bool
replay w b [] = some b
replay w b (o ∷ os) = elim (react w b o) [ none ↦ none | some c ↦ replay w c os ]

pub replay-append :
    (w : Watch) (b c : Bool) (xs ys : List Output)
    → replay w b xs ≡ some c
    → replay w b (xs ++ ys) ≡ replay w c ys
unfolding replay
replay-append w b c [] ys h = ground arith
replay-append w b c (x ∷ xs) ys h = go (react w b x) (λ d. replay-append w d c xs ys) h
  where
    go :
        (r : Option Bool)
        → ((d : Bool) → replay w d xs ≡ some c → replay w d (xs ++ ys) ≡ replay w c ys)
        → elim r [ none ↦ none | some d ↦ replay w d xs ] ≡ some c
        → elim r [ none ↦ none | some d ↦ replay w d (xs ++ ys) ] ≡ replay w c ys
    go none ih e = ground arith
    go (some d) ih e = ih d e

-- The events of a history that a watch knows.
unfoldable pub watched : Watch → List Output → List Output
watched w [] = []
watched w (event e ∷ os) =
    let rest = watched w os in elim (w e) [ none ↦ rest | some b ↦ event e ∷ rest ]
watched w (input_status _ _ ∷ os) = watched w os

-- The first event that is watched is a fault from on or from off.
pub watched-none :
    (w : Watch) (xs : List Output)
    → replay w true xs ≡ some true
    → replay w false xs ≡ some false
    → watched w xs ≡ []
unfolding replay watched
watched-none w [] h k = refl
watched-none w (input_status _ _ ∷ os) h k = watched-none w os h k
watched-none w (event e ∷ os) h k = at (w e) (watched-none w os) h k
  where
    at :
        (x : Option Bool)
        → (replay w true os ≡ some true → replay w false os ≡ some false → watched w os ≡ [])
        → elim (switch true x) [ none ↦ none | some c ↦ replay w c os ] ≡ some true
        → elim (switch false x) [ none ↦ none | some c ↦ replay w c os ] ≡ some false
        → elim x [ none ↦ watched w os | some b ↦ event e ∷ watched w os ] ≡ []
    at none ih p q = ih p q
    at (some true) ih p q = cc
    at (some false) ih p q = cc
