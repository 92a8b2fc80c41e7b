-- ===== src/Dio/Alarm.antt =====
-- The open-too-long alarm is raised: the timer of dio.cpp while the barrier stays up.
use my_linux_pbs.Base.{
  ℕ, ◌-◌, ◌<◌, ◌≡◌, refl, ap, ◌∙◌, ◌⊎◌, inl, inr, true, List, [], ◌∷◌, some, arith,
}
use my_linux_pbs.Base.Int.{ℤ, pos}
use my_linux_pbs.Dio.Signals.{
  Channel, intercom, station_door, barrier_door, barrier_status, arm_broken,
}
use my_linux_pbs.Dio.Scan.{
  Monitor, Block, ◌then_do◌, status_barrier, open_too_long, save_last, scan,
}
use my_linux_pbs.Dio.Trace.{Sample, rounds, watch_too_long}
use my_linux_pbs.Dio.Quiet.{
  Keeps, IsQuiet, status_a-IsQuiet, status_b-IsQuiet, status_c-IsQuiet, plain-IsQuiet,
  status_manual-IsQuiet, status_lorry-IsQuiet,
}
use my_linux_pbs.Dio.OpenTooLong.{save_last-scan, presence-IsQuiet}

-- The contact reads 1 in every round.
abbrev pub StaysUp : List Sample → Type 0
StaysUp [] = Unit {0}
StaysUp (r ∷ rs) = (r.curr barrier_status ≡ pos 1) × StaysUp rs

-- Some round is more than `limit` seconds behind `opened`.
abbrev pub RunsOver : ℕ → ℕ → List Sample → Type 0
RunsOver limit opened [] = ⊥
RunsOver limit opened (r ∷ rs) = (limit < r.now - opened) ⊎ RunsOver limit opened rs

module _ (curr : Channel → ℤ) (now : ℕ) where
  -- The rest of a round is the timer, on a state with the same timer fields.
  record TimerOnly (f : Block) : Type 0 where
    timed :
        (s : Monitor)
        → s.last barrier_status ≡ pos 1
        → (t : Monitor) × Keeps s t × ((f s).0 ≡ (save_last curr (open_too_long curr now t).0).0)

  skip : {f g : Block} → IsQuiet watch_too_long f → TimerOnly g → TimerOnly (f then_do g)
  unfolding ◌then_do◌
  skip {f = f} q p = record {
    timed = λ s e.
        let k = q.keeps s in
        let (t, l, h) = p.timed (f s).0 (ap (λ (v : Channel → ℤ). v barrier_status) k.last ∙ e) in
        (
          t,
          record {
            last = l.last ∙ k.last;
            open_time = l.open_time ∙ k.open_time;
            is_too_long = l.is_too_long ∙ k.is_too_long;
            too_long_time = l.too_long_time ∙ k.too_long_time;
          },
          h,
        );
  }

  barrier_up :
      {g : Block}
      → curr barrier_status ≡ pos 1
      → TimerOnly g
      → TimerOnly (status_barrier curr now then_do g)
  unfolding ◌then_do◌ status_barrier
  barrier_up {g = g} up p = record { timed = λ s e. rw (up, e) (p.timed s e) }

  timer : TimerOnly (open_too_long curr now then_do save_last curr)
  unfolding ◌then_do◌ save_last
  timer = record {
    timed = λ s e. (
      s,
      record { last = refl; open_time = refl; is_too_long = refl; too_long_time = refl },
      refl,
    );
  }

  scan-TimerOnly : curr barrier_status ≡ pos 1 → TimerOnly (scan curr now)
  unfolding scan
  scan-TimerOnly up = skip (presence-IsQuiet curr curr now) (
      skip (status_a-IsQuiet curr watch_too_long) (
        skip (status_b-IsQuiet curr watch_too_long) (
          skip (status_c-IsQuiet curr watch_too_long refl refl) (
            skip (plain-IsQuiet curr watch_too_long intercom _ _ refl refl) (
              skip (plain-IsQuiet curr watch_too_long station_door _ _ refl refl) (
                skip (plain-IsQuiet curr watch_too_long barrier_door _ _ refl refl) (
                  barrier_up up (
                    skip (status_manual-IsQuiet curr watch_too_long refl refl) (
                      skip (status_lorry-IsQuiet curr watch_too_long refl refl) (
                        skip (plain-IsQuiet curr watch_too_long arm_broken _ _ refl refl)
                          timer))))))))))

-- What the timer fields are behind a round with the barrier up.
record TimerStep (now : ℕ) (s t : Monitor) : Type 0 where
  limit : t.too_long_time ≡ s.too_long_time
  keeps_alarm : s.is_too_long ≡ true → t.is_too_long ≡ true
  waits :
      (opened : ℕ)
      → s.open_time ≡ some opened
      → (t.open_time ≡ some opened) ⊎ (t.is_too_long ≡ true)
  raises :
      (opened : ℕ)
      → s.open_time ≡ some opened
      → 0 < s.too_long_time
      → s.too_long_time < now - opened
      → t.is_too_long ≡ true

timer-TimerStep :
    (curr : Channel → ℤ) (now : ℕ) (s t : Monitor)
    → Keeps s t
    → TimerStep now s (save_last curr (open_too_long curr now t).0).0
unfolding open_too_long save_last
timer-TimerStep curr now s t k = record {
  limit = ground arith;
  keeps_alarm = λ e. ground arith;
  waits = λ opened e. ground arith;
  raises = λ opened e p q. ground arith;
}

scan-TimerStep :
    (curr : Channel → ℤ) (now : ℕ) (s : Monitor)
    → curr barrier_status ≡ pos 1
    → s.last barrier_status ≡ pos 1
    → TimerStep now s (scan curr now s).0
scan-TimerStep curr now s up was =
    let (t, k, h) = (scan-TimerOnly curr now up).timed s was in
    rw h (timer-TimerStep curr now s t k)

-- A raised alarm stays while the barrier is up.
rounds_keep_alarm :
    (rs : List Sample) (s : Monitor)
    → StaysUp rs
    → s.last barrier_status ≡ pos 1
    → s.is_too_long ≡ true
    → (rounds rs s).0.is_too_long ≡ true
unfolding rounds ◌then_do◌
rounds_keep_alarm [] s up was on = on
rounds_keep_alarm (r ∷ rs) s (up, ups) was on =
    let t = scan-TimerStep r.curr r.now s up was in
    rounds_keep_alarm rs (scan r.curr r.now s).0 ups (rw (save_last-scan r.curr r.now s) up)
      (t.keeps_alarm on)

-- With a limit set, while the barrier stays up after it opened: if some round comes more than the
-- limit after the opening, the alarm is raised, and it is still raised at the end of the run.
pub rounds_raise_alarm :
    (rs : List Sample) (s : Monitor) (opened : ℕ)
    → StaysUp rs
    → s.last barrier_status ≡ pos 1
    → s.open_time ≡ some opened
    → 0 < s.too_long_time
    → RunsOver s.too_long_time opened rs
    → (rounds rs s).0.is_too_long ≡ true
unfolding rounds ◌then_do◌
rounds_raise_alarm [] s opened up was o p h = absurd h
rounds_raise_alarm (r ∷ rs) s opened (up, ups) was o p (inl h) =
    let t = scan-TimerStep r.curr r.now s up was in
    rounds_keep_alarm rs (scan r.curr r.now s).0 ups (rw (save_last-scan r.curr r.now s) up)
      (t.raises opened o p h)
rounds_raise_alarm (r ∷ rs) s opened (up, ups) was o p (inr h) =
    let t = scan-TimerStep r.curr r.now s up was in
    let was' : (scan r.curr r.now s).0.last barrier_status ≡ pos 1 =
      rw (save_last-scan r.curr r.now s) up in
    elim (t.waits opened o) [
      | inl e ↦
          rounds_raise_alarm rs (scan r.curr r.now s).0 opened ups was' e (rw t.limit p)
            (rw t.limit h)
      | inr e ↦ rounds_keep_alarm rs (scan r.curr r.now s).0 ups was' e
    ]
