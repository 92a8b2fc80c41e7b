-- ===== src/Dio/OpenTooLong.antt =====
-- The open-too-long alarm of dio.cpp: `barrier_open_time_` and `bIsBarrierOpenTooLongTime_`.
use my_linux_pbs.Base.{sym, ℕ, ◌≡◌, ◌≢◌, refl, ap, ◌∙◌, true, List, [], ◌∷◌, none, some, arith}
use my_linux_pbs.Base.Int.{ℤ, pos}
use my_linux_pbs.Dio.Signals.{
  arm_broken, barrier_door, station_door, intercom, Channel, barrier_status,
}
use my_linux_pbs.Dio.Scan.{
  scan, Monitor, Block, ◌then_do◌, presence, status_barrier, open_too_long, save_last, loop_come,
  loop_gone,
}
use my_linux_pbs.Dio.Trace.{rounds, Sample, replay, replay-append, watch_too_long}
use my_linux_pbs.Dio.Quiet.{
  status_lorry-IsQuiet, status_manual-IsQuiet, plain-IsQuiet, status_c-IsQuiet, status_b-IsQuiet,
  status_a-IsQuiet, Keeps, IsQuiet,
}
use my_linux_pbs.Dio.Presence.{IsBinary}

-- With `v` on the barrier's contact: an alarm or a running open time means that the barrier is up,
-- and the two exclude one another.
pub record IsCoherent (v : ℤ) (s : Monitor) : Type 0 where
  pub alarm_up : s.is_too_long ≡ true → v ≡ pos 1
  pub alarm_done : s.is_too_long ≡ true → s.open_time ≡ none
  pub timed_up : s.open_time ≢ none → v ≡ pos 1

abbrev pub AllBarrierRead : List Sample → Type 0
AllBarrierRead [] = Unit {0}
AllBarrierRead (r ∷ rs) = IsBinary (r.curr barrier_status) × AllBarrierRead rs

-- A block between two values of the contact that keeps the coherence and whose events agree with
-- the alarm; the values of the last round are `last` until the round ends.
record Agrees (last : Channel → ℤ) (v v' : ℤ) (f : Block) : Type 0 where
  coherent : (s : Monitor) → s.last ≡ last → IsCoherent v s → IsCoherent v' (f s).0
  agreed :
      (s : Monitor)
      → s.last ≡ last
      → IsCoherent v s
      → replay watch_too_long s.is_too_long (f s).1 ≡ some (f s).0.is_too_long

record Passes (last : Channel → ℤ) (v v' : ℤ) (f : Block) : Type 0 where
  agrees : Agrees last v v' f
  saved : (s : Monitor) → (f s).0.last ≡ s.last

IsCoherent-Keeps : {v : ℤ} {s t : Monitor} → Keeps s t → IsCoherent v s → IsCoherent v t
IsCoherent-Keeps k c = record {
  alarm_up = λ e. c.alarm_up (ground arith);
  alarm_done = λ e. k.open_time ∙ c.alarm_done (ground arith);
  timed_up = λ e. c.timed_up (λ n. e (k.open_time ∙ n));
}

module _ {last : Channel → ℤ} {v : ℤ} where
  quiet : {f : Block} → IsQuiet watch_too_long f → Passes last v v f
  quiet {f = f} q = record {
    agrees = record {
      coherent = λ s e. IsCoherent-Keeps (q.keeps s);
      agreed = λ s e c. q.silent s s.is_too_long ∙ ap some (sym (q.keeps s).is_too_long);
    };
    saved = λ s. (q.keeps s).last;
  }

  follow :
      {v' w : ℤ} {f g : Block}
      → Passes last v v' f
      → Agrees last v' w g
      → Agrees last v w (f then_do g)
  unfolding ◌then_do◌
  follow {f = f} {g = g} p q = record {
    coherent = λ s e c. q.coherent (f s).0 (p.saved s ∙ e) (p.agrees.coherent s e c);
    agreed = λ s e c.
        replay-append watch_too_long s.is_too_long (f s).0.is_too_long (f s).1 (g (f s).0).1
          (p.agrees.agreed s e c)
        ∙ q.agreed (f s).0 (p.saved s ∙ e) (p.agrees.coherent s e c);
  }

module _ (curr last : Channel → ℤ) (now : ℕ) where
  pub presence-IsQuiet : IsQuiet watch_too_long (presence curr)
  unfolding presence loop_come loop_gone replay
  presence-IsQuiet = record { keeps = λ s. ground arith; silent = λ s b. ground arith }

  -- With binary reads the alarm goes off, and the timer on or off, with the contact.
  status_barrier-Passes :
      IsBinary (curr barrier_status)
      → IsBinary (last barrier_status)
      → Passes last (last barrier_status) (curr barrier_status) (status_barrier curr now)
  unfolding status_barrier replay
  status_barrier-Passes p q = record {
    agrees = record {
      coherent = λ s e c. ground (arith, ap (λ (l : Channel → ℤ). l barrier_status) e);
      agreed = λ s e c. ground (arith, ap (λ (l : Channel → ℤ). l barrier_status) e);
    };
    saved = λ s. ground arith;
  }

  open_too_long-Passes : {v : ℤ} → Passes last v v (open_too_long curr now)
  unfolding open_too_long replay
  open_too_long-Passes = record {
    agrees = record { coherent = λ s e c. ground arith; agreed = λ s e c. ground arith };
    saved = λ s. ground arith;
  }

  save_last-Agrees : {v : ℤ} → Agrees last v v (save_last curr)
  unfolding save_last replay
  save_last-Agrees = record { coherent = λ s e c. ground arith; agreed = λ s e c. refl }

scan-Agrees :
    (curr last : Channel → ℤ) (now : ℕ)
    → IsBinary (curr barrier_status)
    → IsBinary (last barrier_status)
    → Agrees last (last barrier_status) (curr barrier_status) (scan curr now)
unfolding scan
scan-Agrees curr last now p q = follow (quiet (presence-IsQuiet curr last now)) (
    follow (quiet (status_a-IsQuiet curr watch_too_long)) (
      follow (quiet (status_b-IsQuiet curr watch_too_long)) (
        follow (quiet (status_c-IsQuiet curr watch_too_long refl refl)) (
          follow (quiet (plain-IsQuiet curr watch_too_long intercom _ _ refl refl)) (
            follow (quiet (plain-IsQuiet curr watch_too_long station_door _ _ refl refl)) (
              follow (quiet (plain-IsQuiet curr watch_too_long barrier_door _ _ refl refl)) (
                follow (status_barrier-Passes curr last now p q) (
                  follow (quiet (status_manual-IsQuiet curr watch_too_long refl refl)) (
                    follow (quiet (status_lorry-IsQuiet curr watch_too_long refl refl)) (
                      follow (quiet (plain-IsQuiet curr watch_too_long arm_broken _ _ refl refl)) (
                        follow (open_too_long-Passes curr last now)
                          (save_last-Agrees curr last now))))))))))))

pub save_last-scan : (curr : Channel → ℤ) (now : ℕ) (s : Monitor) → (scan curr now s).0.last ≡ curr
unfolding scan
save_last-scan curr now s = ends
  where
    ends : (scan curr now s).0.last ≡ curr
    ends = refl

-- As long as every read of the barrier's contact succeeds, the open-too-long events of a run
-- alternate and agree with `bIsBarrierOpenTooLongTime_`, and at its end the alarm or a running open
-- time means that the barrier is up, the two never at once.
pub rounds_open_too_long :
    (rs : List Sample) (s : Monitor)
    → AllBarrierRead rs
    → IsBinary (s.last barrier_status)
    → IsCoherent (s.last barrier_status) s
    → (replay watch_too_long s.is_too_long (rounds rs s).1 ≡ some (rounds rs s).0.is_too_long)
      × IsCoherent ((rounds rs s).0.last barrier_status) (rounds rs s).0
unfolding rounds replay ◌then_do◌
rounds_open_too_long [] s p q c = (refl, c)
rounds_open_too_long (r ∷ rs) s (p, ps) q c =
    let t = (scan r.curr r.now s).0 in
    let a = scan-Agrees r.curr s.last r.now p q in
    let saved = save_last-scan r.curr r.now s in
    let rest = rounds_open_too_long rs t ps (rw saved p) (rw saved (a.coherent s refl c)) in
    (
      replay-append watch_too_long s.is_too_long t.is_too_long (scan r.curr r.now s).1
            (rounds rs t).1 (a.agreed s refl c)
          ∙ rest.0,
      rest.1,
    )
