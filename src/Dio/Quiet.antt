-- ===== src/Dio/Quiet.antt =====
-- The blocks of a scan that switch nothing that a watch looks at, and leave the fields that the
-- edges and the open time depend on.
use my_linux_pbs.Base.{ℕ, ◌≡◌, Bool, none, some, arith}
use my_linux_pbs.Base.Int.{ℤ}
use my_linux_pbs.Dio.Signals.{
  open_too_long_off, barrier_status_off, open_too_long_on, barrier_status_on, Channel, DioEvent,
  loop_c_on, loop_c_off, manual_open_on, manual_open_off, lorry_sensor_on, lorry_sensor_off,
}
use my_linux_pbs.Dio.Scan.{
  open_too_long, status_barrier, Monitor, Block, status_a, status_b, status_c, plain, status_manual,
  status_lorry,
}
use my_linux_pbs.Dio.Trace.{Watch, replay}

pub record Keeps (s t : Monitor) : Type 0 where
  pub last : t.last ≡ s.last
  pub open_time : t.open_time ≡ s.open_time
  pub is_too_long : t.is_too_long ≡ s.is_too_long
  pub too_long_time : t.too_long_time ≡ s.too_long_time

pub record IsQuiet (w : Watch) (f : Block) : Type 0 where
  pub keeps : (s : Monitor) → Keeps s (f s).0
  pub silent : (s : Monitor) (b : Bool) → replay w b (f s).1 ≡ some b

module _ (curr : Channel → ℤ) where
  pub status_a-IsQuiet : (w : Watch) → IsQuiet w (status_a curr)
  unfolding status_a replay
  status_a-IsQuiet w = record { keeps = λ s. ground arith; silent = λ s b. ground arith }

  pub status_b-IsQuiet : (w : Watch) → IsQuiet w (status_b curr)
  unfolding status_b replay
  status_b-IsQuiet w = record { keeps = λ s. ground arith; silent = λ s b. ground arith }

  pub status_c-IsQuiet :
      (w : Watch) → w loop_c_on ≡ none → w loop_c_off ≡ none → IsQuiet w (status_c curr)
  unfolding status_c replay
  status_c-IsQuiet w on off = record { keeps = λ s. ground arith; silent = λ s b. ground arith }

  pub plain-IsQuiet :
      (w : Watch) (ch : Channel) (on off : DioEvent)
      → w on ≡ none
      → w off ≡ none
      → IsQuiet w (plain curr ch on off)
  unfolding plain replay
  plain-IsQuiet w ch on off p q = record { keeps = λ s. ground arith; silent = λ s b. ground arith }

  pub status_manual-IsQuiet :
      (w : Watch)
      → w manual_open_on ≡ none
      → w manual_open_off ≡ none
      → IsQuiet w (status_manual curr)
  unfolding status_manual replay
  status_manual-IsQuiet w on off = record {
    keeps = λ s. ground arith;
    silent = λ s b. ground arith;
  }

  pub status_lorry-IsQuiet :
      (w : Watch)
      → w lorry_sensor_on ≡ none
      → w lorry_sensor_off ≡ none
      → IsQuiet w (status_lorry curr)
  unfolding status_lorry replay
  status_lorry-IsQuiet w on off = record { keeps = λ s. ground arith; silent = λ s b. ground arith }

-- The weaker form for a watch to which the open time does not matter.
pub record IsSilent (w : Watch) (f : Block) : Type 0 where
  pub last : (s : Monitor) → (f s).0.last ≡ s.last
  pub silent : (s : Monitor) (b : Bool) → replay w b (f s).1 ≡ some b

pub quiet-IsSilent : {w : Watch} {f : Block} → IsQuiet w f → IsSilent w f
quiet-IsSilent p = record { last = λ s. (p.keeps s).last; silent = p.silent }

module _ (w : Watch) (curr : Channel → ℤ) (now : ℕ) where
  pub status_barrier-IsSilent :
      w barrier_status_on ≡ none
      → w barrier_status_off ≡ none
      → w open_too_long_off ≡ none
      → IsSilent w (status_barrier curr now)
  unfolding status_barrier replay
  status_barrier-IsSilent on off over = record {
    last = λ s. ground arith;
    silent = λ s b. ground arith;
  }

  pub open_too_long-IsSilent : w open_too_long_on ≡ none → IsSilent w (open_too_long curr now)
  unfolding open_too_long replay
  open_too_long-IsSilent on = record { last = λ s. ground arith; silent = λ s b. ground arith }
