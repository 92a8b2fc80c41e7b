-- ===== src/Dio/ManualFlag.antt =====
-- `manual_open_barrier_status_flag_` of dio.cpp: set by a scan and by its setter.
use my_linux_pbs.Base.{ℕ, ◌≡◌, refl, arith}
use my_linux_pbs.Base.Int.{ℤ}
use my_linux_pbs.Dio.Signals.{Channel, DioEvent, intercom, station_door, barrier_door, arm_broken}
use my_linux_pbs.Dio.Scan.{
  loop_gone, loop_come, Monitor, Block, ◌then_do◌, set_manual_flag, presence, status_a, status_b,
  status_c, plain, status_barrier, status_manual, status_lorry, open_too_long, save_last, scan,
}

-- A run in which the event thread calls the setter between the rounds of the scan.
pub data Step : Monitor → Monitor → Type 0 where
  scanned : (curr : Channel → ℤ) (now : ℕ) (s : Monitor) → Step s (scan curr now s).0
  setter_called : (flag : ℕ) (s : Monitor) → Step s (set_manual_flag flag s)

pub data Reach (s : Monitor) : Monitor → Type 0 where
  here : Reach s s
  next : {t u : Monitor} → Reach s t → Step t u → Reach s u

record StaysSet (f : Block) : Type 0 where
  stays : (s : Monitor) → s.manual_flag ≡ 1 → (f s).0.manual_flag ≡ 1

both : {f g : Block} → StaysSet f → StaysSet g → StaysSet (f then_do g)
unfolding ◌then_do◌
both {f = f} p q = record { stays = λ s e. q.stays (f s).0 (p.stays s e) }

module _ (curr : Channel → ℤ) (now : ℕ) where
  stays_presence : StaysSet (presence curr)
  unfolding presence loop_come loop_gone
  stays_presence = record { stays = λ s e. ground arith }

  stays_a : StaysSet (status_a curr)
  unfolding status_a
  stays_a = record { stays = λ s e. ground arith }

  stays_b : StaysSet (status_b curr)
  unfolding status_b
  stays_b = record { stays = λ s e. ground arith }

  stays_c : StaysSet (status_c curr)
  unfolding status_c
  stays_c = record { stays = λ s e. ground arith }

  stays_plain : (ch : Channel) (on off : DioEvent) → StaysSet (plain curr ch on off)
  unfolding plain
  stays_plain ch on off = record { stays = λ s e. ground arith }

  stays_barrier : StaysSet (status_barrier curr now)
  unfolding status_barrier
  stays_barrier = record { stays = λ s e. ground arith }

  stays_manual : StaysSet (status_manual curr)
  unfolding status_manual set_manual_flag
  stays_manual = record { stays = λ s e. ground arith }

  stays_lorry : StaysSet (status_lorry curr)
  unfolding status_lorry
  stays_lorry = record { stays = λ s e. ground arith }

  stays_timer : StaysSet (open_too_long curr now)
  unfolding open_too_long
  stays_timer = record { stays = λ s e. ground arith }

  stays_last : StaysSet (save_last curr)
  unfolding save_last
  stays_last = record { stays = λ s e. ground arith }

  scan-StaysSet : StaysSet (scan curr now)
  unfolding scan
  scan-StaysSet = both stays_presence (
      both stays_a (
        both stays_b (
          both stays_c (
            both (stays_plain intercom _ _) (
              both (stays_plain station_door _ _) (
                both (stays_plain barrier_door _ _) (
                  both stays_barrier (
                    both stays_manual (
                      both stays_lorry
                        (both (stays_plain arm_broken _ _) (both stays_timer stays_last)))))))))))

Step-StaysSet : {s t : Monitor} → Step s t → s.manual_flag ≡ 1 → t.manual_flag ≡ 1
unfolding set_manual_flag
Step-StaysSet (scanned curr now s) e = (scan-StaysSet curr now).stays s e
Step-StaysSet (setter_called flag s) e = refl

-- Once the manual-open flag is 1 it is 1 for good, whatever the scans read and whatever value the
-- event thread passes to `FnSetManualOpenBarrierStatusFlag`, 0 included.
pub Reach-StaysSet : {s t : Monitor} → Reach s t → s.manual_flag ≡ 1 → t.manual_flag ≡ 1
Reach-StaysSet here e = e
Reach-StaysSet (next r st) e = Step-StaysSet st (Reach-StaysSet r e)
