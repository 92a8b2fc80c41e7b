-- ===== src/Dio/Presence.antt =====
-- Loop A and loop B of dio.cpp as one sensor for the presence of a vehicle.
use my_linux_pbs.Base.{ℕ, ◌≡◌, refl, ◌∙◌, ◌⊎◌, Bool, ◌||◌, List, [], ◌∷◌, some, arith}
use my_linux_pbs.Base.Int.{ℤ, pos}
use my_linux_pbs.Dio.Signals.{
  Channel, loop_a, loop_b, intercom, station_door, barrier_door, arm_broken, intercom_on,
  intercom_off, station_door_opened, station_door_closed, barrier_door_opened, barrier_door_closed,
  arm_broken_on, arm_broken_off, is_high,
}
use my_linux_pbs.Dio.Scan.{
  Monitor, Block, ◌then_do◌, presence, status_a, status_b, status_c, plain, status_barrier,
  status_manual, status_lorry, open_too_long, save_last, scan,
}
use my_linux_pbs.Dio.Trace.{Sample, rounds, replay, replay-append, watch_loop}
use my_linux_pbs.Dio.Quiet.{
  IsQuiet, IsSilent, quiet-IsSilent, status_a-IsQuiet, status_b-IsQuiet, status_c-IsQuiet,
  plain-IsQuiet, status_manual-IsQuiet, status_lorry-IsQuiet, status_barrier-IsSilent,
  open_too_long-IsSilent,
}

-- A vehicle stands on loop A or on loop B.
abbrev pub present : (Channel → ℤ) → Bool
present v = is_high (v loop_a) || is_high (v loop_b)

-- A read that gave 0 or 1.
abbrev pub IsBinary : ℤ → Type 0
IsBinary v = (v ≡ pos 0) ⊎ (v ≡ pos 1)

abbrev pub LoopsRead : (Channel → ℤ) → Type 0
LoopsRead v = IsBinary (v loop_a) × IsBinary (v loop_b)

abbrev pub AllLoopsRead : List Sample → Type 0
AllLoopsRead [] = Unit {0}
AllLoopsRead (r ∷ rs) = LoopsRead r.curr × AllLoopsRead rs

-- A block that ends the round: it saves the values and switches nothing.
pub record Ends (curr : Channel → ℤ) (f : Block) : Type 0 where
  pub saved : (s : Monitor) → (f s).0.last ≡ curr
  pub silent : (s : Monitor) (b : Bool) → replay watch_loop b (f s).1 ≡ some b

pass :
    {curr : Channel → ℤ} {f g : Block}
    → IsSilent watch_loop f
    → Ends curr g
    → Ends curr (f then_do g)
unfolding ◌then_do◌
pass {f = f} {g = g} p q = record {
  saved = λ s. q.saved (f s).0;
  silent =
      λ s b. replay-append watch_loop b b (f s).1 (g (f s).0).1 (p.silent s b) ∙ q.silent (f s).0 b;
}

save_last-Ends : (curr : Channel → ℤ) → Ends curr (save_last curr)
unfolding save_last replay
save_last-Ends curr = record { saved = λ s. refl; silent = λ s b. refl }

module _ (curr : Channel → ℤ) (now : ℕ) where
  quiet : {f g : Block} → IsQuiet watch_loop f → Ends curr g → Ends curr (f then_do g)
  quiet p = pass (quiet-IsSilent p)

  -- Behind the presence block no event of loop A is sent.
  unfoldable pub after_presence : Block
  after_presence =
      status_a curr
      then_do status_b curr
      then_do status_c curr
      then_do plain curr intercom intercom_on intercom_off
      then_do plain curr station_door station_door_opened station_door_closed
      then_do plain curr barrier_door barrier_door_opened barrier_door_closed
      then_do status_barrier curr now
      then_do status_manual curr
      then_do status_lorry curr
      then_do plain curr arm_broken arm_broken_on arm_broken_off
      then_do open_too_long curr now
      then_do save_last curr

  pub after_presence-Ends : Ends curr after_presence
  unfolding after_presence
  after_presence-Ends = quiet (status_a-IsQuiet curr watch_loop) (
      quiet (status_b-IsQuiet curr watch_loop) (
        quiet (status_c-IsQuiet curr watch_loop refl refl) (
          quiet (plain-IsQuiet curr watch_loop intercom _ _ refl refl) (
            quiet (plain-IsQuiet curr watch_loop station_door _ _ refl refl) (
              quiet (plain-IsQuiet curr watch_loop barrier_door _ _ refl refl) (
                pass (status_barrier-IsSilent watch_loop curr now refl refl refl) (
                  quiet (status_manual-IsQuiet curr watch_loop refl refl) (
                    quiet (status_lorry-IsQuiet curr watch_loop refl refl) (
                      quiet (plain-IsQuiet curr watch_loop arm_broken _ _ refl refl) (
                        pass (open_too_long-IsSilent watch_loop curr now refl)
                          (save_last-Ends curr)))))))))))

-- The nine tests on loop A and loop B send an event exactly for a change of the presence.
presence_edge :
    (curr : Channel → ℤ) (s : Monitor)
    → LoopsRead curr
    → LoopsRead s.last
    → replay watch_loop (present s.last) (presence curr s).1 ≡ some (present curr)
unfolding presence replay
presence_edge curr s (a, b) (a', b') = ground arith

pub scan_presence :
    (curr : Channel → ℤ) (now : ℕ) (s : Monitor)
    → LoopsRead curr
    → LoopsRead s.last
    → (replay watch_loop (present s.last) (scan curr now s).1 ≡ some (present curr))
      × ((scan curr now s).0.last ≡ curr)
unfolding scan after_presence ◌then_do◌
scan_presence curr now s p q =
    let end = after_presence-Ends curr now in
    (
      replay-append watch_loop (present s.last) (present curr) (presence curr s).1 _
            (presence_edge curr s p q)
          ∙ end.silent (presence curr s).0 (present curr),
      end.saved (presence curr s).0,
    )

-- Whatever is sampled, as long as every read of loops A and B succeeds, the events LOOP_A_ON and
-- LOOP_A_OFF of a run alternate, begin with the one that the presence at the start asks for, and
-- leave off at the presence that the last sample shows.
pub rounds_presence :
    (rs : List Sample) (s : Monitor)
    → AllLoopsRead rs
    → LoopsRead s.last
    → replay watch_loop (present s.last) (rounds rs s).1 ≡ some (present (rounds rs s).0.last)
unfolding rounds replay ◌then_do◌
rounds_presence [] s p q = refl
rounds_presence (r ∷ rs) s (p, ps) q =
    let (edge, saved) = scan_presence r.curr r.now s p q in
    let t = (scan r.curr r.now s).0 in
    replay-append watch_loop (present s.last) (present r.curr) (scan r.curr r.now s).1
      (rounds rs t).1 edge
    ∙ (rw saved at (rounds_presence rs t ps (rw saved p)))
