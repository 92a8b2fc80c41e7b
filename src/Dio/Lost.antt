-- ===== src/Dio/Lost.antt =====
-- A failed read of a pin (`SysfsGPIO::FnGetValue` returns -1) is saved as the last value.
use my_linux_pbs.Base.{ℕ, ◌≡◌, refl, ap, ◌∙◌, Bool, true, false, [], ◌∷◌, some}
use my_linux_pbs.Base.Int.{ℤ, pos, negsuc}
use my_linux_pbs.Dio.Signals.{Channel, loop_a, loop_b}
use my_linux_pbs.Dio.Scan.{Monitor, ◌then_do◌, presence, loop_come, loop_gone, scan}
use my_linux_pbs.Dio.Trace.{
  Sample, rounds, replay, replay-append, watch_loop, watched, watched-none,
}
use my_linux_pbs.Dio.Presence.{present, after_presence, after_presence-Ends}

-- A round whose presence block sends nothing sends no event of loop A.
scan_silent :
    (curr : Channel → ℤ) (now : ℕ) (s : Monitor) (b : Bool)
    → (presence curr s).1 ≡ []
    → (replay watch_loop b (scan curr now s).1 ≡ some b) × ((scan curr now s).0.last ≡ curr)
unfolding scan after_presence ◌then_do◌
scan_silent curr now s b e =
    let end = after_presence-Ends curr now in
    (rw e (end.silent (presence curr s).0 b), end.saved (presence curr s).0)

presence_failed :
    (curr : Channel → ℤ) (s : Monitor) (n : ℕ)
    → curr loop_a ≡ negsuc n
    → curr loop_b ≡ pos 0
    → s.last loop_b ≡ pos 0
    → (presence curr s).1 ≡ []
unfolding presence loop_come loop_gone
presence_failed curr s n a b b' = rw (a, b, b')

presence_after :
    (curr : Channel → ℤ) (s : Monitor) (n : ℕ)
    → curr loop_a ≡ pos 0
    → curr loop_b ≡ pos 0
    → s.last loop_a ≡ negsuc n
    → s.last loop_b ≡ pos 0
    → (presence curr s).1 ≡ []
unfolding presence loop_come loop_gone
presence_after curr s n a b a' b' = rw (a, b, a', b')

-- The two rounds, with the value that the first one saves.
rounds_silent :
    (r r' : Sample) (s : Monitor) (b : Bool)
    → (presence r.curr s).1 ≡ []
    → (presence r'.curr (scan r.curr r.now s).0).1 ≡ []
    → replay watch_loop b (rounds (r ∷ r' ∷ []) s).1 ≡ some b
unfolding rounds ◌then_do◌
rounds_silent r r' s b e f =
    let t = (scan r.curr r.now s).0 in
    replay-append watch_loop b b (scan r.curr r.now s).1 _ (scan_silent r.curr r.now s b e).0
    ∙ replay-append watch_loop b b (scan r'.curr r'.now t).1 [] (scan_silent r'.curr r'.now t b f).0
    ∙ unfold replay in refl

-- A vehicle on loop A alone whose departure falls on a failed read leaves without LOOP_A_OFF: the
-- two rounds, the failed read and the clear one behind it, send no event of loop A, and at their
-- end no vehicle is there.
pub departure_lost :
    (r r' : Sample) (s : Monitor) (n : ℕ)
    → s.last loop_a ≡ pos 1
    → s.last loop_b ≡ pos 0
    → r.curr loop_a ≡ negsuc n
    → r.curr loop_b ≡ pos 0
    → r'.curr loop_a ≡ pos 0
    → r'.curr loop_b ≡ pos 0
    → (present s.last ≡ true)
      × (watched watch_loop (rounds (r ∷ r' ∷ []) s).1 ≡ [])
      × (present (rounds (r ∷ r' ∷ []) s).0.last ≡ false)
unfolding rounds ◌then_do◌
departure_lost r r' s n a' b' a b c d =
    let t = (scan r.curr r.now s).0 in
    let e = presence_failed r.curr s n a b b' in
    let saved = (scan_silent r.curr r.now s true e).1 in
    let at_a : t.last loop_a ≡ negsuc n = ap (λ (v : Channel → ℤ). v loop_a) saved ∙ a in
    let at_b : t.last loop_b ≡ pos 0 = ap (λ (v : Channel → ℤ). v loop_b) saved ∙ b in
    let f = presence_after r'.curr t n c d at_a at_b in
    let saved' = (scan_silent r'.curr r'.now t true f).1 in
    (
      rw a',
      watched-none watch_loop (rounds (r ∷ r' ∷ []) s).1 (rounds_silent r r' s true e f)
          (rounds_silent r r' s false e f),
      rw (saved', c, d),
    )
