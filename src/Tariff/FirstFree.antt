-- ===== src/Tariff/FirstFree.antt =====
-- The first minutes of a stay, which `CalFeeRAM2GR` of db.cpp charges by fixed amounts.
use my_linux_pbs.Base.{ℕ, ◌+◌, ◌*◌, Bool, not, ◌&&◌, ◌||◌, ◌==◌, ltb, if◌then◌else◌}
use my_linux_pbs.Clock.{within}
use my_linux_pbs.Tariff.{Amount, Zone, Rates}
use my_linux_pbs.Tariff.Day.{Calc}

-- `settled`: the moment that is reached, the amount, and whether the minutes are used up.
-- `left`: the stay ends within them, with an amount.
pub data Freed : Type 0 where
  settled : ℕ → Amount → Bool → Freed
  left : Amount → Freed

-- The stay up to `now` in the zone `z` that ends at `zone_end`, before a zone of rate type `next`.
-- `freed` is what `bFirstFreed` becomes where the minutes are settled.
module _ (r : Rates) (z : Zone) (zone_end now next cutoff : ℕ) (freed : Bool) where
  unfoldable pub used_up : Bool
  used_up = freed || (r.first_hour_mode == 1)

  -- The stay ends at `pt`, or goes on.
  unfoldable pub reaches : ℕ → Amount → Freed → Freed
  reaches pt fee more = if within pt now 0 then left fee else more

  abbrev pub jump : ℕ → ℕ → ℕ
  jump pt minutes = if cutoff == 1 then zone_end else pt + minutes * 60

  -- The third amount, behind the first two, unless a zone that is charged per entry begins.
  unfoldable pub third : ℕ → Freed
  unfolding used_up reaches
  third pt =
      let pt' = pt + z.third_free * 60 in
      let fee = z.first_add + z.second_add in
      let fee' = fee + z.third_add in
      if ltb 2 r.first_hour
      then if within pt zone_end 0 && (next == 2)
        then settled pt fee used_up
        else reaches pt' fee' (settled pt' fee' used_up)
      else settled pt fee used_up

  -- The zone ends within the first minutes.
  unfoldable pub short_zone : ℕ → Freed
  unfolding third
  short_zone pt =
      let pt' = jump pt z.first_free in
      let pt'' = pt' + z.second_free * 60 in
      let fee = z.first_add in
      let more =
        if ltb 1 r.first_hour && (cutoff == 0)
        then if within pt' zone_end 0 && (next == 2)
          then settled pt' fee used_up
          else reaches pt'' (fee + z.second_add) (third pt'')
        else settled pt' fee used_up in
      reaches pt' fee more

  -- The zone ends behind the first and the second minutes.
  unfoldable pub long_third : ℕ → Freed
  unfolding used_up reaches
  long_third pt =
      let fee = z.first_add + z.second_add in
      let fee' = fee + z.third_add in
      let pt' =
        if within pt zone_end z.third_free then jump pt z.third_free else pt + z.third_free * 60 in
      if ltb 2 r.first_hour
      then reaches pt' fee' (settled pt' fee' used_up)
      else settled pt fee freed

  -- The zone ends behind the first minutes.
  unfoldable pub long_zone : ℕ → Freed
  unfolding third long_third
  long_zone pt =
      let pt' = pt + z.first_free * 60 in
      let fee = z.first_add in
      let fee' = fee + z.second_add in
      let jumped = jump pt' z.second_free in
      let added = pt' + z.second_free * 60 in
      let third_jumped = if cutoff == 0 then third jumped else settled jumped fee' used_up in
      let more =
        if ltb 1 r.first_hour
        then if within pt' zone_end z.second_free
          then reaches jumped fee' third_jumped
          else reaches added fee' (long_third added)
        else settled pt' fee freed in
      reaches pt' fee more

  unfoldable pub first_minutes : ℕ → Freed
  unfolding short_zone long_zone
  first_minutes pt = if within pt zone_end z.first_free then short_zone pt else long_zone pt

-- Whether the first minutes apply: in mode 0 every time, else before anything is charged.
unfoldable pub has_first_minutes : Rates → Calc → Bool
has_first_minutes r s =
    ltb 0 s.current.first_free
    && ((r.first_hour_mode == 0) || (s.day_fee == 0) && (s.charge == 0))
    && not s.first_freed
    && ltb 0 r.first_hour

unfoldable pub first_free : Rates → ℕ → Calc → Freed
unfolding has_first_minutes first_minutes
first_free r now s =
    let zone_end = s.zone_time (s.current_zone + 1) in
    let next = (s.zone_rates (s.current_zone + 1)).rate_type in
    if has_first_minutes r s
    then first_minutes r s.current zone_end now next s.zone_cutoff s.first_freed s.pt
    else settled s.pt 0 s.first_freed
