-- ===== src/Tariff/Turn.antt =====
-- How one turn of the loop of `CalFeeRAM2GR` reads a day, finds a zone and charges it.
use my_linux_pbs.Base.{
  ◌&&◌, subst, ℕ, zero, suc, ◌∙◌, sym, subst, ◌+◌, ◌-◌, ◌*◌, ◌/◌, ◌≤◌, ◌<◌, ◌≡◌, refl, inl, inr,
  ◌⊎◌, leb, ◌==◌, Bool, true, false, Option, none, some, Bool-cases, arith, ◌||◌, ltb,
  if◌then◌else◌,
}
use native.Mathlib.Nat.{add-zero}
use my_linux_pbs.Base.Int.{pos}
use my_linux_pbs.Clock.{within, day_of}
use my_linux_pbs.Tariff.{Zone, Rates, Tariff}
use my_linux_pbs.Tariff.DayType.{get_day_type}
use my_linux_pbs.Tariff.Day.{
  ◌and_then◌, Flow, leave, Flow, Calc, go, answer, error_code, day_info, load_day, check_zones,
  zone_times, day_read, max_zone_of, zone_of, rates_of_zones,
}
use my_linux_pbs.Tariff.Charge.{zone_end}
use my_linux_pbs.Tariff.Fee.{
  close_zone, next_day, turn, until_now, zone_from, zone_at, enter_zone, charge_24h, has_24h,
  block_or_zone, grace, charge_zone,
}
use my_linux_pbs.Tariff.Every.{Every-and_then, Every-unless, Every, Every-if, Every-mono}
use my_linux_pbs.Tariff.Later.{SameDay, IsLater, IsForward, charge_zone-IsLater}

-- The last start of a zone lies behind the day that is charged.
abbrev pub Covers : Calc → Type 0
Covers s = (s.pd + 1) * 1440 ≤ s.zone_time (s.max_zone + 1) / 60

-- No zone of the arrays has a negative block.
abbrev pub AreForward : Calc → Type 0
AreForward s = (k : ℕ) → IsForward (s.zone_rates k)

abbrev pub IsReady : Calc → Type 0
IsReady s = (s.got_day_info ≡ true → Covers s) × AreForward s

abbrev IsKept : Calc → Type 0
IsKept s = Covers s × AreForward s

-- No zone that a calculation for a rate type reads has a negative block.
abbrev pub IsForwardTable : Rates → ℕ → Type 0
IsForwardTable r trans_type = (d k : ℕ) → IsForward (zone_of (r.tariff trans_type d) k)

-- The day is read, from state `s`.
abbrev IsRead : Calc → Calc → Type 0
IsRead s s' = (s'.pd ≡ s.pd) × (s'.pt ≡ s.pt) × IsKept s'

zone_times-last :
    (r : Rates) (s : Calc) (last today next : Tariff)
    → (s.pd + 1) * 86400 ≤ zone_times r s last today next (max_zone_of today + 1)
unfolding zone_times
zone_times-last r s last today next = ground arith

if-IsForward : (b : Bool) (x y : Zone) → IsForward x → IsForward y → IsForward (if b then x else y)
if-IsForward true x y h k = h
if-IsForward false x y h k = k

rates_of_zones-IsForward :
    (r : Rates) (s : Calc) (last today next : Tariff)
    → ((k : ℕ) → IsForward (zone_of last k))
    → ((k : ℕ) → IsForward (zone_of today k))
    → AreForward s
    → (k : ℕ) → IsForward (rates_of_zones r s last today next k)
unfolding rates_of_zones
rates_of_zones-IsForward r s last today next h h' kept k =
    if-IsForward (k == 0) _ _ (h (max_zone_of last - 1)) (
      if-IsForward (leb k (max_zone_of today)) _ _ (h' (k - 1))
        (if-IsForward (k == max_zone_of today + 1) _ _ (kept k) (kept k)))

check_zones-IsRead :
    (r : Rates) (s : Calc) (last today next : Tariff)
    → ((k : ℕ) → IsForward (zone_of last k))
    → ((k : ℕ) → IsForward (zone_of today k))
    → AreForward s
    → Every (IsRead s) (check_zones r s last today next)
unfolding check_zones day_read
check_zones-IsRead r s last today next h h' kept = search (Every-unless, read)
  where
    read : Every (IsRead s) (go (day_read r s last today next))
    read =
        let covers = zone_times-last r s last today next in
        let forward = rates_of_zones-IsForward r s last today next h h' kept in
        (refl, refl, (omega (arith, covers), forward))

day_info-IsRead :
    (r : Rates) (trans_type : ℕ) (s : Calc)
    → IsForwardTable r trans_type
    → IsReady s
    → Every (IsRead s) (day_info r trans_type s)
unfolding day_info load_day
day_info-IsRead r trans_type s table (h, kept) =
    Every-if (IsRead s) s.got_day_info (go s) (load_day r trans_type s)
      (λ b. (refl, refl, (h b, kept)))
      (λ _.
        check_zones-IsRead r s (r.tariff trans_type (get_day_type r ((s.pd - 1) * 86400)))
          (r.tariff trans_type (get_day_type r (s.pd * 86400)))
          (r.tariff trans_type (get_day_type r ((s.pd + 1) * 86400)))
          (table (get_day_type r ((s.pd - 1) * 86400))) (table (get_day_type r (s.pd * 86400)))
          kept)

-- A zone that is found begins before `pt`, and the next one behind it.
abbrev Found : (ℕ → Type 0) → Option ℕ → Type 0
Found P none = ⊥
Found P (some k) = P k

zone_from-Found :
    (time : ℕ → ℕ) (pt left k i : ℕ)
    → pt / 60 < time i / 60
    → i ≡ k + 1 + left
    → Found (λ j. pt / 60 < time (j + 1) / 60) (zone_from time pt (suc left) k)
zone_from-Found time pt zero k i h e =
    let index : i ≡ k + 1 = e ∙ add-zero (k + 1) in
    let h' = subst (λ i. pt / 60 < time i / 60) index h in
    elim (Bool-cases (within pt (time (k + 1)) 0)) [
      | inl b ↦ absurd (ground (arith, b, h'))
      | inr b ↦ rw b (ground arith)
    ]
zone_from-Found time pt (suc left) k i h e =
    let ih = zone_from-Found time pt left (k + 1) i h (omega (arith, e)) in
    elim (Bool-cases (within pt (time (k + 1)) 0)) [ inl b ↦ rw b ih | inr b ↦ rw b (ground arith) ]

-- What the zone of a turn is entered with, from state `s`.
abbrev EnteredAt : ℕ → ℕ → Calc → Type 0
EnteredAt pd pt s' =
    (s'.pd ≡ pd)
    × IsKept s'
    × ((s'.current.rate_type ≡ 0) × (pt / 60 < s'.pt / 60)
        ⊎ (1 ≤ s'.current.rate_type)
          × (s'.current.rate_type ≤ 2)
          × IsForward s'.current
          × (s'.pt ≡ pt)
          × (day_of pt ≤ pd → pt / 60 < zone_end s' / 60))

abbrev IsEntered : Calc → Calc → Type 0
IsEntered s = EnteredAt s.pd s.pt

zone_at-found :
    (s : Calc) → Covers s → day_of s.pt ≤ s.pd → s.pt / 60 < s.zone_time (zone_at s + 1) / 60
unfolding zone_at
zone_at-found s h k = chosen (zone_from s.zone_time s.pt (s.max_zone + 1) 0) (
    subst (λ n. Found (λ j. s.pt / 60 < s.zone_time (j + 1) / 60) (zone_from s.zone_time s.pt n 0))
      count
      (zone_from-Found s.zone_time s.pt s.max_zone 0 (s.max_zone + 1) (omega arith) (omega arith)))
  where
    count : suc s.max_zone ≡ s.max_zone + 1
    count = omega arith

    chosen :
        (o : Option ℕ)
        → Found (λ j. s.pt / 60 < s.zone_time (j + 1) / 60) o
        → s.pt / 60 < s.zone_time ((elim o [ none ↦ s.current_zone | some k ↦ k ]) + 1) / 60
    chosen none p = absurd p
    chosen (some k) p = p

enter_zone-IsEntered : (s : Calc) → IsKept s → Every (IsEntered s) (enter_zone s)
unfolding enter_zone
enter_zone-IsEntered s h =
    let z = s.zone_rates (zone_at s) in
    Every-if (IsEntered s) (ltb z.rate_type 1 || ltb 2 z.rate_type) (answer (error_code 3))
      (go (record s { current_zone = zone_at s; current = z })) (λ _. tt)
      (λ b. (refl, h, inr (ground arith, ground arith, h.1 (zone_at s), refl, zone_at-found s h.0)))

block_or_zone-IsEntered :
    (now : ℕ) (s : Calc) → IsKept s → Every (IsEntered s) (block_or_zone now s)
unfolding block_or_zone charge_24h
block_or_zone-IsEntered now s h =
    Every-if (IsEntered s) (has_24h now s) (go (charge_24h s)) (enter_zone s)
      (λ _. (refl, h, inl (refl, omega arith))) (λ _. enter_zone-IsEntered s h)

-- Grace time changes nothing that matters here.
grace-IsEntered : (now : ℕ) (s s' : Calc) → IsEntered s s' → Every (IsEntered s) (grace now s')
unfolding grace
grace-IsEntered now s s' h =
    Every-if (IsEntered s) s'.no_gt (go s')
      (if ltb 0 s'.current.grace_time && within s'.pt now s'.current.grace_time
        then answer (pos 0)
        else go (record s' { no_gt = true }))
      (λ _. h) (λ _. search (Every-unless, h))

-- Behind the zone, the charge has come to a later minute where it stood in the day.
abbrev IsCharged : Calc → Calc → Type 0
IsCharged s s' = (s'.pd ≡ s.pd) × IsKept s' × (day_of s.pt ≤ s.pd → s.pt / 60 < s'.pt / 60)

charge_zone-IsCharged :
    (r : Rates) (trans_type entry now : ℕ) (s s' : Calc)
    → IsEntered s s'
    → Every (IsCharged s) (charge_zone r trans_type entry now s')
unfolding charge_zone
charge_zone-IsCharged r trans_type entry now s s' (p, c, inl (e, l)) = rw e (p, c, λ _. l)
charge_zone-IsCharged r trans_type entry now s s' (p, c, inr (h, k, forward, e, l)) =
    Every-mono (IsLater s') (IsCharged s) (charge_zone r trans_type entry now s')
      (λ u g. (
        g.0.pd_same ∙ p,
        covers u g.0,
        λ d.
            subst (λ t. t / 60 < u.pt / 60) e
              (g.1 (subst (λ t. t / 60 < zone_end s' / 60) (sym e) (l d))),
      ))
      (charge_zone-IsLater r trans_type entry now s' h k forward)
  where
    covers : (u : Calc) → SameDay s' u → IsKept u
    covers u d = rw (d.pd_same, d.zones_same, d.time_same, d.rates_same) c

-- A turn comes to the next day, or stays in the day and comes to a later minute of it.
abbrev pub IsTurned : Calc → Calc → Type 0
IsTurned s s' =
    IsReady s'
    × ((s'.pd ≡ s.pd + 1)
        ⊎ (s'.pd ≡ s.pd) × (day_of s'.pt ≤ s.pd) × (day_of s.pt ≤ s.pd → s.pt / 60 < s'.pt / 60))

next_day-IsTurned : (s u : Calc) → IsCharged s u → IsTurned s (next_day (close_zone u))
unfolding next_day close_zone
next_day-IsTurned s u (p, c, l) = elim (Bool-cases (ltb u.pd (day_of u.pt))) [
  | inl b ↦ rw b (((λ e. absurd (ground (arith, e))), c.1), inl (omega (arith, p)))
  | inr b ↦ rw b (((λ _. c.0), c.1), inr (p, ground (arith, b, p), l))
]

until_now-IsTurned : (now : ℕ) (s u : Calc) → IsTurned s u → Every (IsTurned s) (until_now now u)
unfolding until_now
until_now-IsTurned now s u h =
    Every-if (IsTurned s) (within u.pt now 0) (leave u) (go u) (λ _. tt) (λ _. h)

pub turn-IsTurned :
    (r : Rates) (trans_type entry now : ℕ) (s : Calc)
    → IsForwardTable r trans_type
    → IsReady s
    → Every (IsTurned s) (turn r trans_type entry now s)
unfolding turn
turn-IsTurned r trans_type entry now s table h =
    Every-and_then (IsCharged s) (IsTurned s) charged (λ u. until_now now (next_day (close_zone u)))
      (Every-and_then (IsEntered s) (IsCharged s) tested (charge_zone r trans_type entry now)
        (Every-and_then (IsEntered s) (IsEntered s) entered (grace now)
          (Every-and_then (IsRead s) (IsEntered s) read (block_or_zone now)
            (day_info-IsRead r trans_type s table h) zone)
          (λ s' q. grace-IsEntered now s s' q))
        (λ s' q. charge_zone-IsCharged r trans_type entry now s s' q))
      (λ u q. until_now-IsTurned now s (next_day (close_zone u)) (next_day-IsTurned s u q))
  where
    read : Flow
    read = day_info r trans_type s

    entered : Flow
    entered = read and_then block_or_zone now

    tested : Flow
    tested = entered and_then grace now

    charged : Flow
    charged = tested and_then charge_zone r trans_type entry now

    zone : (s' : Calc) → IsRead s s' → Every (IsEntered s) (block_or_zone now s')
    zone s' (p, e, c) =
        subst (λ pd. Every (EnteredAt pd s.pt) (block_or_zone now s')) p
          (subst (λ pt. Every (EnteredAt s'.pd pt) (block_or_zone now s')) e
            (block_or_zone-IsEntered now s' c))
