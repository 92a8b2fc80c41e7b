-- ===== src/Station/Vehicle.antt =====
-- `operation::GetVTypeFromLoop`: 1 for a car, 4 for a lorry, 7 for a motorcycle.
use my_linux_pbs.Base.{ℕ, ◌-◌, ◌/◌, Bool, true, false, ◌&&◌, if◌then◌else◌}
use my_linux_pbs.Base.Int.{ℤ, is_pos}
use my_linux_pbs.Station.Env.{Env}

-- An `int` as a condition: a failed read, -1, counts as true.
abbrev pub truth : ℤ → Bool
truth v = if is_pos v 0 then false else true

unfoldable pub vehicle_type_from_loop : ℤ → ℤ → ℤ → ℕ
vehicle_type_from_loop lorry a b =
    if truth lorry then 4 else if truth b && truth a then 1 else if truth b then 1 else 7

unfoldable pub v_type : Env → ℕ
unfolding vehicle_type_from_loop
v_type env = vehicle_type_from_loop env.lorry_sensor env.loop_a_status env.loop_b_status

-- `(iTransType - 1) / 3`: 0 car, 1 lorry, 2 motorcycle.
unfoldable pub vehicle_class : ℕ → ℕ
vehicle_class t = (t - 1) / 3
