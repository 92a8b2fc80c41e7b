-- ===== src/Tariff/Table.antt =====
-- The table that is filled from the database: `WriteTariff2RAM` and the loop of `LoadTariff`.
use my_linux_pbs.Base.{ℕ, ◌-◌, ◌/◌, ◌%◌, ◌&&◌, List, [], ◌∷◌, ◌==◌, if◌then◌else◌}
use my_linux_pbs.Text.Decimal.{to_string}
use my_linux_pbs.Tariff.{Tariff}

abbrev pub Tariffs : Type 0
Tariffs = ℕ → ℕ → Tariff

-- The row and the column of a day type, which counts the eight days of every rate type.
unfoldable pub row : ℕ → ℕ
row dtype = if dtype % 8 == 0 then dtype / 8 - 1 else dtype / 8

unfoldable pub column : ℕ → ℕ
column dtype = if dtype % 8 == 0 then 8 else dtype % 8

unfoldable pub write_tariff_to_ram : ℕ → Tariff → Tariffs → Tariffs
write_tariff_to_ram dtype t g a b =
    if (a == row dtype) && (b == column dtype)
    then record t { day_type = to_string dtype }
    else g a b

-- A record of the database is written for the day types that it lists, each with a comma behind
-- it, so that the last piece between the commas is left out.
abbrev pub but_last : List ℕ → List ℕ
but_last [] = []
but_last (d ∷ []) = []
but_last (d ∷ e ∷ ds) = d ∷ but_last (e ∷ ds)

abbrev pub write_day_types : List ℕ → Tariff → Tariffs → Tariffs
write_day_types [] t g = g
write_day_types (d ∷ ds) t g = write_day_types ds t (write_tariff_to_ram d t g)

abbrev pub load_tariff : List (List ℕ × Tariff) → Tariffs → Tariffs
load_tariff [] g = g
load_tariff ((ds, t) ∷ rows) g = load_tariff rows (write_day_types (but_last ds) t g)
