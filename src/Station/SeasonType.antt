-- ===== src/Station/SeasonType.antt =====
-- `GetSeasonTransType` of operation.cpp.
use my_linux_pbs.Base.{ℕ, ◌+◌, ◌-◌, ◌*◌, ◌≤◌, ◌≡◌, ◌&&◌, ◌||◌, arith, leb, ◌==◌, if◌then◌else◌}

-- A vehicle class 0, 1 or 2 within a season type; other classes fall through to the end.
by_class : ℕ → ℕ → ℕ → ℕ → ℕ → ℕ
by_class v car lorry motorcycle rest =
    if v == 0 then car else if v == 1 then lorry else if v == 2 then motorcycle else rest

-- A handicapped car also has the class 14.
by_handicapped : ℕ → ℕ → ℕ
by_handicapped v rest =
    if v == 0 || v == 14 then 62 else if v == 1 then 63 else if v == 2 then 64 else rest

-- The transaction type of a season: vehicle class, season type (rate type) and the type of a
-- whole-day season.
unfoldable pub season_trans_type : ℕ → ℕ → ℕ → ℕ
unfolding by_class by_handicapped
season_trans_type v season t =
    if season == 3
    then by_class v 50 51 52 (t + 1)
    else if season == 4
    then by_class v 53 54 55 (t + 1)
    else if season == 5
    then by_class v 56 57 58 (t + 1)
    else if season == 6
    then by_class v 59 60 61 (t + 1)
    else if season == 7
    then by_handicapped v (t + 1)
    else if season == 8
    then by_class v 65 66 67 (t + 1)
    else if season == 9
    then by_class v 68 69 70 (t + 1)
    else if season == 10
    then by_class v 71 72 73 (t + 1)
    else if season == 11
    then by_class v 74 75 76 (t + 1)
    else if season == 12
    then by_class v 77 78 79 (t + 1)
    else if season == 13
    then by_class v 80 81 82 (t + 1)
    else if season == 14
    then by_class v 83 84 85 (t + 1)
    else if season == 15
    then by_class v 86 87 88 (t + 1)
    else if season == 16
    then by_class v 89 90 91 (t + 1)
    else if season == 17
    then by_class v 92 93 94 (t + 1)
    else if season == 18
    then by_class v 95 96 97 (t + 1)
    else if t == 9
    then 9
    else t + 1

-- For the vehicle classes 0 to 2, the season types 3 to 18 give the numbers 50 to 97, three to a
-- season type in the order of the classes; any other season type gives 9 for the type 9 and the next
-- number for any other.
pub season_trans_type-closed :
    (v season t : ℕ)
    → v ≤ 2
    → season_trans_type v season t ≡ (
        if leb 3 season && leb season 18
        then 50 + 3 * (season - 3) + v
        else if t == 9
        then 9
        else t + 1)
unfolding season_trans_type
season_trans_type-closed v season t h = ground arith
