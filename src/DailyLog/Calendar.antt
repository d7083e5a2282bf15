-- ===== src/DailyLog/Calendar.antt =====
-- Dates and working days (backend/internal/dailylog/rules.go). A local date is the number of days
-- since 1970-01-01, an instant the number of seconds since its start in UTC; Go's calendar is the
-- proleptic Gregorian one.
use proof_forge.Prelude.{
  ℕ, ◌+◌, ◌-◌, ◌*◌, ◌/◌, ◌%◌, Bool, false, ◌||◌, not, List, [], ◌∷◌, leb, ◌==◌, if◌then◌else◌,
}

-- The day number of a date, counted from a 1st of March.
unfoldable pub day_number : ℕ → ℕ → ℕ → ℕ
day_number year month day =
    let y : ℕ = if leb month 2 then year - 1 else year in
    let m : ℕ = if leb month 2 then month + 9 else month - 3 in
    365 * y + y / 4 - y / 100 + y / 400 + (153 * m + 2) / 5 + (day - 1) - 719468

-- Twelve times the year and the month of a day: two days with the same index lie in one month.
unfoldable pub month_index : ℕ → ℕ
month_index day =
    let z : ℕ = day + 719468 in
    let doe : ℕ = z % 146097 in
    let yoe : ℕ = (doe - doe / 1460 + doe / 36524 - doe / 146096) / 365 in
    let doy : ℕ = doe - (365 * yoe + yoe / 4 - yoe / 100) in
    let mp : ℕ = (5 * doy + 2) / 153 in
    -- the year begins in March here, so that January and February belong to the next one
    12 * (yoe + z / 146097 * 400) + mp + 3

unfoldable pub month_of_instant : ℕ → ℕ
month_of_instant t = month_index (t / 86400)

-- 0 is Sunday: 1970-01-01 was a Thursday.
unfoldable pub weekday : ℕ → ℕ
weekday day = (day + 4) % 7

abbrev Date : Type 0
Date = ℕ × ℕ × ℕ

abbrev holidays_2025 : List Date
holidays_2025 =
    (2025, 1, 1)
    ∷ (2025, 1, 2)
    ∷ (2025, 1, 3)
    ∷ (2025, 1, 6)
    ∷ (2025, 1, 7)
    ∷ (2025, 1, 8)
    ∷ (2025, 5, 1)
    ∷ (2025, 5, 2)
    ∷ (2025, 5, 8)
    ∷ (2025, 5, 9)
    ∷ (2025, 6, 12)
    ∷ (2025, 6, 13)
    ∷ (2025, 11, 3)
    ∷ (2025, 11, 4)
    ∷ (2025, 12, 31)
    ∷ []

abbrev holidays_2026 : List Date
holidays_2026 =
    (2026, 1, 1)
    ∷ (2026, 1, 2)
    ∷ (2026, 1, 5)
    ∷ (2026, 1, 6)
    ∷ (2026, 1, 7)
    ∷ (2026, 1, 8)
    ∷ (2026, 2, 23)
    ∷ (2026, 3, 8)
    ∷ (2026, 3, 9)
    ∷ (2026, 5, 1)
    ∷ (2026, 5, 4)
    ∷ (2026, 5, 11)
    ∷ (2026, 6, 12)
    ∷ (2026, 11, 4)
    ∷ (2026, 12, 31)
    ∷ []

abbrev falls_on : ℕ → List Date → Bool
falls_on day [] = false
falls_on day ((y, m, d) ∷ dates) = day == day_number y m d || falls_on day dates

-- RussianHolidayChecker.IsHoliday
unfoldable pub is_russian_holiday : ℕ → Bool
unfolding day_number
is_russian_holiday day = falls_on day holidays_2025 || falls_on day holidays_2026

-- IsWorkingDay, with the holiday checker of the service.
unfoldable pub is_working_day : (ℕ → Bool) → ℕ → Bool
unfolding weekday
is_working_day is_holiday day =
    if weekday day == 6 || weekday day == 0 then false else not (is_holiday day)
