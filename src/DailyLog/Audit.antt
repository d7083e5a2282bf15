-- ===== src/DailyLog/Audit.antt =====
-- The streak audit: ConsecutiveWorkingDays of backend/internal/dailylog/rules.go, which walks back
-- from a day until a working day has no log and no freeze. The loop of the source has no bound; here
-- it takes fuel, and `none` says that the fuel ran out.
use proof_forge.Prelude.{
  ℕ, zero, suc, ◌+◌, ◌-◌, ◌≡◌, Option, none, some, Bool, true, false, not, ◌&&◌, List, ◌==◌, any,
  if◌then◌else◌,
}
use proof_forge.DailyLog.Calendar.{is_working_day}
use proof_forge.DailyLog.Rules.{Entry}
use proof_forge.DailyLog.Service.{counts}

-- The inner loop: `found`.
unfoldable pub is_covered : List Entry → ℕ → Bool
is_covered entries date = any (λ e. e.log_date == date && counts e.status) entries

unfoldable pub count_back : ℕ → (ℕ → Bool) → List Entry → ℕ → ℕ → Option ℕ
count_back zero is_holiday entries date n = none
count_back (suc fuel) is_holiday entries date n =
    let skipped = count_back fuel is_holiday entries (date - 1) n in
    let counted = count_back fuel is_holiday entries (date - 1) (n + 1) in
    if not (is_working_day is_holiday date)
    then skipped
    else if not (is_covered entries date)
    then some n
    else counted

-- ConsecutiveWorkingDays
unfoldable pub consecutive_working_days : ℕ → ℕ → List Entry → (ℕ → Bool) → Option ℕ
unfolding count_back
consecutive_working_days fuel today entries is_holiday = count_back fuel is_holiday entries today 0

-- The working days among the `k` days after `gap`.
abbrev pub working_days : (ℕ → Bool) → ℕ → ℕ → ℕ
working_days is_holiday gap zero = 0
working_days is_holiday gap (suc k) =
    if is_working_day is_holiday (gap + suc k)
    then suc (working_days is_holiday gap k)
    else working_days is_holiday gap k

-- `gap` is a working day that no entry covers.
abbrev pub IsGap : (ℕ → Bool) → List Entry → ℕ → Type 0
IsGap is_holiday entries gap =
    (is_working_day is_holiday gap ≡ true) × (is_covered entries gap ≡ false)

-- Every working day among the `k` days after `gap` is covered.
abbrev pub IsKept : (ℕ → Bool) → List Entry → ℕ → ℕ → Type 0
IsKept is_holiday entries gap zero = Unit
IsKept is_holiday entries gap (suc k) =
    (is_working_day is_holiday (gap + suc k) ≡ true → is_covered entries (gap + suc k) ≡ true)
    × IsKept is_holiday entries gap k
