-- ===== src/Circles/Windows.antt =====
-- seasonWindows of backend/internal/circles/service.go: the week of a season at a time.
use proof_forge.Prelude.{ℕ, ◌+◌, ◌-◌, ◌*◌, ◌/◌, ltb, ◌==◌, if◌then◌else◌}
use proof_forge.Users.{user_keyed}
use proof_forge.Goals.{hour}

-- time.Second and seven days, in nanoseconds
abbrev pub second : ℕ
second = 1000000000

abbrev pub week : ℕ
week = 7 * (24 * hour)

pub record Windows : Type 0 where
  pub week_index : ℕ
  pub current_start : ℕ
  pub current_end : ℕ
  pub prev_start : ℕ
  pub prev_end : ℕ

-- The time of the call, drawn into the season.
abbrev clamp_start : ℕ → ℕ → ℕ
clamp_start starts_at now = if ltb now starts_at then starts_at else now

abbrev clamp_end : ℕ → ℕ → ℕ
clamp_end ends_at now = if ltb ends_at now then ends_at - second else now

abbrev clamp_week : ℕ → ℕ
clamp_week n = if ltb n 1 then 1 else if ltb 4 n then 4 else n

abbrev windows_at : ℕ → ℕ → ℕ → Windows
windows_at starts_at index start = record {
  week_index = index;
  current_start = start;
  current_end = start + week;
  prev_start = if index == 1 then starts_at else start - week;
  prev_end = if index == 1 then starts_at else start;
}

-- seasonWindows
unfoldable pub season_windows : ℕ → ℕ → ℕ → Windows
season_windows starts_at ends_at now =
    let inside = clamp_end ends_at (clamp_start starts_at now) in
    let index = clamp_week ((inside - starts_at) / week + 1) in
    windows_at starts_at index (starts_at + (index - 1) * week)
