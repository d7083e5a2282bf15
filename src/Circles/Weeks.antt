-- ===== src/Circles/Weeks.antt =====
-- Which week of its season a time belongs to.
use proof_forge.Prelude.{ℕ, ◌+◌, ◌*◌, ◌-◌, ◌≤◌, ◌<◌, ◌≡◌, arith, ◌==◌, if◌then◌else◌}
use proof_forge.Circles.Windows.{Windows, week, season_windows}

-- The first week of a season, which nothing precedes, and the second.
abbrev pub first_week : ℕ → Windows
first_week starts_at = record {
  week_index = 1;
  current_start = starts_at;
  current_end = starts_at + week;
  prev_start = starts_at;
  prev_end = starts_at;
}

abbrev pub second_week : ℕ → Windows
second_week starts_at = record {
  week_index = 2;
  current_start = starts_at + week;
  current_end = starts_at + week + week;
  prev_start = starts_at;
  prev_end = starts_at + week;
}

-- In a season of seven days, as the code creates them, every time belongs to the first week, before
-- the season and after it too; but at the instant at which the season ends the week is the second,
-- which lies outside the season.
pub season_windows-one_week :
    (starts_at now : ℕ)
    → season_windows starts_at (starts_at + week) now
      ≡ (if now == starts_at + week then second_week starts_at else first_week starts_at)
unfolding season_windows
season_windows-one_week starts_at now = ground arith

-- At a time within a season of at most four weeks, the week's window holds that time, is one of the
-- four, and has the week before it, or nothing, as its predecessor.
pub season_windows-holds :
    (starts_at ends_at now : ℕ)
    → starts_at ≤ now
    → now < ends_at
    → ends_at ≤ starts_at + 4 * week
    → let w = season_windows starts_at ends_at now in
      (1 ≤ w.week_index)
      × (w.week_index ≤ 4)
      × (w.current_start ≤ now)
      × (now < w.current_end)
      × (w.current_start ≡ starts_at + (w.week_index - 1) * week)
      × (w.prev_start ≡ starts_at + (w.week_index - 2) * week)
      × (w.prev_end ≡ w.current_start)
unfolding season_windows
season_windows-holds starts_at ends_at now h k l = ground arith
