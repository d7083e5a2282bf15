-- ===== src/DailyLog/Rules.antt =====
-- Types, input checks and streak rules (backend/internal/dailylog/domain.go and rules.go).
use proof_forge.Prelude.{
  ℕ, ◌+◌, Option, none, some, Bool, true, false, not, ◌&&◌, ltb, leb, ◌==◌, if◌then◌else◌,
}
use proof_forge.Prelude.Text.{Text, trim_space, byte_length}
use proof_forge.Prelude.Action.{Result, ok, err}
use proof_forge.DailyLog.Calendar.{month_of_instant}

pub data EntryStatus : Type 0 where
  logged skipped frozen missed : EntryStatus

-- `no_rows` is pgx.ErrNoRows.
pub data Error : Type 0 where
  entry_not_found invalid_log_date text_too_short future_date freeze_limit_reached : Error
  not_member invalid_timezone no_rows db_failure : Error

pub record Entry : Type 0 where
  pub id : ℕ
  pub user_id : ℕ
  pub team_id : ℕ
  pub log_date : ℕ
  pub status : EntryStatus
  pub text_content : Text
  pub has_artifact : Bool
  pub external_url : Option Text
  pub storage_key : Option Text
  pub mime_type : Option Text
  pub file_size_bytes : Option ℕ
  pub submitted_at : ℕ
  pub overwritten_at : Option ℕ
  pub consumed_in_check_in_id : Option ℕ
  pub consumed_at : Option ℕ

-- `updated_at` is `none` for Go's zero time, in a streak that is not in the table.
pub record Streak : Type 0 where
  pub user_id : ℕ
  pub team_id : ℕ
  pub current : ℕ
  pub best : ℕ
  pub last_active_date : Option ℕ
  pub freezes_used_this_month : ℕ
  pub updated_at : Option ℕ

-- `reason` is the status, or `none` for "overwrite".
pub record StreakUpdate : Type 0 where
  pub old_current : ℕ
  pub new_current : ℕ
  pub old_best : ℕ
  pub new_best : ℕ
  pub is_new_record : Bool
  pub reason : Option EntryStatus

-- ValidateText
unfoldable pub validate_text : Text → Result Error (Unit {0})
validate_text s = if ltb (byte_length (trim_space s)) 10 then err text_too_short else ok tt

-- IsValidLogDate, on the local dates of the candidate and of now.
unfoldable pub is_valid_log_date : ℕ → ℕ → Result Error (Unit {0})
is_valid_log_date candidate today =
    if ltb today candidate
    then err future_date
    else if not (candidate == today) && not (candidate + 1 == today)
    then err invalid_log_date
    else ok tt

abbrev update_of : Streak → EntryStatus → ℕ → ℕ → Bool → StreakUpdate
update_of old status current best is_record = record {
  old_current = old.current;
  new_current = current;
  old_best = old.best;
  new_best = best;
  is_new_record = is_record;
  reason = some status;
}

-- ComputeStreakUpdate
unfoldable pub compute_streak_update : Streak → EntryStatus → StreakUpdate
compute_streak_update old logged =
    if ltb old.best (old.current + 1)
    then update_of old logged (old.current + 1) (old.current + 1) true
    else update_of old logged (old.current + 1) old.best false
compute_streak_update old frozen = update_of old frozen old.current old.best false
compute_streak_update old skipped = update_of old skipped 0 old.best false
compute_streak_update old missed = update_of old missed 0 old.best false

abbrev pub max_freezes_per_month : ℕ
max_freezes_per_month = 2

-- FreezeAllowed
unfoldable pub freeze_allowed : ℕ → Result Error (Unit {0})
freeze_allowed used = if leb max_freezes_per_month used then err freeze_limit_reached else ok tt

-- MonthReset
unfoldable pub month_reset : Option ℕ → ℕ → Bool
unfolding month_of_instant
month_reset none now = true
month_reset (some t) now = not (month_of_instant t == month_of_instant now)
