-- ===== src/DailyLog/Service.antt =====
-- The use cases of backend/internal/dailylog/service.go.
use proof_forge.Prelude.{
  ℕ, ◌+◌, ◌-◌, Option, none, some, Bool, true, false, List, [], ◌∷◌, ◌++◌, if◌then◌else◌,
}
use proof_forge.Prelude.Text.{Text}
use proof_forge.Prelude.Action.{
  Result, ok, err, execute, or_fail, pure, fail, lift, attempt, ignore, ◌>>=◌, ◌>>◌,
}
use proof_forge.DailyLog.Calendar.{is_working_day}
use proof_forge.DailyLog.Rules.{
  Entry, EntryStatus, logged, frozen, missed, Streak, StreakUpdate, Error, invalid_timezone,
  db_failure, entry_not_found, validate_text, is_valid_log_date, compute_streak_update,
  freeze_allowed, month_reset,
}
use proof_forge.DailyLog.Repository.{
  M, RecordedEvent, daily_log_submitted, streak_frozen, streak_broken, get_entry, get_streak,
  get_membership, upsert_entry_and_streak, list_entries,
}

-- What a call finds outside the package: the readings of the service's clock in their order, the
-- database's clock, the time zones (`time.LoadLocation`: the local date of an instant), the holiday
-- checker, and whether a recorder is set.
pub record Env : Type 0 where
  pub clock : ℕ → ℕ
  pub db_now : ℕ
  pub load_location : Text → Option (ℕ → ℕ)
  pub is_holiday : ℕ → Bool
  pub has_recorder : Bool

pub record SubmitInput : Type 0 where
  pub user_id : ℕ
  pub team_id : ℕ
  pub log_date : ℕ
  pub text_content : Text
  pub external_url : Option Text

abbrev pub record_event : Env → RecordedEvent → M (Unit {0})
record_event env e =
    if env.has_recorder
    then ignore (execute db_failure (λ s. record s { recorded = s.recorded ++ e ∷ [] }))
    else pure tt

abbrev pub blank_entry : ℕ → ℕ → ℕ → EntryStatus → ℕ → Entry
blank_entry user team date status now = record {
  id = 0;
  user_id = user;
  team_id = team;
  log_date = date;
  status = status;
  text_content = [];
  has_artifact = false;
  external_url = none;
  storage_key = none;
  mime_type = none;
  file_size_bytes = none;
  submitted_at = now;
  overwritten_at = none;
  consumed_in_check_in_id = none;
  consumed_at = none;
}

-- The artifact of a log: a link that is not empty.
abbrev pub with_link : Option Text → Entry → Entry
with_link none e = e
with_link (some []) e = e
with_link (some (c ∷ url)) e = record e { external_url = some (c ∷ url); has_artifact = true }

abbrev pub counts : EntryStatus → Bool
counts logged = true
counts frozen = true
counts _ = false

-- An entry that was found and that the streak already counts.
unfoldable pub already_counted : Result Error Entry → Bool
already_counted (ok e) = counts e.status
already_counted (err e) = false

unfoldable pub reset_freezes : ℕ → Streak → Streak
reset_freezes now k =
    if month_reset k.updated_at now then record k { freezes_used_this_month = 0 } else k

-- The streak and the update of SubmitLog, for a day that is counted already or not.
unfoldable pub log_streak : Bool → ℕ → ℕ → Streak → Streak × StreakUpdate
log_streak true date now k = (
  k,
  record {
    old_current = k.current;
    new_current = k.current;
    old_best = k.best;
    new_best = k.best;
    is_new_record = false;
    reason = none;
  },
)
log_streak false date now k =
    let su = compute_streak_update k logged in
    (
      record k {
        current = su.new_current;
        best = su.new_best;
        last_active_date = some date;
        updated_at = some now;
      },
      su,
    )

-- The entry that SubmitLog writes.
unfoldable pub entry_to_log : Env → SubmitInput → ℕ → Entry
entry_to_log env input date =
    let blank = blank_entry input.user_id input.team_id date logged (env.clock 1) in
    with_link input.external_url (record blank { text_content = input.text_content })

-- The end of SubmitLog: the entry and the streak are written and the event is recorded.
unfoldable pub write_log : Env → SubmitInput → ℕ → Streak × StreakUpdate → M (Entry × StreakUpdate)
write_log env input date (k, su) = do
  saved ← upsert_entry_and_streak env.db_now (entry_to_log env input date) k
  record_event env (daily_log_submitted input.user_id input.team_id)
  pure (saved, su)

-- SubmitLog from the streak on, given the entry that the day has.
unfoldable pub log_over : Env → SubmitInput → ℕ → Result Error Entry → M (Entry × StreakUpdate)
log_over env input date existing = do
  streak ← get_streak input.user_id input.team_id
  write_log env input date (
      log_streak (already_counted existing) date (env.clock 3) (reset_freezes (env.clock 2) streak))

-- SubmitLog from the lookup of the day's entry on.
unfoldable pub log_day : Env → SubmitInput → ℕ → M (Entry × StreakUpdate)
log_day env input date = do
  existing ← attempt (get_entry input.user_id input.team_id date)
  log_over env input date existing

-- SubmitLog
unfoldable pub submit_log : Env → SubmitInput → M (Entry × StreakUpdate)
submit_log env input = do
  mem ← get_membership input.team_id input.user_id
  local_date ← or_fail (env.load_location mem.timezone) invalid_timezone
  lift (is_valid_log_date (local_date input.log_date) (local_date (env.clock 0)))
  lift (validate_text input.text_content)
  log_day env input (local_date input.log_date)

abbrev pub is_frozen : EntryStatus → Bool
is_frozen frozen = true
is_frozen _ = false

-- The streak after a freeze.
unfoldable pub freeze_streak : ℕ → ℕ → Streak → Streak
freeze_streak date now k =
    let su = compute_streak_update k frozen in
    record k {
      current = su.new_current;
      best = su.new_best;
      last_active_date = some date;
      freezes_used_this_month = k.freezes_used_this_month + 1;
      updated_at = some now;
    }

-- The rest of FreezeDay, once the freeze is allowed and the day is not frozen yet.
unfoldable pub freeze_anew : Env → ℕ → ℕ → ℕ → Streak → M Entry
freeze_anew env user team date k = do
  let k' = freeze_streak date (env.clock 3) k
  saved ← upsert_entry_and_streak env.db_now (blank_entry user team date frozen (env.clock 2)) k'
  record_event env (streak_frozen user team k'.freezes_used_this_month)
  pure saved

-- `if existing != nil && existing.Status == StatusFrozen { return existing, nil }`
unfoldable pub freeze_or_keep : Env → ℕ → ℕ → ℕ → Streak → Result Error Entry → M Entry
freeze_or_keep env user team date k (err e) = freeze_anew env user team date k
freeze_or_keep env user team date k (ok e) =
    if is_frozen e.status then pure e else freeze_anew env user team date k

-- FreezeDay from the limit on.
unfoldable pub freeze_within_limit : Env → ℕ → ℕ → ℕ → Streak → M Entry
freeze_within_limit env user team date k = do
  lift (freeze_allowed k.freezes_used_this_month)
  existing ← attempt (get_entry user team date)
  freeze_or_keep env user team date k existing

-- FreezeDay
unfoldable pub freeze_day : Env → ℕ → ℕ → ℕ → M Entry
freeze_day env user team log_date = do
  mem ← get_membership team user
  local_date ← or_fail (env.load_location mem.timezone) invalid_timezone
  lift (is_valid_log_date (local_date log_date) (local_date (env.clock 0)))
  streak ← get_streak user team
  freeze_within_limit env user team (local_date log_date) (reset_freezes (env.clock 1) streak)

-- ListMyEntries, between two dates that NormalizeDate leaves as they are.
unfoldable pub list_my_entries : ℕ → ℕ → ℕ → ℕ → M (List Entry)
list_my_entries user team from to = do get_membership team user; list_entries user team from to

-- GetMyStreak
unfoldable pub get_my_streak : ℕ → ℕ → M Streak
get_my_streak user team = do get_membership team user; get_streak user team

-- The streak after a missed day.
unfoldable pub break_streak : ℕ → Streak → Streak
break_streak now k =
    let su = compute_streak_update k missed in
    record k { current = su.new_current; best = su.new_best; updated_at = some now }

-- The end of DayRollover: the missed day is entered and the streak broken.
unfoldable pub enter_missed : Env → ℕ → ℕ → ℕ → M (Unit {0})
enter_missed env user team yesterday = do
  streak ← get_streak user team
  let k = break_streak (env.clock 3) (reset_freezes (env.clock 2) streak)
  upsert_entry_and_streak env.db_now (blank_entry user team yesterday missed (env.clock 1)) k
  record_event env (streak_broken user team yesterday)

abbrev pub is_settled : EntryStatus → Bool
is_settled missed = false
is_settled _ = true

-- The tests on the entry of the day: `!errors.Is(err, ErrEntryNotFound)` returns the error.
unfoldable pub settle_day : Env → ℕ → ℕ → ℕ → Result Error Entry → M (Unit {0})
settle_day env user team day (ok e) =
    if is_settled e.status then pure tt else enter_missed env user team day
settle_day env user team day (err entry_not_found) = enter_missed env user team day
settle_day env user team day (err e) = fail e

-- DayRollover from the test of the working day on: weekends and holidays never create missed days.
unfoldable pub roll_day : Env → ℕ → ℕ → ℕ → Bool → M (Unit {0})
roll_day env user team day false = pure tt
roll_day env user team day true = do
  existing ← attempt (get_entry user team day)
  settle_day env user team day existing

-- DayRollover
unfoldable pub day_rollover : Env → Text → ℕ → ℕ → M (Unit {0})
day_rollover env timezone user team = do
  local_date ← or_fail (env.load_location timezone) invalid_timezone
  let yesterday = local_date (env.clock 0) - 1
  roll_day env user team yesterday (is_working_day env.is_holiday yesterday)
