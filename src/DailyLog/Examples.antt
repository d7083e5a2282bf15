-- ===== src/DailyLog/Examples.antt =====
-- Tests of the daily log: one member, who logged and froze some days of November 2025.
use proof_forge.Prelude.{
  find_by, ℕ, ◌+◌, ◌-◌, ◌*◌, ◌/◌, ◌≤◌, ◌<◌, ◌≡◌, refl, none, some, true, false, List, [], ◌∷◌,
  arith,
}
use proof_forge.Prelude.Text.{codes, trim_space}
use proof_forge.Prelude.Action.{ok, err, World}
use proof_forge.DailyLog.Calendar.{
  day_number, weekday, month_index, is_russian_holiday, is_working_day,
}
use proof_forge.DailyLog.Rules.{
  Entry, StreakUpdate, logged, frozen, no_rows, freeze_limit_reached, is_valid_log_date,
  validate_text,
}
use proof_forge.DailyLog.Repository.{Store, Membership}
use proof_forge.DailyLog.Service.{
  Env, SubmitInput, submit_log, freeze_day, day_rollover, blank_entry, is_frozen,
}
use proof_forge.DailyLog.Requests.{
  log_request, freeze_request, rollover_request, Request, Call, serve,
}
use proof_forge.DailyLog.Soundness.{IsValid}
use proof_forge.DailyLog.Validity.{serve-IsValid}
use proof_forge.DailyLog.Counting.{streak_at, entry_at, is_counted}
use proof_forge.DailyLog.Repeats.{
  logged_once, current_logged, best_logged, log_day-twice, submit_log-counts, day_rollover-missed,
}
use proof_forge.DailyLog.Freezes.{freeze_day-answer, used_before, IsFrozenAt}

-- Wednesday 2025-11-19, Thursday and Friday.
abbrev wednesday : ℕ
wednesday = 20411

noon : ℕ → ℕ
noon day = day * 86400 + 43200

calendar :
    (day_number 2025 11 19 ≡ wednesday)
    × (weekday wednesday ≡ 3)
    × (is_working_day is_russian_holiday wednesday ≡ true)
    × (is_working_day is_russian_holiday (day_number 2025 11 4) ≡ false)
    × (is_working_day is_russian_holiday (day_number 2025 11 22) ≡ false)
    × (month_index (day_number 2025 12 1) ≡ month_index (day_number 2025 11 30) + 1)
    × (month_index (day_number 2024 2 29) ≡ month_index (day_number 2024 2 1))
unfolding day_number weekday is_working_day is_russian_holiday month_index
calendar = (refl, refl, refl, refl, refl, refl, refl)

abbrev env : ℕ → Env
env day = record {
  clock = λ reading. noon day + reading;
  db_now = day * 86400 + 50000;
  load_location = λ zone. some (λ t. t / 86400);
  is_holiday = is_russian_holiday;
  has_recorder = true;
}

abbrev member : Membership
member = record { team_id = 3; user_id = 1; is_active = true; timezone = codes "UTC" }

abbrev tables : Store
tables = record {
  memberships = member ∷ [];
  entries = [];
  streaks = [];
  next_entry_id = 1;
  recorded = [];
}

abbrev input : ℕ → SubmitInput
input day = record {
  user_id = 1;
  team_id = 3;
  log_date = day * 86400;
  text_content = codes "read a chapter";
  external_url = none;
}

abbrev call : ℕ → Request → Call
call day r = record { env = env day; request = r; outages = [] }

abbrev history : List Call
history =
    call wednesday (log_request (input wednesday))
    ∷ call (wednesday + 1) (freeze_request 1 3 ((wednesday + 1) * 86400))
    ∷ call (wednesday + 3) (rollover_request (codes "UTC") 1 3)
    ∷ []

serve-IsValid_example : IsValid (serve history tables)
serve-IsValid_example = serve-IsValid history tables (tt, λ u t d. omega arith)

submit_log-counts_example :
    let (r, w) =
      submit_log (env wednesday) (input wednesday) (record { store = tables; outages = [] }) in
    let k = streak_at 1 3 tables in
    let k' = streak_at 1 3 w.store in
    let counted = is_counted 1 3 (wednesday * 86400 / 86400) tables in
    (e : Entry) × (su : StreakUpdate) × (r ≡ ok (e, su))
    × (entry_at 1 3 (wednesday * 86400 / 86400) w.store ≡ some e)
    × (e.status ≡ logged)
    × (e.text_content ≡ codes "read a chapter")
    × (k'.current ≡ current_logged counted k.current)
    × (k'.best ≡ best_logged counted k.current k.best)
unfolding find_by is_valid_log_date validate_text trim_space noon
submit_log-counts_example =
    submit_log-counts (env wednesday) (input wednesday) tables member (λ t. t / 86400) refl refl
      refl refl

log_day-twice_example :
    let first = logged_once (env wednesday) (input wednesday) wednesday tables in
    let second = logged_once (env (wednesday + 1)) (input wednesday) wednesday first in
    let k = streak_at 1 3 first in
    let k' = streak_at 1 3 second in (k'.current ≡ k.current) × (k'.best ≡ k.best)
log_day-twice_example =
    log_day-twice (env wednesday) (env (wednesday + 1)) (input wednesday) (input wednesday)
      wednesday tables refl refl

day_rollover-missed_example :
    day_rollover (env wednesday) (codes "UTC") 1 3 (record { store = tables; outages = [] })
    ≡ (err no_rows, record { store = tables; outages = [] })
unfolding is_working_day is_russian_holiday entry_at find_by noon
day_rollover-missed_example =
    day_rollover-missed (env wednesday) (codes "UTC") 1 3 (λ t. t / 86400) tables refl refl refl

freeze_day-answer_example :
    let date : ℕ = wednesday * 86400 / 86400 in
    let used = used_before (env wednesday) 1 3 tables in
    let before : World Store = record { store = tables; outages = [] } in
    let outcome = freeze_day (env wednesday) 1 3 (wednesday * 86400) before in
    (2 ≤ used → outcome ≡ (err freeze_limit_reached, before))
    × (used < 2
        → (e : Entry) → entry_at 1 3 date tables ≡ some e
        → e.status ≡ frozen
        → outcome ≡ (ok e, before))
    × (used < 2
        → ((e : Entry) → entry_at 1 3 date tables ≡ some e → is_frozen e.status ≡ false)
        → IsFrozenAt (env wednesday) 1 3 date tables outcome)
unfolding find_by is_valid_log_date noon
freeze_day-answer_example =
    freeze_day-answer (env wednesday) 1 3 (wednesday * 86400) tables member (λ t. t / 86400) refl
      refl refl

-- Logged on Thursday, frozen on Friday, and the audit on Sunday; nothing on Wednesday.
abbrev entries : List Entry
entries =
    blank_entry 1 3 (wednesday + 1) logged 0
    ∷ blank_entry 1 3 (wednesday + 2) frozen 0
    ∷ blank_entry 1 3 (wednesday - 1) logged 0
    ∷ []
