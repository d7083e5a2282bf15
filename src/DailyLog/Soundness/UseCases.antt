-- ===== src/DailyLog/Soundness/UseCases.antt =====
-- The use cases of the daily log keep its store well-formed.
use proof_forge.Prelude.{ℕ, ◌≡◌, Bool, true, false, Bool-cases, inl, inr}
use proof_forge.Prelude.Text.{Text}
use proof_forge.Prelude.Action.{Result, ok, err}
use proof_forge.Prelude.Triple.{
  Triple, Anything, Returns, triple_pure, triple_fail, triple_bind, triple_seq, triple_lift,
}
use proof_forge.DailyLog.Rules.{
  entry_not_found, is_valid_log_date, validate_text, invalid_timezone, Entry, Error, Streak,
  StreakUpdate, frozen, missed, freeze_allowed,
}
use proof_forge.DailyLog.Service.{
  blank_entry, is_frozen, is_settled, write_log, log_day, log_over, freeze_within_limit, Env,
  SubmitInput, submit_log, freeze_day, day_rollover, log_streak, freeze_streak, break_streak,
  reset_freezes, already_counted, freeze_anew, freeze_or_keep, enter_missed, settle_day, roll_day,
}
use proof_forge.DailyLog.Soundness.{
  IsSound, IsValid, reset_freezes-IsSound, log_streak-IsSound, freeze_streak-IsSound,
  break_streak-IsSound, get_streak-triple, some-triple, get_membership-triple, get_entry-triple,
  upsert-triple, record_event-triple,
}

write_log-triple :
    (env : Env) (input : SubmitInput) (date : ℕ) (x : Streak × StreakUpdate)
    → IsSound x.0
    → Triple IsValid (write_log env input date x) Anything
unfolding write_log
write_log-triple env input date (k, su) h =
    triple_bind IsValid _ _ Anything Anything (upsert-triple env.db_now _ k h) λ saved q.
      triple_seq IsValid _ _ Anything Anything (record_event-triple env _)
        (triple_pure IsValid Anything (saved, su) tt)

log_over-triple :
    (env : Env) (input : SubmitInput) (date : ℕ) (existing : Result Error Entry)
    → Triple IsValid (log_over env input date existing) Anything
unfolding log_over
log_over-triple env input date existing =
    triple_bind IsValid _ _ IsSound Anything (get_streak-triple input.user_id input.team_id)
      λ k sound.
        write_log-triple env input date
          (log_streak (already_counted existing) date (env.clock 3) (reset_freezes (env.clock 2) k))
          (log_streak-IsSound _ _ _ _ (reset_freezes-IsSound _ k sound))

log_day-triple :
    (env : Env) (input : SubmitInput) (date : ℕ) → Triple IsValid (log_day env input date) Anything
unfolding log_day
log_day-triple env input date =
    triple_bind IsValid _ (log_over env input date) (Returns Anything) Anything
      (get_entry-triple input.user_id input.team_id date)
      λ existing q. log_over-triple env input date existing

pub submit_log-triple :
    (env : Env) (input : SubmitInput) → Triple IsValid (submit_log env input) Anything
unfolding submit_log
submit_log-triple env input =
    triple_bind IsValid _ _ Anything Anything (get_membership-triple input.team_id input.user_id)
      λ mem q.
        triple_bind IsValid _ _ Anything Anything
          (some-triple (env.load_location mem.timezone) invalid_timezone)
          λ local_date q.
            triple_seq IsValid _ _ Anything Anything
              (triple_lift IsValid
                (is_valid_log_date (local_date input.log_date) (local_date (env.clock 0))) Anything
                (λ a e. tt))
              (triple_seq IsValid _ _ Anything Anything
                (triple_lift IsValid (validate_text input.text_content) Anything (λ a e. tt))
                (log_day-triple env input (local_date input.log_date)))

freeze_anew-triple :
    (env : Env) (user team date : ℕ) (k : Streak)
    → IsSound (freeze_streak date (env.clock 3) k)
    → Triple IsValid (freeze_anew env user team date k) Anything
unfolding freeze_anew
freeze_anew-triple env user team date k h =
    triple_bind IsValid _ _ Anything Anything
      (upsert-triple env.db_now (blank_entry user team date frozen (env.clock 2))
        (freeze_streak date (env.clock 3) k) h)
      λ saved q.
        triple_seq IsValid _ _ Anything Anything (record_event-triple env _)
          (triple_pure IsValid Anything saved tt)

freeze_or_keep-triple :
    (env : Env) (user team date : ℕ) (k : Streak) (existing : Result Error Entry)
    → IsSound (freeze_streak date (env.clock 3) k)
    → Triple IsValid (freeze_or_keep env user team date k existing) Anything
unfolding freeze_or_keep
freeze_or_keep-triple env user team date k (err e) h = freeze_anew-triple env user team date k h
freeze_or_keep-triple env user team date k (ok e) h = elim (Bool-cases (is_frozen e.status)) [
  | inl done ↦ rw done (triple_pure IsValid Anything e tt)
  | inr fresh ↦ rw fresh (freeze_anew-triple env user team date k h)
]

freeze_within_limit-triple :
    (env : Env) (user team date : ℕ) (k : Streak)
    → IsSound k
    → Triple IsValid (freeze_within_limit env user team date k) Anything
unfolding freeze_within_limit
freeze_within_limit-triple env user team date k h =
    triple_bind IsValid _ _ (λ u. freeze_allowed k.freezes_used_this_month ≡ ok tt) Anything
      (triple_lift IsValid (freeze_allowed k.freezes_used_this_month) _ (λ a e. e))
      λ u room.
        triple_bind IsValid _ (freeze_or_keep env user team date k) (Returns Anything) Anything
          (get_entry-triple user team date)
          λ existing q.
            freeze_or_keep-triple env user team date k existing
              (freeze_streak-IsSound date (env.clock 3) k h room)

pub freeze_day-triple :
    (env : Env) (user team log_date : ℕ)
    → Triple IsValid (freeze_day env user team log_date) Anything
unfolding freeze_day
freeze_day-triple env user team log_date =
    triple_bind IsValid _ _ Anything Anything (get_membership-triple team user) λ mem q.
      triple_bind IsValid _ _ Anything Anything
        (some-triple (env.load_location mem.timezone) invalid_timezone)
        λ local_date q.
          triple_seq IsValid _ _ Anything Anything
            (triple_lift IsValid
              (is_valid_log_date (local_date log_date) (local_date (env.clock 0))) Anything
              (λ a e. tt))
            (triple_bind IsValid _ _ IsSound Anything (get_streak-triple user team) λ k sound.
              freeze_within_limit-triple env user team (local_date log_date)
                (reset_freezes (env.clock 1) k) (reset_freezes-IsSound _ k sound))

enter_missed-triple :
    (env : Env) (user team day : ℕ) → Triple IsValid (enter_missed env user team day) Anything
unfolding enter_missed
enter_missed-triple env user team day =
    triple_bind IsValid _ _ IsSound Anything (get_streak-triple user team) λ k sound.
      triple_seq IsValid _ _ Anything Anything
        (upsert-triple env.db_now (blank_entry user team day missed (env.clock 1))
          (break_streak (env.clock 3) (reset_freezes (env.clock 2) k))
          (break_streak-IsSound _ _ (reset_freezes-IsSound _ k sound)))
        (record_event-triple env _)

settle_day-triple :
    (env : Env) (user team day : ℕ) (existing : Result Error Entry)
    → Triple IsValid (settle_day env user team day existing) Anything
unfolding settle_day
settle_day-triple env user team day (ok e) = elim (Bool-cases (is_settled e.status)) [
  | inl settled ↦ rw settled (triple_pure IsValid Anything tt tt)
  | inr due ↦ rw due (enter_missed-triple env user team day)
]
settle_day-triple env user team day (err entry_not_found) = enter_missed-triple env user team day
settle_day-triple env user team day (err e) = triple_fail IsValid Anything e

roll_day-triple :
    (env : Env) (user team day : ℕ) (working : Bool)
    → Triple IsValid (roll_day env user team day working) Anything
unfolding roll_day
roll_day-triple env user team day false = triple_pure IsValid Anything tt tt
roll_day-triple env user team day true =
    triple_bind IsValid _ (settle_day env user team day) (Returns Anything) Anything
      (get_entry-triple user team day) (λ existing q. settle_day-triple env user team day existing)

pub day_rollover-triple :
    (env : Env) (timezone : Text) (user team : ℕ)
    → Triple IsValid (day_rollover env timezone user team) Anything
unfolding day_rollover
day_rollover-triple env timezone user team =
    triple_bind IsValid _ _ Anything Anything
      (some-triple (env.load_location timezone) invalid_timezone)
      λ local_date q. roll_day-triple env user team _ _
