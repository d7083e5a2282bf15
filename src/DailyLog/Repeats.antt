-- ===== src/DailyLog/Repeats.antt =====
-- SubmitLog and the streak: what one log adds, what the second log of a day adds, and what the
-- nightly DayRollover does with a day that has no entry.
use proof_forge.Prelude.{
  find_by, ℕ, ◌+◌, ◌-◌, ◌≡◌, refl, ap, ◌∙◌, none, some, Bool, true, [], arith, ltb, if◌then◌else◌,
}
use proof_forge.Prelude.Text.{Text}
use proof_forge.Prelude.Action.{ok, err}
use proof_forge.DailyLog.Calendar.{is_working_day}
use proof_forge.DailyLog.Rules.{
  Entry, Streak, StreakUpdate, logged, no_rows, compute_streak_update, is_valid_log_date,
  validate_text,
}
use proof_forge.DailyLog.Repository.{
  Store, get_entry, put_entry, put_streak, get_membership, is_membership_of, Membership,
}
use proof_forge.DailyLog.Service.{
  Env, SubmitInput, log_day, log_streak, reset_freezes, entry_to_log, already_counted, settle_day,
  roll_day, day_rollover, submit_log,
}
use proof_forge.DailyLog.Counting.{
  streak_at, entry_at, is_counted, streak_logged, store_logged, log_event, row_written,
  row_written-status, streak_at-put_streak, log_day-runs, recorded_in-tables, streak_at-match,
  entry_at-put_entry,
}

reset_freezes-keeps :
    (now : ℕ) (k : Streak)
    → ((reset_freezes now k).current ≡ k.current)
      × ((reset_freezes now k).best ≡ k.best)
      × ((reset_freezes now k).user_id ≡ k.user_id)
      × ((reset_freezes now k).team_id ≡ k.team_id)
unfolding reset_freezes
reset_freezes-keeps now k = ground arith

-- The streak that one more log makes of `k`.
abbrev pub current_logged : Bool → ℕ → ℕ
current_logged counted n = if counted then n else n + 1

abbrev pub best_logged : Bool → ℕ → ℕ → ℕ
best_logged counted n best = if counted then best else if ltb best (n + 1) then n + 1 else best

log_streak-counts :
    (counted : Bool) (date now : ℕ) (k : Streak)
    → ((log_streak counted date now k).0.current ≡ current_logged counted k.current)
      × ((log_streak counted date now k).0.best ≡ best_logged counted k.current k.best)
      × ((log_streak counted date now k).0.user_id ≡ k.user_id)
      × ((log_streak counted date now k).0.team_id ≡ k.team_id)
unfolding log_streak compute_streak_update
log_streak-counts counted date now k = ground arith

entry_to_log-fields :
    (env : Env) (input : SubmitInput) (date : ℕ)
    → ((entry_to_log env input date).user_id ≡ input.user_id)
      × ((entry_to_log env input date).team_id ≡ input.team_id)
      × ((entry_to_log env input date).log_date ≡ date)
      × ((entry_to_log env input date).status ≡ logged)
      × ((entry_to_log env input date).text_content ≡ input.text_content)
unfolding entry_to_log
entry_to_log-fields env input date = ground arith

store_logged-streak :
    (env : Env) (input : SubmitInput) (date : ℕ) (k : Streak) (s : Store)
    → k.user_id ≡ input.user_id
    → k.team_id ≡ input.team_id
    → ((streak_at input.user_id input.team_id (store_logged env input date k s)).current
        ≡ k.current)
      × ((streak_at input.user_id input.team_id (store_logged env input date k s)).best ≡ k.best)
unfolding streak_at
store_logged-streak env input date k s eu et =
    let s' = put_entry env.db_now (entry_to_log env input date) s in
    let tables = (recorded_in-tables env (log_event input) (put_streak k s')).0 in
    let (current, best, freezes) = streak_at-put_streak k s' in
    rw tables (simp (← eu, ← et) (current, best))

put_streak-entries : (k : Streak) (s : Store) → (put_streak k s).entries ≡ s.entries
unfolding put_streak
put_streak-entries k s = refl

store_logged-entry :
    (env : Env) (input : SubmitInput) (date : ℕ) (k : Streak) (s : Store)
    → entry_at input.user_id input.team_id date (store_logged env input date k s)
      ≡ some (row_written env.db_now (entry_to_log env input date) s)
unfolding entry_at
store_logged-entry env input date k s =
    let e = entry_to_log env input date in
    let s' = put_entry env.db_now e s in
    let (eu, et, ed, es, ex) = entry_to_log-fields env input date in
    let tables = (recorded_in-tables env (log_event input) (put_streak k s')).1 in
    let back = entry_at-put_entry env.db_now e s in rw tables (rw (put_streak-entries k s') cc)

-- The streak that a log writes is the next one of the streak that is read, under its keys.
streak_logged-next :
    (env : Env) (input : SubmitInput) (date : ℕ) (s : Store)
    → let k = streak_at input.user_id input.team_id s in
      let k' = (streak_logged env input date s).0 in
      let counted = is_counted input.user_id input.team_id date s in
      (k'.current ≡ current_logged counted k.current)
      × (k'.best ≡ best_logged counted k.current k.best)
      × (k'.user_id ≡ input.user_id)
      × (k'.team_id ≡ input.team_id)
streak_logged-next env input date s =
    let k = streak_at input.user_id input.team_id s in
    let (rc, rb, ru, rt) = reset_freezes-keeps (env.clock 2) k in
    let (lc, lb, lu, lt) =
      log_streak-counts (is_counted input.user_id input.team_id date s) date (env.clock 3)
        (reset_freezes (env.clock 2) k) in
    let (mu, mt) = streak_at-match input.user_id input.team_id s in
    (lc ∙ rw rc refl, lb ∙ rw rc (rw rb refl), lu ∙ ru ∙ mu, lt ∙ rt ∙ mt)

-- The store of SubmitLog after a log of `date` with no outage.
abbrev pub logged_once : Env → SubmitInput → ℕ → Store → Store
logged_once env input date s = (log_day env input date (record { store = s; outages = [] })).1.store

log_day-store :
    (env : Env) (input : SubmitInput) (date : ℕ) (s : Store)
    → logged_once env input date s
      ≡ store_logged env input date (streak_logged env input date s).0 s
log_day-store env input date s = ap (λ x. x.1.store) (log_day-runs env input date s)

streak_written :
    (env : Env) (input : SubmitInput) (date : ℕ) (s : Store)
    → let k = streak_at input.user_id input.team_id s in
      let w = store_logged env input date (streak_logged env input date s).0 s in
      let k' = streak_at input.user_id input.team_id w in
      let counted = is_counted input.user_id input.team_id date s in
      (k'.current ≡ current_logged counted k.current)
      × (k'.best ≡ best_logged counted k.current k.best)
streak_written env input date s =
    let (nc, nb, nu, nt) = streak_logged-next env input date s in
    let (wc, wb) = store_logged-streak env input date (streak_logged env input date s).0 s nu nt in
    (wc ∙ nc, wb ∙ nb)

log_day-streak :
    (env : Env) (input : SubmitInput) (date : ℕ) (s : Store)
    → let k = streak_at input.user_id input.team_id s in
      let k' = streak_at input.user_id input.team_id (logged_once env input date s) in
      let counted = is_counted input.user_id input.team_id date s in
      (k'.current ≡ current_logged counted k.current)
      × (k'.best ≡ best_logged counted k.current k.best)
log_day-streak env input date s =
    rw (log_day-store env input date s) (streak_written env input date s)

log_day-counted :
    (env : Env) (input : SubmitInput) (date : ℕ) (s : Store)
    → is_counted input.user_id input.team_id date (logged_once env input date s) ≡ true
unfolding already_counted
log_day-counted env input date s =
    let (eu, et, ed, es, ex) = entry_to_log-fields env input date in
    let written = row_written-status env.db_now (entry_to_log env input date) s in
    rw (log_day-store env input date s) (
      rw (store_logged-entry env input date (streak_logged env input date s).0 s)
        (rw (written.0 ∙ es) refl))

-- Without outages, logging a day twice counts it once: after the second log of a date, with whatever
-- text, link and clocks, the current and the best streak are those after the first.
pub log_day-twice :
    (env env' : Env) (input input' : SubmitInput) (date : ℕ) (s : Store)
    → input'.user_id ≡ input.user_id
    → input'.team_id ≡ input.team_id
    → let first = logged_once env input date s in
      let second = logged_once env' input' date first in
      let k = streak_at input.user_id input.team_id first in
      let k' = streak_at input.user_id input.team_id second in
      (k'.current ≡ k.current) × (k'.best ≡ k.best)
log_day-twice env env' input input' date s eu et =
    let again = log_day-counted env input date s in
    let next = log_day-streak env' input' date (logged_once env input date s) in
    let moved : let first = logged_once env input date s in
        let k' = streak_at input.user_id input.team_id (logged_once env' input' date first) in
        let k = streak_at input.user_id input.team_id first in
        let counted = is_counted input.user_id input.team_id date first in
        (k'.current ≡ current_logged counted k.current)
        × (k'.best ≡ best_logged counted k.current k.best) =
      simp (eu, et) at next in
    (moved.0 ∙ rw again refl, moved.1 ∙ rw again refl)

submit_log-runs :
    (env : Env) (input : SubmitInput) (s : Store) (mem : Membership) (local_date : ℕ → ℕ)
    → find_by (is_membership_of input.team_id input.user_id) s.memberships ≡ some mem
    → env.load_location mem.timezone ≡ some local_date
    → is_valid_log_date (local_date input.log_date) (local_date (env.clock 0)) ≡ ok tt
    → validate_text input.text_content ≡ ok tt
    → submit_log env input (record { store = s; outages = [] })
      ≡ log_day env input (local_date input.log_date) (record { store = s; outages = [] })
unfolding submit_log get_membership
submit_log-runs env input s mem local_date member zone valid long =
    rw member (rw zone (rw valid (rw long refl)))

-- With a membership, a known time zone, today's or yesterday's date, be it a working day or not, a
-- text that is long enough and no outage, SubmitLog succeeds; afterwards the day's entry is logged with the text given, the current
-- streak is one higher unless the day was counted before, and the best streak follows it.
pub submit_log-counts :
    (env : Env) (input : SubmitInput) (s : Store) (mem : Membership) (local_date : ℕ → ℕ)
    → find_by (is_membership_of input.team_id input.user_id) s.memberships ≡ some mem
    → env.load_location mem.timezone ≡ some local_date
    → is_valid_log_date (local_date input.log_date) (local_date (env.clock 0)) ≡ ok tt
    → validate_text input.text_content ≡ ok tt
    → let date = local_date input.log_date in
      let (r, w) = submit_log env input (record { store = s; outages = [] }) in
      let k = streak_at input.user_id input.team_id s in
      let k' = streak_at input.user_id input.team_id w.store in
      let counted = is_counted input.user_id input.team_id date s in
      (e : Entry) × (su : StreakUpdate) × (r ≡ ok (e, su))
      × (entry_at input.user_id input.team_id date w.store ≡ some e)
      × (e.status ≡ logged)
      × (e.text_content ≡ input.text_content)
      × (k'.current ≡ current_logged counted k.current)
      × (k'.best ≡ best_logged counted k.current k.best)
submit_log-counts env input s mem local_date member zone valid long =
    let date = local_date input.log_date in
    let e = entry_to_log env input date in
    let (es, ex) = row_written-status env.db_now e s in
    let (eu, et, ed, el, ec) = entry_to_log-fields env input date in
    rw (submit_log-runs env input s mem local_date member zone valid long) (
      rw (log_day-runs env input date s) (
        row_written env.db_now e s,
        (streak_logged env input date s).1,
        refl,
        store_logged-entry env input date (streak_logged env input date s).0 s,
        es ∙ el,
        ex ∙ ec,
        (streak_written env input date s).0,
        (streak_written env input date s).1,
      ))

-- For a working day without an entry and no outage, DayRollover returns the lookup's error and
-- leaves the store as it was: the missed day is not entered and the streak is not broken.
pub day_rollover-missed :
    (env : Env) (timezone : Text) (user team : ℕ) (local_date : ℕ → ℕ) (s : Store)
    → env.load_location timezone ≡ some local_date
    → is_working_day env.is_holiday (local_date (env.clock 0) - 1) ≡ true
    → entry_at user team (local_date (env.clock 0) - 1) s ≡ none
    → day_rollover env timezone user team (record { store = s; outages = [] })
      ≡ (err no_rows, record { store = s; outages = [] })
unfolding day_rollover roll_day settle_day get_entry entry_at
day_rollover-missed env timezone user team local_date s tz working absent = ground arith
