-- ===== src/DailyLog/Counting.antt =====
-- What logging a day does to the streak, and what the nightly rollover does to a day without an entry.
use proof_forge.Prelude.{
  find_by, ℕ, ◌≡◌, refl, ◌∙◌, Option, none, some, Bool, true, List, [], ◌∷◌, ◌++◌, arith,
  if◌then◌else◌, Bool-cases, Option-cases, inl, inr,
}
use proof_forge.Prelude.Action.{Result, ok, err}
use proof_forge.DailyLog.Rules.{Entry, Error, Streak, StreakUpdate, no_rows}
use proof_forge.DailyLog.Repository.{
  Store, RecordedEvent, daily_log_submitted, upsert, is_entry_of, is_streak_of, streak_or_zero,
  get_entry, get_streak, overwrite_streak, overwrite_entry, put_entry, put_streak,
  upsert_entry_and_streak,
}
use proof_forge.DailyLog.Service.{
  Env, SubmitInput, record_event, log_day, log_over, write_log, log_streak, reset_freezes,
  entry_to_log, already_counted,
}

-- The streak that a reader gets, and the entry of a day.
unfoldable pub streak_at : ℕ → ℕ → Store → Streak
streak_at user team s = streak_or_zero user team (find_by (is_streak_of user team) s.streaks)

unfoldable pub entry_at : ℕ → ℕ → ℕ → Store → Option Entry
entry_at user team date s = find_by (is_entry_of user team date) s.entries

module _ {A : Type 0} (p : A → Bool) (f : A → A) (new : A) where
  abbrev updated : Option A → A
  updated none = new
  updated (some x) = f x

  find_by-upsert :
      (xs : List A)
      → p new ≡ true
      → ((x : A) → p (f x) ≡ p x)
      → find_by p (upsert p f new xs) ≡ some (updated (find_by p xs))
  unfolding find_by upsert
  find_by-upsert [] h same = ground arith
  find_by-upsert (x ∷ xs) h same = let step = same x in ground (arith, find_by-upsert xs h same)

find_by-passes :
    {A : Type 0} (p : A → Bool) (xs : List A) (x : A) → find_by p xs ≡ some x → p x ≡ true
unfolding find_by
find_by-passes p [] x h = ground arith
find_by-passes p (y ∷ xs) x h = elim (Bool-cases (p y)) [
  | inl hit ↦ let same : some y ≡ some x = rw hit at h in cc
  | inr miss ↦ find_by-passes p xs x (rw miss at h)
]

is_streak_of-match :
    (k : Streak) (user team : ℕ)
    → is_streak_of user team k ≡ true
    → (k.user_id ≡ user) × (k.team_id ≡ team)
unfolding is_streak_of
is_streak_of-match k user team h = ground arith

is_streak_of_self : (k : Streak) → is_streak_of k.user_id k.team_id k ≡ true
unfolding is_streak_of
is_streak_of_self k = ground arith

is_entry_of_self : (e : Entry) → is_entry_of e.user_id e.team_id e.log_date e ≡ true
unfolding is_entry_of
is_entry_of_self e = ground arith

pub streak_at-match :
    (user team : ℕ) (s : Store)
    → ((streak_at user team s).user_id ≡ user) × ((streak_at user team s).team_id ≡ team)
unfolding streak_at
streak_at-match user team s = elim (Option-cases (find_by (is_streak_of user team) s.streaks)) [
  | inl e ↦ rw e (refl, refl)
  | inr (k, e) ↦ rw e (is_streak_of-match k user team (find_by-passes _ s.streaks k e))
]

is_entry_of-overwrite :
    (now : ℕ) (new x : Entry)
    → is_entry_of new.user_id new.team_id new.log_date (overwrite_entry now new x)
      ≡ is_entry_of new.user_id new.team_id new.log_date x
unfolding is_entry_of overwrite_entry
is_entry_of-overwrite now new x = refl

is_entry_of-numbered :
    (e : Entry) (n : ℕ) → is_entry_of e.user_id e.team_id e.log_date (record e { id = n }) ≡ true
unfolding is_entry_of
is_entry_of-numbered e n = ground arith

is_streak_of-overwrite :
    (new x : Streak)
    → is_streak_of new.user_id new.team_id (overwrite_streak new x)
      ≡ is_streak_of new.user_id new.team_id x
unfolding is_streak_of overwrite_streak
is_streak_of-overwrite new x = refl

-- Reading back what was written.
abbrev pub row_written : ℕ → Entry → Store → Entry
row_written now e s =
    updated (is_entry_of e.user_id e.team_id e.log_date) (overwrite_entry now e)
      (record e { id = s.next_entry_id })
      (find_by (is_entry_of e.user_id e.team_id e.log_date) s.entries)

pub entry_at-put_entry :
    (now : ℕ) (e : Entry) (s : Store)
    → entry_at e.user_id e.team_id e.log_date (put_entry now e s) ≡ some (row_written now e s)
unfolding entry_at put_entry
entry_at-put_entry now e s =
    find_by-upsert (is_entry_of e.user_id e.team_id e.log_date) (overwrite_entry now e)
      (record e { id = s.next_entry_id }) s.entries (is_entry_of-numbered e s.next_entry_id)
      (λ x. is_entry_of-overwrite now e x)

pub row_written-status :
    (now : ℕ) (e : Entry) (s : Store)
    → ((row_written now e s).status ≡ e.status)
      × ((row_written now e s).text_content ≡ e.text_content)
unfolding overwrite_entry
row_written-status now e s =
    elim (Option-cases (find_by (is_entry_of e.user_id e.team_id e.log_date) s.entries)) [
      | inl miss ↦ rw miss (refl, refl)
      | inr (old, hit) ↦ rw hit (refl, refl)
    ]

pub streak_at-put_streak :
    (k : Streak) (s : Store)
    → let k' = streak_at k.user_id k.team_id (put_streak k s) in
      (k'.current ≡ k.current)
      × (k'.best ≡ k.best)
      × (k'.freezes_used_this_month ≡ k.freezes_used_this_month)
unfolding streak_at put_streak overwrite_streak
streak_at-put_streak k s =
    rw
      (find_by-upsert (is_streak_of k.user_id k.team_id) (overwrite_streak k) k s.streaks
        (is_streak_of_self k) (is_streak_of-overwrite k))
      (elim (Option-cases (find_by (is_streak_of k.user_id k.team_id) s.streaks)) [
        | inl miss ↦ rw miss (refl, refl, refl)
        | inr (old, hit) ↦ rw hit (refl, refl, refl)
      ])

-- What is written with no outage.
pub upsert-runs :
    (now : ℕ) (e : Entry) (k : Streak) (s : Store)
    → upsert_entry_and_streak now e k (record { store = s; outages = [] }) ≡ (
      ok (row_written now e s),
      record { store = put_streak k (put_entry now e s); outages = [] },
    )
unfolding upsert_entry_and_streak entry_at
upsert-runs now e k s = let there = entry_at-put_entry now e s in rw there refl

unfoldable pub recorded_in : Env → RecordedEvent → Store → Store
recorded_in env e s = if env.has_recorder then record s { recorded = s.recorded ++ e ∷ [] } else s

pub recorded_in-tables :
    (env : Env) (e : RecordedEvent) (s : Store)
    → ((recorded_in env e s).streaks ≡ s.streaks) × ((recorded_in env e s).entries ≡ s.entries)
unfolding recorded_in
recorded_in-tables env e s = elim (Bool-cases env.has_recorder) [
  | inl on ↦ rw on (refl, refl)
  | inr off ↦ rw off (refl, refl)
]

pub record_event-runs :
    (env : Env) (e : RecordedEvent) (s : Store)
    → record_event env e (record { store = s; outages = [] })
      ≡ (ok tt, record { store = recorded_in env e s; outages = [] })
unfolding recorded_in
record_event-runs env e s = elim (Bool-cases env.has_recorder) [
  | inl on ↦ rw on refl
  | inr off ↦ rw off refl
]

-- The store after a day is logged with no outage.
abbrev pub log_event : SubmitInput → RecordedEvent
log_event input = daily_log_submitted input.user_id input.team_id

abbrev pub store_logged : Env → SubmitInput → ℕ → Streak → Store → Store
store_logged env input date k s =
    recorded_in env (log_event input)
      (put_streak k (put_entry env.db_now (entry_to_log env input date) s))

abbrev pub lookup : Option Entry → Result Error Entry
lookup none = err no_rows
lookup (some e) = ok e

-- Whether the streak counts the day already.
abbrev pub is_counted : ℕ → ℕ → ℕ → Store → Bool
is_counted user team date s = already_counted (lookup (entry_at user team date s))

abbrev pub streak_logged : Env → SubmitInput → ℕ → Store → Streak × StreakUpdate
streak_logged env input date s =
    log_streak (is_counted input.user_id input.team_id date s) date (env.clock 3)
      (reset_freezes (env.clock 2) (streak_at input.user_id input.team_id s))

write_log-runs :
    (env : Env) (input : SubmitInput) (date : ℕ) (k : Streak) (su : StreakUpdate) (s : Store)
    → write_log env input date (k, su) (record { store = s; outages = [] }) ≡ (
      ok (row_written env.db_now (entry_to_log env input date) s, su),
      record { store = store_logged env input date k s; outages = [] },
    )
unfolding write_log
write_log-runs env input date k su s =
    rw (upsert-runs env.db_now (entry_to_log env input date) k s) (
      rw
        (record_event-runs env (log_event input)
          (put_streak k (put_entry env.db_now (entry_to_log env input date) s)))
        refl)

pub get_entry-runs :
    (user team date : ℕ) (s : Store)
    → get_entry user team date (record { store = s; outages = [] })
      ≡ (lookup (entry_at user team date s), record { store = s; outages = [] })
unfolding get_entry entry_at
get_entry-runs user team date s =
    elim (Option-cases (find_by (is_entry_of user team date) s.entries)) [
      | inl miss ↦ rw miss refl
      | inr (e, hit) ↦ rw hit refl
    ]

log_over-runs :
    (env : Env) (input : SubmitInput) (date : ℕ) (existing : Result Error Entry) (s : Store)
    → log_over env input date existing (record { store = s; outages = [] })
      ≡ write_log env input date
          (log_streak
            (already_counted existing)
            date
            (env.clock 3)
            (reset_freezes (env.clock 2) (streak_at input.user_id input.team_id s)))
          (record { store = s; outages = [] })
unfolding log_over get_streak streak_at
log_over-runs env input date existing s = refl

pub log_day-runs :
    (env : Env) (input : SubmitInput) (date : ℕ) (s : Store)
    → log_day env input date (record { store = s; outages = [] }) ≡ (
      ok (
        row_written env.db_now (entry_to_log env input date) s,
        (streak_logged env input date s).1,
      ),
      record {
        store = store_logged env input date (streak_logged env input date s).0 s;
        outages = [];
      },
    )
unfolding log_day
log_day-runs env input date s = rw (get_entry-runs input.user_id input.team_id date s) (
    log_over-runs env input date (lookup (entry_at input.user_id input.team_id date s)) s
    ∙ write_log-runs env input date (streak_logged env input date s).0
        (streak_logged env input date s).1 s)
