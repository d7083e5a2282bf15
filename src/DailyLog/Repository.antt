-- ===== src/DailyLog/Repository.antt =====
-- The tables of the daily log and the statements of
-- backend/internal/dailylog/postgres_repository.go.
use proof_forge.Prelude.{
  find_by, ℕ, ◌+◌, Option, none, some, Bool, ◌&&◌, List, [], ◌∷◌, leb, ◌==◌, if◌then◌else◌, select,
}
use proof_forge.Prelude.Text.{Text}
use proof_forge.Prelude.Sorting.{descending}
use proof_forge.Prelude.Action.{
  Action, statement, query, execute, or_fail, pure, transaction, ◌>>=◌, ◌>>◌,
}
use proof_forge.DailyLog.Rules.{Entry, Streak, Error, no_rows, not_member, db_failure}

-- A row of team_memberships.
pub record Membership : Type 0 where
  pub team_id : ℕ
  pub user_id : ℕ
  pub is_active : Bool
  pub timezone : Text

-- What the analytics recorder was given.
pub data RecordedEvent : Type 0 where
  daily_log_submitted : ℕ → ℕ → RecordedEvent
  streak_frozen : ℕ → ℕ → ℕ → RecordedEvent
  streak_broken : ℕ → ℕ → ℕ → RecordedEvent

pub record Store : Type 0 where
  pub memberships : List Membership
  pub entries : List Entry
  pub streaks : List Streak
  pub next_entry_id : ℕ
  pub recorded : List RecordedEvent

abbrev pub M : Type 0 → Type 0
M A = Action Store Error A

-- The unique key of daily_log_entries.
unfoldable pub is_entry_of : ℕ → ℕ → ℕ → Entry → Bool
is_entry_of user team date e = e.user_id == user && e.team_id == team && e.log_date == date

-- The primary key of user_streak.
unfoldable pub is_streak_of : ℕ → ℕ → Streak → Bool
is_streak_of user team s = s.user_id == user && s.team_id == team

abbrev pub is_membership_of : ℕ → ℕ → Membership → Bool
is_membership_of team user m = m.team_id == team && m.user_id == user && m.is_active

module _ {A : Type 0} where
  -- INSERT … ON CONFLICT … DO UPDATE: the row that the test finds is updated, or the new row added.
  unfoldable pub upsert : (A → Bool) → (A → A) → A → List A → List A
  upsert p f new [] = new ∷ []
  upsert p f new (x ∷ xs) = if p x then f x ∷ xs else x ∷ upsert p f new xs

-- GetEntry; scanEntry hands pgx.ErrNoRows through.
unfoldable pub get_entry : ℕ → ℕ → ℕ → M Entry
get_entry user team date = do
  row ← query db_failure (λ s. find_by (is_entry_of user team date) s.entries)
  or_fail row no_rows

abbrev pub no_streak : ℕ → ℕ → Streak
no_streak user team = record {
  user_id = user;
  team_id = team;
  current = 0;
  best = 0;
  last_active_date = none;
  freezes_used_this_month = 0;
  updated_at = none;
}

abbrev pub streak_or_zero : ℕ → ℕ → Option Streak → Streak
streak_or_zero user team none = no_streak user team
streak_or_zero user team (some s) = s

-- GetStreak
unfoldable pub get_streak : ℕ → ℕ → M Streak
get_streak user team =
    query db_failure (λ s. streak_or_zero user team (find_by (is_streak_of user team) s.streaks))

-- GetMembership
unfoldable pub get_membership : ℕ → ℕ → M Membership
get_membership team user = do
  row ← query db_failure (λ s. find_by (is_membership_of team user) s.memberships)
  or_fail row not_member

-- The SET list of the upsert: `submitted_at` stays as it was first.
unfoldable pub overwrite_entry : ℕ → Entry → Entry → Entry
overwrite_entry db_now new old = record old {
  status = new.status;
  text_content = new.text_content;
  has_artifact = new.has_artifact;
  external_url = new.external_url;
  storage_key = new.storage_key;
  mime_type = new.mime_type;
  file_size_bytes = new.file_size_bytes;
  overwritten_at = some db_now;
}

-- The row of a streak after the SET list of its upsert.
unfoldable pub overwrite_streak : Streak → Streak → Streak
overwrite_streak new old = record old {
  current = new.current;
  best = new.best;
  last_active_date = new.last_active_date;
  freezes_used_this_month = new.freezes_used_this_month;
  updated_at = new.updated_at;
}

unfoldable pub put_entry : ℕ → Entry → Store → Store
put_entry db_now e s = record s {
  entries =
      upsert (is_entry_of e.user_id e.team_id e.log_date) (overwrite_entry db_now e)
        (record e { id = s.next_entry_id }) s.entries;
  next_entry_id = s.next_entry_id + 1;
}

unfoldable pub put_streak : Streak → Store → Store
put_streak k s = record s {
  streaks = upsert (is_streak_of k.user_id k.team_id) (overwrite_streak k) k s.streaks;
}

abbrev tx_mark : M (Unit {0})
tx_mark = execute db_failure (λ s. s)

-- UpsertEntryAndStreak, which returns the row of the entry.
unfoldable pub upsert_entry_and_streak : ℕ → Entry → Streak → M Entry
upsert_entry_and_streak db_now e k = transaction do
  tx_mark
  row ← statement db_failure λ s. (
    find_by (is_entry_of e.user_id e.team_id e.log_date) (put_entry db_now e s).entries,
    put_entry db_now e s,
  )
  entry ← or_fail row no_rows
  execute db_failure (put_streak k)
  tx_mark
  pure entry

-- ListEntries: ORDER BY log_date DESC
unfoldable pub list_entries : ℕ → ℕ → ℕ → ℕ → M (List Entry)
list_entries user team from to = query db_failure λ s.
    descending (λ e. e.log_date)
      (select
        (λ e. e.user_id == user && e.team_id == team && leb from e.log_date && leb e.log_date to)
        s.entries)
