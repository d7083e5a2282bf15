-- ===== src/Notifications/Repository.antt =====
-- The tables and statements of backend/internal/notifications/repository.go, and the kinds of
-- domain.go.
use proof_forge.Prelude.{
  ℕ, suc, zero, ◌+◌, ◌/◌, ◌%◌, Option, none, some, Bool, true, false, not, ◌&&◌, ◌||◌, List, [],
  ◌∷◌, ◌++◌, any, count, select, take, find_by, leb, ltb, ◌==◌, if◌then◌else◌,
}
use proof_forge.Prelude.Text.{Text, text_eq, codes, is_empty}
use proof_forge.Prelude.Table.{Keyed, find, modify}
use proof_forge.Prelude.Sorting.{ascending}
use proof_forge.Prelude.Action.{Action, query, execute}
use proof_forge.Users.{User, user_keyed}
use proof_forge.Goals.{PactStatus}
use proof_forge.Goals.Tables.{PactRow}

pub data Error : Type 0 where
  db_failure send_failure : Error

abbrev pub kind_digest : Text
kind_digest = codes "digest"

abbrev pub kind_quiet : Text
kind_quiet = codes "quiet"

-- A value of a JSON payload: a number, a string, an array with its numbers, or anything else. The
-- payloads hold keys of rows, so a number is a natural.
pub data Value : Type 0 where
  number : ℕ → Value
  string : Text → Value
  array : List (Option ℕ) → Value
  other : Value

pub record DomainEvent : Type 0 where
  pub id : ℕ
  pub kind : Text
  -- `none` when the payload is no JSON object.
  pub payload : Option (List (Text × Value))
  pub created_at : ℕ
  pub processed_at : Option ℕ

instance abbrev pub event_keyed : Keyed DomainEvent
event_keyed = record { key = λ e. e.id }

pub record NotificationLog : Type 0 where
  pub user_id : ℕ
  pub kind : Text
  pub dedup_key : Text
  pub sent_at : ℕ

pub record TelegramLink : Type 0 where
  pub user_id : ℕ
  pub chat_id : ℕ
  pub is_active : Bool

-- What the chat service has delivered: a text, or one with the review buttons of a check-in.
pub data Message : Type 0 where
  plain : ℕ → Text → Message
  approval : ℕ → Text → ℕ → Message

pub record Store : Type 0 where
  pub users : List User
  pub pacts : List PactRow
  pub links : List TelegramLink
  pub log : List NotificationLog
  pub events : List DomainEvent
  pub sent : List Message

abbrev pub M : Type 0 → Type 0
M A = Action Store Error A

-- The database's clock, the beginning of its UTC day, and that day as the process formats it.
pub record Env : Type 0 where
  pub db_now : ℕ
  pub day_start : ℕ
  pub today : Text

-- LogNotification; ON CONFLICT (dedup_key) DO NOTHING
abbrev pub has_key : Text → NotificationLog → Bool
has_key key l = text_eq l.dedup_key key

abbrev pub entry : Env → ℕ → Text → Text → NotificationLog
entry env user kind key = record {
  user_id = user;
  kind = kind;
  dedup_key = key;
  sent_at = env.db_now;
}

unfoldable pub add_to_log : NotificationLog → List NotificationLog → List NotificationLog
add_to_log l ls = if any (has_key l.dedup_key) ls then ls else ls ++ l ∷ []

unfoldable pub log_notification : Env → ℕ → Text → Text → M (Unit {0})
log_notification env user kind key =
    execute db_failure λ s. record s { log = add_to_log (entry env user kind key) s.log }

-- kind NOT IN ('quiet', 'digest')
abbrev pub is_nudge : Text → Bool
is_nudge kind = not (text_eq kind kind_quiet || text_eq kind kind_digest)

abbrev pub is_nudge_today : ℕ → ℕ → NotificationLog → Bool
is_nudge_today user day_start l = l.user_id == user && is_nudge l.kind && leb day_start l.sent_at

abbrev pub nudges_today : ℕ → ℕ → List NotificationLog → ℕ
nudges_today user day_start = count (is_nudge_today user day_start)

-- CountTodayNotifications
unfoldable pub count_today_notifications : Env → ℕ → M ℕ
count_today_notifications env user = query db_failure (λ s. nudges_today user env.day_start s.log)

abbrev pub is_quiet_entry : ℕ → ℕ → NotificationLog → Bool
is_quiet_entry user day_start l =
    l.user_id == user && text_eq l.kind kind_quiet && leb day_start l.sent_at

-- IsQuietToday
unfoldable pub is_quiet_today : Env → ℕ → M Bool
is_quiet_today env user =
    query db_failure (λ s. ltb 0 (count (is_quiet_entry user env.day_start) s.log))

-- %d; the fuel is above the number of digits.
unfoldable pub digits : ℕ → ℕ → Text
digits zero n = []
digits (suc fuel) n =
    let rest = digits fuel (n / 10) in (if ltb n 10 then [] else rest) ++ (b'0' + n % 10) ∷ []

abbrev pub decimal : ℕ → Text
decimal n = digits (n + 1) n

abbrev pub joined : Text → Text → Text
joined a b = a ++ codes "_" ++ b

-- SetQuietToday
unfoldable pub set_quiet_today : Env → ℕ → M (Unit {0})
set_quiet_today env user =
    log_notification env user kind_quiet (joined (codes "quiet") (joined (decimal user) env.today))

abbrev is_waiting : DomainEvent → Bool
is_waiting e = elim e.processed_at [ none ↦ true | some t ↦ false ]

-- GetUnprocessedEvents
unfoldable pub get_unprocessed_events : ℕ → M (List DomainEvent)
get_unprocessed_events limit =
    query db_failure (λ s. take limit (ascending (λ e. e.created_at) (select is_waiting s.events)))

abbrev processed : ℕ → DomainEvent → DomainEvent
processed now e = record e { processed_at = some now }

-- MarkEventProcessed
unfoldable pub mark_event_processed : Env → ℕ → M (Unit {0})
mark_event_processed env id =
    execute db_failure λ s. record s { events = modify id (processed env.db_now) s.events }

abbrev is_active_pact : PactStatus → Bool
is_active_pact PactStatus.active = true
is_active_pact PactStatus.invited = false

-- GetGoalBuddyUserID: 0 when the goal has no active pact
unfoldable pub get_goal_buddy_user_id : ℕ → M ℕ
get_goal_buddy_user_id goal = query db_failure λ s.
    elim (find_by (λ p. p.goal_id == goal && is_active_pact p.status) s.pacts) [
      | none ↦ 0
      | some p ↦ p.buddy_user_id
    ]

-- GetOwnerDisplayName
unfoldable pub get_owner_display_name : ℕ → M Text
get_owner_display_name user = query db_failure λ s. elim (find user s.users) [
  | none ↦ []
  | some u ↦ if is_empty u.display_name then u.email else u.display_name
]

-- GetTelegramChatID: 0 when the user has no active link
abbrev pub chat_of : ℕ → List TelegramLink → ℕ
chat_of user links = elim (find_by (λ l. l.user_id == user && l.is_active) links) [
  | none ↦ 0
  | some l ↦ l.chat_id
]

unfoldable pub get_telegram_chat_id : ℕ → M ℕ
get_telegram_chat_id user = query db_failure (λ s. chat_of user s.links)
