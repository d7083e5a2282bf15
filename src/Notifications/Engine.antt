-- ===== src/Notifications/Engine.antt =====
-- NudgeEngine of backend/internal/notifications/nudge_engine.go: one nudge, or several, for each
-- domain event. Every error in `handle` is only logged, so each sending stands under `ignore`.
use proof_forge.Prelude.{ℕ, none, some, Option, Bool, List, [], ◌∷◌, ◌++◌, ◌==◌, if◌then◌else◌}
use proof_forge.Prelude.Text.{Text, text_eq, codes, is_empty}
use proof_forge.Prelude.Action.{Result, ok, err, pure, attempt, ignore, ◌>>=◌, ◌>>◌}
use proof_forge.Notifications.Repository.{
  Env, M, Error, Value, number, string, array, other, DomainEvent, decimal, joined,
  get_goal_buddy_user_id, get_owner_display_name, get_telegram_chat_id, get_unprocessed_events,
  mark_event_processed,
}
use proof_forge.Notifications.Dispatcher.{nudge_dedup_key, send_nudge, send_approval_request}

abbrev Payload : Type 0
Payload = List (Text × Value)

abbrev value_of : Text → Payload → Value
value_of key [] = other
value_of key ((k, v) ∷ p) = if text_eq k key then v else value_of key p

-- getInt64, getString and toInt64Slice, with Go's zero values for what is missing
unfoldable pub get_int64 : Text → Payload → ℕ
get_int64 key p = elim (value_of key p) [ number n ↦ n | _ ↦ 0 ]

unfoldable pub get_string : Text → Payload → Text
get_string key p = elim (value_of key p) [ string t ↦ t | _ ↦ [] ]

abbrev numbers : List (Option ℕ) → List ℕ
numbers [] = []
numbers (none ∷ xs) = numbers xs
numbers (some n ∷ xs) = n ∷ numbers xs

unfoldable pub to_int64_slice : Value → List ℕ
to_int64_slice (array xs) = numbers xs
to_int64_slice _ = []

-- The owner's name: the payload's, or the database's, whose error gives an empty name.
abbrev named : Result Error Text → Text
named (ok name) = name
named (err e) = []

unfoldable pub owner_name : Payload → M Text
owner_name p =
    let given = get_string (codes "owner_display_name") p in
    if is_empty given
    then (attempt (get_owner_display_name (get_int64 (codes "owner_user_id") p)) >>= λ r.
        pure (named r))
    else pure given

-- case "checkin.submitted"
unfoldable pub on_submitted : Payload → M (Unit {0})
on_submitted p = do
  buddy ← get_goal_buddy_user_id (get_int64 (codes "goal_id") p)
  if buddy == 0 then pure tt else do
    chat ← get_telegram_chat_id buddy
    if chat == 0 then pure tt else do
      name ← owner_name p
      send_approval_request chat
          (codes "📋 <b>НОВЫЙ ПРУФ</b>\n" ++ name ++ codes " ждёт твоей оценки.")
          (get_int64 (codes "check_in_id") p)

-- A nudge under the key of its kind, its number and the day.
abbrev nudge : Env → ℕ → Text → Text → Text → M (Unit {0})
nudge env user kind keyed text =
    ignore (send_nudge env user kind (nudge_dedup_key env user keyed) text)

-- The loop over the other members.
unfoldable pub nudge_others : Env → ℕ → Text → Text → List ℕ → M (Unit {0})
nudge_others env self kind text [] = pure tt
nudge_others env self kind text (m ∷ ms) = do
  if m == self then pure tt else nudge env m kind (joined kind (decimal self)) text
  nudge_others env self kind text ms

abbrev unless : Bool → M (Unit {0}) → M (Unit {0})
unless b m = if b then pure tt else m

abbrev key_of : Text → ℕ → Text
key_of kind id = joined kind (decimal id)

-- case "checkin.approved"
unfoldable pub on_approved : Env → ℕ → Payload → M (Unit {0})
on_approved env id p = do
  let owner = get_int64 (codes "owner_user_id") p
  let name = get_string (codes "owner_display_name") p
  let kind = codes "nudge_checkin_approved"
  nudge env owner kind (key_of kind id) (codes "✅ <b>ОДОБРЕНО. Продолжай!</b>")
  unless (is_empty name) (
      nudge_others env owner (codes "nudge_first_checkin")
        (codes "🟢 <b>" ++ name ++ codes " ПЕРВЫЙ. ТЫ ЕЩЁ НЕТ.</b>")
        (to_int64_slice (value_of (codes "all_member_ids") p)))

-- case "checkin.rejected"
unfoldable pub on_rejected : Env → ℕ → Payload → M (Unit {0})
on_rejected env id p =
    let kind = codes "nudge_checkin_rejected" in
    nudge env (get_int64 (codes "owner_user_id") p) kind (key_of kind id)
      (codes "❌ <b>ОТКЛОНЕНО. Пересмотри и пересдай.</b>")

-- case "invite.accepted"
unfoldable pub on_invite_accepted : Env → ℕ → Payload → M (Unit {0})
on_invite_accepted env id p =
    let kind = codes "nudge_invite_accepted" in
    let given = get_string (codes "buddy_name") p in
    let name = if is_empty given then codes "Партнёр" else given in
    nudge env (get_int64 (codes "owner_user_id") p) kind (key_of kind id)
      (codes "🤝 <b>" ++ name ++ codes " ПРИНЯЛ ПРИГЛАШЕНИЕ. Цель активна.</b>")

-- case "member.frozen"
unfoldable pub on_frozen : Env → Payload → M (Unit {0})
on_frozen env p = do
  let self = get_int64 (codes "user_id") p
  let kind = codes "nudge_self_frozen"
  nudge env self kind kind (codes "❄" ++ 0xFE0F ∷ codes " <b>ТЫ ЗАМОРОЖЕН. ОДИН ПРУФ — СНИМЕТ.</b>")
  nudge_others env self (codes "nudge_member_frozen")
      (codes "🥶 <b>"
        ++ get_string (codes "display_name") p
        ++ codes " ЗАМОРОЖЕН. НЕ ПРИСОЕДИНЯЙСЯ.</b>")
      (to_int64_slice (value_of (codes "all_member_ids") p))

-- case "daily.deadline_2h"
unfoldable pub on_deadline : Env → Payload → M (Unit {0})
on_deadline env p =
    let kind = codes "nudge_deadline_2h" in
    nudge env (get_int64 (codes "user_id") p) kind kind (codes "⏱ <b>2 ЧАСА ДО ТИСКОВ. СДАЙ.</b>")

-- case "rank.changed"
unfoldable pub on_rank : Env → Payload → M (Unit {0})
on_rank env p =
    let kind = codes "nudge_rank_up" in
    nudge env (get_int64 (codes "user_id") p) kind kind (
      codes "⬆"
      ++ 0xFE0F ∷ codes " <b>ОБОГНАЛ "
      ++ get_string (codes "beaten_display_name") p
      ++ codes ". РАНГ "
      ++ decimal (get_int64 (codes "old_rank") p)
      ++ codes " → "
      ++ decimal (get_int64 (codes "new_rank") p)
      ++ codes ".</b>")

abbrev on_kind : Env → ℕ → Text → Payload → M (Unit {0})
on_kind env id kind p =
    if text_eq kind (codes "checkin.submitted")
    then ignore (on_submitted p)
    else if text_eq kind (codes "checkin.approved")
    then on_approved env id p
    else if text_eq kind (codes "checkin.rejected")
    then on_rejected env id p
    else if text_eq kind (codes "invite.accepted")
    then on_invite_accepted env id p
    else if text_eq kind (codes "member.frozen")
    then on_frozen env p
    else if text_eq kind (codes "daily.deadline_2h")
    then on_deadline env p
    else if text_eq kind (codes "rank.changed")
    then on_rank env p
    else pure tt

-- handle
unfoldable pub handle : Env → DomainEvent → M (Unit {0})
handle env e = elim e.payload [ none ↦ pure tt | some p ↦ on_kind env e.id e.kind p ]

-- The loop of tick.
unfoldable pub handle_all : Env → List DomainEvent → M (Unit {0})
handle_all env [] = pure tt
handle_all env (e ∷ es) = do
  ignore (handle env e)
  ignore (mark_event_processed env e.id)
  handle_all env es

-- tick
unfoldable pub tick : Env → M (Unit {0})
tick env = do events ← get_unprocessed_events 100; handle_all env events
