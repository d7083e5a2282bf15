-- ===== src/Notifications/Dispatcher.antt =====
-- Dispatcher and Policy of backend/internal/notifications (dispatcher.go, policy.go).
use proof_forge.Prelude.{ℕ, suc, zero, Bool, false, [], ◌∷◌, ◌++◌, ltb, ◌==◌, if◌then◌else◌}
use proof_forge.Prelude.Text.{Text}
use proof_forge.Prelude.Action.{ok, err, pure, fail, execute, attempt, ignore, ◌>>=◌, ◌>>◌}
use proof_forge.Notifications.Repository.{
  Env, M, Message, plain, approval, send_failure, kind_digest, decimal, joined, log_notification,
  count_today_notifications, is_quiet_today, get_telegram_chat_id,
}

abbrev pub max_nudges_per_day : ℕ
max_nudges_per_day = 3

-- CanSendNudge
unfoldable pub can_send_nudge : Env → ℕ → M Bool
can_send_nudge env user = do
  quiet ← is_quiet_today env user
  if quiet
      then pure false
      else do count ← count_today_notifications env user; pure (ltb count max_nudges_per_day)

-- NudgeDedupKey
unfoldable pub nudge_dedup_key : Env → ℕ → Text → Text
nudge_dedup_key env user kind = joined kind (joined (decimal user) env.today)

-- One attempt at a message; a refused attempt delivers nothing.
abbrev pub deliver : Message → M (Unit {0})
deliver m = execute send_failure (λ s. record s { sent = s.sent ++ m ∷ [] })

-- The loop of sendWithRetry and of SendApprovalRequest, by the attempts left.
unfoldable pub deliver_within : ℕ → Message → M (Unit {0})
deliver_within zero m = fail send_failure
deliver_within (suc n) m =
    attempt (deliver m) >>= λ r. elim r [ ok u ↦ pure tt | err e ↦ deliver_within n m ]

-- sendWithRetry
unfoldable pub send_with_retry : ℕ → Text → M (Unit {0})
send_with_retry chat text = deliver_within 3 (plain chat text)

-- SendNudge
unfoldable pub send_nudge : Env → ℕ → Text → Text → Text → M (Unit {0})
send_nudge env user kind key text = do
  allowed ← can_send_nudge env user
  if allowed
      then (do
        chat ← get_telegram_chat_id user
        if chat == 0
            then pure tt
            else do send_with_retry chat text; ignore (log_notification env user kind key))
      else pure tt

-- SendDigest
unfoldable pub send_digest : Env → ℕ → ℕ → Text → Text → M (Unit {0})
send_digest env user chat key text = do
  send_with_retry chat text
  ignore (log_notification env user kind_digest key)

-- SendApprovalRequest
unfoldable pub send_approval_request : ℕ → Text → ℕ → M (Unit {0})
send_approval_request chat text check_in = deliver_within 3 (approval chat text check_in)
