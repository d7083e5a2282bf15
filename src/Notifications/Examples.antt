-- ===== src/Notifications/Examples.antt =====
-- The theorems on nudges at concrete inputs.
use proof_forge.Prelude.{find_by, ◌+◌, ◌-◌, ◌≤◌, ◌≡◌, refl, true, [], ◌∷◌, ◌++◌, arith, length}
use proof_forge.Prelude.Text.{Text, codes}
use proof_forge.Notifications.Repository.{Env, Store, plain, nudges_today, chat_of}
use proof_forge.Notifications.Dispatcher.{max_nudges_per_day}
use proof_forge.Notifications.Throttle.{Nudge, send_all, copies, send_all-bounded, send_all-repeats}

abbrev noon : Env
noon = record { db_now = 110; day_start = 100; today = codes "2026-03-01" }

abbrev nudge_with : Text → Nudge
nudge_with key = record { env = noon; kind = codes "nudge_rank_up"; key = key; text = codes "up" }

-- A user with a chat, and one nudge of today in the log.
abbrev linked : Store
linked = record {
  users = [];
  pacts = [];
  links = record { user_id = 7; chat_id = 70; is_active = true } ∷ [];
  log =
      record { user_id = 7; kind = codes "nudge_rank_up"; dedup_key = codes "a"; sent_at = 105 }
      ∷ [];
  events = [];
  sent = [];
}

send_all-bounded_example :
    length
      (send_all 7
        (nudge_with (codes "b") ∷ nudge_with (codes "c") ∷ nudge_with (codes "d") ∷ [])
        linked).sent
    ≤ length linked.sent + (max_nudges_per_day - nudges_today 7 100 linked.log)
send_all-bounded_example =
    send_all-bounded 7 100
      (nudge_with (codes "b") ∷ nudge_with (codes "c") ∷ nudge_with (codes "d") ∷ []) linked
      ((refl, refl, refl), ((refl, refl, refl), ((refl, refl, refl), tt)))
      (refl, (refl, (refl, tt)), (refl, (refl, tt), (refl, tt, tt)))

send_all-repeats_example :
    send_all 7 (copies 5 (nudge_with (codes "a"))) linked
    ≡ record linked { sent = linked.sent ++ copies 5 (plain (chat_of 7 linked.links) (codes "up")) }
unfolding find_by
send_all-repeats_example =
    send_all-repeats 7 5 (nudge_with (codes "a")) linked refl refl (omega arith)
      (λ e. absurd (omega arith))
