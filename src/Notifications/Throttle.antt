-- ===== src/Notifications/Throttle.antt =====
-- The limit of three nudges a day, and what it rests on.
use proof_forge.Prelude.{
  ℕ, zero, suc, ◌<◌, ◌≤◌, ◌≢◌, ◌∙◌, ◌+◌, ◌-◌, ◌≡◌, sym, ap, subst, Bool, true, false, List, [], ◌∷◌,
  ◌++◌, arith, All, any, count, count-append, length, leb, ltb, ◌==◌, ◌⊎◌, inl, inr, Bool-cases,
  ltb→lt,
}
use mathlib.Core.List.{append-nil, append_assoc}
use proof_forge.Prelude.Text.{Text, text_eq}
use proof_forge.Notifications.Repository.{
  Env, Store, Message, plain, NotificationLog, entry, has_key, add_to_log, log_notification,
  is_nudge, is_nudge_today, nudges_today, is_quiet_entry, is_quiet_today, count_today_notifications,
  chat_of, get_telegram_chat_id,
}
use proof_forge.Notifications.Dispatcher.{
  max_nudges_per_day, can_send_nudge, deliver_within, send_with_retry, send_nudge,
}

-- A call of SendNudge for a user.
pub record Nudge : Type 0 where
  pub env : Env
  pub kind : Text
  pub key : Text
  pub text : Text

-- One call after another, none of whose statements and messages is refused.
unfoldable pub send_all : ℕ → List Nudge → Store → Store
send_all user [] s = s
send_all user (n ∷ ns) s =
    send_all user ns
      (send_nudge n.env user n.kind n.key n.text (record { store = s; outages = [] })).1.store

abbrev noted : Nudge → ℕ → Store → Store
noted n user s = record s {
  sent = s.sent ++ plain (chat_of user s.links) n.text ∷ [];
  log = add_to_log (entry n.env user n.kind n.key) s.log;
}

-- What a call does: nothing, or one message and its entry.
send_nudge-cases :
    (n : Nudge) (user : ℕ) (s : Store)
    → let t =
        (send_nudge n.env user n.kind n.key n.text (record { store = s; outages = [] })).1.store in
      (t ≡ s)
      ⊎ ((nudges_today user n.env.day_start s.log < max_nudges_per_day) × (t ≡ noted n user s))
unfolding send_nudge can_send_nudge is_quiet_today count_today_notifications get_telegram_chat_id
    send_with_retry deliver_within log_notification
send_nudge-cases n user s =
    elim (Bool-cases (ltb 0 (count (is_quiet_entry user n.env.day_start) s.log))) [
      | inl quiet ↦ inl (rw quiet)
      | inr loud ↦
          elim (Bool-cases (ltb (nudges_today user n.env.day_start s.log) max_nudges_per_day)) [
            | inr full ↦ inl (rw (loud, full))
            | inl room ↦ elim (Bool-cases (chat_of user s.links == 0)) [
              | inl missing ↦ inl (rw (loud, room, missing))
              | inr linked ↦ inr (ltb→lt _ _ room, rw (loud, room, linked))
            ]
          ]
    ]

-- The keys are new, and no two are the same.
abbrev AreFresh : List Nudge → List NotificationLog → Type 0
AreFresh [] log = Unit
AreFresh (n ∷ ns) log =
    (any (has_key n.key) log ≡ false) × All (λ m. text_eq n.key m.key ≡ false) ns × AreFresh ns log

-- Nudges, and no digests, of the day that begins at `day`.
abbrev IsOfDay : ℕ → Nudge → Type 0
IsOfDay day n = (n.env.day_start ≡ day) × (leb day n.env.db_now ≡ true) × (is_nudge n.kind ≡ true)

any-append_one :
    {A : Type 0} (p : A → Bool) (xs : List A) (x : A)
    → any p xs ≡ false
    → p x ≡ false
    → any p (xs ++ x ∷ []) ≡ false
any-append_one p [] x h k = ground arith
any-append_one p (y ∷ xs) x h k = ground (arith, any-append_one p xs x)

still_fresh :
    (ns : List Nudge) (log : List NotificationLog) (l : NotificationLog)
    → All (λ m. text_eq l.dedup_key m.key ≡ false) ns
    → AreFresh ns log
    → AreFresh ns (log ++ l ∷ [])
still_fresh [] log l apart h = tt
still_fresh (n ∷ ns) log l apart h =
    (any-append_one (has_key n.key) log l h.0 apart.0, h.1, still_fresh ns log l apart.1 h.2)

length-append_one : {A : Type 0} (xs : List A) (x : A) → length (xs ++ x ∷ []) ≡ length xs + 1
length-append_one [] x = omega arith
length-append_one (y ∷ xs) x = omega (arith, length-append_one xs x)

logged_new :
    (l : NotificationLog) (log : List NotificationLog)
    → any (has_key l.dedup_key) log ≡ false
    → add_to_log l log ≡ log ++ l ∷ []
unfolding add_to_log
logged_new l log new = rw new

one_more_today :
    (user day : ℕ) (n : Nudge) (log : List NotificationLog)
    → IsOfDay day n
    → nudges_today user day (log ++ entry n.env user n.kind n.key ∷ [])
      ≡ nudges_today user day log + 1
one_more_today user day n log h =
    let counted : is_nudge_today user day (entry n.env user n.kind n.key) ≡ true =
      rw (h.1, h.2) (ground arith) in
    let sum = count-append {0} (is_nudge_today user day) log (entry n.env user n.kind n.key ∷ []) in
    sum ∙ rw counted

-- On one UTC day, with dedup keys that are new and all different, and with nothing refused, SendNudge
-- sends a user no more messages than the limit of three leaves after the nudges already logged.
pub send_all-bounded :
    (user day : ℕ) (ns : List Nudge) (s : Store)
    → All (IsOfDay day) ns
    → AreFresh ns s.log
    → length (send_all user ns s).sent
      ≤ length s.sent + (max_nudges_per_day - nudges_today user day s.log)
unfolding send_all
send_all-bounded user day [] s today fresh = omega arith
send_all-bounded user day (n ∷ ns) s today fresh =
    let Bounded : Store → Type 0 = λ t.
      length (send_all user ns t).sent
      ≤ length s.sent + (max_nudges_per_day - nudges_today user day s.log) in
    elim (send_nudge-cases n user s) [
      | inl same ↦ subst Bounded (sym same) (send_all-bounded user day ns s today.1 fresh.2)
      | inr (room, sends) ↦
          let t = noted n user s in
          let log = logged_new (entry n.env user n.kind n.key) s.log fresh.0 in
          let left =
            send_all-bounded user day ns t today.1
              (subst (AreFresh ns) (sym log) (still_fresh ns s.log _ fresh.1 fresh.2)) in
          let counted = ap (nudges_today user day) log ∙ one_more_today user day n s.log today.0 in
          let room' : nudges_today user day s.log < max_nudges_per_day =
            subst (λ d. nudges_today user d s.log < max_nudges_per_day) today.0.0 room in
          subst Bounded (sym sends) (
            omega
              (arith, length-append_one {A = Message} s.sent (plain (chat_of user s.links) n.text)))
    ]

abbrev pub copies : {A : Type 0} → ℕ → A → List A
copies zero x = []
copies (suc k) x = x ∷ copies k x

repeated :
    (n : Nudge) (user : ℕ) (s : Store)
    → any (has_key n.key) s.log ≡ true
    → count (is_quiet_entry user n.env.day_start) s.log ≡ 0
    → nudges_today user n.env.day_start s.log < max_nudges_per_day
    → chat_of user s.links ≢ 0
    → (send_nudge n.env user n.kind n.key n.text (record { store = s; outages = [] })).1.store
      ≡ record s { sent = s.sent ++ plain (chat_of user s.links) n.text ∷ [] }
unfolding send_nudge can_send_nudge is_quiet_today count_today_notifications get_telegram_chat_id
    send_with_retry deliver_within log_notification add_to_log
repeated n user s old loud room linked =
    let below : ltb (nudges_today user n.env.day_start s.log) max_nudges_per_day ≡ true =
      ground arith in
    let chat : (chat_of user s.links == 0) ≡ false = ground arith in rw (loud, below, chat, old)

-- A nudge whose key is in the log is sent as often as it is asked for: while the user is not quiet,
-- has a chat and is below the limit, `k` calls send the message `k` times and log none of them.
pub send_all-repeats :
    (user k : ℕ) (n : Nudge) (s : Store)
    → any (has_key n.key) s.log ≡ true
    → count (is_quiet_entry user n.env.day_start) s.log ≡ 0
    → nudges_today user n.env.day_start s.log < max_nudges_per_day
    → chat_of user s.links ≢ 0
    → send_all user (copies k n) s
      ≡ record s { sent = s.sent ++ copies k (plain (chat_of user s.links) n.text) }
unfolding send_all
send_all-repeats user zero n s old loud room linked = rw (append-nil s.sent)
send_all-repeats user (suc k) n s old loud room linked =
    let message = plain (chat_of user s.links) n.text in
    let t : Store = record s { sent = s.sent ++ message ∷ [] } in
    subst
      (λ u. send_all user (copies k n) u ≡ record s { sent = s.sent ++ message ∷ copies k message })
      (sym (repeated n user s old loud room linked))
      (send_all-repeats user k n t old loud room linked
        ∙ ap (λ ms. record s { sent = ms }) (append_assoc s.sent (message ∷ []) (copies k message)))
