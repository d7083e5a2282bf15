-- ===== src/DailyLog/Freezes.antt =====
-- FreezeDay: the limit, the day that is frozen already, and what a freeze does to the streak.
use proof_forge.Prelude.{
  find_by, ℕ, ◌+◌, ◌≤◌, ◌<◌, ◌≡◌, ◌∙◌, refl, Option, none, some, false, [], arith,
}
use proof_forge.Prelude.Action.{Result, ok, err, World}
use proof_forge.DailyLog.Rules.{
  Entry, Streak, Error, frozen, freeze_allowed, freeze_limit_reached, is_valid_log_date,
  compute_streak_update,
}
use proof_forge.DailyLog.Repository.{
  Store, Membership, is_membership_of, get_membership, get_streak, put_entry, put_streak,
  streak_frozen, RecordedEvent,
}
use proof_forge.DailyLog.Service.{
  Env, freeze_day, freeze_within_limit, freeze_or_keep, freeze_anew, freeze_streak, reset_freezes,
  blank_entry, is_frozen,
}
use proof_forge.DailyLog.Counting.{
  streak_at, entry_at, lookup, get_entry-runs, upsert-runs, record_event-runs, recorded_in,
  recorded_in-tables, row_written, row_written-status, streak_at-put_streak, streak_at-match,
  entry_at-put_entry,
}

abbrev quiet : Store → World Store
quiet s = record { store = s; outages = [] }

-- The freezes of this month that are used before the call.
abbrev pub used_before : Env → ℕ → ℕ → Store → ℕ
used_before env user team s =
    (reset_freezes (env.clock 1) (streak_at user team s)).freezes_used_this_month

freeze_day-runs :
    (env : Env) (user team at : ℕ) (s : Store) (mem : Membership) (local_date : ℕ → ℕ)
    → find_by (is_membership_of team user) s.memberships ≡ some mem
    → env.load_location mem.timezone ≡ some local_date
    → is_valid_log_date (local_date at) (local_date (env.clock 0)) ≡ ok tt
    → freeze_day env user team at (quiet s)
      ≡ freeze_within_limit env user team
          (local_date at)
          (reset_freezes (env.clock 1) (streak_at user team s))
          (quiet s)
unfolding freeze_day get_membership get_streak streak_at
freeze_day-runs env user team at s mem local_date member zone valid =
    rw member (rw zone (rw valid refl))

freeze_full :
    (env : Env) (user team date : ℕ) (k : Streak) (s : Store)
    → 2 ≤ k.freezes_used_this_month
    → freeze_within_limit env user team date k (quiet s) ≡ (err freeze_limit_reached, quiet s)
unfolding freeze_within_limit freeze_allowed
freeze_full env user team date k s full = ground arith

freeze_has_room :
    (env : Env) (user team date : ℕ) (k : Streak) (s : Store)
    → k.freezes_used_this_month < 2
    → freeze_within_limit env user team date k (quiet s)
      ≡ freeze_or_keep env user team date k (lookup (entry_at user team date s)) (quiet s)
unfolding freeze_within_limit freeze_allowed
freeze_has_room env user team date k s room = ground (arith, get_entry-runs user team date s)

freeze_keeps :
    (env : Env) (user team date : ℕ) (k : Streak) (e : Entry) (s : Store)
    → e.status ≡ frozen
    → freeze_or_keep env user team date k (ok e) (quiet s) ≡ (ok e, quiet s)
unfolding freeze_or_keep
freeze_keeps env user team date k e s same = rw same refl

abbrev frozen_entry : Env → ℕ → ℕ → ℕ → Entry
frozen_entry env user team date = blank_entry user team date frozen (env.clock 2)

abbrev freeze_event : Env → ℕ → ℕ → ℕ → Streak → RecordedEvent
freeze_event env user team date k =
    streak_frozen user team (freeze_streak date (env.clock 3) k).freezes_used_this_month

abbrev store_frozen : Env → ℕ → ℕ → ℕ → Streak → Store → Store
store_frozen env user team date k s = recorded_in env (freeze_event env user team date k) (
    put_streak (freeze_streak date (env.clock 3) k)
      (put_entry env.db_now (frozen_entry env user team date) s))

freeze_anew-runs :
    (env : Env) (user team date : ℕ) (k : Streak) (s : Store)
    → freeze_anew env user team date k (quiet s) ≡ (
      ok (row_written env.db_now (frozen_entry env user team date) s),
      quiet (store_frozen env user team date k s),
    )
unfolding freeze_anew
freeze_anew-runs env user team date k s =
    rw
      (upsert-runs env.db_now (frozen_entry env user team date) (freeze_streak date (env.clock 3) k)
        s)
      (rw
        (record_event-runs env (freeze_event env user team date k) (
          put_streak (freeze_streak date (env.clock 3) k)
            (put_entry env.db_now (frozen_entry env user team date) s)))
        refl)

freeze_or_keep-anew :
    (env : Env) (user team date : ℕ) (k : Streak) (r : Result Error Entry) (s : Store)
    → ((e : Entry) → r ≡ ok e → is_frozen e.status ≡ false)
    → freeze_or_keep env user team date k r (quiet s) ≡ freeze_anew env user team date k (quiet s)
unfolding freeze_or_keep
freeze_or_keep-anew env user team date k (err e) s fresh = refl
freeze_or_keep-anew env user team date k (ok e) s fresh = rw (fresh e refl) refl

freeze_streak-fields :
    (date now : ℕ) (k : Streak)
    → let k' = freeze_streak date now k in
      (k'.user_id ≡ k.user_id)
      × (k'.team_id ≡ k.team_id)
      × (k'.current ≡ k.current)
      × (k'.best ≡ k.best)
      × (k'.freezes_used_this_month ≡ k.freezes_used_this_month + 1)
unfolding freeze_streak compute_streak_update
freeze_streak-fields date now k = ground arith

reset_freezes-same :
    (now : ℕ) (k : Streak)
    → let k' = reset_freezes now k in
      (k'.user_id ≡ k.user_id)
      × (k'.team_id ≡ k.team_id)
      × (k'.current ≡ k.current)
      × (k'.best ≡ k.best)
unfolding reset_freezes
reset_freezes-same now k = ground arith

put_streak-entries : (k : Streak) (s : Store) → (put_streak k s).entries ≡ s.entries
unfolding put_streak
put_streak-entries k s = refl

store_frozen-entry :
    (env : Env) (user team date : ℕ) (k : Streak) (s : Store)
    → entry_at user team date (store_frozen env user team date k s)
      ≡ some (row_written env.db_now (frozen_entry env user team date) s)
unfolding entry_at
store_frozen-entry env user team date k s =
    let s' = put_entry env.db_now (frozen_entry env user team date) s in
    let k' = freeze_streak date (env.clock 3) k in
    let tables = recorded_in-tables env (freeze_event env user team date k) (put_streak k' s') in
    rw (tables.1, put_streak-entries k' s')
      (entry_at-put_entry env.db_now (frozen_entry env user team date) s)

streak_at-put_keyed :
    (k : Streak) (user team : ℕ) (s : Store)
    → k.user_id ≡ user
    → k.team_id ≡ team
    → let k' = streak_at user team (put_streak k s) in
      (k'.current ≡ k.current)
      × (k'.best ≡ k.best)
      × (k'.freezes_used_this_month ≡ k.freezes_used_this_month)
streak_at-put_keyed k user team s eu et = rw (← eu, ← et) (streak_at-put_streak k s)

streak_at-recorded_in :
    (env : Env) (e : RecordedEvent) (user team : ℕ) (s : Store)
    → streak_at user team (recorded_in env e s) ≡ streak_at user team s
unfolding streak_at
streak_at-recorded_in env e user team s = rw (recorded_in-tables env e s).0 refl

store_frozen-streak :
    (env : Env) (user team date : ℕ) (k : Streak) (s : Store)
    → k.user_id ≡ user
    → k.team_id ≡ team
    → let k' = streak_at user team (store_frozen env user team date k s) in
      (k'.current ≡ k.current)
      × (k'.best ≡ k.best)
      × (k'.freezes_used_this_month ≡ k.freezes_used_this_month + 1)
store_frozen-streak env user team date k s eu et =
    let s' = put_entry env.db_now (frozen_entry env user team date) s in
    let k' = freeze_streak date (env.clock 3) k in
    let (ku, kt, kc, kb, kf) = freeze_streak-fields date (env.clock 3) k in
    let (current, best, freezes) = streak_at-put_keyed k' user team s' (ku ∙ eu) (kt ∙ et) in
    rw (streak_at-recorded_in env (freeze_event env user team date k) user team (put_streak k' s'))
      (current ∙ kc, best ∙ kb, freezes ∙ kf)

-- What a freeze of a day does: the entry of the day is frozen, the streak keeps its current and its
-- best, and the month has one freeze more.
abbrev pub IsFrozenAt : Env → ℕ → ℕ → ℕ → Store → Result Error Entry × World Store → Type 0
IsFrozenAt env user team date s (r, w) =
    let k = streak_at user team s in
    let k' = streak_at user team w.store in
    (e : Entry) × (r ≡ ok e)
    × (entry_at user team date w.store ≡ some e)
    × (e.status ≡ frozen)
    × (k'.current ≡ k.current)
    × (k'.best ≡ k.best)
    × (k'.freezes_used_this_month ≡ used_before env user team s + 1)

fresh_lookup :
    (o : Option Entry)
    → ((e : Entry) → o ≡ some e → is_frozen e.status ≡ false)
    → (e : Entry) → lookup o ≡ ok e
    → is_frozen e.status ≡ false
fresh_lookup none fresh e h = cc
fresh_lookup (some x) fresh e h = fresh e (cc)

freeze_anew-IsFrozenAt :
    (env : Env) (user team date : ℕ) (s : Store)
    → IsFrozenAt env user team date s (
        freeze_anew env user team date
          (reset_freezes (env.clock 1) (streak_at user team s))
          (quiet s))
freeze_anew-IsFrozenAt env user team date s =
    let k = streak_at user team s in
    let k₁ = reset_freezes (env.clock 1) k in
    let (ku, kt, kc, kb) = reset_freezes-same (env.clock 1) k in
    let (mu, mt) = streak_at-match user team s in
    let (current, best, freezes) =
      store_frozen-streak env user team date k₁ s (ku ∙ mu) (kt ∙ mt) in
    rw (freeze_anew-runs env user team date k₁ s) (
      row_written env.db_now (frozen_entry env user team date) s,
      refl,
      store_frozen-entry env user team date k₁ s,
      (row_written-status env.db_now (frozen_entry env user team date) s).0,
      current ∙ kc,
      best ∙ kb,
      freezes,
    )

-- With a membership, a known time zone, today's or yesterday's date, be it a working day or not, and no
-- outage, FreezeDay answers by the freezes used in the current month: with two or more it refuses and changes
-- nothing, even for a day that is frozen already; with fewer, a frozen day is returned and nothing
-- changes, and any other day is frozen, whether it had an entry or not.
pub freeze_day-answer :
    (env : Env) (user team at : ℕ) (s : Store) (mem : Membership) (local_date : ℕ → ℕ)
    → find_by (is_membership_of team user) s.memberships ≡ some mem
    → env.load_location mem.timezone ≡ some local_date
    → is_valid_log_date (local_date at) (local_date (env.clock 0)) ≡ ok tt
    → let date = local_date at in
      let used = used_before env user team s in
      let before : World Store = record { store = s; outages = [] } in
      let outcome = freeze_day env user team at before in
      (2 ≤ used → outcome ≡ (err freeze_limit_reached, before))
      × (used < 2
          → (e : Entry) → entry_at user team date s ≡ some e
          → e.status ≡ frozen
          → outcome ≡ (ok e, before))
      × (used < 2
          → ((e : Entry) → entry_at user team date s ≡ some e → is_frozen e.status ≡ false)
          → IsFrozenAt env user team date s outcome)
freeze_day-answer env user team at s mem local_date member zone valid =
    let date = local_date at in
    let k = reset_freezes (env.clock 1) (streak_at user team s) in
    rw (freeze_day-runs env user team at s mem local_date member zone valid) (
      λ full. freeze_full env user team date k s full,
      λ room e found same.
          freeze_has_room env user team date k s room
          ∙ rw found (freeze_keeps env user team date k e s same),
      λ room fresh.
          rw
            (
              freeze_has_room env user team date k s room,
              freeze_or_keep-anew env user team date k (lookup (entry_at user team date s)) s
                  (fresh_lookup (entry_at user team date s) fresh),
            )
            (freeze_anew-IsFrozenAt env user team date s),
    )
