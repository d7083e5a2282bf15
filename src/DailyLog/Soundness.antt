-- ===== src/DailyLog/Soundness.antt =====
-- The streaks of the daily log stay sound: no current streak is above the best one, and no month
-- has more freezes than the limit.
use proof_forge.Prelude.{
  find_by, ℕ, suc, ◌+◌, ◌≤◌, ◌≡◌, refl, ◌∙◌, count, subst, Option, none, some, Bool, true, false,
  List, [], ◌∷◌, ◌++◌, arith, All, if◌then◌else◌, Bool-cases, Option-cases, inl, inr,
}
use proof_forge.Prelude.Text.{Text}
use proof_forge.Prelude.Action.{
  Result, ok, err, World, Action, statement, query, execute, or_fail, pure, fail, lift, attempt,
  ignore, transaction, ◌>>=◌, ◌>>◌,
}
use proof_forge.Prelude.Triple.{
  Triple, Anything, Returns, triple_pure, triple_fail, triple_bind, triple_seq, triple_statement,
  triple_query, triple_execute, triple_or_fail, triple_lift, triple_attempt, triple_ignore,
  triple_transaction,
}
use proof_forge.DailyLog.Rules.{
  entry_not_found, no_rows, is_valid_log_date, validate_text, not_member, invalid_timezone,
  db_failure, Entry, EntryStatus, Error, Streak, StreakUpdate, logged, frozen, missed,
  compute_streak_update, freeze_allowed, month_reset, max_freezes_per_month,
}
use proof_forge.DailyLog.Repository.{
  Store, M, Membership, RecordedEvent, upsert, is_streak_of, is_entry_of, overwrite_entry,
  streak_or_zero, no_streak, get_entry, get_streak, get_membership, overwrite_streak, put_entry,
  put_streak, upsert_entry_and_streak,
}
use proof_forge.DailyLog.Service.{
  blank_entry, is_frozen, is_settled, write_log, log_day, log_over, entry_to_log,
  freeze_within_limit, Env, SubmitInput, record_event, submit_log, freeze_day, day_rollover,
  log_streak, freeze_streak, break_streak, reset_freezes, already_counted, freeze_anew,
  freeze_or_keep, enter_missed, settle_day, roll_day,
}
pub mod UseCases

pub record IsSound (k : Streak) : Type 0 where
  pub within_best : k.current ≤ k.best
  pub within_freezes : k.freezes_used_this_month ≤ max_freezes_per_month

-- Every streak is sound, and a user has one entry at most for a day in a team.
abbrev pub IsValid : Store → Type 0
IsValid s = All IsSound s.streaks × ((u t d : ℕ) → count (is_entry_of u t d) s.entries ≤ 1)

-- The pure rules.
pub reset_freezes-IsSound : (now : ℕ) (k : Streak) → IsSound k → IsSound (reset_freezes now k)
unfolding reset_freezes
reset_freezes-IsSound now k h = ground arith

pub log_streak-IsSound :
    (b : Bool) (date now : ℕ) (k : Streak) → IsSound k → IsSound (log_streak b date now k).0
unfolding log_streak compute_streak_update
log_streak-IsSound true date now k h = h
log_streak-IsSound false date now k h = ground arith

pub freeze_streak-IsSound :
    (date now : ℕ) (k : Streak)
    → IsSound k
    → freeze_allowed k.freezes_used_this_month ≡ ok tt
    → IsSound (freeze_streak date now k)
unfolding freeze_streak compute_streak_update freeze_allowed
freeze_streak-IsSound date now k h room = ground arith

pub break_streak-IsSound : (now : ℕ) (k : Streak) → IsSound k → IsSound (break_streak now k)
unfolding break_streak compute_streak_update
break_streak-IsSound now k h = ground arith

-- The tables.
overwrite_streak-IsSound : (new old : Streak) → IsSound new → IsSound (overwrite_streak new old)
unfolding overwrite_streak
overwrite_streak-IsSound new old h = ground arith

upsert-All :
    {A : Type 0} (P : A → Type 0) (p : A → Bool) (f : A → A) (new : A) (xs : List A)
    → ((x : A) → P (f x))
    → P new
    → All P xs
    → All P (upsert p f new xs)
unfolding upsert
upsert-All P p f new [] pf pn h = (pn, tt)
upsert-All P p f new (x ∷ xs) pf pn h = elim (Bool-cases (p x)) [
  | inl e ↦ rw e (pf x, h.1)
  | inr e ↦ rw e (h.0, upsert-All P p f new xs pf pn h.1)
]

find_by-All :
    {A : Type 0} (P : A → Type 0) (p : A → Bool) (xs : List A) (x : A)
    → All P xs
    → find_by p xs ≡ some x
    → P x
unfolding find_by
find_by-All P p [] x h e = cc
find_by-All P p (y ∷ xs) x h e = elim (Bool-cases (p y)) [
  | inl hit ↦ let same : some y ≡ some x = rw hit at e in subst P (cc) h.0
  | inr miss ↦ find_by-All P p xs x h.1 (rw miss at e)
]

put_streak-IsValid : (k : Streak) (s : Store) → IsSound k → IsValid s → IsValid (put_streak k s)
unfolding put_streak
put_streak-IsValid k s h (sound, one) = (
  upsert-All IsSound (is_streak_of k.user_id k.team_id) (overwrite_streak k) k s.streaks
      (λ old. overwrite_streak-IsSound k old h) h sound,
  one,
)

module _ {A : Type 0} (p q : A → Bool) (f : A → A) (new : A) where
  count-upsert_other :
      (xs : List A)
      → ((x : A) → q (f x) ≡ q x)
      → q new ≡ false
      → count q (upsert p f new xs) ≡ count q xs
  unfolding upsert
  count-upsert_other [] same away = ground arith
  count-upsert_other (x ∷ xs) same away =
      let step = same x in ground (arith, count-upsert_other xs same away)

  count-upsert_same :
      (xs : List A)
      → ((x : A) → q (f x) ≡ q x)
      → ((x : A) → q x ≡ p x)
      → count q xs ≤ 1
      → count q (upsert p f new xs) ≤ 1
  unfolding upsert
  count-upsert_same [] same agree h = ground arith
  count-upsert_same (x ∷ xs) same agree h =
      let step = same x in let here = agree x in ground (arith, count-upsert_same xs same agree)

is_entry_of-match :
    (e : Entry) (u t d : ℕ)
    → is_entry_of u t d e ≡ true
    → (u ≡ e.user_id) × (t ≡ e.team_id) × (d ≡ e.log_date)
unfolding is_entry_of
is_entry_of-match e u t d h = ground arith

is_entry_of-overwrite :
    (now : ℕ) (new : Entry) (u t d : ℕ) (old : Entry)
    → is_entry_of u t d (overwrite_entry now new old) ≡ is_entry_of u t d old
unfolding is_entry_of overwrite_entry
is_entry_of-overwrite now new u t d old = refl

is_entry_of-numbered :
    (e : Entry) (n u t d : ℕ) → is_entry_of u t d (record e { id = n }) ≡ is_entry_of u t d e
unfolding is_entry_of
is_entry_of-numbered e n u t d = refl

put_entry-IsValid : (now : ℕ) (e : Entry) (s : Store) → IsValid s → IsValid (put_entry now e s)
unfolding put_entry
put_entry-IsValid now e s (sound, one) = (
  sound,
  λ u t d.
      let stays = is_entry_of-overwrite now e u t d in
      elim (Bool-cases (is_entry_of u t d e)) [
        | inl hit ↦
            let (eu, et, ed) = is_entry_of-match e u t d hit in
            count-upsert_same _ (is_entry_of u t d) (overwrite_entry now e) _ s.entries stays
              (λ x. cc) (one u t d)
        | inr miss ↦
            rw
              (count-upsert_other (is_entry_of e.user_id e.team_id e.log_date) (is_entry_of u t d)
                (overwrite_entry now e) (record e { id = s.next_entry_id }) s.entries stays
                (is_entry_of-numbered e s.next_entry_id u t d ∙ miss))
              (one u t d)
      ],
)

streak_or_zero-IsSound :
    (user team : ℕ) (o : Option Streak)
    → ((k : Streak) → o ≡ some k → IsSound k)
    → IsSound (streak_or_zero user team o)
streak_or_zero-IsSound user team none h = ground arith
streak_or_zero-IsSound user team (some k) h = h k refl

pub get_streak-triple : (user team : ℕ) → Triple IsValid (get_streak user team) IsSound
unfolding get_streak
get_streak-triple user team = triple_query IsValid _ _ IsSound λ s a.
    streak_or_zero-IsSound user team (find_by (is_streak_of user team) s.streaks)
      (λ k e. find_by-All IsSound (is_streak_of user team) s.streaks k a.0 e)

pub read-triple :
    {A : Type 0} (f : Store → A) → Triple {E = Error} IsValid (query db_failure f) Anything
read-triple f = triple_query IsValid db_failure f Anything (λ s a. tt)

pub some-triple : {A : Type 0} (o : Option A) (e : Error) → Triple IsValid (or_fail o e) Anything
some-triple o e = triple_or_fail IsValid o e Anything (λ a h. tt)

pub get_membership-triple : (team user : ℕ) → Triple IsValid (get_membership team user) Anything
unfolding get_membership
get_membership-triple team user =
    triple_bind IsValid _ _ Anything Anything (read-triple _) (λ row q. some-triple row not_member)

pub get_entry-triple :
    (user team date : ℕ) → Triple IsValid (attempt (get_entry user team date)) (Returns Anything)
unfolding get_entry
get_entry-triple user team date =
    triple_attempt IsValid _ Anything
      (triple_bind IsValid _ _ Anything Anything (read-triple _) (λ row q. some-triple row no_rows))

pub upsert-triple :
    (db_now : ℕ) (e : Entry) (k : Streak)
    → IsSound k
    → Triple IsValid (upsert_entry_and_streak db_now e k) Anything
unfolding upsert_entry_and_streak
upsert-triple db_now e k h = triple_transaction IsValid _ Anything (
    triple_seq IsValid _ _ Anything Anything (triple_execute IsValid db_failure (λ s. s) (λ s a. a))
      (triple_bind IsValid _ _ Anything Anything
        (triple_statement IsValid db_failure _ Anything
          (λ s a. (put_entry-IsValid db_now e s a, tt)))
        λ row q. triple_bind IsValid _ _ Anything Anything (some-triple row no_rows) λ entry q.
          triple_seq IsValid _ _ Anything Anything
            (triple_execute IsValid db_failure (put_streak k) (λ s a. put_streak-IsValid k s h a))
            (triple_seq IsValid _ _ Anything Anything
              (triple_execute IsValid db_failure (λ s. s) (λ s a. a))
              (triple_pure IsValid Anything entry tt))))

pub record_event-triple :
    (env : Env) (e : RecordedEvent) → Triple IsValid (record_event env e) Anything
record_event-triple env e = elim (Bool-cases env.has_recorder) [
  | inl on ↦
      rw on (triple_ignore IsValid _ Anything (triple_execute IsValid db_failure _ (λ s a. a)))
  | inr off ↦ rw off (triple_pure IsValid Anything tt tt)
]
