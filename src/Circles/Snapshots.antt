-- ===== src/Circles/Snapshots.antt =====
-- The query of ListStandingSnapshots of backend/internal/circles/postgres_repository.go.
use proof_forge.Prelude.{
  ℕ, ◌+◌, Option, none, some, Bool, true, false, ◌&&◌, List, [], ◌∷◌, ◌++◌, map, length, any,
  select, ltb, leb, ◌==◌, if◌then◌else◌,
}
use proof_forge.Prelude.Table.{find}
use proof_forge.Prelude.Text.{Text}
use proof_forge.Prelude.Sorting.{sort_by}
use proof_forge.Prelude.Action.{query}
use proof_forge.Users.{User, user_keyed}
use proof_forge.Goals.{Goal}
use proof_forge.CheckIns.Domain.{CheckIn, Status}
use proof_forge.Circles.Domain.{Season, StandingSnapshot, db_failure}
use proof_forge.Circles.Tables.{Store, M, MembershipRow, is_active_in}
use proof_forge.Circles.Windows.{Windows}

-- $from <= t AND t < $to, which NULL does not satisfy
abbrev lies_in : ℕ → ℕ → Option ℕ → Bool
lies_in from to none = false
lies_in from to (some t) = leb from t && ltb t to

abbrev is_approved : Status → Bool
is_approved Status.approved = true
is_approved _ = false

abbrev is_submitted : Status → Bool
is_submitted Status.submitted = true
is_submitted _ = false

abbrev approved_in : ℕ → ℕ → CheckIn → Bool
approved_in from to c = is_approved c.status && lies_in from to c.approved_at

abbrev submitted_in : ℕ → ℕ → CheckIn → Bool
submitted_in from to c = is_submitted c.status && lies_in from to c.submitted_at

abbrev is_goal_of : ℕ → ℕ → Goal → Bool
is_goal_of circle user g =
    g.owner_user_id == user && (elim g.circle_id [ none ↦ false | some c ↦ c == circle ])

-- COUNT(DISTINCT …)
unfoldable pub count_distinct : List ℕ → ℕ
count_distinct [] = 0
count_distinct (n ∷ ns) = (if any (λ m. m == n) ns then 0 else 1) + count_distinct ns

-- COALESCE(ci.approved_at, ci.submitted_at, ci.created_at)
abbrev activity_at : CheckIn → ℕ
activity_at c = elim c.approved_at [
  | some t ↦ t
  | none ↦ elim c.submitted_at [ some t ↦ t | none ↦ c.created_at ]
]

abbrev later : ℕ → Option ℕ → Option ℕ
later t none = some t
later t (some u) = some (if ltb u t then t else u)

unfoldable pub last_activity : List CheckIn → Option ℕ
last_activity [] = none
last_activity (c ∷ cs) = later (activity_at c) (last_activity cs)

unfoldable pub approved_times : ℕ → ℕ → List CheckIn → List ℕ
approved_times from to [] = []
approved_times from to (c ∷ cs) = elim c.approved_at [
  | none ↦ approved_times from to cs
  | some t ↦ (if approved_in from to c then t ∷ [] else []) ++ approved_times from to cs
]

-- The streak that the loop over the rows computes.
abbrev streak_of : Bool → Bool → ℕ
streak_of this_week prev_week = if this_week then if prev_week then 2 else 1 else 0

-- One group of the query. `trunc` is DATE_TRUNC('week', …).
unfoldable pub snapshot :
    (ℕ → ℕ) → Season → Windows → User → List Goal → List CheckIn → StandingSnapshot
snapshot trunc season w u goals check_ins =
    let this_week = any (approved_in w.current_start w.current_end) check_ins in
    let prev_week = any (approved_in w.prev_start w.prev_end) check_ins in
    record {
      user_id = u.id;
      user_email = u.email;
      display_name = u.display_name;
      goals_count = length goals;
      approved_weeks =
          count_distinct (map trunc (approved_times season.starts_at season.ends_at check_ins));
      missed_weeks = 0;
      current_streak = streak_of this_week prev_week;
      has_approved_this_week = this_week;
      has_submitted_this_week = any (submitted_in w.current_start w.current_end) check_ins;
      has_approved_prev_week = prev_week;
      has_submitted_prev_week = any (submitted_in w.prev_start w.prev_end) check_ins;
      last_activity_at = last_activity check_ins;
    }

abbrev goals_of : ℕ → ℕ → Store → List Goal
goals_of circle user s = select (is_goal_of circle user) s.goals

abbrev check_ins_of : List Goal → Store → List CheckIn
check_ins_of goals s = select (λ c. any (λ g. g.id == c.goal_id) goals) s.check_ins

unfoldable pub member_snapshots :
    (ℕ → ℕ) → Season → Windows → ℕ → Store → List MembershipRow → List StandingSnapshot
member_snapshots trunc season w circle s [] = []
member_snapshots trunc season w circle s (m ∷ ms) =
    let rest = member_snapshots trunc season w circle s ms in
    elim (find m.user_id s.users) [
      | none ↦ rest
      | some u ↦
          snapshot trunc season w u (goals_of circle u.id s)
            (check_ins_of (goals_of circle u.id s) s)
          ∷ rest
    ]

-- ListStandingSnapshots, in the database's order of the e-mail addresses
unfoldable pub list_standing_snapshots :
    (Text → Text → Bool) → (ℕ → ℕ) → ℕ → Season → Windows → M (List StandingSnapshot)
list_standing_snapshots collate trunc circle season w = query db_failure λ s.
    sort_by (λ a b. collate a.user_email b.user_email)
      (member_snapshots trunc season w circle s (select (is_active_in circle) s.memberships))
