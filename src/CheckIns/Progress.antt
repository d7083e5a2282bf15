-- ===== src/CheckIns/Progress.antt =====
-- What a decision does to the goals, and what it tells the rest of the system.
use proof_forge.Prelude.{
  ℕ, ◌+◌, ◌≡◌, refl, some, List, [], ◌∷◌, ◌++◌, arith, ◌==◌, if◌then◌else◌, inl, inr, Option-cases,
}
use proof_forge.Prelude.Text.{Text}
use proof_forge.Prelude.Table.{find, find-modify}
use proof_forge.Prelude.Action.{ok, World}
use proof_forge.Users.{User}
use proof_forge.Goals.{Goal, goal_keyed, stable, at_risk, ProgressHealth}
use proof_forge.CheckIns.Domain.{
  Decision, approve, reject, request_changes, ReviewRecord, check_in_keyed,
}
use proof_forge.CheckIns.Repository.{
  Store, CheckInView, load_view, get_check_in, progressed, progress_goal, EventKind,
  checkin_approved, checkin_rejected, DomainEvent,
}
use proof_forge.CheckIns.Service.{Env, review, require_member, review_row, review_event}
use proof_forge.CheckIns.Outcome.Review.{review-ok}
use proof_forge.CheckIns.Results.{
  get_check_in-found, record_up, require_member-answer, member_answer,
}

progress_goal-key : (d : Decision) (now : ℕ) (g : Goal) → (progress_goal d now g).id ≡ g.id
unfolding progress_goal
progress_goal-key approve now g = refl
progress_goal-key reject now g = refl
progress_goal-key request_changes now g = refl

-- The streak and the health of a goal after a decision on one of its check-ins.
abbrev pub streak_after : Decision → ℕ → ℕ
streak_after approve n = n + 1
streak_after reject n = 0
streak_after request_changes n = n

abbrev pub health_after : Decision → ProgressHealth → ProgressHealth
health_after approve h = stable
health_after reject h = at_risk
health_after request_changes h = h

-- The goal `j` is there after the decision, with the streak and the health that the decision gives
-- if it is the check-in's goal, and as it was if not.
abbrev pub Progresses : Decision → ℕ → ℕ → Goal → List Goal → Type 0
Progresses d goal j g rows =
    (g' : Goal) × (find j rows ≡ some g')
    × (g'.current_streak_count
        ≡ (if j == goal then streak_after d g.current_streak_count else g.current_streak_count))
    × (g'.current_progress_health ≡ (
        if j == goal then health_after d g.current_progress_health else g.current_progress_health))
    × (g'.owner_user_id ≡ g.owner_user_id)
    × (g'.status ≡ g.status)

progressed-Progresses :
    (d : Decision) (goal j now : ℕ) (g : Goal) (rows : List Goal)
    → find j rows ≡ some g
    → Progresses d goal j g (progressed d goal now rows)
unfolding progressed progress_goal
progressed-Progresses approve goal j now g rows found = (
  (if j == goal then progress_goal approve now g else g),
  ground
      (arith, find-modify j goal (progress_goal approve now) rows (progress_goal-key approve now)),
  ground arith,
  ground arith,
  ground arith,
  ground arith,
)
progressed-Progresses reject goal j now g rows found = (
  (if j == goal then progress_goal reject now g else g),
  ground (arith, find-modify j goal (progress_goal reject now) rows (progress_goal-key reject now)),
  ground arith,
  ground arith,
  ground arith,
  ground arith,
)
progressed-Progresses request_changes goal j now g rows found =
    (g, found, ground arith, ground arith, refl, refl)

-- A recorded decision moves the streak of the check-in's goal: an approval adds one and makes the
-- goal stable, a rejection sets the streak to 0 and puts the goal at risk, a request for changes
-- leaves both; every other goal keeps its streak and its health.
pub review-Progresses :
    (env : Env) (actor : User) (id : ℕ) (d : Decision) (comment : Text) (w : World Store)
    (r : ReviewRecord) (v : CheckInView) (j : ℕ) (g : Goal)
    → (review env actor id d comment w).0 ≡ ok r
    → load_view id w.store ≡ some v
    → find j w.store.goals ≡ some g
    → Progresses d v.check_in.goal_id j g (review env actor id d comment w).1.store.goals
review-Progresses env actor id d comment w r v j g done loaded found =
    let (v', loaded', other, status, of, by, rows, goals, reviews, evidence, decided) =
      review-ok env actor id d comment w r done in
    let one : v' ≡ v = cc in
    rw (goals, decided, one)
      (progressed-Progresses d v.check_in.goal_id j env.now g w.store.goals found)

abbrev announced : Decision → EventKind
announced approve = checkin_approved
announced reject = checkin_rejected
announced request_changes = checkin_approved

-- A decision that is recorded while the database answers emits one event. It tells of a rejection
-- after a rejection, and of an approval after an approval and after a request for changes too.
pub review-event :
    (env : Env) (actor : User) (id : ℕ) (d : Decision) (comment : Text) (w : World Store)
    (r : ReviewRecord)
    → w.outages ≡ []
    → (review env actor id d comment w).0 ≡ ok r
    → (e : DomainEvent) × ((review env actor id d comment w).1.store.events
        ≡ w.store.events ++ e ∷ [])
      × (e.kind ≡ announced d)
      × (e.decision ≡ some d)
      × (e.check_in_id ≡ id)
unfolding review review_event
review-event env actor id d comment w r up done = elim (Option-cases (load_view id w.store)) [
  | inl missing ↦ absurd (unfold get_check_in in ground arith)
  | inr (v, loaded) ↦
      let row = review_row env actor id d comment in
      let (r', recorded, still_up, before) = record_up w up v.check_in.goal_id row env.now in
      let found : get_check_in id w ≡ (ok v, w) = get_check_in-found w up id v loaded in
      let asked : require_member env actor v w ≡ (member_answer env actor v, w) =
        require_member-answer env actor v w in
      (
        record {
          kind = review_event d;
          check_in_id = id;
          owner_user_id = v.check_in.owner_user_id;
          goal_id = v.check_in.goal_id;
          owner_display_name = [];
          decision = some d;
        },
        ground arith,
        ground arith,
        refl,
        refl,
      )
]
