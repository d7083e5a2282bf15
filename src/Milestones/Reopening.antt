-- ===== src/Milestones/Reopening.antt =====
-- A milestone that is completed and reopened.
use proof_forge.Prelude.{ℕ, ◌≡◌, ◌∙◌, refl, Option, none, some, true, [], arith}
use proof_forge.Prelude.Table.{find, modify, find-modify}
use proof_forge.Prelude.Action.{World}
use proof_forge.Users.{User}
use proof_forge.Goals.{Goal, goal_keyed}
use proof_forge.Milestones.Repository.{
  Store, Milestone, MilestoneStatus, pending, completed, milestone_keyed, set_status, find_by_id,
  find_goal_participants, update_status,
}
use proof_forge.Milestones.Service.{Env, complete, reopen, is_pending, is_completed}
use proof_forge.Milestones.Stamps.{IsStamped, set_status-id}

abbrev pub quiet : Store → World Store
quiet s = record { store = s; outages = [] }

abbrev restamped : ℕ → MilestoneStatus → Option ℕ → ℕ → Store → Store
restamped id next by now s = record s {
  milestones = modify id (set_status next by now) s.milestones;
}

own_row :
    (id : ℕ) (next : MilestoneStatus) (by : Option ℕ) (now : ℕ) (s : Store) (m : Milestone)
    → find id s.milestones ≡ some m
    → find id (modify id (set_status next by now) s.milestones) ≡ some (set_status next by now m)
own_row id next by now s m found =
    find-modify id id (set_status next by now) s.milestones (set_status-id next by now)
    ∙ ground arith

complete-runs :
    (env : Env) (actor : User) (id : ℕ) (s : Store) (m : Milestone) (g : Goal)
    → find id s.milestones ≡ some m
    → is_pending m.status ≡ true
    → find m.goal_id s.goals ≡ some g
    → g.buddy_user_id ≡ some actor.id
    → (complete env actor id (quiet s)).1 ≡ quiet (restamped id completed (some actor.id) env.now s)
unfolding complete find_by_id find_goal_participants update_status
complete-runs env actor id s m g found may goal buddy =
    ground (arith, own_row id completed (some actor.id) env.now s m found)

reopen-runs :
    (env : Env) (actor : User) (id : ℕ) (s : Store) (m : Milestone) (g : Goal)
    → find id s.milestones ≡ some m
    → is_completed m.status ≡ true
    → find m.goal_id s.goals ≡ some g
    → g.buddy_user_id ≡ some actor.id
    → (reopen env actor id (quiet s)).1 ≡ quiet (restamped id pending none env.now s)
unfolding reopen find_by_id find_goal_participants update_status
reopen-runs env actor id s m g found may goal buddy =
    ground (arith, own_row id pending none env.now s m found)

stamps_of :
    (m : Milestone)
    → is_pending m.status ≡ true
    → IsStamped m
    → (m.status ≡ pending) × (m.completed_at ≡ none) × (m.completed_by_user_id ≡ none)
stamps_of m may stamps = ground arith

undone :
    (by now now' : ℕ) (m : Milestone)
    → is_pending m.status ≡ true
    → IsStamped m
    → set_status pending none now' (set_status completed (some by) now m)
      ≡ record m { updated_at = now' }
unfolding set_status
undone by now now' m may stamps =
    let fields = stamps_of m may stamps in ground (arith, fields.0, fields.1, fields.2)

completed_row :
    (by now : ℕ) (m : Milestone) (g : Goal) (s : Store)
    → find m.goal_id s.goals ≡ some g
    → let done = set_status completed (some by) now m in
      (is_completed done.status ≡ true) × (find done.goal_id s.goals ≡ some g)
unfolding set_status
completed_row by now m g s goal = (refl, goal)

-- While the database answers, a goal's buddy who completes a pending milestone and reopens it leaves
-- its row as it was, but for the time of the update.
pub complete-reopen :
    (env env' : Env) (actor : User) (id : ℕ) (s : Store) (m : Milestone) (g : Goal)
    → find id s.milestones ≡ some m
    → is_pending m.status ≡ true
    → IsStamped m
    → find m.goal_id s.goals ≡ some g
    → g.buddy_user_id ≡ some actor.id
    → find id (reopen env' actor id (complete env actor id (quiet s)).1).1.store.milestones
      ≡ some (record m { updated_at = env'.now })
complete-reopen env env' actor id s m g found may stamps goal buddy =
    let done = set_status completed (some actor.id) env.now m in
    let half = restamped id completed (some actor.id) env.now s in
    let row : find id half.milestones ≡ some done =
      own_row id completed (some actor.id) env.now s m found in
    let there = completed_row actor.id env.now m g s goal in
    rw (complete-runs env actor id s m g found may goal buddy) (
      rw (reopen-runs env' actor id half done g row there.0 there.1 buddy) (
        own_row id pending none env'.now half done row
        ∙ rw (undone actor.id env.now env'.now m may stamps) refl))
