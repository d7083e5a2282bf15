-- ===== src/Goals/Occupied.antt =====
-- A second goal of an owner in a circle.
use proof_forge.Prelude.{
  ℕ, ◌<◌, ◌≡◌, ◌⊎◌, inl, inr, refl, ap, some, Bool, true, ◌&&◌, List, [], ◌∷◌, arith, any, ltb,
  ◌==◌, if◌then◌else◌, Bool-cases,
}
use proof_forge.Prelude.Table.{find}
use proof_forge.Prelude.Action.{ok, err}
use proof_forge.Users.{User}
use proof_forge.Goals.Domain.{
  Goal, GoalStatus, pending_buddy_acceptance, CreateInput, Error, owner_not_in_circle,
  buddy_not_in_circle, active_goal_already_exists, goal_keyed, validate, normalize,
}
use proof_forge.Goals.Tables.{Store, is_goal_in, is_running, is_just, has_email}
use proof_forge.Goals.Queries.{
  is_active_member, is_circle_member, is_circle_member_by_email, has_active_goal_in_circle,
}
use proof_forge.Goals.Service.{Env, create_goal, create_normal, choose_circle, require_circle}

-- A goal of the owner in the circle that waits for its buddy or is active.
abbrev pub Occupies : ℕ → ℕ → Goal → Type 0
Occupies circle owner g =
    (g.circle_id ≡ some circle)
    × (g.owner_user_id ≡ owner)
    × ((g.status ≡ pending_buddy_acceptance) ⊎ (g.status ≡ GoalStatus.active))

running :
    (a : GoalStatus)
    → (a ≡ pending_buddy_acceptance) ⊎ (a ≡ GoalStatus.active)
    → is_running a ≡ true
running a (inl e) = ap is_running e
running a (inr e) = ap is_running e

Occupies-goal_in :
    (circle owner : ℕ) (g : Goal) → Occupies circle owner g → is_goal_in circle owner g ≡ true
Occupies-goal_in circle owner g h =
    let there : is_just circle g.circle_id ≡ true = rw h.0 (ground arith) in
    let live = running g.status h.2 in let mine = h.1 in ground arith

find-any :
    (p : Goal → Bool) (id : ℕ) (gs : List Goal) (g : Goal)
    → find id gs ≡ some g
    → p g ≡ true
    → any p gs ≡ true
unfolding find
find-any p id [] g found h = absurd (ground arith)
find-any p id (x ∷ gs) g found h = elim (Bool-cases (x.id == id)) [
  | inl hit ↦
      let same : some x ≡ some g = rw hit at found in
      let e : x ≡ g = cc in let here : p x ≡ true = rw e h in ground arith
  | inr miss ↦ let rest = find-any p id gs g (rw miss at found) h in ground arith
]

-- Which of the three refusals the user gets.
abbrev pub refusal : User → CreateInput → Store → Error
refusal owner plan s =
    if any (is_active_member plan.circle_id owner.id) s.memberships
    then if any
        (λ u.
          has_email plan.buddy_email u && any (is_active_member plan.circle_id u.id) s.memberships)
        s.users
      then active_goal_already_exists
      else buddy_not_in_circle
    else owner_not_in_circle

require_circle-taken :
    (owner : User) (plan : CreateInput) (s : Store)
    → any (is_goal_in plan.circle_id owner.id) s.goals ≡ true
    → require_circle owner plan (record { store = s; outages = [] })
      ≡ (err (refusal owner plan s), record { store = s; outages = [] })
unfolding require_circle is_circle_member is_circle_member_by_email has_active_goal_in_circle
require_circle-taken owner plan s taken = ground arith

create_normal-taken :
    (env : Env) (owner : User) (plan : CreateInput) (s : Store)
    → 0 < plan.circle_id
    → any (is_goal_in plan.circle_id owner.id) s.goals ≡ true
    → create_normal env owner plan (record { store = s; outages = [] })
      ≡ (err (refusal owner plan s), record { store = s; outages = [] })
unfolding create_normal choose_circle
create_normal-taken env owner plan s asked taken =
    let there : ltb 0 plan.circle_id ≡ true = ground arith in
    rw (there, require_circle-taken owner plan s taken) refl

-- While the database answers, nobody creates a goal in an existing circle where a goal of theirs waits
-- for its buddy or is active: a valid request is refused and nothing changes, no mail is sent and no
-- row is written. A user who is not an active member of the circle is told so first, then that the buddy is not
-- one, and only then that the circle has such a goal.
pub create_goal-taken :
    (env : Env) (owner : User) (input : CreateInput) (s : Store) (id : ℕ) (g : Goal)
    → validate env.lower owner input ≡ ok tt
    → 0 < (normalize env.lower input).circle_id
    → find id s.goals ≡ some g
    → Occupies (normalize env.lower input).circle_id owner.id g
    → create_goal env owner input (record { store = s; outages = [] })
      ≡ (err (refusal owner (normalize env.lower input) s), record { store = s; outages = [] })
unfolding create_goal
create_goal-taken env owner input s id g valid asked found there =
    let plan = normalize env.lower input in
    let taken =
      find-any (is_goal_in plan.circle_id owner.id) id s.goals g found
        (Occupies-goal_in plan.circle_id owner.id g there) in
    rw valid (create_normal-taken env owner plan s asked taken)
