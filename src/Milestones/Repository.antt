-- ===== src/Milestones/Repository.antt =====
-- The milestones of a goal, their table and its statements (backend/internal/milestones/domain.go
-- and postgres_repository.go).
use proof_forge.Prelude.{
  ℕ, ◌+◌, Option, none, some, Bool, true, false, List, [], ◌∷◌, ◌++◌, ltb, ◌==◌, select,
  if◌then◌else◌,
}
use proof_forge.Prelude.Text.{Text, trim_space, is_empty, byte_length}
use proof_forge.Prelude.Int.{ℤ, negsuc, less, same_int, next_int}
use proof_forge.Prelude.Table.{Keyed, find, modify, erase}
use proof_forge.Prelude.Sorting.{sort_by}
use proof_forge.Prelude.Action.{
  Action, Result, ok, err, statement, query, or_fail, pure, fail, ◌>>=◌,
}
use proof_forge.Goals.{Goal, GoalStatus, goal_keyed}

pub data MilestoneStatus : Type 0 where
  pending completed : MilestoneStatus

-- `scan_failure` is a NULL read into an int64.
pub data Error : Type 0 where
  milestone_not_found not_goal_owner not_buddy milestone_not_pending : Error
  milestone_not_complete goal_not_active invalid_input scan_failure db_failure : Error

pub record Milestone : Type 0 where
  pub id : ℕ
  pub goal_id : ℕ
  pub title : Text
  pub description : Text
  pub status : MilestoneStatus
  pub sort_order : ℤ
  pub completed_at : Option ℕ
  pub completed_by_user_id : Option ℕ
  pub created_at : ℕ
  pub updated_at : ℕ

instance abbrev pub milestone_keyed : Keyed Milestone
milestone_keyed = record { key = λ m. m.id }

pub record CreateInput : Type 0 where
  pub title : Text
  pub description : Text

pub record UpdateInput : Type 0 where
  pub title : Option Text
  pub description : Option Text
  pub sort_order : Option ℤ

-- CreateInput.Validate
unfoldable pub validate : CreateInput → Result Error (Unit {0})
validate input =
    if is_empty (trim_space input.title)
    then err invalid_input
    else if ltb 200 (byte_length (trim_space input.title))
    then err invalid_input
    else if ltb 2000 (byte_length input.description)
    then err invalid_input
    else ok tt

pub record Store : Type 0 where
  pub goals : List Goal
  pub milestones : List Milestone
  pub next_milestone_id : ℕ

abbrev pub M : Type 0 → Type 0
M A = Action Store Error A

abbrev pub inserted_milestone : ℕ → ℕ → ℕ → Text → Text → ℤ → Milestone
inserted_milestone db_now id goal title description order = record {
  id = id;
  goal_id = goal;
  title = title;
  description = description;
  status = pending;
  sort_order = order;
  completed_at = none;
  completed_by_user_id = none;
  created_at = db_now;
  updated_at = db_now;
}

-- Insert
unfoldable pub insert : ℕ → ℕ → Text → Text → ℤ → M Milestone
insert db_now goal title description order = statement db_failure λ s. (
  inserted_milestone db_now s.next_milestone_id goal title description order,
  record s {
    milestones =
        s.milestones
        ++ inserted_milestone db_now s.next_milestone_id goal title description order ∷ [];
    next_milestone_id = s.next_milestone_id + 1;
  },
)

-- ORDER BY status DESC, sort_order ASC, id ASC: "pending" stands before "completed".
abbrev pub status_before : MilestoneStatus → MilestoneStatus → Bool → Bool
status_before pending completed rest = true
status_before completed pending rest = false
status_before pending pending rest = rest
status_before completed completed rest = rest

-- sort_order ASC, id ASC
abbrev pub placed_before : ℤ → ℕ → ℤ → ℕ → Bool
placed_before x i y j = if same_int x y then ltb i j else less x y

unfoldable pub comes_before : Milestone → Milestone → Bool
comes_before m n =
    status_before m.status n.status (placed_before m.sort_order m.id n.sort_order n.id)

-- FindByGoal
unfoldable pub find_by_goal : ℕ → M (List Milestone)
find_by_goal goal =
    query db_failure (λ s. sort_by comes_before (select (λ m. m.goal_id == goal) s.milestones))

-- FindByID
unfoldable pub find_by_id : ℕ → M Milestone
find_by_id id = do
  row ← query db_failure (λ s. find id s.milestones)
  or_fail row milestone_not_found

-- COALESCE(x, y)
abbrev pub coalesce : {A : Type 0} → Option A → A → A
coalesce none y = y
coalesce (some x) y = x

-- The SET list of Update.
unfoldable pub set_fields : ℕ → Option Text → Option Text → Option ℤ → Milestone → Milestone
set_fields db_now title description order m = record m {
  title = coalesce title m.title;
  description = coalesce description m.description;
  sort_order = coalesce order m.sort_order;
  updated_at = db_now;
}

-- An UPDATE … RETURNING of one row.
abbrev pub returning : ℕ → (Milestone → Milestone) → M Milestone
returning id f = do
  row ←
      statement db_failure λ s.
        (find id (modify id f s.milestones), record s { milestones = modify id f s.milestones })
  or_fail row milestone_not_found

-- Update
unfoldable pub update : ℕ → ℕ → Option Text → Option Text → Option ℤ → M Milestone
update db_now id title description order = returning id (set_fields db_now title description order)

abbrev pub affected : Option Milestone → M (Unit {0})
affected none = fail milestone_not_found
affected (some m) = pure tt

-- Delete: no row affected is an error.
unfoldable pub delete : ℕ → M (Unit {0})
delete id = do
  row ←
      statement db_failure
        λ s. (find id s.milestones, record s { milestones = erase id s.milestones })
  affected row

-- The SET list of UpdateStatus.
unfoldable pub set_status : MilestoneStatus → Option ℕ → ℕ → Milestone → Milestone
set_status completed by now m = record m {
  status = completed;
  completed_at = some now;
  completed_by_user_id = by;
  updated_at = now;
}
set_status pending by now m = record m {
  status = pending;
  completed_at = none;
  completed_by_user_id = none;
  updated_at = now;
}

-- UpdateStatus
unfoldable pub update_status : ℕ → MilestoneStatus → Option ℕ → ℕ → M Milestone
update_status id status by now = returning id (set_status status by now)

pub record Participants : Type 0 where
  pub owner : ℕ
  pub buddy : ℕ
  pub goal_status : GoalStatus

-- Scan: the goal's buddy is nullable, and a NULL is an error.
abbrev pub scan_participants : Goal → Option ℕ → M Participants
scan_participants g none = fail scan_failure
scan_participants g (some buddy) =
    pure (record { owner = g.owner_user_id; buddy = buddy; goal_status = g.status })

-- FindGoalParticipants
unfoldable pub find_goal_participants : ℕ → M Participants
find_goal_participants goal = do
  row ← query db_failure (λ s. find goal s.goals)
  g ← or_fail row milestone_not_found
  scan_participants g g.buddy_user_id

abbrev pub larger : ℤ → Option ℤ → ℤ
larger a none = a
larger a (some b) = if less a b then b else a

-- MAX(sort_order), none of no rows.
unfoldable pub max_order : ℕ → List Milestone → Option ℤ
max_order goal [] = none
max_order goal (m ∷ ms) =
    let rest = max_order goal ms in
    if m.goal_id == goal then some (larger m.sort_order rest) else rest

-- COALESCE(MAX(sort_order), -1) + 1
unfoldable pub order_after : ℕ → List Milestone → ℤ
order_after goal ms = next_int (coalesce (max_order goal ms) (negsuc 0))

-- NextSortOrder
unfoldable pub next_sort_order : ℕ → M ℤ
next_sort_order goal = query db_failure (λ s. order_after goal s.milestones)
