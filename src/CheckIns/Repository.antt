-- ===== src/CheckIns/Repository.antt =====
-- The tables of check-ins and the statements of backend/internal/checkins/postgres_repository.go.
use proof_forge.Prelude.{
  ℕ, ◌+◌, Option, none, some, Bool, true, false, ◌&&◌, ◌||◌, List, [], ◌∷◌, ◌++◌, count, select,
  ◌==◌, if◌then◌else◌,
}
use proof_forge.Prelude.Text.{Text}
use proof_forge.Prelude.Table.{find, modify}
use proof_forge.Prelude.Sorting.{ascending, descending, sort_by}
use proof_forge.Prelude.Action.{
  Action, statement, query, execute, or_fail, pure, transaction, ◌>>=◌, ◌>>◌,
}
use proof_forge.Goals.{Goal, GoalStatus, stable, at_risk, goal_keyed}
use proof_forge.CheckIns.Domain.{
  Status, submitted, changes_requested, approved, rejected, EvidenceKind, Decision, approve, reject,
  request_changes, Error, check_in_not_found, goal_not_eligible, db_failure, CheckIn, ReviewRecord,
  check_in_keyed,
}
use proof_forge.CheckIns.Mime.{Mime}

pub record EvidenceItem : Type 0 where
  pub id : ℕ
  pub check_in_id : ℕ
  pub kind : EvidenceKind
  pub text_content : Text
  pub external_url : Text
  pub storage_key : Text
  pub mime_type : Option Mime
  pub file_size_bytes : ℕ
  pub created_at : ℕ

pub data EventKind : Type 0 where
  checkin_submitted checkin_approved checkin_rejected : EventKind

-- A row of the domain events; `decision` is set in the events of a review.
pub record DomainEvent : Type 0 where
  pub kind : EventKind
  pub check_in_id : ℕ
  pub owner_user_id : ℕ
  pub goal_id : ℕ
  pub owner_display_name : Text
  pub decision : Option Decision

pub data PilotEvent : Type 0 where
  weekly_proof_submitted first_proof_submitted : ℕ → ℕ → PilotEvent

-- The tables, the next values of their sequences, the stored objects, and what the emitter and the
-- tracker were given.
pub record Store : Type 0 where
  pub goals : List Goal
  pub check_ins : List CheckIn
  pub evidence : List EvidenceItem
  pub reviews : List ReviewRecord
  pub next_check_in_id : ℕ
  pub next_evidence_id : ℕ
  pub next_review_id : ℕ
  pub objects : List Text
  pub events : List DomainEvent
  pub tracked : List PilotEvent

pub record CheckInView : Type 0 where
  pub check_in : CheckIn
  pub evidence : List EvidenceItem
  pub buddy_user_id : ℕ
  pub goal_proof_examples : Text

abbrev pub M : Type 0 → Type 0
M A = Action Store Error A

abbrev is_active : GoalStatus → Bool
is_active GoalStatus.active = true
is_active GoalStatus.pending_buddy_acceptance = false

-- `FROM goals WHERE id = $1 AND owner_user_id = $2 AND status = 'active'`
unfoldable pub is_eligible : ℕ → Option Goal → Bool
is_eligible owner none = false
is_eligible owner (some g) = g.owner_user_id == owner && is_active g.status

abbrev new_check_in : ℕ → ℕ → ℕ → ℕ → Status → CheckIn
new_check_in id now goal owner status = record {
  id = id;
  goal_id = goal;
  owner_user_id = owner;
  status = status;
  submitted_at = none;
  approved_at = none;
  rejected_at = none;
  changes_requested_at = none;
  created_at = now;
  updated_at = now;
}

unfoldable pub insert_check_in : ℕ → ℕ → ℕ → Status → Store → Option CheckIn × Store
insert_check_in now goal owner status s =
    let ci = new_check_in s.next_check_in_id now goal owner status in
    if is_eligible owner (find goal s.goals)
    then (
      some ci,
      record s { check_ins = s.check_ins ++ ci ∷ []; next_check_in_id = s.next_check_in_id + 1 },
    )
    else (none, s)

-- CreateCheckIn
unfoldable pub create_check_in : ℕ → ℕ → ℕ → Status → M CheckIn
create_check_in now goal owner status = do
  row ← statement db_failure (insert_check_in now goal owner status)
  or_fail row goal_not_eligible

-- COALESCE(x, y)
abbrev pub coalesce {ℓ} : {A : Type ℓ} → Option A → A → A
coalesce none y = y
coalesce (some x) y = x

abbrev view_of : CheckIn → List EvidenceItem → Option Goal → Option CheckInView
view_of ci items none = none
view_of ci items (some g) = some record {
  check_in = ci;
  evidence = items;
  buddy_user_id = coalesce g.buddy_user_id 0;
  goal_proof_examples = g.proof_examples;
}

abbrev join_view : Store → Option CheckIn → Option CheckInView
join_view s none = none
join_view s (some ci) =
    view_of ci (ascending (λ e. e.created_at) (select (λ e. e.check_in_id == ci.id) s.evidence))
      (find ci.goal_id s.goals)

-- The rows of the query of GetCheckIn: the check-in joined with its goal and its evidence.
unfoldable pub load_view : ℕ → Store → Option CheckInView
unfolding sort_by
load_view id s = join_view s (find id s.check_ins)

-- GetCheckIn
unfoldable pub get_check_in : ℕ → M CheckInView
get_check_in id = do row ← query db_failure (load_view id); or_fail row check_in_not_found

-- `g.buddy_user_id = $2`: a null is equal to nothing.
abbrev pub is_buddy : ℕ → Option Goal → Bool
is_buddy actor none = false
is_buddy actor (some g) = elim g.buddy_user_id [ none ↦ false | some b ↦ b == actor ]

-- ListCheckInsByGoal
unfoldable pub list_check_ins_by_goal : ℕ → ℕ → M (List CheckIn)
list_check_ins_by_goal goal actor = query db_failure λ s.
    descending (λ c. c.created_at)
      (select
        (λ c. c.goal_id == goal && (c.owner_user_id == actor || is_buddy actor (find goal s.goals)))
        s.check_ins)

pub record UpdateStatusParams : Type 0 where
  pub status : Status
  pub submitted_at : Option ℕ
  pub approved_at : Option ℕ
  pub rejected_at : Option ℕ
  pub changes_requested_at : Option ℕ
  pub now : ℕ

-- `COALESCE($3, submitted_at)` for a nullable column.
abbrev pub overwrite : Option ℕ → Option ℕ → Option ℕ
overwrite none old = old
overwrite (some t) old = some t

-- The SET list of UpdateCheckInStatus.
unfoldable pub set_status : UpdateStatusParams → CheckIn → CheckIn
set_status p c = record c {
  status = p.status;
  submitted_at = overwrite p.submitted_at c.submitted_at;
  approved_at = overwrite p.approved_at c.approved_at;
  rejected_at = overwrite p.rejected_at c.rejected_at;
  changes_requested_at = overwrite p.changes_requested_at c.changes_requested_at;
  updated_at = p.now;
}

-- UpdateCheckInStatus
unfoldable pub update_check_in_status : ℕ → UpdateStatusParams → M (Unit {0})
update_check_in_status id p =
    execute db_failure λ s. record s { check_ins = modify id (set_status p) s.check_ins }

unfoldable pub insert_row : EvidenceItem → Store → EvidenceItem × Store
insert_row params s =
    let item = record params { id = s.next_evidence_id } in
    (
      item,
      record s { evidence = s.evidence ++ item ∷ []; next_evidence_id = s.next_evidence_id + 1 },
    )

-- InsertEvidence; the id of the parameters is not used. An empty column is stored as NULL and read
-- back as empty.
unfoldable pub insert_evidence : EvidenceItem → M EvidenceItem
insert_evidence params = statement db_failure (insert_row params)

abbrev pub evidence_count : ℕ → Store → ℕ
evidence_count id s = count (λ e. e.check_in_id == id) s.evidence

-- CountEvidence
unfoldable pub count_evidence : ℕ → M ℕ
count_evidence id = query db_failure (evidence_count id)

abbrev is_counted : Status → Bool
is_counted submitted = true
is_counted approved = true
is_counted _ = false

-- CountSubmittedByUser
unfoldable pub count_submitted_by_user : ℕ → M ℕ
count_submitted_by_user user =
    query db_failure λ s. count (λ c. c.owner_user_id == user && is_counted c.status) s.check_ins

unfoldable pub insert_review : ReviewRecord → Store → ReviewRecord × Store
insert_review params s =
    let rec = record params { id = s.next_review_id } in
    (rec, record s { reviews = s.reviews ++ rec ∷ []; next_review_id = s.next_review_id + 1 })

unfoldable pub decided : Decision → Status
decided approve = approved
decided reject = rejected
decided request_changes = changes_requested

-- The timestamps that the `switch` of RecordReview sets.
unfoldable pub review_params : Decision → ℕ → UpdateStatusParams
review_params d now = record {
  status = decided d;
  submitted_at = none;
  approved_at = elim d [ approve ↦ some now | _ ↦ none ];
  rejected_at = elim d [ reject ↦ some now | _ ↦ none ];
  changes_requested_at = elim d [ request_changes ↦ some now | _ ↦ none ];
  now = now;
}

unfoldable pub progress_goal : Decision → ℕ → Goal → Goal
progress_goal approve now g = record g {
  current_streak_count = g.current_streak_count + 1;
  current_progress_health = stable;
  updated_at = now;
}
progress_goal reject now g = record g {
  current_streak_count = 0;
  current_progress_health = at_risk;
  updated_at = now;
}
progress_goal request_changes now g = g

-- The rows of `goals` after the second `switch`.
unfoldable pub progressed : Decision → ℕ → ℕ → List Goal → List Goal
progressed request_changes goal now rows = rows
progressed d goal now rows = modify goal (progress_goal d now) rows

-- The second `switch`: a request for changes executes no statement.
unfoldable pub update_goal_progress : Decision → ℕ → ℕ → M (Unit {0})
update_goal_progress request_changes goal now = pure tt
update_goal_progress d goal now =
    execute db_failure λ s. record s { goals = progressed d goal now s.goals }

-- BEGIN and COMMIT: calls that can fail, and change nothing by themselves.
unfoldable pub tx_mark : M (Unit {0})
tx_mark = execute db_failure (λ s. s)

-- The INSERT of RecordReview.
unfoldable pub add_review : ReviewRecord → M ReviewRecord
add_review params = statement db_failure (insert_review params)

-- The UPDATE of the check-in.
unfoldable pub stamp_review : ReviewRecord → ℕ → M (Unit {0})
stamp_review rec now = execute db_failure λ s. record s {
  check_ins = modify rec.check_in_id (set_status (review_params rec.decision now)) s.check_ins;
}

-- RecordReview
unfoldable pub record_review : ℕ → ReviewRecord → ℕ → M ReviewRecord
record_review goal params now = transaction do
  tx_mark
  rec ← add_review params
  stamp_review params now
  update_goal_progress params.decision goal now
  tx_mark
  pure rec
