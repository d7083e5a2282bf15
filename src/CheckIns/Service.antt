-- ===== src/CheckIns/Service.antt =====
-- The use cases of backend/internal/checkins/service.go.
use proof_forge.Prelude.{
  ℕ, none, some, Bool, true, false, List, [], ◌∷◌, ◌++◌, length, ltb, leb, ◌==◌, not, if◌then◌else◌,
}
use proof_forge.Prelude.Text.{Text, trim_space, is_empty}
use proof_forge.Prelude.Action.{
  Result, ok, execute, or_fail, pure, lift, guard, ignore, ◌>>=◌, ◌>>◌,
}
use proof_forge.Users.{User}
use proof_forge.CheckIns.Domain.{
  Status, draft, submitted, EvidenceKind, text, link, Decision, reject, Error, not_authorized,
  not_owner, cannot_submit, cannot_add_evidence, too_many_evidence_items, file_too_large,
  unsupported_mime, cannot_review, cannot_review_own, db_failure, upload_failure,
  max_evidence_items, max_file_size_bytes, CheckIn, ReviewRecord, can_add_evidence, can_submit,
  validate_text, validate_link, sanitize_url,
}
use proof_forge.CheckIns.Mime.{Mime, detect_mime, mime_to_kind, file_extension}
use proof_forge.CheckIns.Repository.{
  EvidenceItem, EventKind, checkin_submitted, checkin_approved, checkin_rejected, DomainEvent,
  PilotEvent, weekly_proof_submitted, first_proof_submitted, CheckInView, M, create_check_in,
  get_check_in, list_check_ins_by_goal, UpdateStatusParams, update_check_in_status, insert_evidence,
  count_evidence, count_submitted_by_user, record_review,
}

-- What a call finds outside the package: the service's clock, the database's clock, the membership
-- checker, and the object keys that the storage makes up.
pub record Env : Type 0 where
  pub now : ℕ
  pub db_now : ℕ
  pub is_circle_member_for_goal : ℕ → ℕ → Result Error Bool
  pub object_key : ℕ → Text → Text

-- Emitter.Emit, whose error the service drops.
abbrev emit : DomainEvent → M (Unit {0})
emit e = ignore (execute db_failure (λ s. record s { events = s.events ++ e ∷ [] }))

-- Tracker.TrackAsync
abbrev track : PilotEvent → M (Unit {0})
track e w = (ok tt, record w { store = record w.store { tracked = w.store.tracked ++ e ∷ [] } })

-- Storage.Put
abbrev put : Text → M (Unit {0})
put key = execute upload_failure (λ s. record s { objects = s.objects ++ key ∷ [] })

-- CreateCheckIn
unfoldable pub create : Env → User → ℕ → M CheckIn
create env actor goal = create_check_in env.db_now goal actor.id draft

-- The membership test of GetDetail and Review: an owner's or buddy's id is not looked up.
unfoldable pub require_member : Env → User → CheckInView → M (Unit {0})
require_member env actor view = if actor.id == view.buddy_user_id then pure tt else do
  is_member ← lift (env.is_circle_member_for_goal actor.id view.check_in.goal_id)
  guard is_member not_authorized

-- GetDetail
unfoldable pub get_detail : Env → User → ℕ → M CheckInView
get_detail env actor id = do
  view ← get_check_in id
  if actor.id == view.check_in.owner_user_id then pure tt else require_member env actor view
  pure view

-- ListForGoal
unfoldable pub list_for_goal : User → ℕ → M (List CheckIn)
list_for_goal actor goal = list_check_ins_by_goal goal actor.id

abbrev name_of : User → Text
name_of u = if is_empty u.display_name then u.email else u.display_name

abbrev pub submit_params : ℕ → UpdateStatusParams
submit_params now = record {
  status = submitted;
  submitted_at = some now;
  approved_at = none;
  rejected_at = none;
  changes_requested_at = none;
  now = now;
}

-- The events after a submission, none of which can fail it.
unfoldable pub announce_submission : User → ℕ → ℕ → M (Unit {0})
announce_submission actor id goal = do
  emit record {
    kind = checkin_submitted;
    check_in_id = id;
    owner_user_id = actor.id;
    goal_id = goal;
    owner_display_name = name_of actor;
    decision = none;
  }
  track (weekly_proof_submitted actor.id goal)
  ignore do
    count ← count_submitted_by_user actor.id
    if count == 1 then track (first_proof_submitted actor.id goal) else pure tt

-- Submit
unfoldable pub submit : Env → User → ℕ → M (Unit {0})
submit env actor id = do
  view ← get_check_in id
  guard (actor.id == view.check_in.owner_user_id) not_owner
  guard (can_submit view.check_in.status) cannot_submit
  update_check_in_status id (submit_params env.now)
  announce_submission actor id view.check_in.goal_id

unfoldable pub require_owner_editable : User → ℕ → M CheckInView
require_owner_editable actor id = do
  view ← get_check_in id
  guard (actor.id == view.check_in.owner_user_id) not_owner
  guard (can_add_evidence view.check_in.status) cannot_add_evidence
  pure view

unfoldable pub check_evidence_cap : CheckInView → M (Unit {0})
check_evidence_cap view = do
  count ← count_evidence view.check_in.id
  guard (ltb count max_evidence_items) too_many_evidence_items

-- The two checks that the three methods below make before they write.
unfoldable pub require_room : User → ℕ → M (Unit {0})
require_room actor id = do view ← require_owner_editable actor id; check_evidence_cap view

abbrev blank_item : Env → ℕ → EvidenceKind → EvidenceItem
blank_item env id kind = record {
  id = 0;
  check_in_id = id;
  kind = kind;
  text_content = [];
  external_url = [];
  storage_key = [];
  mime_type = none;
  file_size_bytes = 0;
  created_at = env.db_now;
}

-- AddTextEvidence
unfoldable pub add_text_evidence : Env → User → ℕ → Text → M EvidenceItem
add_text_evidence env actor id content = do
  lift (validate_text content)
  require_room actor id
  insert_evidence (record (blank_item env id text) { text_content = trim_space content })

-- AddLinkEvidence
unfoldable pub add_link_evidence : Env → User → ℕ → Text → M EvidenceItem
add_link_evidence env actor id url = do
  lift (validate_link url)
  require_room actor id
  insert_evidence (record (blank_item env id link) { external_url = sanitize_url url })

-- AddFileEvidence
unfoldable pub add_file_evidence : Env → User → ℕ → List ℕ → Mime → M EvidenceItem
add_file_evidence env actor id bytes client_mime = do
  guard (leb (length bytes) max_file_size_bytes) file_too_large
  let mime = detect_mime bytes client_mime
  kind ← or_fail (mime_to_kind mime) unsupported_mime
  require_room actor id
  let key = env.object_key id (file_extension mime)
  put key
  insert_evidence (record (blank_item env id kind) {
    storage_key = key;
    mime_type = some mime;
    file_size_bytes = length bytes;
  })

abbrev is_submitted : Status → Bool
is_submitted submitted = true
is_submitted _ = false

unfoldable pub review_event : Decision → EventKind
review_event reject = checkin_rejected
review_event _ = checkin_approved

abbrev pub review_row : Env → User → ℕ → Decision → Text → ReviewRecord
review_row env actor id d comment = record {
  id = 0;
  check_in_id = id;
  reviewer_user_id = actor.id;
  decision = d;
  comment = trim_space comment;
  created_at = env.db_now;
}

-- Review
unfoldable pub review : Env → User → ℕ → Decision → Text → M ReviewRecord
review env actor id d comment = do
  view ← get_check_in id
  guard (not (actor.id == view.check_in.owner_user_id)) cannot_review_own
  require_member env actor view
  guard (is_submitted view.check_in.status) cannot_review
  rec ← record_review view.check_in.goal_id (review_row env actor id d comment) env.now
  emit record {
    kind = review_event d;
    check_in_id = id;
    owner_user_id = view.check_in.owner_user_id;
    goal_id = view.check_in.goal_id;
    owner_display_name = [];
    decision = some d;
  }
  pure rec
