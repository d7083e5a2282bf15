-- ===== src/CheckIns/Examples.antt =====
-- Tests of check-ins on small tables: a goal with a buddy and three check-ins of its owner.
use proof_forge.Prelude.{ℕ, ◌≡◌, ◌↔◌, refl, none, some, false, List, [], ◌∷◌, arith}
use proof_forge.Prelude.Text.{Text, codes, trim_space}
use proof_forge.Prelude.Table.{find}
use proof_forge.Prelude.Action.{ok, World}
use proof_forge.Users.{User}
use proof_forge.CheckIns
use proof_forge.Goals.{Goal, GoalStatus, unknown, free_goal, goal_keyed}
use proof_forge.CheckIns.Domain.{
  CheckIn, Status, draft, submitted, approved, ReviewRecord, check_in_keyed, approve, reject,
  request_changes, can_submit, can_add_evidence, validate_text, validate_link, has_web_scheme,
  cut_fragment, sanitize_url, not_owner, max_evidence_items,
}
use proof_forge.CheckIns.Mime.{text_plain, detect_mime, mime_to_kind}
use proof_forge.CheckIns.Repository.{
  Store, EvidenceItem, CheckInView, load_view, get_check_in, record_review, add_review,
  stamp_review, update_goal_progress, tx_mark, insert_review, insert_evidence, insert_row,
  count_evidence, DomainEvent, checkin_rejected,
}
use proof_forge.CheckIns.Service.{
  Env, submit, review, require_member, add_link_evidence, require_room, require_owner_editable,
  check_evidence_cap,
}
use proof_forge.CheckIns.Requests.{Request, submit_request, review_request, Call, perform, serve}
use proof_forge.CheckIns.Change.{Change}
use proof_forge.CheckIns.Refinement.{perform-Change}
use proof_forge.CheckIns.Lifecycle.{serve-final}
use proof_forge.CheckIns.Reviewers.{AreByOthers, serve-AreByOthers}
use proof_forge.CheckIns.Limits.{IsWithinCap, serve-IsWithinCap}
use proof_forge.CheckIns.Results.{row_after, submit-answer, review-answer, forget}
use proof_forge.CheckIns.Progress.{Progresses, review-Progresses, review-event}
use proof_forge.CheckIns.Links.{
  IsWebLink, HasNoFragment, IsBeforeFragment, sanitize_url-before, add_link_evidence-IsWebLink,
}
use proof_forge.CheckIns.Files.{IsImage, detect_mime-image}

abbrev owner : User
owner = record { id = 1; email = codes "a@b.c"; display_name = codes "Ann" }

abbrev buddy : User
buddy = record { id = 2; email = codes "d@e.f"; display_name = [] }

abbrev goal : Goal
goal = record {
  id = 5;
  owner_user_id = 1;
  buddy_user_id = some 2;
  circle_id = some 4;
  team_id = none;
  title = codes "run";
  description = [];
  proof_examples = [];
  category = [];
  status = GoalStatus.active;
  current_streak_count = 3;
  current_progress_health = unknown;
  movement_mode = free_goal;
  rhythm_cadence = none;
  challenge_duration_days = none;
  challenge_starts_at = none;
  challenge_ends_at = none;
  initiative_id = none;
  created_at = 0;
  updated_at = 0;
}

abbrev check_in : ℕ → Status → CheckIn
check_in id status = record {
  id = id;
  goal_id = 5;
  owner_user_id = 1;
  status = status;
  submitted_at = none;
  approved_at = none;
  rejected_at = none;
  changes_requested_at = none;
  created_at = 0;
  updated_at = 0;
}

abbrev tables : Store
tables = record {
  goals = goal ∷ [];
  check_ins = check_in 7 draft ∷ check_in 8 submitted ∷ check_in 9 approved ∷ [];
  evidence = [];
  reviews = [];
  next_check_in_id = 10;
  next_evidence_id = 1;
  next_review_id = 1;
  objects = [];
  events = [];
  tracked = [];
}

abbrev env : Env
env = record {
  now = 100;
  db_now = 101;
  is_circle_member_for_goal = λ user goal. ok false;
  object_key = λ id ext. ext;
}

abbrev up : World Store
up = record { store = tables; outages = [] }

abbrev call : User → Request → Call
call actor r = record { env = env; actor = actor; request = r; outages = [] }

-- The owner hands in, the buddy sends back, the owner hands in again, the buddy approves.
abbrev history : List Call
history =
    call owner (submit_request 7)
    ∷ call buddy (review_request 7 request_changes [])
    ∷ call owner (submit_request 7)
    ∷ call buddy (review_request 7 approve [])
    ∷ call owner (submit_request 9)
    ∷ []

perform-Change_example : Change 1 100 tables (perform env owner (submit_request 7) up).1.store
perform-Change_example = perform-Change env owner (submit_request 7) up

serve-final_example : find 9 (serve history tables).check_ins ≡ some (check_in 9 approved)
unfolding find
serve-final_example = serve-final history 9 (check_in 9 approved) tables tt refl

serve-AreByOthers_example : AreByOthers (serve history tables)
serve-AreByOthers_example = serve-AreByOthers history tables tt

serve-IsWithinCap_example : IsWithinCap (serve history tables)
serve-IsWithinCap_example = serve-IsWithinCap history tables (λ id. omega arith)

submit-answer_example :
    ((submit env owner 7 up).0 ≡ ok tt)
    × (find 7 (submit env owner 7 up).1.store.check_ins
        ≡ row_after env.now 7 (ok tt) 7 (some (check_in 7 draft)))
unfolding load_view find
submit-answer_example = submit-answer env owner 7 7 up refl

review-answer_example : forget (review env buddy 8 approve [] up).0 ≡ ok tt
unfolding load_view find
review-answer_example = review-answer env buddy 8 approve [] up refl

abbrev view : CheckInView
view = record {
  check_in = check_in 8 submitted;
  evidence = [];
  buddy_user_id = 2;
  goal_proof_examples = [];
}

abbrev rejection : ReviewRecord
rejection = record {
  id = 1;
  check_in_id = 8;
  reviewer_user_id = 2;
  decision = reject;
  comment = [];
  created_at = 101;
}

reviewed : (review env buddy 8 reject [] up).0 ≡ ok rejection
unfolding review get_check_in load_view find require_member record_review add_review stamp_review
    update_goal_progress tx_mark insert_review trim_space
reviewed = refl

review-Progresses_example :
    Progresses reject 5 5 goal (review env buddy 8 reject [] up).1.store.goals
unfolding load_view find
review-Progresses_example =
    review-Progresses env buddy 8 reject [] up rejection view 5 goal reviewed refl refl

review-event_example :
    (e : DomainEvent) × ((review env buddy 8 reject [] up).1.store.events ≡ e ∷ [])
    × (e.kind ≡ checkin_rejected)
    × (e.decision ≡ some reject)
    × (e.check_in_id ≡ 8)
review-event_example = review-event env buddy 8 reject [] up rejection refl reviewed

abbrev raw : Text
raw = codes " https://x.y/#z"

abbrev link : EvidenceItem
link = record {
  id = 1;
  check_in_id = 7;
  kind = CheckIns.Domain.link;
  text_content = [];
  external_url = codes "https://x.y/";
  storage_key = [];
  mime_type = none;
  file_size_bytes = 0;
  created_at = 101;
}

added : (add_link_evidence env owner 7 raw up).0 ≡ ok link
unfolding add_link_evidence validate_link has_web_scheme require_room require_owner_editable
    get_check_in load_view find can_add_evidence check_evidence_cap count_evidence insert_evidence
    insert_row sanitize_url trim_space
added = refl

add_link_evidence-IsWebLink_example :
    IsWebLink (codes "https://x.y/") × HasNoFragment (codes "https://x.y/")
add_link_evidence-IsWebLink_example = add_link_evidence-IsWebLink env owner 7 raw up link added

sanitize_url-before_example :
    HasNoFragment (sanitize_url raw) × IsBeforeFragment (sanitize_url raw) (trim_space raw)
sanitize_url-before_example = sanitize_url-before raw

abbrev jpeg_head : List ℕ
jpeg_head = 0xD8 ∷ 0xFF ∷ 0xE0 ∷ []

detect_mime-image_example :
    (mime_to_kind (detect_mime (0xFF ∷ jpeg_head) text_plain) ≡ some CheckIns.Domain.image)
    ↔ IsImage (0xFF ∷ jpeg_head)
detect_mime-image_example = detect_mime-image 0xFF jpeg_head text_plain
