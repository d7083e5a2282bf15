-- ===== src/CheckIns/Domain.antt =====
-- Types, limits and input checks of backend/internal/checkins/domain.go.
use proof_forge.Prelude.{
  ℕ, ◌*◌, Option, Bool, true, false, not, ◌||◌, [], ◌∷◌, ltb, ◌==◌, if◌then◌else◌,
}
use proof_forge.Prelude.Text.{Text, codes, trim_space, is_empty, byte_length, has_prefix}
use proof_forge.Prelude.Table.{Keyed}
use proof_forge.Prelude.Action.{Result, ok, err}

pub data Status : Type 0 where
  draft submitted changes_requested approved rejected : Status

pub data EvidenceKind : Type 0 where
  text link file image : EvidenceKind

-- ReviewDecision. The handlers set it, one route for each of the three constants.
pub data Decision : Type 0 where
  approve reject request_changes : Decision

pub data Error : Type 0 where
  check_in_not_found goal_not_eligible not_authorized not_owner invalid_evidence_input : Error
  cannot_submit cannot_add_evidence too_many_evidence_items file_too_large : Error
  unsupported_mime cannot_review cannot_review_own : Error
  db_failure membership_failure upload_failure : Error

abbrev pub max_file_size_bytes : ℕ
max_file_size_bytes = 10 * 1024 * 1024

abbrev pub max_evidence_items : ℕ
max_evidence_items = 20

pub record CheckIn : Type 0 where
  pub id : ℕ
  pub goal_id : ℕ
  pub owner_user_id : ℕ
  pub status : Status
  pub submitted_at : Option ℕ
  pub approved_at : Option ℕ
  pub rejected_at : Option ℕ
  pub changes_requested_at : Option ℕ
  pub created_at : ℕ
  pub updated_at : ℕ

pub record ReviewRecord : Type 0 where
  pub id : ℕ
  pub check_in_id : ℕ
  pub reviewer_user_id : ℕ
  pub decision : Decision
  pub comment : Text
  pub created_at : ℕ

instance abbrev pub check_in_keyed : Keyed CheckIn
check_in_keyed = record { key = λ c. c.id }

unfoldable pub can_add_evidence : Status → Bool
can_add_evidence draft = true
can_add_evidence changes_requested = true
can_add_evidence _ = false

unfoldable pub can_submit : Status → Bool
can_submit draft = true
can_submit changes_requested = true
can_submit _ = false

-- AddTextInput.Validate
unfoldable pub validate_text : Text → Result Error (Unit {0})
validate_text input =
    let content = trim_space input in
    if is_empty content
    then err invalid_evidence_input
    else if ltb 10000 (byte_length content)
    then err invalid_evidence_input
    else ok tt

-- The scheme test of AddLinkInput.Validate.
unfoldable pub has_web_scheme : Text → Bool
has_web_scheme url = has_prefix (codes "https://") url || has_prefix (codes "http://") url

-- AddLinkInput.Validate
unfoldable pub validate_link : Text → Result Error (Unit {0})
validate_link input =
    let url = trim_space input in
    if is_empty url
    then err invalid_evidence_input
    else if not (has_web_scheme url)
    then err invalid_evidence_input
    else if ltb 2048 (byte_length url)
    then err invalid_evidence_input
    else ok tt

-- `raw[:i]` at the first '#', or all of it.
unfoldable pub cut_fragment : Text → Text
cut_fragment [] = []
cut_fragment (c ∷ s) = if c == b'#' then [] else c ∷ cut_fragment s

-- SanitizeURL
unfoldable pub sanitize_url : Text → Text
unfolding cut_fragment
sanitize_url raw = cut_fragment (trim_space raw)
