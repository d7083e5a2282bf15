-- ===== src/CheckIns/Outcome.antt =====
-- Each use case of the service makes one change that the specification allows, or none: by its
-- result, whatever statements the database refuses.
pub mod Evidence
pub mod Review
use proof_forge.Prelude.{
  ℕ, ◌+◌, ◌<◌, ◌≡◌, ◌≢◌, ◌⊎◌, ◌∙◌, refl, Option, none, some, true, false, List, [], ◌∷◌, ◌++◌,
  arith, length, inl, inr, ltb,
}
use proof_forge.Prelude.Action.{Result, ok, err, World, Result-cases, ◌>>=◌, ◌>>◌}
use proof_forge.Prelude.Text.{Text}
use proof_forge.Prelude.Table.{find, modify, find-key}
use proof_forge.Users.{User}
use proof_forge.Goals.{goal_keyed}
use proof_forge.CheckIns.Domain.{
  Status, draft, submitted, CheckIn, Decision, approve, reject, request_changes, ReviewRecord,
  Error, db_failure, can_submit, can_add_evidence, check_in_keyed, max_evidence_items,
}
use proof_forge.CheckIns.Mime.{Mime}
use proof_forge.CheckIns.Repository.{
  Store, CheckInView, EvidenceItem, M, load_view, get_check_in, set_status, review_params,
  progressed, evidence_count, update_check_in_status, insert_check_in, create_check_in, is_eligible,
  insert_evidence, insert_row, count_evidence, record_review, insert_review, tx_mark, add_review,
  stamp_review, update_goal_progress, count_submitted_by_user,
}
use proof_forge.CheckIns.Service.{
  Env, create, submit, submit_params, announce_submission, require_owner_editable,
  check_evidence_cap, require_room, add_text_evidence, add_link_evidence, add_file_evidence, review,
  review_row, require_member, get_detail, list_for_goal,
}
use proof_forge.CheckIns.Change.{
  Change, unchanged, creates, submits, attaches, decides, Owned, SameGoals, SameEvidence,
  SameReviews, SameCheckIns,
}

-- All four tables as they were.
abbrev pub Untouched : Store → Store → Type 0
Untouched s t = SameCheckIns s t × SameGoals s t × SameEvidence s t × SameReviews s t

-- A view holds the row that its id names.
pub view_row :
    (id : ℕ) (s : Store) (v : CheckInView)
    → load_view id s ≡ some v
    → find id s.check_ins ≡ some v.check_in
unfolding load_view
view_row id s v h = ground arith

-- An action that leaves the tables alone when it fails.
abbrev pub Reverts : {A : Type 0} → M A → World Store → Type 0
Reverts m w = (e : Error) → (m w).0 ≡ err e → Untouched w.store (m w).1.store

module _ (id : ℕ) (w : World Store) where
  -- `get_check_in` and the checks only read.
  pub store-get_check_in : (get_check_in id w).1.store ≡ w.store
  unfolding get_check_in
  store-get_check_in = ground arith

  pub get_check_in-ok :
      (v : CheckInView) → (get_check_in id w).0 ≡ ok v → load_view id w.store ≡ some v
  unfolding get_check_in
  get_check_in-ok v h = ground arith

module _ (env : Env) (actor : User) (goal : ℕ) (w : World Store) where
  pub create-Reverts : Reverts (create env actor goal) w
  unfolding create create_check_in insert_check_in
  create-Reverts e h = ground arith

  pub create-ok :
      (c : CheckIn)
      → (create env actor goal w).0 ≡ ok c
      → let t = (create env actor goal w).1.store in
        (is_eligible actor.id (find c.goal_id w.store.goals) ≡ true)
        × (c.owner_user_id ≡ actor.id)
        × (c.status ≡ draft)
        × (t.check_ins ≡ w.store.check_ins ++ c ∷ [])
        × SameGoals w.store t
        × SameEvidence w.store t
        × SameReviews w.store t
  unfolding create create_check_in insert_check_in
  create-ok c h = ground arith

module _ (env : Env) (actor : User) (id : ℕ) (w : World Store) where
  pub submit-Reverts : Reverts (submit env actor id) w
  unfolding submit get_check_in update_check_in_status announce_submission count_submitted_by_user
  submit-Reverts e h = ground arith

  pub submit-ok :
      (u : Unit {0})
      → (submit env actor id w).0 ≡ ok u
      → let t = (submit env actor id w).1.store in
        (v : CheckInView) × (load_view id w.store ≡ some v)
        × (v.check_in.owner_user_id ≡ actor.id)
        × (can_submit v.check_in.status ≡ true)
        × (t.check_ins ≡ modify id (set_status (submit_params env.now)) w.store.check_ins)
        × SameGoals w.store t
        × SameEvidence w.store t
        × SameReviews w.store t
  unfolding submit get_check_in update_check_in_status announce_submission count_submitted_by_user
  submit-ok u h = ground arith
