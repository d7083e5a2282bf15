-- ===== src/CheckIns/Results.antt =====
-- What each call answers: the checks, in their order.
use proof_forge.Prelude.{
  ℕ, ◌≡◌, refl, Option, none, some, true, false, List, [], arith, ◌==◌, if◌then◌else◌, inl, inr,
  Option-cases,
}
use proof_forge.Prelude.Action.{Result, ok, err, World}
use mathlib.Core.Option
use proof_forge.Prelude.Table.{modify, find, find-modify}
use proof_forge.Prelude.Text.{Text}
use proof_forge.Users.{User}
use proof_forge.CheckIns.Domain.{
  CheckIn, check_in_keyed, Status, draft, changes_requested, approved, rejected, submitted, Error,
  can_submit, check_in_not_found, not_owner, cannot_submit, cannot_review, cannot_review_own,
  not_authorized, Decision, ReviewRecord,
}
use proof_forge.CheckIns.Repository.{
  Store, CheckInView, load_view, get_check_in, record_review, add_review, tx_mark, stamp_review,
  insert_review, update_goal_progress, update_check_in_status, count_submitted_by_user, set_status,
}
use proof_forge.CheckIns.Service.{
  Env, submit, submit_params, review, require_member, review_row, announce_submission,
}

abbrev open_for_submission : Status → Result Error (Unit {0})
open_for_submission draft = ok tt
open_for_submission changes_requested = ok tt
open_for_submission submitted = err cannot_submit
open_for_submission approved = err cannot_submit
open_for_submission rejected = err cannot_submit

abbrev submission : User → Option CheckInView → Result Error (Unit {0})
submission actor none = err check_in_not_found
submission actor (some v) =
    if actor.id == v.check_in.owner_user_id
    then open_for_submission v.check_in.status
    else err not_owner

abbrev sent : ℕ → CheckIn → CheckIn
sent now c = record c { status = submitted; submitted_at = some now; updated_at = now }

-- The row `j` after the submission of the check-in `id`.
abbrev pub row_after : ℕ → ℕ → Result Error (Unit {0}) → ℕ → Option CheckIn → Option CheckIn
row_after now id (ok u) j c = if j == id then Option.map (sent now) c else c
row_after now id (err e) j c = c

submit-up :
    (env : Env) (actor : User) (id : ℕ) (w : World Store)
    → w.outages ≡ []
    → ((submit env actor id w).0 ≡ submission actor (load_view id w.store))
      × ((submit env actor id w).1.store.check_ins
          ≡ elim (submission actor (load_view id w.store)) [
            | ok u ↦ modify id (set_status (submit_params env.now)) w.store.check_ins
            | err e ↦ w.store.check_ins
          ])
unfolding submit get_check_in update_check_in_status announce_submission count_submitted_by_user
    can_submit
submit-up env actor id w up = (ground arith, ground arith)

row_after-lem :
    (now id j : ℕ) (r : Result Error (Unit {0})) (cs : List CheckIn)
    → find j (elim r [ ok u ↦ modify id (set_status (submit_params now)) cs | err e ↦ cs ])
      ≡ row_after now id r j (find j cs)
unfolding set_status
row_after-lem now id j (ok u) cs = find-modify j id (set_status (submit_params now)) cs (λ c. refl)
row_after-lem now id j (err e) cs = refl

-- While the database answers, a submission succeeds exactly for the owner of a check-in that is a
-- draft or for which changes were requested; it says not_found before not_owner, and not_owner
-- before cannot_submit. If it succeeds, the row of the check-in is submitted, with the time of the
-- call, and its other columns and all other rows are as before; if not, no row changes.
pub submit-answer :
    (env : Env) (actor : User) (id j : ℕ) (w : World Store)
    → w.outages ≡ []
    → let answer = submission actor (load_view id w.store) in
      ((submit env actor id w).0 ≡ answer)
      × (find j (submit env actor id w).1.store.check_ins
          ≡ row_after env.now id answer j (find j w.store.check_ins))
submit-answer env actor id j w up =
    let run = submit-up env actor id w up in
    (run.0, rw run.1 (row_after-lem env.now id j _ w.store.check_ins))

abbrev pub open_for_review : Status → Result Error (Unit {0})
open_for_review submitted = ok tt
open_for_review _ = err cannot_review

-- Who may decide: the buddy, or whom the membership checker knows.
abbrev pub member_answer : Env → User → CheckInView → Result Error (Unit {0})
member_answer env actor v =
    if actor.id == v.buddy_user_id
    then ok tt
    else elim (env.is_circle_member_for_goal actor.id v.check_in.goal_id) [
      | err e ↦ err e
      | ok false ↦ err not_authorized
      | ok true ↦ ok tt
    ]

abbrev pub decision_answer : Env → User → Option CheckInView → Result Error (Unit {0})
decision_answer env actor none = err check_in_not_found
decision_answer env actor (some v) =
    if actor.id == v.check_in.owner_user_id
    then err cannot_review_own
    else elim (member_answer env actor v) [
      | err e ↦ err e
      | ok u ↦ open_for_review v.check_in.status
    ]

-- The answer without the review that it may hold.
abbrev pub forget : {A : Type 0} → Result Error A → Result Error (Unit {0})
forget (ok a) = ok tt
forget (err e) = err e

module _ (w : World Store) (up : w.outages ≡ []) where
  pub get_check_in-found :
      (id : ℕ) (v : CheckInView) → load_view id w.store ≡ some v → get_check_in id w ≡ (ok v, w)
  unfolding get_check_in
  get_check_in-found id v e = ground arith

  pub record_up :
      (goal : ℕ) (p : ReviewRecord) (now : ℕ)
      → (r : ReviewRecord) × ((record_review goal p now w).0 ≡ ok r)
        × ((record_review goal p now w).1.outages ≡ [])
        × ((record_review goal p now w).1.store.events ≡ w.store.events)
  unfolding record_review add_review tx_mark stamp_review update_goal_progress insert_review
  record_up goal p now =
      (record p { id = w.store.next_review_id }, ground arith, ground arith, ground arith)

pub require_member-answer :
    (env : Env) (actor : User) (v : CheckInView) (w : World Store)
    → require_member env actor v w ≡ (member_answer env actor v, w)
unfolding require_member
require_member-answer env actor v w = ground arith

-- While the database answers, a decision succeeds exactly on a submitted check-in of somebody else,
-- by its buddy or by a member of the goal's circle; the membership is asked for no other user, and
-- the checks come in this order.
pub review-answer :
    (env : Env) (actor : User) (id : ℕ) (d : Decision) (comment : Text) (w : World Store)
    → w.outages ≡ []
    → forget (review env actor id d comment w).0 ≡ decision_answer env actor (load_view id w.store)
unfolding review
review-answer env actor id d comment w up = elim (Option-cases (load_view id w.store)) [
  | inl missing ↦ unfold get_check_in in ground arith
  | inr (v, loaded) ↦
      let (r, recorded, still_up, events) =
        record_up w up v.check_in.goal_id (review_row env actor id d comment) env.now in
      ground (arith, get_check_in-found w up id v loaded, require_member-answer env actor v w)
]
