-- ===== src/CheckIns/Outcome/Review.antt =====
-- Reviews: one transaction over the review, the check-in and the goal, or no change.
use proof_forge.Prelude.{ℕ, ◌+◌, ◌≡◌, ◌≢◌, ◌⊎◌, ◌∙◌, some, [], ◌∷◌, ◌++◌, arith, inl, inr}
use proof_forge.Prelude.Action.{ok, err, World, Result-cases}
use proof_forge.Prelude.Text.{Text}
use proof_forge.Prelude.Table.{modify}
use proof_forge.Users.{User}
use proof_forge.Goals.{goal_keyed}
use proof_forge.CheckIns.Domain.{
  submitted, Decision, ReviewRecord, Error, db_failure, check_in_keyed,
}
use proof_forge.CheckIns.Repository.{
  Store, CheckInView, M, load_view, get_check_in, set_status, review_params, progressed,
  record_review, insert_review, tx_mark, add_review, stamp_review, update_goal_progress,
}
use proof_forge.CheckIns.Service.{Env, review, review_row, require_member}
use proof_forge.CheckIns.Change.{SameEvidence}
use proof_forge.CheckIns.Outcome.{Reverts, store-get_check_in, get_check_in-ok}

-- A statement fails and is not executed, or changes the store by `f`.
abbrev Executes : {A : Type 0} → M A → (Store → A × Store) → World Store → Type 0
Executes m f w =
    (((m w).0 ≡ err db_failure) × ((m w).1.store ≡ w.store))
    ⊎ (((m w).0 ≡ ok (f w.store).0) × ((m w).1.store ≡ (f w.store).1))

module _ (w : World Store) where
  tx_mark-Executes : Executes tx_mark (λ s. (tt, s)) w
  unfolding tx_mark
  tx_mark-Executes = ground arith

  add_review-Executes : (p : ReviewRecord) → Executes (add_review p) (insert_review p) w
  unfolding add_review
  add_review-Executes p = ground arith

  stamp_review-Executes :
      (p : ReviewRecord) (now : ℕ)
      → Executes
          (stamp_review p now)
          (λ s. (
            tt,
            record s {
              check_ins =
                  modify p.check_in_id (set_status (review_params p.decision now)) s.check_ins;
            },
          ))
          w
  unfolding stamp_review
  stamp_review-Executes p now = ground arith

  update_goal_progress-Executes :
      (d : Decision) (goal now : ℕ)
      → Executes
          (update_goal_progress d goal now)
          (λ s. (tt, record s { goals = progressed d goal now s.goals }))
          w
  unfolding update_goal_progress progressed
  update_goal_progress-Executes d goal now = ground arith

-- The store after a review that is recorded.
abbrev recorded : ℕ → ReviewRecord → ℕ → Store → Store
recorded goal params now s = record s {
  check_ins =
      modify params.check_in_id (set_status (review_params params.decision now)) s.check_ins;
  goals = progressed params.decision goal now s.goals;
  reviews = s.reviews ++ record params { id = s.next_review_id } ∷ [];
  next_review_id = s.next_review_id + 1;
}

module _ (goal : ℕ) (params : ReviewRecord) (now : ℕ) (w : World Store) where
  record_review-Reverts :
      (e : Error)
      → (record_review goal params now w).0 ≡ err e
      → (record_review goal params now w).1.store ≡ w.store
  unfolding record_review
  record_review-Reverts e h = ground arith

  record_review-ok :
      (r : ReviewRecord)
      → (record_review goal params now w).0 ≡ ok r
      → (r ≡ record params { id = w.store.next_review_id })
        × ((record_review goal params now w).1.store ≡ recorded goal params now w.store)
  unfolding record_review insert_review
  record_review-ok r h =
      let w₁ = (tx_mark w).1 in
      let w₂ = (add_review params w₁).1 in
      let w₃ = (stamp_review params now w₂).1 in
      let w₄ = (update_goal_progress params.decision goal now w₃).1 in
      ground (
        arith,
        tx_mark-Executes w,
        add_review-Executes w₁ params,
        stamp_review-Executes w₂ params now,
        update_goal_progress-Executes w₃ params.decision goal now,
        tx_mark-Executes w₄,
      )

module _ (env : Env) (actor : User) (v : CheckInView) (w : World Store) where
  pub store-require_member : (require_member env actor v w).1.store ≡ w.store
  unfolding require_member
  store-require_member = ground arith

module _ (env : Env) (actor : User) (id : ℕ) (d : Decision) (comment : Text) (w : World Store) where
  pub review-Reverts : Reverts (review env actor id d comment) w
  unfolding review
  review-Reverts e h = elim (Result-cases (get_check_in id w).0) [
    | inl (v, found) ↦
        let w₁ = (get_check_in id w).1 in
        let w₂ = (require_member env actor v w₁).1 in
        let row = review_row env actor id d comment in
        let same : (w₁.store ≡ w.store) × (w₂.store ≡ w.store) = (
          store-get_check_in id w,
          store-require_member env actor v w₁ ∙ store-get_check_in id w,
        ) in
        elim (Result-cases (record_review v.check_in.goal_id row env.now w₂).0) [
          | inl (r, done) ↦ ground arith
          | inr (e', failed) ↦
              ground (arith, record_review-Reverts v.check_in.goal_id row env.now w₂ e' failed)
        ]
    | inr (e', missing) ↦ ground (arith, store-get_check_in id w)
  ]

  pub review-ok :
      (r : ReviewRecord)
      → (review env actor id d comment w).0 ≡ ok r
      → let t = (review env actor id d comment w).1.store in
        (v : CheckInView) × (load_view id w.store ≡ some v)
        × (v.check_in.owner_user_id ≢ actor.id)
        × (v.check_in.status ≡ submitted)
        × (r.check_in_id ≡ id)
        × (r.reviewer_user_id ≡ actor.id)
        × (t.check_ins
            ≡ modify id (set_status (review_params r.decision env.now)) w.store.check_ins)
        × (t.goals ≡ progressed r.decision v.check_in.goal_id env.now w.store.goals)
        × (t.reviews ≡ w.store.reviews ++ r ∷ [])
        × SameEvidence w.store t
        × (r.decision ≡ d)
  unfolding review
  review-ok r h = elim (Result-cases (get_check_in id w).0) [
    | inl (v, found) ↦
        let w₁ = (get_check_in id w).1 in
        let w₂ = (require_member env actor v w₁).1 in
        let row = review_row env actor id d comment in
        ground (
          arith,
          store-get_check_in id w,
          get_check_in-ok id w v found,
          store-require_member env actor v w₁,
          record_review-ok v.check_in.goal_id row env.now w₂ r,
        )
    | inr (e', missing) ↦ ground (arith, store-get_check_in id w)
  ]
