-- ===== src/CheckIns/Change.antt =====
-- What a use case of check-ins may do to the tables, with no mention of queries, of their order or
-- of errors: the abstract specification that the service refines.
use proof_forge.Prelude.{ℕ, ◌<◌, ◌≡◌, ◌≢◌, some, true, [], ◌∷◌, ◌++◌}
use proof_forge.Prelude.Table.{find, modify}
use proof_forge.Goals.{goal_keyed}
use proof_forge.CheckIns.Domain.{
  CheckIn, ReviewRecord, draft, submitted, can_submit, can_add_evidence, check_in_keyed,
  max_evidence_items,
}
use proof_forge.CheckIns.Repository.{
  Store, EvidenceItem, is_eligible, set_status, review_params, progressed, evidence_count,
}
use proof_forge.CheckIns.Service.{submit_params}

-- The parts of the tables that a change may leave as they are.
abbrev pub SameGoals : Store → Store → Type 0
SameGoals s t = t.goals ≡ s.goals

abbrev pub SameEvidence : Store → Store → Type 0
SameEvidence s t = t.evidence ≡ s.evidence

abbrev pub SameReviews : Store → Store → Type 0
SameReviews s t = t.reviews ≡ s.reviews

abbrev pub SameCheckIns : Store → Store → Type 0
SameCheckIns s t = t.check_ins ≡ s.check_ins

-- The check-in `id` that a change by its owner works on.
pub record Owned (actor id : ℕ) (c : CheckIn) (s : Store) : Type 0 where
  pub found : find id s.check_ins ≡ some c
  pub owner : c.owner_user_id ≡ actor

-- `actor` may make the change from `s` to `t` at the time `now`.
pub data Change (actor now : ℕ) (s t : Store) : Type 0 where
  unchanged :
      SameCheckIns s t × SameGoals s t × SameEvidence s t × SameReviews s t → Change actor now s t
  creates :
      (c : CheckIn)
      → is_eligible actor (find c.goal_id s.goals) ≡ true
      → (c.owner_user_id ≡ actor) × (c.status ≡ draft)
      → (t.check_ins ≡ s.check_ins ++ c ∷ []) × SameGoals s t × SameEvidence s t × SameReviews s t
      → Change actor now s t
  submits :
      (id : ℕ) (c : CheckIn)
      → Owned actor id c s
      → can_submit c.status ≡ true
      → (t.check_ins ≡ modify id (set_status (submit_params now)) s.check_ins)
        × SameGoals s t
        × SameEvidence s t
        × SameReviews s t
      → Change actor now s t
  attaches :
      (id : ℕ) (c : CheckIn) (item : EvidenceItem)
      → Owned actor id c s
      → (can_add_evidence c.status ≡ true) × (evidence_count id s < max_evidence_items)
      → item.check_in_id ≡ id
      → (t.evidence ≡ s.evidence ++ item ∷ []) × SameCheckIns s t × SameGoals s t × SameReviews s t
      → Change actor now s t
  decides :
      (id : ℕ) (c : CheckIn) (r : ReviewRecord)
      → find id s.check_ins ≡ some c
      → (c.owner_user_id ≢ actor) × (c.status ≡ submitted)
      → (r.check_in_id ≡ id) × (r.reviewer_user_id ≡ actor)
      → (t.check_ins ≡ modify id (set_status (review_params r.decision now)) s.check_ins)
        × (t.goals ≡ progressed r.decision c.goal_id now s.goals)
        × (t.reviews ≡ s.reviews ++ r ∷ [])
        × SameEvidence s t
      → Change actor now s t
