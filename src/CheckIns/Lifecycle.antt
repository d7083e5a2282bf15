-- ===== src/CheckIns/Lifecycle.antt =====
-- The life of a check-in: draft, submitted, and then approved or rejected for good, or sent back
-- for changes and submitted again.
use proof_forge.Prelude.{
  ℕ, ◌≡◌, ◌≢◌, refl, true, some, List, [], ◌∷◌, arith, ◌==◌, Bool-cases, inl, inr,
}
use proof_forge.Prelude.Table.{find, modify, find-modify, find-append_some}
use proof_forge.Goals.{goal_keyed}
use proof_forge.CheckIns.Domain.{
  Status, draft, submitted, changes_requested, approved, rejected, CheckIn, Decision, approve,
  reject, request_changes, can_submit, check_in_keyed,
}
use proof_forge.CheckIns.Repository.{Store, UpdateStatusParams, set_status, review_params, decided}
use proof_forge.CheckIns.Service.{submit_params}
use proof_forge.CheckIns.Requests.{Call, after, serve}
use proof_forge.CheckIns.Change.{Change, unchanged, creates, submits, attaches, decides}
use proof_forge.CheckIns.Refinement.{after-Change}

-- The edges of the state machine.
infix 40 ◌⟶◌ ◌⟶*◌
pub data ◌⟶◌ : Status → Status → Type 0 where
  hand_in : draft ⟶ submitted
  hand_in_again : changes_requested ⟶ submitted
  accept : submitted ⟶ approved
  refuse : submitted ⟶ rejected
  send_back : submitted ⟶ changes_requested

pub data ◌⟶*◌ : Status → Status → Type 0 where
  stay : {a : Status} → a ⟶* a
  go : {a b c : Status} → a ⟶ b → b ⟶* c → a ⟶* c

-- The row `id` is still there, its owner and goal are the same, and its status has moved along the
-- edges.
abbrev pub Follows : ℕ → CheckIn → Store → Type 0
Follows id c t =
    (c' : CheckIn) × (find id t.check_ins ≡ some c')
    × (c'.owner_user_id ≡ c.owner_user_id)
    × (c'.goal_id ≡ c.goal_id)
    × (c.status ⟶* c'.status)

can_submit-⟶ : (a : Status) → can_submit a ≡ true → a ⟶ submitted
unfolding can_submit
can_submit-⟶ draft h = hand_in
can_submit-⟶ changes_requested h = hand_in_again
can_submit-⟶ submitted h = cc
can_submit-⟶ approved h = cc
can_submit-⟶ rejected h = cc

submitted-⟶ : (d : Decision) → submitted ⟶ decided d
unfolding decided
submitted-⟶ approve = accept
submitted-⟶ reject = refuse
submitted-⟶ request_changes = send_back

decided_edge :
    (d : Decision) (now : ℕ) (a : Status) → a ≡ submitted → a ⟶ (review_params d now).status
unfolding review_params
decided_edge d now a e = rw e (submitted-⟶ d)

set_status-key : (p : UpdateStatusParams) (c : CheckIn) → (set_status p c).id ≡ c.id
unfolding set_status
set_status-key p c = refl

-- A status update of row `j` seen from row `id`.
update-Follows :
    (id j : ℕ) (c d : CheckIn) (p : UpdateStatusParams) (s t : Store)
    → find id s.check_ins ≡ some c
    → find j s.check_ins ≡ some d
    → d.status ⟶ p.status
    → t.check_ins ≡ modify j (set_status p) s.check_ins
    → Follows id c t
unfolding set_status
update-Follows id j c d p s t found at_j edge rows = elim (Bool-cases (id == j)) [
  | inl same ↦
      let one : c ≡ d = ground arith in
      (
        set_status p c,
        ground (arith, find-modify id j (set_status p) s.check_ins (set_status-key p)),
        refl,
        refl,
        go (rw one edge) stay,
      )
  | inr other ↦ (
    c,
    ground (arith, find-modify id j (set_status p) s.check_ins (set_status-key p)),
    refl,
    refl,
    stay,
  )
]

same_rows-Follows :
    (id : ℕ) (c : CheckIn) (s t : Store)
    → t.check_ins ≡ s.check_ins
    → find id s.check_ins ≡ some c
    → Follows id c t
same_rows-Follows id c s t same found = (c, rw same found, refl, refl, stay)

pub Change-Follows :
    (actor now id : ℕ) (c : CheckIn) (s t : Store)
    → Change actor now s t
    → find id s.check_ins ≡ some c
    → Follows id c t
Change-Follows actor now id c s t (unchanged same) found = same_rows-Follows id c s t same.0 found
Change-Follows actor now id c s t (creates x eligible new tables) found =
    (c, rw tables.0 (find-append_some id s.check_ins c x found), refl, refl, stay)
Change-Follows actor now id c s t (submits j d own editable tables) found =
    update-Follows id j c d (submit_params now) s t found own.found (can_submit-⟶ d.status editable)
      tables.0
Change-Follows actor now id c s t (attaches j d item own room of tables) found =
    same_rows-Follows id c s t tables.1 found
Change-Follows actor now id c s t (decides j d r at_j open_review of tables) found =
    update-Follows id j c d (review_params r.decision now) s t found at_j
      (decided_edge r.decision now d.status open_review.1) tables.0

-- A check-in that was approved or rejected.
abbrev pub IsFinal : Status → Type 0
IsFinal approved = Unit
IsFinal rejected = Unit
IsFinal _ = ⊥

not_editable : (a : Status) → IsFinal a → ¬ (can_submit a ≡ true)
unfolding can_submit
not_editable approved f = ground arith
not_editable rejected f = ground arith
not_editable draft f = absurd f
not_editable submitted f = absurd f
not_editable changes_requested f = absurd f

not_submitted : (a : Status) → IsFinal a → a ≢ submitted
not_submitted approved f = ground arith
not_submitted rejected f = ground arith
not_submitted draft f = absurd f
not_submitted submitted f = absurd f
not_submitted changes_requested f = absurd f

-- A row that an update does not meet.
other_row :
    (id j : ℕ) (c d : CheckIn) (p : UpdateStatusParams) (s t : Store)
    → find id s.check_ins ≡ some c
    → find j s.check_ins ≡ some d
    → c ≢ d
    → t.check_ins ≡ modify j (set_status p) s.check_ins
    → find id t.check_ins ≡ some c
other_row id j c d p s t found at_j differ rows =
    ground (arith, find-modify id j (set_status p) s.check_ins (set_status-key p))

Change-final :
    (actor now id : ℕ) (c : CheckIn) (s t : Store)
    → Change actor now s t
    → IsFinal c.status
    → find id s.check_ins ≡ some c
    → find id t.check_ins ≡ some c
Change-final actor now id c s t (unchanged same) final found = rw same.0 found
Change-final actor now id c s t (creates x eligible new tables) final found =
    rw tables.0 (find-append_some id s.check_ins c x found)
Change-final actor now id c s t (submits j d own editable tables) final found =
    other_row id j c d (submit_params now) s t found own.found
      (λ e. not_editable c.status final (rw e editable)) tables.0
Change-final actor now id c s t (attaches j d item own room of tables) final found =
    rw tables.1 found
Change-final actor now id c s t (decides j d r at_j open_review of tables) final found =
    other_row id j c d (review_params r.decision now) s t found at_j
      (λ e. not_submitted c.status final (rw e open_review.1)) tables.0

-- A decision is for good: once a check-in is approved or rejected, no history of calls changes any
-- field of its row.
pub serve-final :
    (cs : List Call) (id : ℕ) (c : CheckIn) (s : Store)
    → IsFinal c.status
    → find id s.check_ins ≡ some c
    → find id (serve cs s).check_ins ≡ some c
unfolding serve
serve-final [] id c s final found = found
serve-final (k ∷ cs) id c s final found =
    serve-final cs id c (after k s) final
      (Change-final k.actor.id k.env.now id c s (after k s) (after-Change k s) final found)
