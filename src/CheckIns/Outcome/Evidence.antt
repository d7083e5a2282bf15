-- ===== src/CheckIns/Outcome/Evidence.antt =====
-- Adding evidence: it reverts, or appends one item to a check-in that had room for it.
use proof_forge.Prelude.{ℕ, ◌<◌, ◌≡◌, some, true, List, [], ◌∷◌, ◌++◌, arith}
use proof_forge.Prelude.Action.{ok, World}
use proof_forge.Prelude.Text.{Text}
use proof_forge.Users.{User}
use proof_forge.Goals.{goal_keyed}
use proof_forge.CheckIns.Domain.{can_add_evidence, check_in_keyed, max_evidence_items}
use proof_forge.CheckIns.Mime.{Mime}
use proof_forge.CheckIns.Repository.{
  Store, CheckInView, EvidenceItem, M, load_view, get_check_in, evidence_count, insert_evidence,
  insert_row, count_evidence,
}
use proof_forge.CheckIns.Service.{
  Env, require_owner_editable, check_evidence_cap, require_room, add_text_evidence,
  add_link_evidence, add_file_evidence,
}
use proof_forge.CheckIns.Change.{SameGoals, SameReviews, SameCheckIns}
use proof_forge.CheckIns.Outcome.{Reverts}

-- What adding evidence needs of the check-in.
abbrev pub HasRoom : User → ℕ → Store → Type 0
HasRoom actor id s =
    (v : CheckInView) × (load_view id s ≡ some v)
    × (v.check_in.owner_user_id ≡ actor.id)
    × (can_add_evidence v.check_in.status ≡ true)
    × (evidence_count v.check_in.id s < max_evidence_items)

module _ (actor : User) (id : ℕ) (w : World Store) where
  pub store-require_room : (require_room actor id w).1.store ≡ w.store
  unfolding require_room require_owner_editable get_check_in check_evidence_cap count_evidence
  store-require_room = ground arith

  pub require_room-ok :
      (u : Unit {0}) → (require_room actor id w).0 ≡ ok u → HasRoom actor id w.store
  unfolding require_room require_owner_editable get_check_in check_evidence_cap count_evidence
  require_room-ok u h = ground arith

-- The one change that adding evidence makes.
abbrev pub Attached : ℕ → EvidenceItem → Store → Store → Type 0
Attached id item s t =
    (item.check_in_id ≡ id)
    × (t.evidence ≡ s.evidence ++ item ∷ [])
    × SameCheckIns s t
    × SameGoals s t
    × SameReviews s t

-- An action that adds evidence when it succeeds, after `require_room`.
abbrev pub Attaches : User → ℕ → M EvidenceItem → World Store → Type 0
Attaches actor id m w =
    (item : EvidenceItem)
    → (m w).0 ≡ ok item
    → ((require_room actor id w).0 ≡ ok tt) × Attached id item w.store (m w).1.store

module _ (env : Env) (actor : User) (id : ℕ) (content : Text) (w : World Store) where
  pub add_text_evidence-Reverts : Reverts (add_text_evidence env actor id content) w
  unfolding add_text_evidence insert_evidence insert_row
  add_text_evidence-Reverts e h = ground (arith, store-require_room actor id w)

  pub add_text_evidence-Attaches : Attaches actor id (add_text_evidence env actor id content) w
  unfolding add_text_evidence insert_evidence insert_row
  add_text_evidence-Attaches item h = ground (arith, store-require_room actor id w)

  pub add_link_evidence-Reverts : Reverts (add_link_evidence env actor id content) w
  unfolding add_link_evidence insert_evidence insert_row
  add_link_evidence-Reverts e h = ground (arith, store-require_room actor id w)

  pub add_link_evidence-Attaches : Attaches actor id (add_link_evidence env actor id content) w
  unfolding add_link_evidence insert_evidence insert_row
  add_link_evidence-Attaches item h = ground (arith, store-require_room actor id w)

module _ (env : Env) (actor : User) (id : ℕ) (bytes : List ℕ) (mime : Mime) (w : World Store) where
  pub add_file_evidence-Reverts : Reverts (add_file_evidence env actor id bytes mime) w
  unfolding add_file_evidence insert_evidence insert_row
  add_file_evidence-Reverts e h = ground (arith, store-require_room actor id w)

  pub add_file_evidence-Attaches : Attaches actor id (add_file_evidence env actor id bytes mime) w
  unfolding add_file_evidence insert_evidence insert_row
  add_file_evidence-Attaches item h = ground (arith, store-require_room actor id w)
