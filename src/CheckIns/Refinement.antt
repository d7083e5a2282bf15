-- ===== src/CheckIns/Refinement.antt =====
-- The service refines the specification of `Change`: whatever a request does to the tables, its
-- user may do.
use proof_forge.Prelude.{ℕ, ◌≡◌, refl, some, arith, inl, inr}
use proof_forge.Prelude.Action.{ok, World, Result-cases, pure, ◌>>◌}
use proof_forge.Prelude.Text.{Text}
use proof_forge.Prelude.Table.{find, find-key}
use proof_forge.Users.{User}
use proof_forge.CheckIns.Domain.{Decision, check_in_keyed}
use proof_forge.CheckIns.Repository.{Store, M, EvidenceItem, get_check_in, list_check_ins_by_goal}
use proof_forge.CheckIns.Service.{
  Env, create, submit, add_text_evidence, add_link_evidence, add_file_evidence, review, get_detail,
  list_for_goal,
}
use proof_forge.CheckIns.Change.{Change, unchanged, creates, submits, attaches, decides}
use proof_forge.CheckIns.Outcome.{
  Reverts, view_row, store-get_check_in, create-Reverts, create-ok, submit-Reverts, submit-ok,
}
use proof_forge.CheckIns.Outcome.Evidence.{
  Attaches, require_room-ok, add_text_evidence-Reverts, add_text_evidence-Attaches,
  add_link_evidence-Reverts, add_link_evidence-Attaches, add_file_evidence-Reverts,
  add_file_evidence-Attaches,
}
use proof_forge.CheckIns.Outcome.Review.{store-require_member, review-Reverts, review-ok}
use proof_forge.CheckIns.Requests.{
  Request, create_request, submit_request, detail_request, list_request, text_request, link_request,
  file_request, review_request, perform, Call, after,
}

-- An action that succeeds by a change, and changes nothing when it fails.
by_result :
    {A : Type 0} (m : M A) (w : World Store) (actor now : ℕ)
    → Reverts m w
    → ((a : A) → (m w).0 ≡ ok a → Change actor now w.store (m w).1.store)
    → Change actor now w.store (m w).1.store
by_result m w actor now reverts succeeds = elim (Result-cases (m w).0) [
  | inl (a, e) ↦ succeeds a e
  | inr (e, h) ↦ unchanged (reverts e h)
]

module _ (env : Env) (actor : User) (id : ℕ) (w : World Store) where
  evidence-Change :
      (m : M EvidenceItem)
      → Reverts m w
      → Attaches actor id m w
      → Change actor.id env.now w.store (m w).1.store
  evidence-Change m reverts attached = by_result m w actor.id env.now reverts λ item e.
      let (done, grown) = attached item e in
      let (v, loaded, owner, editable, room) = require_room-ok actor id w tt done in
      let found : find id w.store.check_ins ≡ some v.check_in = view_row id w.store v loaded in
      let same : v.check_in.id ≡ id = find-key id w.store.check_ins v.check_in found in
      attaches id v.check_in item (record { found = found; owner = owner })
        (editable, (rw same at room)) grown.0 (grown.1, grown.2, grown.3, grown.4)

  submit-Change : Change actor.id env.now w.store (submit env actor id w).1.store
  submit-Change =
      by_result (submit env actor id) w actor.id env.now (submit-Reverts env actor id w) λ u e.
        let (v, loaded, owner, editable, rows, goals, evidence, reviews) =
          submit-ok env actor id w u e in
        submits id v.check_in (record { found = view_row id w.store v loaded; owner = owner })
          editable (rows, goals, evidence, reviews)

  create-Change : Change actor.id env.now w.store (create env actor id w).1.store
  create-Change =
      by_result (create env actor id) w actor.id env.now (create-Reverts env actor id w) λ c e.
        let (eligible, owner, status, rows, goals, evidence, reviews) =
          create-ok env actor id w c e in
        creates c eligible (owner, status) (rows, goals, evidence, reviews)

  store-get_detail : (get_detail env actor id w).1.store ≡ w.store
  unfolding get_detail
  store-get_detail = elim (Result-cases (get_check_in id w).0) [
    | inl (v, found) ↦
        ground
          (arith, store-get_check_in id w, store-require_member env actor v (get_check_in id w).1)
    | inr (e, missing) ↦ ground (arith, store-get_check_in id w)
  ]

  store-list_for_goal : (list_for_goal actor id w).1.store ≡ w.store
  unfolding list_for_goal list_check_ins_by_goal
  store-list_for_goal = ground arith

module _ (env : Env) (actor : User) (id : ℕ) (d : Decision) (comment : Text) (w : World Store) where
  review-Change : Change actor.id env.now w.store (review env actor id d comment w).1.store
  review-Change =
      by_result (review env actor id d comment) w actor.id env.now
        (review-Reverts env actor id d comment w)
        λ r e.
          let (v, loaded, other, open_status, of, by, rows, goals, reviews, evidence, decided) =
            review-ok env actor id d comment w r e in
          decides id v.check_in r (view_row id w.store v loaded) (other, open_status) (of, by)
            (rows, goals, reviews, evidence)

-- A result that is dropped does not change the store.
store-discard :
    {A : Type 0} (m : M A) (w : World Store) → ((m >> pure tt) w).1.store ≡ (m w).1.store
store-discard m w = elim (Result-cases (m w).0) [
  | inl (a, e) ↦ ground arith
  | inr (x, e) ↦ ground arith
]

-- Whatever request a user makes, at whatever tables, and whichever statements the database refuses:
-- what the service does to the tables is one change that the specification allows this user at the
-- time of the call, or none.
pub perform-Change :
    (env : Env) (actor : User) (r : Request) (w : World Store)
    → Change actor.id env.now w.store (perform env actor r w).1.store
unfolding perform
perform-Change env actor (create_request goal) w =
    rw (store-discard (create env actor goal) w) (create-Change env actor goal w)
perform-Change env actor (submit_request id) w = submit-Change env actor id w
perform-Change env actor (detail_request id) w =
    rw (store-discard (get_detail env actor id) w, store-get_detail env actor id w)
      (unchanged (refl, refl, refl, refl))
perform-Change env actor (list_request goal) w =
    rw (store-discard (list_for_goal actor goal) w, store-list_for_goal env actor goal w)
      (unchanged (refl, refl, refl, refl))
perform-Change env actor (text_request id content) w =
    rw (store-discard (add_text_evidence env actor id content) w) (
      evidence-Change env actor id w (add_text_evidence env actor id content)
        (add_text_evidence-Reverts env actor id content w)
        (add_text_evidence-Attaches env actor id content w))
perform-Change env actor (link_request id url) w =
    rw (store-discard (add_link_evidence env actor id url) w) (
      evidence-Change env actor id w (add_link_evidence env actor id url)
        (add_link_evidence-Reverts env actor id url w)
        (add_link_evidence-Attaches env actor id url w))
perform-Change env actor (file_request id bytes mime) w =
    rw (store-discard (add_file_evidence env actor id bytes mime) w) (
      evidence-Change env actor id w (add_file_evidence env actor id bytes mime)
        (add_file_evidence-Reverts env actor id bytes mime w)
        (add_file_evidence-Attaches env actor id bytes mime w))
perform-Change env actor (review_request id d comment) w =
    rw (store-discard (review env actor id d comment) w) (review-Change env actor id d comment w)

pub after-Change : (c : Call) (s : Store) → Change c.actor.id c.env.now s (after c s)
unfolding after
after-Change c s =
    perform-Change c.env c.actor c.request (record { store = s; outages = c.outages })
