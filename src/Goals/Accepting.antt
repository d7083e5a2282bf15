-- ===== src/Goals/Accepting.antt =====
-- An acceptance keeps invites, pacts and goals in step (AcceptInvite of
-- backend/internal/goals/service.go).
use proof_forge.Prelude.{
  find_by-All, ℕ, ◌≡◌, sym, subst, Option, some, Bool, true, false, arith, find_by, leb,
  Option-cases, inl, inr,
}
use proof_forge.Prelude.Text.{Text}
use proof_forge.Prelude.Table.{find, modify}
use proof_forge.Prelude.Action.{Result, World, pure, query, or_fail, lift, guard}
use proof_forge.Prelude.Triple.{
  Triple, Anything, triple_pure, triple_fail, triple_lift, triple_or_fail, triple_query,
  triple_ignore, triple_always,
}
use proof_forge.Prelude.Hoare.{
  hoare_weaken, hoare_statement, hoare_or_fail, Hoare, hoare_bind, hoare_always, hoare-store,
}
use proof_forge.Users.{User, user_keyed}
use proof_forge.Goals.Domain.{
  goal_keyed, Error, InviteRecord, db_failure, external_failure, invite_already_accepted,
  invite_expired, unauthorized_acceptance,
}
use proof_forge.Goals.Tables.{
  pact_keyed, Store, InviteRow, M, Mail, DomainEvent, has_token, invite_keyed, invite_accepted,
}
use proof_forge.Goals.Queries.{
  is_open, joined, load_invite, accept_row, activate_pact, activate_goal, find_invite_by_token,
  accept_rows,
}
use proof_forge.Goals.Service.{
  Env, send, emit, accept_invite, require_acceptable, acceptance_mail, name_of, equal_fold,
}
use proof_forge.Goals.Acceptance.{InStep-accept}
use proof_forge.Goals.Consistency.{AreInStep, keyed_modify, accept_rows-cases}
use proof_forge.Goals.Agreement.{spares, then_do, same_rows}

pub reads : {A : Type 0} (f : Store → A) → Triple AreInStep (query db_failure f) Anything
reads f = triple_query AreInStep db_failure f Anything (λ s h. tt)

pub checks : (b : Bool) (e : Error) → Triple AreInStep (guard b e) Anything
checks true e = triple_pure AreInStep Anything tt tt
checks false e = triple_fail AreInStep Anything e

pub lifts : {A : Type 0} (r : Result Error A) → Triple AreInStep (lift r) Anything
lifts r = triple_lift AreInStep r Anything (λ a h. tt)

pub gives : {A : Type 0} (a : A) → Triple AreInStep (pure {E = Error} a) Anything
gives a = triple_pure AreInStep Anything a tt

pub finds : {A : Type 0} (o : Option A) (e : Error) → Triple AreInStep (or_fail o e) Anything
finds o e = triple_or_fail AreInStep o e Anything (λ a h. tt)

pub send-triple : (m : Mail) → Triple AreInStep (send m) Anything
send-triple m = triple_ignore AreInStep _ Anything (spares external_failure _ same_rows)

pub emit-triple : (e : DomainEvent) → Triple AreInStep (emit e) Anything
emit-triple e = triple_ignore AreInStep _ Anything (spares db_failure _ same_rows)

-- A record leads to an invite with its goal and its pact.
abbrev Located : InviteRecord → Store → Type 0
Located r s =
    AreInStep s
    × (i : InviteRow) × (find r.invite_id s.invites ≡ some i)
    × (i.goal_id ≡ r.goal_id)
    × (i.pact_id ≡ r.pact_id)

joined-fields :
    (s : Store) (i : InviteRow) (r : InviteRecord)
    → joined s (some i) ≡ some r
    → (r.invite_id ≡ i.id) × (r.goal_id ≡ i.goal_id) × (r.pact_id ≡ i.pact_id)
joined-fields s i r h = ground arith

load_invite-Located :
    (hash : Text) (s : Store) (r : InviteRecord)
    → load_invite hash s ≡ some r
    → AreInStep s
    → Located r s
unfolding load_invite
load_invite-Located hash s r found h = elim (Option-cases (find_by (has_token hash) s.invites)) [
  | inl miss ↦ absurd (ground arith)
  | inr (i, hit) ↦
      let f = joined-fields s i r (rw hit at found) in
      let row =
        find_by-All (λ x. find x.id s.invites ≡ some x) (has_token hash) s.invites i h.1 hit in
      (h, i, subst (λ n. find n s.invites ≡ some i) (sym f.0) row, sym f.1, sym f.2)
]

find_invite-hoare : (hash : Text) → Hoare AreInStep (find_invite_by_token hash) Located AreInStep
unfolding find_invite_by_token
find_invite-hoare hash =
    hoare_bind AreInStep _ _
      (λ row s. AreInStep s × ((r : InviteRecord) → row ≡ some r → Located r s)) Located
      (hoare_statement AreInStep _ _ _ (λ s h. (h, λ r e. load_invite-Located hash s r e h))
        (λ s h. h))
      (λ row. hoare_or_fail _ row _ Located (λ r e s h. h.1 r e) (λ s h. h.0))

checks-Located : (r : InviteRecord) (b : Bool) (e : Error) → Triple (Located r) (guard b e) Anything
checks-Located r true e = triple_pure (Located r) Anything tt tt
checks-Located r false e = triple_fail (Located r) Anything e

require_acceptable-triple :
    (env : Env) (actor : User) (r : InviteRecord)
    → Triple (Located r) (require_acceptable env actor r) Anything
unfolding require_acceptable
require_acceptable-triple env actor r =
    then_do (Located r) _ _ (checks-Located r (is_open r.invite_status) invite_already_accepted)
      λ a.
        then_do (Located r) _ _ (checks-Located r (leb (env.clock 0) r.expires_at) invite_expired)
          λ b. checks-Located r (equal_fold env actor.email r.invitee_email) unauthorized_acceptance

accepted_rows :
    (r : InviteRecord) (at : ℕ) (s : Store)
    → Located r s
    → AreInStep (record s {
      invites = modify r.invite_id (accept_row at) s.invites;
      pacts = modify r.pact_id (activate_pact at) s.pacts;
      goals = modify r.goal_id (activate_goal at) s.goals;
    })
accepted_rows r at s (h, i, found, goal, pact) =
    let step =
      InStep-accept s.goals s.pacts s.invites s.next_goal_id s.next_pact_id s.next_invite_id
        r.invite_id at i found h.0 in
    (rw⁻¹ (goal, pact) step, keyed_modify r.invite_id at s.invites s.invites h.1)

accept_rows-kept :
    (r : InviteRecord) (at : ℕ) (w : World Store)
    → Located r w.store
    → AreInStep (accept_rows r.invite_id r.pact_id r.goal_id at w).1.store
accept_rows-kept r at w h = elim (accept_rows-cases r.invite_id r.pact_id r.goal_id at w) [
  | inl same ↦ subst AreInStep (sym same) h.0
  | inr rows ↦ subst AreInStep (sym rows) (accepted_rows r at w.store h)
]

always_in_step :
    {A : Type 0} (m : M A)
    → Triple AreInStep m Anything
    → Hoare AreInStep m (λ a s. AreInStep s) AreInStep
always_in_step m tm = hoare_always AreInStep AreInStep m (λ w h. (tm.at w h).0)

require_acceptable-hoare :
    (env : Env) (actor : User) (r : InviteRecord)
    → Hoare (Located r) (require_acceptable env actor r) (λ u s. Located r s) AreInStep
require_acceptable-hoare env actor r =
    hoare_weaken (Located r) (Located r) AreInStep (require_acceptable env actor r) _ (λ s h. h.0)
      (hoare_always (Located r) (Located r) (require_acceptable env actor r)
        (λ w h. ((require_acceptable-triple env actor r).at w h).0))

accept_rows-hoare :
    (r : InviteRecord) (at : ℕ)
    → Hoare
        (Located r)
        (accept_rows r.invite_id r.pact_id r.goal_id at)
        (λ u s. AreInStep s)
        AreInStep
accept_rows-hoare r at =
    hoare_always (Located r) AreInStep (accept_rows r.invite_id r.pact_id r.goal_id at)
      (accept_rows-kept r at)

accept_invite-hoare :
    (env : Env) (actor : User) (token : Text)
    → Hoare AreInStep (accept_invite env actor token) (λ u s. AreInStep s) AreInStep
unfolding accept_invite
accept_invite-hoare env actor token =
    hoare_bind AreInStep _ _ Located _ (find_invite-hoare (env.hash token)) λ r.
      hoare_bind (Located r) (require_acceptable env actor r) _ (λ u s. Located r s) _
        (require_acceptable-hoare env actor r)
        λ u.
          hoare_bind (Located r) (accept_rows r.invite_id r.pact_id r.goal_id (env.clock 1)) _
            (λ v s. AreInStep s) _ (accept_rows-hoare r (env.clock 1))
            λ v. always_in_step _ (
              then_do AreInStep _ _ (send-triple (acceptance_mail env actor r))
                (λ x. emit-triple (invite_accepted r.goal_id r.inviter_id (name_of actor))))

pub accept_invite-triple :
    (env : Env) (actor : User) (token : Text)
    → Triple AreInStep (accept_invite env actor token) Anything
accept_invite-triple env actor token =
    triple_always AreInStep _ (hoare-store AreInStep _ (accept_invite-hoare env actor token))
