-- ===== src/Goals/Frame.antt =====
-- Properties of the tables that every call of the goals component keeps: what the single statements
-- must keep for that.
use proof_forge.Prelude.{
  ℕ, ◌≡◌, refl, arith, Option, none, some, Bool, true, false, [], ◌∷◌, ◌++◌, Bool-cases, inl, inr,
}
use proof_forge.Prelude.Text.{Text}
use proof_forge.Prelude.Table.{modify}
use proof_forge.Prelude.Triple.{
  Triple, Anything, triple_pure, triple_fail, triple_bind, triple_lift, triple_query,
  triple_statement, triple_or_fail, triple_transaction, triple_ignore,
}
use proof_forge.Prelude.Action.{Result, statement, query, or_fail, guard, lift, pure, ◌>>=◌}
use proof_forge.Users.{User}
use proof_forge.Goals.Domain.{Goal, goal_keyed, db_failure, Error, external_failure}
use proof_forge.Goals.Tables.{Store, may_insert, M, Mail, DomainEvent}
use proof_forge.Goals.Repository.{
  place_circle, place_goal, place_pact, place_invite, found_or_new, CreateGoalParams, CircleChoice,
  existing, auto, AutoCircleParams, insert_circle, insert_auto_circle, settle_circle, insert_user,
  find_or_create_buddy, goal_row, insert_goal, insert_pact, insert_invite, tx_mark,
  create_goal_with_invite,
}
use proof_forge.Goals.Queries.{activate_goal}
use proof_forge.Goals.Service.{send, emit}

-- The two tables that the properties are about.
abbrev pub Same : Store → Store → Type 0
Same s t = (t.goals ≡ s.goals) × (t.refine_requests ≡ s.refine_requests)

pub record IsKept (P : Store → Type 0) : Type 0 where
  pub by_others : (s t : Store) → Same s t → P s → P t
  pub by_goal :
      (s t : Store) (g : Goal)
      → may_insert g s ≡ true
      → t.goals ≡ s.goals ++ g ∷ []
      → t.refine_requests ≡ s.refine_requests
      → P s
      → P t
  pub by_activation :
      (s t : Store) (id at : ℕ)
      → t.goals ≡ modify id (activate_goal at) s.goals
      → t.refine_requests ≡ s.refine_requests
      → P s
      → P t

place_circle-Same :
    (db_now owner : ℕ) (p : AutoCircleParams) (s : Store) → Same s (place_circle db_now owner p s).1
unfolding place_circle
place_circle-Same db_now owner p s = ground arith

place_invite-Same :
    (db_now : ℕ) (p : CreateGoalParams) (goal pact buddy : ℕ) (s : Store)
    → Same s (place_invite db_now p goal pact buddy s).1
unfolding place_invite
place_invite-Same db_now p goal pact buddy s = ground arith

place_pact-Same :
    (db_now : ℕ) (p : CreateGoalParams) (goal buddy : ℕ) (s : Store)
    → Same s (place_pact db_now p goal buddy s).1
unfolding place_pact
place_pact-Same db_now p goal buddy s = (refl, refl)

module _ (P : Store → Type 0) (k : IsKept P) where
  -- A statement that reads, or writes other tables.
  pub reads : {A : Type 0} (f : Store → A) → Triple P (query db_failure f) Anything
  reads f = triple_query P db_failure f Anything (λ s p. tt)

  pub untouched :
      {A : Type 0} (e : Error) (f : Store → A × Store)
      → ((s : Store) → Same s (f s).1)
      → Triple P (statement e f) Anything
  untouched e f same =
      triple_statement P e f Anything (λ s p. (k.by_others s (f s).1 (same s) p, tt))

  pub found : {A : Type 0} (o : Option A) (e : Error) → Triple P (or_fail o e) Anything
  found o e = triple_or_fail P o e Anything (λ a h. tt)

  -- Actions one behind the other.
  pub then_do :
      {A B : Type 0} (m : M A) (f : A → M B)
      → Triple P m Anything
      → ((a : A) → Triple P (f a) Anything)
      → Triple P (m >>= f) Anything
  then_do m f tm tf = triple_bind P m f Anything Anything tm (λ a q. tf a)

  pub guarded : (b : Bool) (e : Error) → Triple P (guard b e) Anything
  guarded true e = triple_pure P Anything tt tt
  guarded false e = triple_fail P Anything e

  pub lifted : {A : Type 0} (r : Result Error A) → Triple P (lift r) Anything
  lifted r = triple_lift P r Anything (λ a h. tt)

  pub done : {A : Type 0} (a : A) → Triple P (pure {E = Error} a) Anything
  done a = triple_pure P Anything a tt

  pub send-triple : (m : Mail) → Triple P (send m) Anything
  send-triple m = triple_ignore P _ Anything (untouched external_failure _ (λ s. (refl, refl)))

  pub emit-triple : (e : DomainEvent) → Triple P (emit e) Anything
  emit-triple e = triple_ignore P _ Anything (untouched db_failure _ (λ s. (refl, refl)))

  insert_circle-triple :
      (db_now owner : ℕ) (p : AutoCircleParams) → Triple P (insert_circle db_now owner p) Anything
  unfolding insert_circle
  insert_circle-triple db_now owner p =
      then_do _ _ (untouched db_failure _ (place_circle-Same db_now owner p))
        (λ row. found row db_failure)

  settle_circle-triple :
      (db_now owner : ℕ) (c : CircleChoice) → Triple P (settle_circle db_now owner c) Anything
  unfolding settle_circle insert_auto_circle
  settle_circle-triple db_now owner (existing circle) = done circle
  settle_circle-triple db_now owner (auto p) =
      then_do _ _ (insert_circle-triple db_now owner p) λ circle.
        then_do _ _ (untouched db_failure _ (λ s. (refl, refl)))
          λ u. then_do _ _ (untouched db_failure _ (λ s. (refl, refl))) λ v. done circle

  found_or_new-triple :
      (email name : Text) (row : Option User) → Triple P (found_or_new email name row) Anything
  unfolding insert_user
  found_or_new-triple email name none = untouched db_failure _ (λ s. (refl, refl))
  found_or_new-triple email name (some u) = done u

  find_or_create_buddy-triple :
      (email name : Text) → Triple P (find_or_create_buddy email name) Anything
  unfolding find_or_create_buddy
  find_or_create_buddy-triple email name = then_do _ _ (reads _) (found_or_new-triple email name)

  place_goal-kept :
      (db_now : ℕ) (p : CreateGoalParams) (circle buddy : ℕ) (s : Store)
      → P s
      → P (place_goal db_now p circle buddy s).1
  unfolding place_goal
  place_goal-kept db_now p circle buddy s h =
      let g = goal_row s.next_goal_id db_now p circle buddy in
      elim (Bool-cases (may_insert g s)) [
        | inl fits ↦ rw fits (k.by_goal s _ g fits refl refl h)
        | inr fails ↦ rw fails h
      ]

  insert_goal-triple :
      (db_now : ℕ) (p : CreateGoalParams) (circle buddy : ℕ)
      → Triple P (insert_goal db_now p circle buddy) Anything
  unfolding insert_goal
  insert_goal-triple db_now p circle buddy =
      then_do _ _
        (triple_statement P db_failure _ Anything
          (λ s h. (place_goal-kept db_now p circle buddy s h, tt)))
        (λ row. found row db_failure)

  insert_pact-triple :
      (db_now : ℕ) (p : CreateGoalParams) (goal buddy : ℕ)
      → Triple P (insert_pact db_now p goal buddy) Anything
  unfolding insert_pact
  insert_pact-triple db_now p goal buddy =
      untouched db_failure _ (place_pact-Same db_now p goal buddy)

  insert_invite-triple :
      (db_now : ℕ) (p : CreateGoalParams) (goal pact buddy : ℕ)
      → Triple P (insert_invite db_now p goal pact buddy) Anything
  unfolding insert_invite
  insert_invite-triple db_now p goal pact buddy =
      then_do _ _ (untouched db_failure _ (place_invite-Same db_now p goal pact buddy))
        (λ row. found row db_failure)

  pub mark : Triple P tx_mark Anything
  mark = untouched db_failure _ (λ s. (refl, refl))

  pub create_goal_with_invite-triple :
      (db_now : ℕ) (p : CreateGoalParams) → Triple P (create_goal_with_invite db_now p) Anything
  unfolding create_goal_with_invite
  create_goal_with_invite-triple db_now p = triple_transaction P _ Anything (
      then_do _ _ mark λ begun.
        then_do _ _ (settle_circle-triple db_now p.owner_id p.circle) λ circle.
          then_do _ _ (find_or_create_buddy-triple p.buddy_email p.buddy_name) λ buddy.
            then_do _ _ (insert_goal-triple db_now p circle buddy.id) λ goal.
              then_do _ _ (insert_pact-triple db_now p goal.id buddy.id) λ pact.
                then_do _ _ (insert_invite-triple db_now p goal.id pact.id buddy.id)
                  λ invite. then_do _ _ mark (λ ended. done _))
