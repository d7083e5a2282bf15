-- ===== src/Goals/Agreement.antt =====
-- The creation of a goal keeps invites, pacts and goals in step.
use proof_forge.Prelude.{ℕ, ◌≡◌, refl, Option, none, some, arith}
use proof_forge.Prelude.Text.{Text}
use proof_forge.Prelude.Action.{statement, ◌>>=◌}
use proof_forge.Prelude.Triple.{
  Triple, Anything, triple_pure, triple_bind, triple_statement, triple_or_fail, triple_always,
}
use proof_forge.Prelude.Hoare.{
  Hoare, hoare_pure, hoare_bind, hoare_transaction, hoare_always, hoare-store, hoare_forget,
}
use proof_forge.Users.{User, user_keyed}
use proof_forge.Goals.Domain.{CreateInput, Error, db_failure}
use proof_forge.Goals.Tables.{Store, M, invite_keyed}
use proof_forge.Goals.Repository.{
  AutoCircleParams, CircleChoice, existing, auto, CreateGoalParams, place_circle, insert_circle,
  insert_auto_circle, settle_circle, insert_user, found_or_new, find_or_create_buddy, tx_mark,
  create_goal_with_invite,
}
use proof_forge.Goals.Service.{Env, goal_params}
use proof_forge.Goals.Consistency.{
  AreInStep, IsWaiting, insert_goal-hoare, insert_pact-hoare, insert_invite-hoare, WithGoal,
  WithPact,
}

-- The tables that the property is about.
abbrev pub SameRows : Store → Store → Type 0
SameRows s t =
    (t.goals ≡ s.goals)
    × (t.pacts ≡ s.pacts)
    × (t.invites ≡ s.invites)
    × (t.next_goal_id ≡ s.next_goal_id)
    × (t.next_pact_id ≡ s.next_pact_id)
    × (t.next_invite_id ≡ s.next_invite_id)

AreInStep-same : (s t : Store) → SameRows s t → AreInStep s → AreInStep t
AreInStep-same s t same h = rw (same.0, same.1, same.2, same.3, same.4, same.5) h

-- A statement that does not write to them.
pub spares :
    {A : Type 0} (e : Error) (f : Store → A × Store)
    → ((s : Store) → SameRows s (f s).1)
    → Triple AreInStep (statement e f) Anything
spares e f same =
    triple_statement AreInStep e f Anything (λ s h. (AreInStep-same s (f s).1 (same s) h, tt))

pub then_do :
    {A B : Type 0} (P : Store → Type 0) (m : M A) (f : A → M B)
    → Triple P m Anything
    → ((a : A) → Triple P (f a) Anything)
    → Triple P (m >>= f) Anything
then_do P m f tm tf = triple_bind P m f Anything Anything tm (λ a q. tf a)

place_circle-same :
    (db_now owner : ℕ) (p : AutoCircleParams) (s : Store)
    → SameRows s (place_circle db_now owner p s).1
unfolding place_circle
place_circle-same db_now owner p s = ground arith

pub same_rows : (s : Store) → SameRows s s
same_rows s = (refl, refl, refl, refl, refl, refl)

insert_circle-triple :
    (db_now owner : ℕ) (p : AutoCircleParams)
    → Triple AreInStep (insert_circle db_now owner p) Anything
unfolding insert_circle
insert_circle-triple db_now owner p =
    then_do AreInStep _ _ (spares db_failure _ (place_circle-same db_now owner p))
      λ row. triple_or_fail AreInStep row db_failure Anything (λ a h. tt)

settle_circle-triple :
    (db_now owner : ℕ) (c : CircleChoice) → Triple AreInStep (settle_circle db_now owner c) Anything
unfolding settle_circle insert_auto_circle
settle_circle-triple db_now owner (existing circle) = triple_pure AreInStep Anything circle tt
settle_circle-triple db_now owner (auto p) =
    then_do AreInStep _ _ (insert_circle-triple db_now owner p) λ circle.
      then_do AreInStep _ _ (spares db_failure _ same_rows) λ u.
        then_do AreInStep _ _ (spares db_failure _ same_rows)
          (λ v. triple_pure AreInStep Anything circle tt)

found_or_new-triple :
    (email name : Text) (row : Option User)
    → Triple AreInStep (found_or_new email name row) Anything
unfolding insert_user
found_or_new-triple email name none = spares db_failure _ same_rows
found_or_new-triple email name (some u) = triple_pure AreInStep Anything u tt

find_or_create_buddy-triple :
    (email name : Text) → Triple AreInStep (find_or_create_buddy email name) Anything
unfolding find_or_create_buddy
find_or_create_buddy-triple email name =
    then_do AreInStep _ _ (spares db_failure _ same_rows) (found_or_new-triple email name)

triple-hoare :
    {A : Type 0} (m : M A)
    → Triple AreInStep m Anything
    → Hoare AreInStep m (λ a s. AreInStep s) (λ s. Unit)
triple-hoare m tm =
    hoare_forget AreInStep AreInStep m _ (hoare_always AreInStep AreInStep m (λ w h. (tm.at w h).0))

mark : Triple AreInStep tx_mark Anything
mark = spares db_failure _ same_rows

mark-hoare : Hoare AreInStep tx_mark (λ u s. AreInStep s) (λ s. Unit)
mark-hoare = triple-hoare tx_mark mark

-- The transaction of the creation: the goal, then its pact, then its invite.
create-hoare :
    (db_now : ℕ) (p : CreateGoalParams)
    → IsWaiting p
    → Hoare AreInStep (create_goal_with_invite db_now p) (λ v s. AreInStep s) AreInStep
unfolding create_goal_with_invite
create-hoare db_now p waiting =
    hoare_transaction AreInStep _ _
      (hoare_bind AreInStep _ _ (λ u s. AreInStep s) _ mark-hoare
        λ begun.
          hoare_bind AreInStep _ _ (λ c s. AreInStep s) _
            (triple-hoare _ (settle_circle-triple db_now p.owner_id p.circle))
            λ circle.
              hoare_bind AreInStep _ _ (λ b s. AreInStep s) _
                (triple-hoare _ (find_or_create_buddy-triple p.buddy_email p.buddy_name))
                λ buddy.
                  hoare_bind AreInStep _ _ WithGoal _
                    (insert_goal-hoare db_now p circle buddy.id waiting)
                    λ goal.
                      hoare_bind (WithGoal goal) _ _ (WithPact goal) _
                        (insert_pact-hoare db_now p goal buddy.id waiting)
                        λ pact.
                          hoare_bind (WithPact goal pact) _ _ (λ i s. AreInStep s) _
                            (insert_invite-hoare db_now p goal pact buddy.id waiting)
                            λ invite.
                              hoare_bind AreInStep _ _ (λ u s. AreInStep s) _ mark-hoare
                                λ ended. hoare_pure AreInStep _ _ (λ s h. h))
      (λ s h. h)

pub create-triple :
    (db_now : ℕ) (p : CreateGoalParams)
    → IsWaiting p
    → Triple AreInStep (create_goal_with_invite db_now p) Anything
create-triple db_now p waiting =
    triple_always AreInStep _ (hoare-store AreInStep _ (create-hoare db_now p waiting))

pub goal_params-IsWaiting :
    (env : Env) (owner : User) (input : CreateInput) (circle : CircleChoice) (token : Text)
    → IsWaiting (goal_params env owner input circle token)
unfolding goal_params
goal_params-IsWaiting env owner input circle token = (refl, refl, refl)
