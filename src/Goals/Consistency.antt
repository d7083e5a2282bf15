-- ===== src/Goals/Consistency.antt =====
-- Invites, pacts and goals stay in step through any history of calls.
use proof_forge.Prelude.{
  ℕ, ◌≡◌, ◌≢◌, ◌⊎◌, ◌∙◌, refl, sym, subst, Option, none, some, List, [], ◌∷◌, ◌++◌, arith, All,
  All-append, All-map, any, ◌==◌, Bool-cases, inl, inr,
}
use proof_forge.Prelude.Table.{
  find, modify, find-append, find-append_some, find-none_of_below, IsBelow,
}
use proof_forge.Prelude.Action.{World, or_fail}
use proof_forge.Prelude.Hoare.{Hoare, hoare_bind, hoare_statement, hoare_or_fail}
use proof_forge.Users.{user_keyed}
use proof_forge.Goals.Domain.{
  Goal, pending_buddy_acceptance, invited, pending, db_failure, goal_keyed,
}
use proof_forge.Goals.Tables.{
  Store, PactRow, InviteRow, may_insert, has_token, pact_keyed, invite_keyed,
}
use proof_forge.Goals.Repository.{
  CreateGoalParams, goal_row, pact_row, invite_row, place_goal, insert_goal, place_pact,
  insert_pact, place_invite, insert_invite,
}
use proof_forge.Goals.Queries.{
  accept_row, activate_pact, activate_goal, accept_pending, update_pact, update_goal, accept_rows,
}
use proof_forge.Goals.Steps.{
  InStep, InStep-goal, InStep-pact, InStep-invite, IsUnused, found_below, Agree,
}
use proof_forge.Goals.Acceptance.{accept_row-lem, modify_own, modify_other}

-- The id of an invite leads to it.
abbrev pub AreKeyed : List InviteRow → List InviteRow → Type 0
AreKeyed all is = All (λ i. find i.id all ≡ some i) is

-- Every invite is in step with its pact and its goal.
abbrev pub AreInStep : Store → Type 0
AreInStep s =
    InStep s.goals s.pacts s.invites s.next_goal_id s.next_pact_id s.next_invite_id
    × AreKeyed s.invites s.invites

-- A new goal, which no invite is of.
abbrev pub WithGoal : Goal → Store → Type 0
WithGoal g s =
    AreInStep s
    × (find g.id s.goals ≡ some g)
    × (g.status ≡ pending_buddy_acceptance)
    × ((a : ℕ) (i : InviteRow) → find a s.invites ≡ some i → i.goal_id ≢ g.id)

abbrev pub WithPact : Goal → PactRow → Store → Type 0
WithPact g p s =
    AreInStep s
    × (find g.id s.goals ≡ some g)
    × (g.status ≡ pending_buddy_acceptance)
    × (find p.id s.pacts ≡ some p)
    × (p.status ≡ invited)
    × IsUnused g.id p.id s.invites

-- The parameters of a goal that waits for its buddy.
abbrev pub IsWaiting : CreateGoalParams → Type 0
IsWaiting p =
    (p.columns.status ≡ pending_buddy_acceptance)
    × (p.pact_status ≡ invited)
    × (p.invite_status ≡ pending)

goal_unused :
    (s : Store)
    → AreInStep s
    → (a : ℕ) (i : InviteRow) → find a s.invites ≡ some i
    → i.goal_id ≢ s.next_goal_id
goal_unused s (h, keyed) a i found same =
    let (p, g, at_p, at_g, agree) = h.linked a i found in
    let low = found_below s.next_goal_id i.goal_id s.goals g h.goals_below at_g in
    absurd (omega arith)

pact_unused :
    (s : Store)
    → AreInStep s
    → (a : ℕ) (i : InviteRow) → find a s.invites ≡ some i
    → i.pact_id ≢ s.next_pact_id
pact_unused s (h, keyed) a i found same =
    let (p, g, at_p, at_g, agree) = h.linked a i found in
    let low = found_below s.next_pact_id i.pact_id s.pacts p h.pacts_below at_p in
    absurd (omega arith)

-- What a statement promises of the row that it returns, if any.
abbrev IfRow : {A : Type 0} → (A → Store → Type 0) → Option A → Store → Type 0
IfRow W none s = Unit
IfRow W (some a) s = W a s

row_of_some :
    {A : Type 0} (W : A → Store → Type 0) (o : Option A) (a : A)
    → o ≡ some a
    → (s : Store) → IfRow W o s
    → W a s
row_of_some W o a e s h = subst (λ x. IfRow W x s) e h

or_fail-hoare :
    {A : Type 0} (W : A → Store → Type 0) (o : Option A)
    → Hoare (IfRow W o) (or_fail o db_failure) W (λ s. Unit)
or_fail-hoare W o = hoare_or_fail (IfRow W o) o db_failure W (row_of_some W o) (λ s h. tt)

place_goal-row :
    (db_now : ℕ) (p : CreateGoalParams) (circle buddy : ℕ)
    → IsWaiting p
    → (s : Store) → AreInStep s
    → IfRow WithGoal (place_goal db_now p circle buddy s).0 (place_goal db_now p circle buddy s).1
unfolding place_goal
place_goal-row db_now p circle buddy waiting s h =
    let g = goal_row s.next_goal_id db_now p circle buddy in
    elim (Bool-cases (may_insert g s)) [
      | inl fits ↦ rw fits (
        (
          InStep-goal s.goals s.pacts s.invites s.next_goal_id s.next_pact_id s.next_invite_id g
              refl h.0,
          h.1,
        ),
        find-append s.next_goal_id s.goals g refl (
            find-none_of_below s.next_goal_id s.next_goal_id s.goals h.0.goals_below (omega arith)),
        waiting.0,
        goal_unused s h,
      )
      | inr fails ↦ rw fails tt
    ]

pub insert_goal-hoare :
    (db_now : ℕ) (p : CreateGoalParams) (circle buddy : ℕ)
    → IsWaiting p
    → Hoare AreInStep (insert_goal db_now p circle buddy) WithGoal (λ s. Unit)
unfolding insert_goal
insert_goal-hoare db_now p circle buddy waiting =
    hoare_bind AreInStep _ _ (IfRow WithGoal) WithGoal
      (hoare_statement AreInStep _ _ (IfRow WithGoal) (place_goal-row db_now p circle buddy waiting)
        (λ s h. tt))
      (or_fail-hoare WithGoal)

pub insert_pact-hoare :
    (db_now : ℕ) (p : CreateGoalParams) (g : Goal) (buddy : ℕ)
    → IsWaiting p
    → Hoare (WithGoal g) (insert_pact db_now p g.id buddy) (WithPact g) (λ s. Unit)
unfolding insert_pact place_pact
insert_pact-hoare db_now p g buddy waiting =
    hoare_statement _ _ _ _
      (λ s (h, at_g, status, unused). (
        (
          InStep-pact s.goals s.pacts s.invites s.next_goal_id s.next_pact_id s.next_invite_id
              (pact_row s.next_pact_id db_now p g.id buddy) refl h.0,
          h.1,
        ),
        at_g,
        status,
        find-append s.next_pact_id s.pacts (pact_row s.next_pact_id db_now p g.id buddy) refl (
            find-none_of_below s.next_pact_id s.next_pact_id s.pacts h.0.pacts_below (omega arith)),
        waiting.1,
        λ a i found. (unused a i found, pact_unused s h a i found),
      ))
      (λ s h. tt)

-- A row behind a keyed table keeps it keyed.
AreKeyed-append :
    (is : List InviteRow) (n : ℕ) (x : InviteRow)
    → x.id ≡ n
    → IsBelow n is
    → AreKeyed is is
    → AreKeyed (is ++ x ∷ []) (is ++ x ∷ [])
AreKeyed-append is n x e below keyed =
    let new = find-append x.id is x refl (find-none_of_below n x.id is below (omega arith)) in
    All-append _ is (x ∷ []) (All-map _ _ is (λ i found. find-append_some i.id is i x found) keyed)
      (new, tt)

place_invite-row :
    (db_now : ℕ) (p : CreateGoalParams) (g : Goal) (pact : PactRow) (buddy : ℕ)
    → IsWaiting p
    → (s : Store) → WithPact g pact s
    → IfRow
        (λ i t. AreInStep t)
        (place_invite db_now p g.id pact.id buddy s).0
        (place_invite db_now p g.id pact.id buddy s).1
unfolding place_invite
place_invite-row db_now p g pact buddy waiting s (h, at_g, status, at_p, fresh, unused) =
    let i = invite_row s.next_invite_id db_now p g.id pact.id buddy in
    let agree : Agree i.status pact.status g.status =
      subst (λ x. Agree x pact.status g.status) (sym waiting.2) (fresh, status) in
    elim (Bool-cases (any (has_token p.invite_token_hash) s.invites)) [
      | inl taken ↦ rw taken tt
      | inr free ↦ rw free (
        InStep-invite s.goals s.pacts s.invites s.next_goal_id s.next_pact_id s.next_invite_id i
            pact g refl unused at_p at_g agree h.0,
        AreKeyed-append s.invites s.next_invite_id i refl h.0.invites_below h.1,
      )
    ]

pub insert_invite-hoare :
    (db_now : ℕ) (p : CreateGoalParams) (g : Goal) (pact : PactRow) (buddy : ℕ)
    → IsWaiting p
    → Hoare
        (WithPact g pact)
        (insert_invite db_now p g.id pact.id buddy)
        (λ i t. AreInStep t)
        (λ s. Unit)
unfolding insert_invite
insert_invite-hoare db_now p g pact buddy waiting =
    hoare_bind (WithPact g pact) _ _ (IfRow (λ i t. AreInStep t)) (λ i t. AreInStep t)
      (hoare_statement (WithPact g pact) _ _ (IfRow (λ i t. AreInStep t))
        (place_invite-row db_now p g pact buddy waiting) (λ s h. tt))
      (or_fail-hoare (λ i t. AreInStep t))

pub keyed_modify :
    (a at : ℕ) (is rs : List InviteRow)
    → AreKeyed is rs
    → AreKeyed (modify a (accept_row at) is) (modify a (accept_row at) rs)
unfolding modify
keyed_modify a at is [] keyed = tt
keyed_modify a at is (r ∷ rs) keyed = elim (Bool-cases (r.id == a)) [
  | inl same ↦
      let one : r.id ≡ a = ground arith in
      let found = subst (λ n. find n is ≡ some r) one keyed.0 in
      let row = modify_own a (accept_row at) is r (λ x. (accept_row-lem at x).0) found in
      let own =
        subst (λ n. find n (modify a (accept_row at) is) ≡ some (accept_row at r))
          (sym ((accept_row-lem at r).0 ∙ one)) row in
      rw same (own, keyed_modify a at is rs keyed.1)
  | inr other ↦ rw other (
    modify_other r.id a (accept_row at) is (λ x. (accept_row-lem at x).0) other ∙ keyed.0,
    keyed_modify a at is rs keyed.1,
  )
]

pub accept_rows-cases :
    (invite pact goal at : ℕ) (w : World Store)
    → let t = (accept_rows invite pact goal at w).1.store in
      (t ≡ w.store)
      ⊎ (t ≡ record w.store {
        invites = modify invite (accept_row at) w.store.invites;
        pacts = modify pact (activate_pact at) w.store.pacts;
        goals = modify goal (activate_goal at) w.store.goals;
      })
unfolding accept_rows accept_pending update_pact update_goal
accept_rows-cases invite pact goal at w = ground arith
