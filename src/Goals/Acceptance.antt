-- ===== src/Goals/Acceptance.antt =====
-- The acceptance of an invite keeps the tables in step.
use proof_forge.Prelude.{
  ℕ, ◌<◌, ◌≡◌, ◌⊎◌, ◌∙◌, refl, sym, subst, ap, some, false, List, arith, ◌==◌, Bool-cases, inl, inr,
}
use proof_forge.Prelude.Table.{Keyed, find, modify, IsBelow, find-modify, All-modify}
use proof_forge.Goals.Domain.{Goal, GoalStatus, PactStatus, accepted, goal_keyed}
use proof_forge.Goals.Tables.{PactRow, InviteRow, pact_keyed, invite_keyed}
use proof_forge.Goals.Queries.{accept_row, activate_pact, activate_goal}
use proof_forge.Goals.Steps.{InStep, IsLinked, Agree}

pub accept_row-lem :
    (at : ℕ) (i : InviteRow)
    → ((accept_row at i).id ≡ i.id)
      × ((accept_row at i).goal_id ≡ i.goal_id)
      × ((accept_row at i).pact_id ≡ i.pact_id)
      × ((accept_row at i).status ≡ accepted)
unfolding accept_row
accept_row-lem at i = ground arith

activate_pact-lem :
    (at : ℕ) (p : PactRow)
    → ((activate_pact at p).id ≡ p.id) × ((activate_pact at p).status ≡ PactStatus.active)
unfolding activate_pact
activate_pact-lem at p = (refl, refl)

activate_goal-lem :
    (at : ℕ) (g : Goal)
    → ((activate_goal at g).id ≡ g.id) × ((activate_goal at g).status ≡ GoalStatus.active)
unfolding activate_goal
activate_goal-lem at g = (refl, refl)

IsBelow-modify :
    {A : Type 0} ⦃k : Keyed A⦄ (n id : ℕ) (f : A → A) (rs : List A)
    → ((r : A) → k.key (f r) ≡ k.key r)
    → IsBelow n rs
    → IsBelow n (modify id f rs)
IsBelow-modify n id f rs keep b =
    All-modify _ id f rs (λ r key low. subst (λ x. x < n) (sym (keep r)) low) b

pub modify_own :
    {A : Type 0} ⦃k : Keyed A⦄ (a : ℕ) (f : A → A) (rs : List A) (r : A)
    → ((x : A) → k.key (f x) ≡ k.key x)
    → find a rs ≡ some r
    → find a (modify a f rs) ≡ some (f r)
modify_own a f rs r keep found = find-modify a a f rs keep ∙ ground arith

pub modify_other :
    {A : Type 0} ⦃k : Keyed A⦄ (a b : ℕ) (f : A → A) (rs : List A)
    → ((x : A) → k.key (f x) ≡ k.key x)
    → (a == b) ≡ false
    → find a (modify b f rs) ≡ find a rs
modify_other a b f rs keep other = find-modify a b f rs keep ∙ rw other refl

-- A row found after the acceptance of `a`: the accepted one, or another as it was.
accepted_cases :
    (a b at : ℕ) (is : List InviteRow) (i j : InviteRow)
    → find a is ≡ some i
    → find b (modify a (accept_row at) is) ≡ some j
    → (b ≡ a) × (j ≡ accept_row at i) ⊎ ((b == a) ≡ false) × (find b is ≡ some j)
accepted_cases a b at is i j at_a found =
    let keep : (x : InviteRow) → (accept_row at x).id ≡ x.id = λ x. (accept_row-lem at x).0 in
    elim (Bool-cases (b == a)) [
      | inl same ↦
          let one : b ≡ a = ground arith in
          let row = modify_own a (accept_row at) is i keep at_a in
          let both : find b (modify a (accept_row at) is) ≡ some (accept_row at i) = rw one row in
          inl (one, ground arith)
      | inr other ↦ inr (other, sym (modify_other b a (accept_row at) is keep other) ∙ found)
    ]

IsLinked-active :
    (gs : List Goal) (ps : List PactRow) (at : ℕ) (i : InviteRow)
    → IsLinked gs ps i
    → IsLinked
        (modify i.goal_id (activate_goal at) gs)
        (modify i.pact_id (activate_pact at) ps)
        (accept_row at i)
IsLinked-active gs ps at i (p, g, at_p, at_g, agree) =
    let row = accept_row-lem at i in
    let done = (activate_pact-lem at p).1 in
    let live = (activate_goal-lem at g).1 in
    (
      activate_pact at p,
      activate_goal at g,
      rw row.2
          (modify_own i.pact_id (activate_pact at) ps p (λ x. (activate_pact-lem at x).0) at_p),
      rw row.1
          (modify_own i.goal_id (activate_goal at) gs g (λ x. (activate_goal-lem at x).0) at_g),
      subst (λ status. Agree status (activate_pact at p).status (activate_goal at g).status)
          (sym row.3) (done, live),
    )

IsLinked-other :
    (gs : List Goal) (ps : List PactRow) (goal pact at : ℕ) (j : InviteRow)
    → (j.goal_id == goal) ≡ false
    → (j.pact_id == pact) ≡ false
    → IsLinked gs ps j
    → IsLinked (modify goal (activate_goal at) gs) (modify pact (activate_pact at) ps) j
IsLinked-other gs ps goal pact at j other_goal other_pact (p, g, at_p, at_g, agree) = (
  p,
  g,
  modify_other j.pact_id pact (activate_pact at) ps (λ x. (activate_pact-lem at x).0) other_pact
      ∙ at_p,
  modify_other j.goal_id goal (activate_goal at) gs (λ x. (activate_goal-lem at x).0) other_goal
      ∙ at_g,
  agree,
)

module _ (gs : List Goal) (ps : List PactRow) (is : List InviteRow) (ng np ni a at : ℕ)
    (i : InviteRow) (at_a : find a is ≡ some i) (h : InStep gs ps is ng np ni) where
  -- Another invite has another goal and another pact.
  apart_goal :
      (b : ℕ) (j : InviteRow)
      → find b is ≡ some j
      → (b == a) ≡ false
      → (j.goal_id == i.goal_id) ≡ false
  apart_goal b j at_b other = elim (Bool-cases (j.goal_id == i.goal_id)) [
    | inl same ↦
        let goal : j.goal_id ≡ i.goal_id = ground arith in
        let one = h.separate b a j i at_b at_a (inl goal) in absurd (ground arith)
    | inr apart ↦ apart
  ]

  apart_pact :
      (b : ℕ) (j : InviteRow)
      → find b is ≡ some j
      → (b == a) ≡ false
      → (j.pact_id == i.pact_id) ≡ false
  apart_pact b j at_b other = elim (Bool-cases (j.pact_id == i.pact_id)) [
    | inl same ↦
        let pact : j.pact_id ≡ i.pact_id = ground arith in
        let one = h.separate b a j i at_b at_a (inr pact) in absurd (ground arith)
    | inr apart ↦ apart
  ]

  accepted-IsLinked :
      (b : ℕ) (j : InviteRow)
      → find b (modify a (accept_row at) is) ≡ some j
      → IsLinked (modify i.goal_id (activate_goal at) gs) (modify i.pact_id (activate_pact at) ps) j
  accepted-IsLinked b j found = elim (accepted_cases a b at is i j at_a found) [
    | inl (one, same) ↦
        subst
          (IsLinked (modify i.goal_id (activate_goal at) gs)
            (modify i.pact_id (activate_pact at) ps))
          (sym same) (IsLinked-active gs ps at i (h.linked a i at_a))
    | inr (other, old) ↦
        IsLinked-other gs ps i.goal_id i.pact_id at j (apart_goal b j old other)
          (apart_pact b j old other) (h.linked b j old)
  ]

  -- The row before the acceptance has the same goal and pact.
  before :
      (b : ℕ) (j : InviteRow)
      → find b (modify a (accept_row at) is) ≡ some j
      → (k : InviteRow) × (find b is ≡ some k) × (k.goal_id ≡ j.goal_id) × (k.pact_id ≡ j.pact_id)
  before b j found = elim (accepted_cases a b at is i j at_a found) [
    | inl (one, same) ↦ (
      i,
      rw one at_a,
      sym (ap (λ r. r.goal_id) same ∙ (accept_row-lem at i).1),
      sym (ap (λ r. r.pact_id) same ∙ (accept_row-lem at i).2),
    )
    | inr (other, old) ↦ (j, old, refl, refl)
  ]

  accepted-separate :
      (b c : ℕ) (j k : InviteRow)
      → find b (modify a (accept_row at) is) ≡ some j
      → find c (modify a (accept_row at) is) ≡ some k
      → (j.goal_id ≡ k.goal_id) ⊎ (j.pact_id ≡ k.pact_id)
      → b ≡ c
  accepted-separate b c j k at_b at_c shared =
      let (x, old_x, goal_x, pact_x) = before b j at_b in
      let (y, old_y, goal_y, pact_y) = before c k at_c in
      h.separate b c x y old_x old_y (elim shared [
        | inl goal ↦ inl (goal_x ∙ goal ∙ sym goal_y)
        | inr pact ↦ inr (pact_x ∙ pact ∙ sym pact_y)
      ])

  -- An invite is accepted, its pact and its goal become active.
  pub InStep-accept :
      InStep
        (modify i.goal_id (activate_goal at) gs)
        (modify i.pact_id (activate_pact at) ps)
        (modify a (accept_row at) is)
        ng
        np
        ni
  InStep-accept = record {
    linked = accepted-IsLinked;
    separate = accepted-separate;
    goals_below =
        IsBelow-modify ng i.goal_id (activate_goal at) gs (λ x. (activate_goal-lem at x).0)
          h.goals_below;
    pacts_below =
        IsBelow-modify np i.pact_id (activate_pact at) ps (λ x. (activate_pact-lem at x).0)
          h.pacts_below;
    invites_below =
        IsBelow-modify ni a (accept_row at) is (λ x. (accept_row-lem at x).0) h.invites_below;
  }
