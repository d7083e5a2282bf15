-- ===== src/Goals/Steps.antt =====
-- An invite, its pact and its goal in step, as a property of their tables.
use proof_forge.Prelude.{
  ℕ, ◌+◌, ◌<◌, ◌≡◌, ◌≢◌, ◌⊎◌, ◌∙◌, sym, subst, ap, some, List, [], ◌∷◌, ◌++◌, arith, All-append,
  All-map, ◌==◌, Bool-cases, inl, inr,
}
use proof_forge.Prelude.Table.{
  Keyed, find, IsBelow, find-append, find-append_ne, find-append_some, find-key, find-none_of_below,
  find-All,
}
use proof_forge.Goals.Domain.{
  Goal, GoalStatus, pending_buddy_acceptance, PactStatus, invited, InviteStatus, pending, accepted,
  goal_keyed,
}
use proof_forge.Goals.Tables.{PactRow, InviteRow, pact_keyed, invite_keyed}

-- A pending invite of a pact that is not active yet and a goal that waits for its buddy; or an accepted
-- one of an active pact and an active goal.
abbrev pub Agree : InviteStatus → PactStatus → GoalStatus → Type 0
Agree pending p g = (p ≡ invited) × (g ≡ pending_buddy_acceptance)
Agree accepted p g = (p ≡ PactStatus.active) × (g ≡ GoalStatus.active)

abbrev pub IsLinked : List Goal → List PactRow → InviteRow → Type 0
IsLinked gs ps i =
    (p : PactRow) × (g : Goal) × (find i.pact_id ps ≡ some p)
    × (find i.goal_id gs ≡ some g)
    × Agree i.status p.status g.status

-- The tables and the next values of their sequences.
pub record InStep (gs : List Goal) (ps : List PactRow) (is : List InviteRow)
    (next_goal next_pact next_invite : ℕ) : Type 0 where
  pub linked : (a : ℕ) (i : InviteRow) → find a is ≡ some i → IsLinked gs ps i
  pub separate :
      (a b : ℕ) (i j : InviteRow)
      → find a is ≡ some i
      → find b is ≡ some j
      → (i.goal_id ≡ j.goal_id) ⊎ (i.pact_id ≡ j.pact_id)
      → a ≡ b
  pub goals_below : IsBelow next_goal gs
  pub pacts_below : IsBelow next_pact ps
  pub invites_below : IsBelow next_invite is

IsBelow-append :
    {A : Type 0} ⦃k : Keyed A⦄ (n : ℕ) (rs : List A) (r : A)
    → IsBelow n rs
    → k.key r ≡ n
    → IsBelow (n + 1) (rs ++ r ∷ [])
IsBelow-append n rs r b e =
    All-append _ rs (r ∷ []) (All-map _ _ rs (λ x h. omega arith) b) (omega arith, tt)

pub found_below :
    {A : Type 0} ⦃k : Keyed A⦄ (n m : ℕ) (rs : List A) (r : A)
    → IsBelow n rs
    → find m rs ≡ some r
    → m < n
found_below n m rs r b e =
    let key = find-key m rs r e in let low = find-All _ m rs r b e in subst (λ x. x < n) key low

-- A goal is entered: no invite is of it.
pub InStep-goal :
    (gs : List Goal) (ps : List PactRow) (is : List InviteRow) (ng np ni : ℕ) (g : Goal)
    → g.id ≡ ng
    → InStep gs ps is ng np ni
    → InStep (gs ++ g ∷ []) ps is (ng + 1) np ni
InStep-goal gs ps is ng np ni g e h = record {
  linked = λ a i found.
      let (p, x, at_p, at_g, agree) = h.linked a i found in
      (p, x, at_p, find-append_some i.goal_id gs x g at_g, agree);
  separate = h.separate;
  goals_below = IsBelow-append ng gs g h.goals_below e;
  pacts_below = h.pacts_below;
  invites_below = h.invites_below;
}

pub InStep-pact :
    (gs : List Goal) (ps : List PactRow) (is : List InviteRow) (ng np ni : ℕ) (p : PactRow)
    → p.id ≡ np
    → InStep gs ps is ng np ni
    → InStep gs (ps ++ p ∷ []) is ng (np + 1) ni
InStep-pact gs ps is ng np ni p e h = record {
  linked = λ a i found.
      let (x, g, at_p, at_g, agree) = h.linked a i found in
      (x, g, find-append_some i.pact_id ps x p at_p, at_g, agree);
  separate = h.separate;
  goals_below = h.goals_below;
  pacts_below = IsBelow-append np ps p h.pacts_below e;
  invites_below = h.invites_below;
}

-- No invite is of the goal, or of the pact.
abbrev pub IsUnused : ℕ → ℕ → List InviteRow → Type 0
IsUnused goal pact is =
    (a : ℕ) (i : InviteRow) → find a is ≡ some i → (i.goal_id ≢ goal) × (i.pact_id ≢ pact)

-- The rows at `a` in a table with a new row behind it.
append_cases :
    (a n : ℕ) (is : List InviteRow) (i x : InviteRow)
    → x.id ≡ n
    → IsBelow n is
    → find a (is ++ x ∷ []) ≡ some i
    → (find a is ≡ some i) ⊎ (a ≡ n) × (i ≡ x)
append_cases a n is i x e below found = elim (Bool-cases (a == n)) [
  | inl same ↦
      let one : a ≡ n = ground arith in
      let new : find a (is ++ x ∷ []) ≡ some x =
        find-append a is x (e ∙ sym one) (find-none_of_below n a is below (omega arith)) in
      inr (one, ground arith)
  | inr other ↦
      let apart : x.id ≢ a = λ h. ground arith in inl (sym (find-append_ne a is x apart) ∙ found)
]

invite-IsLinked :
    (gs : List Goal) (ps : List PactRow) (is : List InviteRow) (n : ℕ) (x : InviteRow) (p : PactRow)
    (g : Goal)
    → ((a : ℕ) (i : InviteRow) → find a is ≡ some i → IsLinked gs ps i)
    → x.id ≡ n
    → IsBelow n is
    → find x.pact_id ps ≡ some p
    → find x.goal_id gs ≡ some g
    → Agree x.status p.status g.status
    → (a : ℕ) (i : InviteRow) → find a (is ++ x ∷ []) ≡ some i
    → IsLinked gs ps i
invite-IsLinked gs ps is n x p g linked e below at_p at_g agree a i found =
    elim (append_cases a n is i x e below found) [
      | inl old ↦ linked a i old
      | inr (one, same) ↦ subst (IsLinked gs ps) (sym same) (p, g, at_p, at_g, agree)
    ]

invite-separate :
    (is : List InviteRow) (n : ℕ) (x : InviteRow)
    → x.id ≡ n
    → IsBelow n is
    → IsUnused x.goal_id x.pact_id is
    → ((a b : ℕ) (i j : InviteRow)
        → find a is ≡ some i
        → find b is ≡ some j
        → (i.goal_id ≡ j.goal_id) ⊎ (i.pact_id ≡ j.pact_id)
        → a ≡ b)
    → (a b : ℕ) (i j : InviteRow) → find a (is ++ x ∷ []) ≡ some i
    → find b (is ++ x ∷ []) ≡ some j
    → (i.goal_id ≡ j.goal_id) ⊎ (i.pact_id ≡ j.pact_id)
    → a ≡ b
invite-separate is n x e below unused separate a b i j at_a at_b shared =
    elim (append_cases a n is i x e below at_a) [
      | inl old_a ↦ elim (append_cases b n is j x e below at_b) [
        | inl old_b ↦ separate a b i j old_a old_b shared
        | inr (one, same) ↦
            let free = unused a i old_a in
            absurd (elim shared [
              | inl goal ↦ free.0 (goal ∙ ap (λ r. r.goal_id) same)
              | inr pact ↦ free.1 (pact ∙ ap (λ r. r.pact_id) same)
            ])
      ]
      | inr (one, same) ↦ elim (append_cases b n is j x e below at_b) [
        | inl old_b ↦
            let free = unused b j old_b in
            absurd (elim shared [
              | inl goal ↦ free.0 (sym goal ∙ ap (λ r. r.goal_id) same)
              | inr pact ↦ free.1 (sym pact ∙ ap (λ r. r.pact_id) same)
            ])
        | inr (two, same') ↦ one ∙ sym two
      ]
    ]

-- An invite is entered for a goal and a pact that no other invite has.
pub InStep-invite :
    (gs : List Goal) (ps : List PactRow) (is : List InviteRow) (ng np ni : ℕ) (x : InviteRow)
    (p : PactRow) (g : Goal)
    → x.id ≡ ni
    → IsUnused x.goal_id x.pact_id is
    → find x.pact_id ps ≡ some p
    → find x.goal_id gs ≡ some g
    → Agree x.status p.status g.status
    → InStep gs ps is ng np ni
    → InStep gs ps (is ++ x ∷ []) ng np (ni + 1)
InStep-invite gs ps is ng np ni x p g e unused at_p at_g agree h = record {
  linked = invite-IsLinked gs ps is ni x p g h.linked e h.invites_below at_p at_g agree;
  separate = invite-separate is ni x e h.invites_below unused h.separate;
  goals_below = h.goals_below;
  pacts_below = h.pacts_below;
  invites_below = IsBelow-append ni is x h.invites_below e;
}
