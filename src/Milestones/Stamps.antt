-- ===== src/Milestones/Stamps.antt =====
-- The stamps of a milestone through any history of calls, and what may happen to one that is
-- completed.
use proof_forge.Prelude.{
  ℕ, ◌≡◌, ◌∙◌, ◌⊎◌, refl, Option, none, some, true, false, List, [], ◌∷◌, arith, All, All-append,
  ◌==◌, Bool-cases, inl, inr,
}
use proof_forge.Prelude.Int.{ℤ}
use proof_forge.Prelude.Text.{Text}
use proof_forge.Prelude.Table.{
  find, find-modify, find-erase, find-append_some, All-modify, All-erase,
}
use proof_forge.Goals.{goal_keyed}
use proof_forge.Milestones.Repository.{
  Store, Milestone, MilestoneStatus, pending, completed, milestone_keyed, set_fields, set_status,
}
use proof_forge.Milestones.Service.{Call, after, serve, is_pending}
use proof_forge.Milestones.Changes.{
  Change, unchanged, creates, edits, removes, completes, reopens, is_buddy,
}
use proof_forge.Milestones.Outcome.{after-Change}

-- A completed milestone says when and by whom, a pending one says neither.
abbrev pub IsStamped : Milestone → Type 0
IsStamped m = elim m.status [
  | pending ↦ (m.completed_at ≡ none) × (m.completed_by_user_id ≡ none)
  | completed ↦ ((t : ℕ) × (m.completed_at ≡ some t)) × (u : ℕ) × (m.completed_by_user_id ≡ some u)
]

set_fields-IsStamped :
    (db_now : ℕ) (title description : Option Text) (order : Option ℤ) (m : Milestone)
    → IsStamped m
    → IsStamped (set_fields db_now title description order m)
unfolding set_fields
set_fields-IsStamped db_now title description order m h = h

completes-IsStamped :
    (by now : ℕ) (m : Milestone) → IsStamped (set_status completed (some by) now m)
unfolding set_status
completes-IsStamped by now m = ((now, refl), by, refl)

reopens-IsStamped : (now : ℕ) (m : Milestone) → IsStamped (set_status pending none now m)
unfolding set_status
reopens-IsStamped now m = (refl, refl)

Change-IsStamped :
    (actor : ℕ) (s t : Store)
    → Change actor s t
    → All IsStamped s.milestones
    → All IsStamped t.milestones
Change-IsStamped actor s t (unchanged rows) h = rw rows h
Change-IsStamped actor s t (creates db_now id goal title description rows) h =
    rw rows (All-append IsStamped s.milestones _ h ((refl, refl), tt))
Change-IsStamped actor s t (edits id db_now m title description order hit may rows) h = rw rows (
    All-modify IsStamped id _ s.milestones
      (λ r key stamped. set_fields-IsStamped db_now title description order r stamped) h)
Change-IsStamped actor s t (removes id m hit may rows) h =
    rw rows (All-erase IsStamped id s.milestones h)
Change-IsStamped actor s t (completes id now m hit may buddy rows) h =
    rw rows
      (All-modify IsStamped id _ s.milestones (λ r key stamped. completes-IsStamped actor now r) h)
Change-IsStamped actor s t (reopens id now m hit may buddy rows) h =
    rw rows (All-modify IsStamped id _ s.milestones (λ r key stamped. reopens-IsStamped now r) h)

-- Through any history of calls and outages, every milestone in the table that is completed says when
-- and by whom, and every pending one says neither.
pub serve-IsStamped :
    (cs : List Call) (s : Store)
    → All IsStamped s.milestones
    → All IsStamped (serve cs s).milestones
unfolding serve
serve-IsStamped [] s h = h
serve-IsStamped (c ∷ cs) s h =
    serve-IsStamped cs (after c s) (Change-IsStamped c.actor.id s (after c s) (after-Change c s) h)

pub set_status-id :
    (next : MilestoneStatus) (by : Option ℕ) (now : ℕ) (m : Milestone)
    → (set_status next by now m).id ≡ m.id
unfolding set_status
set_status-id next by now m = ground arith

set_fields-id :
    (db_now : ℕ) (title description : Option Text) (order : Option ℤ) (m : Milestone)
    → (set_fields db_now title description order m).id ≡ m.id
unfolding set_fields
set_fields-id db_now title description order m = refl

-- The row of a completed milestone is not the row of a pending one.
apart :
    (id j : ℕ) (m n : Milestone) (s : Store)
    → find id s.milestones ≡ some m
    → find j s.milestones ≡ some n
    → is_pending m.status ≡ false
    → is_pending n.status ≡ true
    → (id == j) ≡ false
apart id j m n s at_id at_j done may = elim (Bool-cases (id == j)) [
  | inl same ↦
      let one : id ≡ j = ground arith in let both : m ≡ n = ground arith in absurd (ground arith)
  | inr other ↦ other
]

-- What a call may leave of a completed milestone.
abbrev pub StaysOrReopens : ℕ → ℕ → Milestone → Store → Store → Type 0
StaysOrReopens actor id m s t =
    (find id t.milestones ≡ some m)
    ⊎ ((now : ℕ) × (is_buddy actor (find m.goal_id s.goals) ≡ true)
        × (find id t.milestones ≡ some (set_status pending none now m)))

Change-completed :
    (actor id : ℕ) (m : Milestone) (s t : Store)
    → Change actor s t
    → find id s.milestones ≡ some m
    → is_pending m.status ≡ false
    → StaysOrReopens actor id m s t
Change-completed actor id m s t (unchanged rows) found done = inl (rw rows found)
Change-completed actor id m s t (creates db_now j goal title description rows) found done =
    inl (rw rows (find-append_some id s.milestones m _ found))
Change-completed actor id m s t (edits j db_now n title description order hit may rows) found done =
    inl (
      rw rows (
        find-modify id j _ s.milestones (set_fields-id db_now title description order)
        ∙ rw (apart id j m n s found hit done may) found))
Change-completed actor id m s t (removes j n hit may rows) found done =
    inl (rw rows (find-erase id j s.milestones ∙ rw (apart id j m n s found hit done may) found))
Change-completed actor id m s t (completes j now n hit may buddy rows) found done = inl (
    rw rows (
      find-modify id j _ s.milestones (set_status-id completed (some actor) now)
      ∙ rw (apart id j m n s found hit done may) found))
Change-completed actor id m s t (reopens j now n hit may buddy rows) found done =
    let row =
      find-modify id j (set_status pending none now) s.milestones
        (set_status-id pending none now) in
    elim (Bool-cases (id == j)) [
      | inl same ↦
          let one : id ≡ j = ground arith in
          let both : m ≡ n = ground arith in
          inr (now, rw both buddy, rw rows (row ∙ rw same (rw found refl)))
      | inr other ↦ inl (rw rows (row ∙ rw other found))
    ]

-- One call of any user, whatever the database refuses, leaves a completed milestone as it is, unless
-- the user is the buddy of its goal and the call reopens it: it is neither edited nor deleted, and
-- not completed again.
pub after-completed :
    (c : Call) (id : ℕ) (m : Milestone) (s : Store)
    → find id s.milestones ≡ some m
    → is_pending m.status ≡ false
    → StaysOrReopens c.actor.id id m s (after c s)
after-completed c id m s found done =
    Change-completed c.actor.id id m s (after c s) (after-Change c s) found done
