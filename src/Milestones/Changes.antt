-- ===== src/Milestones/Changes.antt =====
-- What one call of the milestones component does to its table.
use proof_forge.Prelude.{
  ℕ, ◌≡◌, Option, none, some, Bool, true, false, [], ◌∷◌, ◌++◌, ◌==◌, Bool-cases, Option-cases, inl,
  inr,
}
use proof_forge.Prelude.Int.{ℤ}
use proof_forge.Prelude.Text.{Text}
use proof_forge.Prelude.Table.{find, modify, erase}
use proof_forge.Goals.{Goal, goal_keyed}
use proof_forge.Milestones.Repository.{
  Store, Milestone, pending, completed, milestone_keyed, inserted_milestone, set_fields, set_status,
  order_after,
}
use proof_forge.Milestones.Service.{is_pending}

abbrev pub is_buddy : ℕ → Option Goal → Bool
is_buddy actor none = false
is_buddy actor (some g) = elim g.buddy_user_id [ none ↦ false | some b ↦ actor == b ]

-- What one call of a user does to the table: a milestone is entered as the last of its goal, a
-- pending one is edited, deleted or completed, a completed one is reopened.
pub data Change (actor : ℕ) (s t : Store) : Type 0 where
  unchanged : t.milestones ≡ s.milestones → Change actor s t
  creates :
      (db_now id goal : ℕ) (title description : Text)
      → t.milestones
        ≡ s.milestones
          ++ inserted_milestone db_now id goal title description (order_after goal s.milestones)
            ∷ []
      → Change actor s t
  edits :
      (id db_now : ℕ) (m : Milestone) (title description : Option Text) (order : Option ℤ)
      → find id s.milestones ≡ some m
      → is_pending m.status ≡ true
      → t.milestones ≡ modify id (set_fields db_now title description order) s.milestones
      → Change actor s t
  removes :
      (id : ℕ) (m : Milestone)
      → find id s.milestones ≡ some m
      → is_pending m.status ≡ true
      → t.milestones ≡ erase id s.milestones
      → Change actor s t
  completes :
      (id now : ℕ) (m : Milestone)
      → find id s.milestones ≡ some m
      → is_pending m.status ≡ true
      → is_buddy actor (find m.goal_id s.goals) ≡ true
      → t.milestones ≡ modify id (set_status completed (some actor) now) s.milestones
      → Change actor s t
  reopens :
      (id now : ℕ) (m : Milestone)
      → find id s.milestones ≡ some m
      → is_pending m.status ≡ false
      → is_buddy actor (find m.goal_id s.goals) ≡ true
      → t.milestones ≡ modify id (set_status pending none now) s.milestones
      → Change actor s t

abbrev pub Same : Store → Store → Type 0
Same s t = t.milestones ≡ s.milestones

-- By the row of `id`: a call that needs a row with `may` changes nothing without one.
pub by_row :
    {C : Type 0} (id : ℕ) (s t : Store) (may : Milestone → Bool)
    → (find id s.milestones ≡ none → Same s t)
    → ((m : Milestone) → find id s.milestones ≡ some m → may m ≡ false → Same s t)
    → (Same s t → C)
    → ((m : Milestone) → find id s.milestones ≡ some m → may m ≡ true → C)
    → C
by_row id s t may idle barred same allowed = elim (Option-cases (find id s.milestones)) [
  | inl miss ↦ same (idle miss)
  | inr (m, hit) ↦ elim (Bool-cases (may m)) [
    | inl holds ↦ allowed m hit holds
    | inr fails ↦ same (barred m hit fails)
  ]
]
