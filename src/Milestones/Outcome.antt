-- ===== src/Milestones/Outcome.antt =====
-- Every call of the milestones component makes one of the changes of `Change`, or none.
use proof_forge.Prelude.{
  ℕ, ◌≡◌, ◌⊎◌, sym, subst, Option, none, some, Bool, false, not, ◌&&◌, [], ◌∷◌, ◌++◌, arith, inl,
  inr,
}
use proof_forge.Prelude.Text.{Text, trim_space}
use proof_forge.Prelude.Table.{find, modify, erase}
use proof_forge.Prelude.Action.{Result-cases, ok, World, pure, seq_done, ◌>>◌}
use proof_forge.Users.{User}
use proof_forge.Goals.{goal_keyed}
use proof_forge.Milestones.Repository.{
  Store, M, Milestone, pending, completed, CreateInput, UpdateInput, milestone_keyed, insert,
  inserted_milestone, find_by_goal, find_by_id, set_fields, update, delete, set_status,
  update_status, find_goal_participants, order_after, next_sort_order,
}
use proof_forge.Milestones.Service.{
  Env, create, list_for_goal, edit, remove, complete, reopen, is_pending, new_title,
  new_description, Request, create_request, list_request, edit_request, remove_request,
  complete_request, reopen_request, perform, Call, after,
}
use proof_forge.Milestones.Changes.{
  Change, unchanged, creates, edits, removes, completes, reopens, is_buddy, Same, by_row,
}

abbrev may_complete : ℕ → Store → Milestone → Bool
may_complete actor s m = is_pending m.status && is_buddy actor (find m.goal_id s.goals)

abbrev may_reopen : ℕ → Store → Milestone → Bool
may_reopen actor s m = not (is_pending m.status) && is_buddy actor (find m.goal_id s.goals)

complete-rows :
    (env : Env) (actor : User) (id : ℕ) (w : World Store)
    → let t = (complete env actor id w).1.store in
      Same w.store t
      ⊎ (t.milestones ≡ modify id (set_status completed (some actor.id) env.now) w.store.milestones)
unfolding complete find_by_id find_goal_participants update_status
complete-rows env actor id w = ground arith

complete-barred :
    (env : Env) (actor : User) (id : ℕ) (w : World Store) (m : Milestone)
    → find id w.store.milestones ≡ some m
    → may_complete actor.id w.store m ≡ false
    → Same w.store (complete env actor id w).1.store
unfolding complete find_by_id find_goal_participants update_status
complete-barred env actor id w m h bar = ground arith

complete-idle :
    (env : Env) (actor : User) (id : ℕ) (w : World Store)
    → find id w.store.milestones ≡ none
    → Same w.store (complete env actor id w).1.store
unfolding complete find_by_id find_goal_participants update_status
complete-idle env actor id w h = ground arith

complete-Change :
    (env : Env) (actor : User) (id : ℕ) (w : World Store)
    → Change actor.id w.store (complete env actor id w).1.store
complete-Change env actor id w =
    by_row id w.store (complete env actor id w).1.store (may_complete actor.id w.store)
      (complete-idle env actor id w) (complete-barred env actor id w) unchanged
      λ m hit may. elim (complete-rows env actor id w) [
        | inl same ↦ unchanged same
        | inr rows ↦ completes id env.now m hit (ground arith) (ground arith) rows
      ]

reopen-rows :
    (env : Env) (actor : User) (id : ℕ) (w : World Store)
    → let t = (reopen env actor id w).1.store in
      Same w.store t
      ⊎ (t.milestones ≡ modify id (set_status pending none env.now) w.store.milestones)
unfolding reopen find_by_id find_goal_participants update_status
reopen-rows env actor id w = ground arith

reopen-barred :
    (env : Env) (actor : User) (id : ℕ) (w : World Store) (m : Milestone)
    → find id w.store.milestones ≡ some m
    → may_reopen actor.id w.store m ≡ false
    → Same w.store (reopen env actor id w).1.store
unfolding reopen find_by_id find_goal_participants update_status
reopen-barred env actor id w m h bar = ground arith

reopen-idle :
    (env : Env) (actor : User) (id : ℕ) (w : World Store)
    → find id w.store.milestones ≡ none
    → Same w.store (reopen env actor id w).1.store
unfolding reopen find_by_id find_goal_participants update_status
reopen-idle env actor id w h = ground arith

reopen-Change :
    (env : Env) (actor : User) (id : ℕ) (w : World Store)
    → Change actor.id w.store (reopen env actor id w).1.store
reopen-Change env actor id w =
    by_row id w.store (reopen env actor id w).1.store (may_reopen actor.id w.store)
      (reopen-idle env actor id w) (reopen-barred env actor id w) unchanged
      λ m hit may. elim (reopen-rows env actor id w) [
        | inl same ↦ unchanged same
        | inr rows ↦ reopens id env.now m hit (ground arith) (ground arith) rows
      ]

edited :
    (env : Env) (actor : User) (id : ℕ) (input : UpdateInput) (w : World Store)
    (title description : Option Text)
    → new_title input.title ≡ ok title
    → new_description input.description ≡ ok description
    → let t = (edit env actor id input w).1.store in
      Same w.store t
      ⊎ (t.milestones
          ≡ modify id (set_fields env.db_now title description input.sort_order) w.store.milestones)
unfolding edit find_by_id find_goal_participants update
edited env actor id input w title description e e' = ground arith

edit-rows :
    (env : Env) (actor : User) (id : ℕ) (input : UpdateInput) (w : World Store)
    → let t = (edit env actor id input w).1.store in
      Same w.store t
      ⊎ ((title : Option Text) × (description : Option Text) × (t.milestones
            ≡ modify id
                (set_fields env.db_now title description input.sort_order)
                w.store.milestones))
unfolding edit find_by_id find_goal_participants update
edit-rows env actor id input w = elim (Result-cases (new_title input.title)) [
  | inl (title, e) ↦ elim (Result-cases (new_description input.description)) [
    | inl (description, e') ↦ elim (edited env actor id input w title description e e') [
      | inl same ↦ inl same
      | inr rows ↦ inr (title, description, rows)
    ]
    | inr (x, e') ↦ inl (ground arith)
  ]
  | inr (x, e) ↦ inl (ground arith)
]

edit-barred :
    (env : Env) (actor : User) (id : ℕ) (input : UpdateInput) (w : World Store) (m : Milestone)
    → find id w.store.milestones ≡ some m
    → is_pending m.status ≡ false
    → Same w.store (edit env actor id input w).1.store
unfolding edit find_by_id find_goal_participants update
edit-barred env actor id input w m h bar = ground arith

edit-idle :
    (env : Env) (actor : User) (id : ℕ) (input : UpdateInput) (w : World Store)
    → find id w.store.milestones ≡ none
    → Same w.store (edit env actor id input w).1.store
unfolding edit find_by_id find_goal_participants update
edit-idle env actor id input w h = ground arith

edit-Change :
    (env : Env) (actor : User) (id : ℕ) (input : UpdateInput) (w : World Store)
    → Change actor.id w.store (edit env actor id input w).1.store
edit-Change env actor id input w =
    by_row id w.store (edit env actor id input w).1.store (λ m. is_pending m.status)
      (edit-idle env actor id input w) (edit-barred env actor id input w) unchanged
      λ m hit may. elim (edit-rows env actor id input w) [
        | inl same ↦ unchanged same
        | inr (title, description, rows) ↦
            edits id env.db_now m title description input.sort_order hit may rows
      ]

remove-rows :
    (actor : User) (id : ℕ) (w : World Store)
    → let t = (remove actor id w).1.store in
      Same w.store t ⊎ (t.milestones ≡ erase id w.store.milestones)
unfolding remove find_by_id find_goal_participants delete
remove-rows actor id w = ground arith

remove-barred :
    (actor : User) (id : ℕ) (w : World Store) (m : Milestone)
    → find id w.store.milestones ≡ some m
    → is_pending m.status ≡ false
    → Same w.store (remove actor id w).1.store
unfolding remove find_by_id find_goal_participants delete
remove-barred actor id w m h bar = ground arith

remove-idle :
    (actor : User) (id : ℕ) (w : World Store)
    → find id w.store.milestones ≡ none
    → Same w.store (remove actor id w).1.store
unfolding remove find_by_id find_goal_participants delete
remove-idle actor id w h = ground arith

remove-Change :
    (actor : User) (id : ℕ) (w : World Store) → Change actor.id w.store (remove actor id w).1.store
remove-Change actor id w =
    by_row id w.store (remove actor id w).1.store (λ m. is_pending m.status)
      (remove-idle actor id w) (remove-barred actor id w) unchanged
      λ m hit may. elim (remove-rows actor id w) [
        | inl same ↦ unchanged same
        | inr rows ↦ removes id m hit may rows
      ]

create-rows :
    (env : Env) (actor : User) (goal : ℕ) (input : CreateInput) (w : World Store)
    → let t = (create env actor goal input w).1.store in
      Same w.store t
      ⊎ (t.milestones
          ≡ w.store.milestones
            ++ inserted_milestone env.db_now w.store.next_milestone_id goal
                (trim_space input.title)
                (trim_space input.description)
                (order_after goal w.store.milestones)
              ∷ [])
unfolding create find_goal_participants next_sort_order insert
create-rows env actor goal input w = ground arith

list-rows :
    (actor : User) (goal : ℕ) (w : World Store) → Same w.store (list_for_goal actor goal w).1.store
unfolding list_for_goal find_goal_participants find_by_goal
list-rows actor goal w = ground arith

create-Change :
    (env : Env) (actor : User) (goal : ℕ) (input : CreateInput) (w : World Store)
    → Change actor.id w.store (create env actor goal input w).1.store
create-Change env actor goal input w = elim (create-rows env actor goal input w) [
  | inl same ↦ unchanged same
  | inr rows ↦ creates env.db_now w.store.next_milestone_id goal _ _ rows
]

seq-Change :
    {A : Type 0} (actor : ℕ) (m : M A) (w : World Store)
    → Change actor w.store (m w).1.store
    → Change actor w.store ((m >> pure tt) w).1.store
seq-Change actor m w h = subst (λ x. Change actor w.store x.store) (sym (seq_done m w)) h

perform-Change :
    (env : Env) (actor : User) (r : Request) (w : World Store)
    → Change actor.id w.store (perform env actor r w).1.store
unfolding perform
perform-Change env actor (create_request goal input) w =
    seq-Change actor.id (create env actor goal input) w (create-Change env actor goal input w)
perform-Change env actor (list_request goal) w =
    seq-Change actor.id (list_for_goal actor goal) w (unchanged (list-rows actor goal w))
perform-Change env actor (edit_request id input) w =
    seq-Change actor.id (edit env actor id input) w (edit-Change env actor id input w)
perform-Change env actor (remove_request id) w = remove-Change actor id w
perform-Change env actor (complete_request id) w =
    seq-Change actor.id (complete env actor id) w (complete-Change env actor id w)
perform-Change env actor (reopen_request id) w =
    seq-Change actor.id (reopen env actor id) w (reopen-Change env actor id w)

pub after-Change : (c : Call) (s : Store) → Change c.actor.id s (after c s)
unfolding after
after-Change c s =
    perform-Change c.env c.actor c.request (record { store = s; outages = c.outages })
