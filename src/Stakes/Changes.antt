-- ===== src/Stakes/Changes.antt =====
-- What one call of the stakes component does to its tables.
use proof_forge.Prelude.{
  ℕ, ◌≡◌, ◌⊎◌, refl, sym, subst, none, some, true, false, [], ◌∷◌, ◌++◌, arith, Bool-cases,
  Option-cases, inl, inr,
}
use proof_forge.Prelude.Text.{Text, trim_space}
use proof_forge.Prelude.Table.{find, modify}
use proof_forge.Prelude.Action.{seq_done, World, pure, ◌>>◌}
use proof_forge.Users.{User}
use proof_forge.Goals.{goal_keyed}
use proof_forge.Stakes.Repository.{
  Store, M, Stake, StakeForfeiture, StakeStatus, forfeited, cancelled, stake_keyed, insert,
  inserted_stake, new_forfeiture, find_by_goal, find_by_id, set_status, update_status,
  insert_forfeiture, find_goal_participants,
}
use proof_forge.Stakes.Service.{
  Env, create, list_for_goal, cancel, forfeit, is_active, Request, create_request, list_request,
  cancel_request, forfeit_request, perform, Call, after,
}

-- What one call does to the tables.
pub data Change (s t : Store) : Type 0 where
  unchanged : t.stakes ≡ s.stakes → t.forfeitures ≡ s.forfeitures → Change s t
  creates : (k : Stake) → t.stakes ≡ s.stakes ++ k ∷ [] → t.forfeitures ≡ s.forfeitures → Change s t
  closes :
      (id now : ℕ) (next : StakeStatus) (k : Stake)
      → find id s.stakes ≡ some k
      → is_active k.status ≡ true
      → t.stakes ≡ modify id (set_status next now) s.stakes
      → t.forfeitures ≡ s.forfeitures
      → Change s t
  forfeits :
      (id now : ℕ) (k : Stake) (f : StakeForfeiture)
      → find id s.stakes ≡ some k
      → is_active k.status ≡ true
      → t.stakes ≡ modify id (set_status forfeited now) s.stakes
      → f.stake_id ≡ id
      → t.forfeitures ≡ s.forfeitures ++ f ∷ []
      → Change s t

abbrev Same : Store → Store → Type 0
Same s t = (t.stakes ≡ s.stakes) × (t.forfeitures ≡ s.forfeitures)

abbrev Closed : ℕ → ℕ → StakeStatus → Store → Store → Type 0
Closed id now next s t =
    (t.stakes ≡ modify id (set_status next now) s.stakes) × (t.forfeitures ≡ s.forfeitures)

cancel-rows :
    (env : Env) (actor : User) (id : ℕ) (w : World Store)
    → Same w.store (cancel env actor id w).1.store
      ⊎ Closed id env.now cancelled w.store (cancel env actor id w).1.store
unfolding cancel find_by_id find_goal_participants update_status
cancel-rows env actor id w = ground arith

forfeit-rows :
    (env : Env) (actor : User) (id : ℕ) (reason : Text) (w : World Store)
    → let f =
        new_forfeiture env.db_now w.store.next_forfeiture_id id actor.id (trim_space reason) in
      let t = (forfeit env actor id reason w).1.store in
      Same w.store t
      ⊎ Closed id env.now forfeited w.store t
      ⊎ (t.stakes ≡ modify id (set_status forfeited env.now) w.store.stakes)
        × (t.forfeitures ≡ w.store.forfeitures ++ f ∷ [])
unfolding forfeit find_by_id find_goal_participants update_status insert_forfeiture
forfeit-rows env actor id reason w = ground arith

-- Nothing is written for a stake that is missing or not active.
cancel-idle :
    (env : Env) (actor : User) (id : ℕ) (w : World Store)
    → find id w.store.stakes ≡ none
    → Same w.store (cancel env actor id w).1.store
unfolding cancel find_by_id find_goal_participants update_status
cancel-idle env actor id w h = ground arith

cancel-barred :
    (env : Env) (actor : User) (id : ℕ) (w : World Store) (k : Stake)
    → find id w.store.stakes ≡ some k
    → is_active k.status ≡ false
    → Same w.store (cancel env actor id w).1.store
unfolding cancel find_by_id find_goal_participants update_status
cancel-barred env actor id w k h bar = ground arith

forfeit-idle :
    (env : Env) (actor : User) (id : ℕ) (reason : Text) (w : World Store)
    → find id w.store.stakes ≡ none
    → Same w.store (forfeit env actor id reason w).1.store
unfolding forfeit find_by_id find_goal_participants update_status insert_forfeiture
forfeit-idle env actor id reason w h = ground arith

forfeit-barred :
    (env : Env) (actor : User) (id : ℕ) (reason : Text) (w : World Store) (k : Stake)
    → find id w.store.stakes ≡ some k
    → is_active k.status ≡ false
    → Same w.store (forfeit env actor id reason w).1.store
unfolding forfeit find_by_id find_goal_participants update_status insert_forfeiture
forfeit-barred env actor id reason w k h bar = ground arith

create-rows :
    (env : Env) (actor : User) (goal : ℕ) (text : Text) (w : World Store)
    → Same w.store (create env actor goal text w).1.store
      ⊎ ((create env actor goal text w).1.store.stakes
          ≡ w.store.stakes
            ++ inserted_stake env.db_now w.store.next_stake_id goal actor.id (trim_space text) ∷ [])
        × ((create env actor goal text w).1.store.forfeitures ≡ w.store.forfeitures)
unfolding create find_goal_participants insert
create-rows env actor goal text w = ground arith

list-rows :
    (actor : User) (goal : ℕ) (w : World Store) → Same w.store (list_for_goal actor goal w).1.store
unfolding list_for_goal find_goal_participants find_by_goal
list-rows actor goal w = ground arith

Same-Change : (s t : Store) → Same s t → Change s t
Same-Change s t (stakes, forfeitures) = unchanged stakes forfeitures

cancel-Change :
    (env : Env) (actor : User) (id : ℕ) (w : World Store)
    → Change w.store (cancel env actor id w).1.store
cancel-Change env actor id w = elim (Option-cases (find id w.store.stakes)) [
  | inl miss ↦ Same-Change w.store _ (cancel-idle env actor id w miss)
  | inr (k, hit) ↦ elim (Bool-cases (is_active k.status)) [
    | inl live ↦ elim (cancel-rows env actor id w) [
      | inl same ↦ Same-Change w.store _ same
      | inr closed ↦ closes id env.now cancelled k hit live closed.0 closed.1
    ]
    | inr dead ↦ Same-Change w.store _ (cancel-barred env actor id w k hit dead)
  ]
]

forfeit-Change :
    (env : Env) (actor : User) (id : ℕ) (reason : Text) (w : World Store)
    → Change w.store (forfeit env actor id reason w).1.store
forfeit-Change env actor id reason w = elim (Option-cases (find id w.store.stakes)) [
  | inl miss ↦ Same-Change w.store _ (forfeit-idle env actor id reason w miss)
  | inr (k, hit) ↦ elim (Bool-cases (is_active k.status)) [
    | inl live ↦ elim (forfeit-rows env actor id reason w) [
      | inl same ↦ Same-Change w.store _ same
      | inr (inl half) ↦ closes id env.now forfeited k hit live half.0 half.1
      | inr (inr full) ↦ forfeits id env.now k _ hit live full.0 refl full.1
    ]
    | inr dead ↦ Same-Change w.store _ (forfeit-barred env actor id reason w k hit dead)
  ]
]

create-Change :
    (env : Env) (actor : User) (goal : ℕ) (text : Text) (w : World Store)
    → Change w.store (create env actor goal text w).1.store
create-Change env actor goal text w = elim (create-rows env actor goal text w) [
  | inl same ↦ Same-Change w.store _ same
  | inr rows ↦ creates _ rows.0 rows.1
]

seq-Change :
    {A : Type 0} (m : M A) (w : World Store)
    → Change w.store (m w).1.store
    → Change w.store ((m >> pure tt) w).1.store
seq-Change m w h = subst (λ x. Change w.store x.store) (sym (seq_done m w)) h

perform-Change_stakes :
    (env : Env) (actor : User) (r : Request) (w : World Store)
    → Change w.store (perform env actor r w).1.store
unfolding perform
perform-Change_stakes env actor (create_request goal text) w =
    seq-Change (create env actor goal text) w (create-Change env actor goal text w)
perform-Change_stakes env actor (list_request goal) w =
    seq-Change (list_for_goal actor goal) w (Same-Change w.store _ (list-rows actor goal w))
perform-Change_stakes env actor (cancel_request id) w = cancel-Change env actor id w
perform-Change_stakes env actor (forfeit_request id reason) w =
    seq-Change (forfeit env actor id reason) w (forfeit-Change env actor id reason w)

pub after-Change_stakes : (c : Call) (s : Store) → Change s (after c s)
unfolding after
after-Change_stakes c s =
    perform-Change_stakes c.env c.actor c.request (record { store = s; outages = c.outages })
