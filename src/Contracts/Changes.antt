-- ===== src/Contracts/Changes.antt =====
-- What one call of the contracts component does to its table.
use proof_forge.Prelude.{
  ℕ, ◌≡◌, true, some, [], ◌∷◌, ◌++◌, map, arith, Bool-cases, inl, inr, subst, sym, ◌⊎◌,
  Option-cases,
}
use proof_forge.Prelude.Table.{find, modify}
use proof_forge.Prelude.Action.{seq_done, World}
use proof_forge.Contracts.Domain.{
  Status, active, fulfilled, cancelled, ProofContract, contract_keyed, can_transition_to, allows,
}
use proof_forge.Contracts.Repository.{
  Store, insert, get_by_id, list_by_goal, list_by_user, update_status, mark_broken_overdue,
  mark_broken, set_status, row_of,
}
use proof_forge.Contracts.Service.{
  Env, CreateInput, create, activate, fulfill, cancel, new_contract, Request, create_request,
  get_request, goal_request, active_request, activate_request, fulfill_request, cancel_request,
  overdue_request, perform, list_active,
}

-- What one call does to the table.
pub data Change (s t : Store) : Type 0 where
  unchanged : t.contracts ≡ s.contracts → Change s t
  creates : (c : ProofContract) → t.contracts ≡ s.contracts ++ c ∷ [] → Change s t
  moves :
      (id now : ℕ) (next : Status) (c : ProofContract)
      → find id s.contracts ≡ some c
      → allows c.status next ≡ true
      → t.contracts ≡ modify id (set_status next now) s.contracts
      → Change s t
  sweeps : (now db_now : ℕ) → t.contracts ≡ map (mark_broken now db_now) s.contracts → Change s t

-- The end of Activate, Fulfill and Cancel.
Moved : ℕ → ℕ → Status → Store → Store → Type 0
Moved id now next s t =
    (t.contracts ≡ s.contracts)
    ⊎ (c : ProofContract) × (find id s.contracts ≡ some c)
      × (allows c.status next ≡ true)
      × (t.contracts ≡ modify id (set_status next now) s.contracts)

Moved-Change : (id now : ℕ) (next : Status) (s t : Store) → Moved id now next s t → Change s t
unfolding Moved
Moved-Change id now next s t (inl same) = unchanged same
Moved-Change id now next s t (inr (c, found, edge, rows)) = moves id now next c found edge rows

Moved-of :
    (id now : ℕ) (next : Status) (s t : Store) (c : ProofContract)
    → find id s.contracts ≡ some c
    → allows c.status next ≡ true
    → (t.contracts ≡ s.contracts) ⊎ (t.contracts ≡ modify id (set_status next now) s.contracts)
    → Moved id now next s t
unfolding Moved
Moved-of id now next s t c found edge (inl same) = inl same
Moved-of id now next s t c found edge (inr rows) = inr (c, found, edge, rows)

activate-Moved :
    (env : Env) (id actor : ℕ) (w : World Store)
    → Moved id env.db_now active w.store (activate env id actor w).1.store
unfolding Moved activate get_by_id update_status can_transition_to
activate-Moved env id actor w = elim (Option-cases (find id w.store.contracts)) [
  | inl miss ↦ inl (ground arith)
  | inr (c, hit) ↦ elim (Bool-cases (allows c.status active)) [
    | inl edge ↦
        Moved-of id env.db_now active w.store (activate env id actor w).1.store c hit edge
          (ground arith)
    | inr bar ↦ inl (ground arith)
  ]
]

fulfill-Moved :
    (env : Env) (id actor : ℕ) (w : World Store)
    → Moved id env.db_now fulfilled w.store (fulfill env id actor w).1.store
unfolding Moved fulfill get_by_id update_status can_transition_to
fulfill-Moved env id actor w = elim (Option-cases (find id w.store.contracts)) [
  | inl miss ↦ inl (ground arith)
  | inr (c, hit) ↦ elim (Bool-cases (allows c.status fulfilled)) [
    | inl edge ↦
        Moved-of id env.db_now fulfilled w.store (fulfill env id actor w).1.store c hit edge
          (ground arith)
    | inr bar ↦ inl (ground arith)
  ]
]

cancel-Moved :
    (env : Env) (id actor : ℕ) (w : World Store)
    → Moved id env.db_now cancelled w.store (cancel env id actor w).1.store
unfolding Moved cancel get_by_id update_status can_transition_to
cancel-Moved env id actor w = elim (Option-cases (find id w.store.contracts)) [
  | inl miss ↦ inl (ground arith)
  | inr (c, hit) ↦ elim (Bool-cases (allows c.status cancelled)) [
    | inl edge ↦
        Moved-of id env.db_now cancelled w.store (cancel env id actor w).1.store c hit edge
          (ground arith)
    | inr bar ↦ inl (ground arith)
  ]
]

created :
    (env : Env) (input : CreateInput) (w : World Store)
    → ((create env input w).1.store.contracts ≡ w.store.contracts)
      ⊎ ((create env input w).1.store.contracts
          ≡ w.store.contracts
            ++ row_of w.store.next_contract_id env.db_now (new_contract input) ∷ [])
unfolding create insert
created env input w = ground arith

swept :
    (env : Env) (w : World Store)
    → ((mark_broken_overdue env.now env.db_now w).1.store.contracts ≡ w.store.contracts)
      ⊎ ((mark_broken_overdue env.now env.db_now w).1.store.contracts
          ≡ map (mark_broken env.now env.db_now) w.store.contracts)
unfolding mark_broken_overdue
swept env w = ground arith

create-Change :
    (env : Env) (input : CreateInput) (w : World Store)
    → Change w.store (create env input w).1.store
unfolding create insert
create-Change env input w = elim (created env input w) [
  | inl same ↦ unchanged same
  | inr rows ↦ creates _ rows
]

pub perform-Change :
    (env : Env) (r : Request) (w : World Store) → Change w.store (perform env r w).1.store
unfolding perform list_active list_by_user list_by_goal get_by_id mark_broken_overdue
perform-Change env (create_request input) w =
    subst (λ x. Change w.store x.store) (sym (seq_done (create env input) w))
      (create-Change env input w)
perform-Change env (get_request id) w = unchanged (ground arith)
perform-Change env (goal_request goal) w = unchanged (ground arith)
perform-Change env (active_request user) w = unchanged (ground arith)
perform-Change env (activate_request id actor) w =
    Moved-Change id env.db_now active w.store _ (activate-Moved env id actor w)
perform-Change env (fulfill_request id actor) w =
    Moved-Change id env.db_now fulfilled w.store _ (fulfill-Moved env id actor w)
perform-Change env (cancel_request id actor) w =
    Moved-Change id env.db_now cancelled w.store _ (cancel-Moved env id actor w)
perform-Change env overdue_request w =
    subst (λ x. Change w.store x.store) (sym (seq_done (mark_broken_overdue env.now env.db_now) w))
      (elim (swept env w) [ inl same ↦ unchanged same | inr rows ↦ sweeps env.now env.db_now rows ])
