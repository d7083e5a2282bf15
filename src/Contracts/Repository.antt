-- ===== src/Contracts/Repository.antt =====
-- The table proof_contracts and the statements of
-- backend/internal/contracts/postgres_repository.go.
use proof_forge.Prelude.{
  ℕ, ◌+◌, Option, none, some, Bool, true, false, ◌&&◌, List, [], ◌∷◌, ◌++◌, map, ltb, ◌==◌, count,
  select, if◌then◌else◌,
}
use proof_forge.Prelude.Table.{find, modify}
use proof_forge.Prelude.Sorting.{ascending, descending}
use proof_forge.Prelude.Action.{Action, statement, query, execute, or_fail, ◌>>=◌}
use proof_forge.Contracts.Domain.{
  Status, pending, active, fulfilled, broken, cancelled, Error, contract_not_found, db_failure,
  ProofContract, contract_keyed,
}

pub record Store : Type 0 where
  pub contracts : List ProofContract
  pub next_contract_id : ℕ

abbrev pub M : Type 0 → Type 0
M A = Action Store Error A

-- Create: the row that the INSERT returns, at the database's time.
unfoldable pub row_of : ℕ → ℕ → ProofContract → ProofContract
row_of n db_now c = record c {
  id = n;
  fulfilled_at = none;
  broken_at = none;
  cancelled_at = none;
  created_at = db_now;
  updated_at = db_now;
}

unfoldable pub insert : ℕ → ProofContract → M ProofContract
insert db_now c = statement db_failure λ s. (
  row_of s.next_contract_id db_now c,
  record {
    contracts = s.contracts ++ row_of s.next_contract_id db_now c ∷ [];
    next_contract_id = s.next_contract_id + 1;
  },
)

-- GetByID
unfoldable pub get_by_id : ℕ → M ProofContract
get_by_id id = do row ← query db_failure (λ s. find id s.contracts); or_fail row contract_not_found

-- ListByGoal
unfoldable pub list_by_goal : ℕ → M (List ProofContract)
list_by_goal goal =
    query db_failure
      (λ s. descending (λ c. c.created_at) (select (λ c. c.goal_id == goal) s.contracts))

unfoldable pub is_status : Status → Status → Bool
is_status pending pending = true
is_status active active = true
is_status fulfilled fulfilled = true
is_status broken broken = true
is_status cancelled cancelled = true
is_status _ _ = false

abbrev pub has_status : Option Status → ProofContract → Bool
has_status none c = true
has_status (some status) c = is_status c.status status

-- ListByUser
unfoldable pub list_by_user : ℕ → Option Status → M (List ProofContract)
list_by_user user status = query db_failure λ s.
    ascending (λ c. c.due_at) (select (λ c. c.user_id == user && has_status status c) s.contracts)

-- The SET list of UpdateStatus.
unfoldable pub set_status : Status → ℕ → ProofContract → ProofContract
set_status fulfilled db_now c = record c {
  status = fulfilled;
  updated_at = db_now;
  fulfilled_at = some db_now;
}
set_status broken db_now c = record c {
  status = broken;
  updated_at = db_now;
  broken_at = some db_now;
}
set_status cancelled db_now c = record c {
  status = cancelled;
  updated_at = db_now;
  cancelled_at = some db_now;
}
set_status status db_now c = record c { status = status; updated_at = db_now }

-- UpdateStatus
unfoldable pub update_status : ℕ → ℕ → Status → M (Unit {0})
update_status db_now id status =
    execute db_failure
      λ s. record s { contracts = modify id (set_status status db_now) s.contracts }

abbrev pub is_open : Status → Bool
is_open pending = true
is_open active = true
is_open _ = false

-- The WHERE clause of MarkBrokenOverdue.
unfoldable pub is_overdue : ℕ → ProofContract → Bool
is_overdue now c = is_open c.status && ltb c.due_at now

unfoldable pub mark_broken : ℕ → ℕ → ProofContract → ProofContract
mark_broken now db_now c =
    if is_overdue now c
    then record c { status = broken; broken_at = some db_now; updated_at = db_now }
    else c

-- MarkBrokenOverdue, which returns the number of rows affected.
unfoldable pub mark_broken_overdue : ℕ → ℕ → M ℕ
mark_broken_overdue now db_now = statement db_failure λ s. (
  count (is_overdue now) s.contracts,
  record s { contracts = map (mark_broken now db_now) s.contracts },
)
