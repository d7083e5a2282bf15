-- ===== src/Contracts/Examples.antt =====
-- Tests of contracts on a small table.
use mathlib.Core.List.{Perm}
use proof_forge.Prelude.{ℕ, ◌≡◌, ◌≤◌, refl, none, some, List, [], ◌∷◌}
use proof_forge.Prelude.Text.{codes}
use proof_forge.Prelude.Table.{find}
use proof_forge.Prelude.Action.{ok, World}
use proof_forge.Prelude.Sorting.{IsOrdered}
use proof_forge.Contracts.Domain.{ProofContract, Status, pending, active, fulfilled, contract_keyed}
use proof_forge.Contracts.Repository.{Store, mark_broken_overdue, is_overdue}
use proof_forge.Contracts.Service.{
  Request, activate_request, fulfill_request, cancel_request, overdue_request, Call, serve,
  list_active,
}
use proof_forge.Contracts.Closed.{serve-closed, mark_broken_overdue-answer, Sweep}
use proof_forge.Contracts.Listing.{active_of, list_active-lists}

abbrev contract : ℕ → Status → ℕ → ProofContract
contract id status due = record {
  id = id;
  goal_id = 5;
  user_id = 1;
  buddy_user_id = some 2;
  what_to_prove = codes "run";
  how_to_prove = [];
  due_at = due;
  status = status;
  fulfilled_at = none;
  broken_at = none;
  cancelled_at = none;
  created_at = 0;
  updated_at = 0;
}

abbrev tables : Store
tables = record {
  contracts = contract 1 pending 50 ∷ contract 2 active 20 ∷ contract 3 fulfilled 10 ∷ [];
  next_contract_id = 4;
}

abbrev up : World Store
up = record { store = tables; outages = [] }

abbrev call : Request → Call
call r = record { env = record { now = 30; db_now = 31 }; request = r; outages = [] }

abbrev history : List Call
history =
    call (activate_request 1 2)
    ∷ call overdue_request
    ∷ call (fulfill_request 1 1)
    ∷ call (cancel_request 3 1)
    ∷ []

serve-closed_example : find 3 (serve history tables).contracts ≡ some (contract 3 fulfilled 10)
unfolding find
serve-closed_example = serve-closed history 3 (contract 3 fulfilled 10) tables tt refl

swept : (mark_broken_overdue 30 31 up).0 ≡ ok 1
unfolding mark_broken_overdue is_overdue
swept = refl

mark_broken_overdue-answer_example :
    Sweep 30 31 tables.contracts (mark_broken_overdue 30 31 up).1.store.contracts 1
mark_broken_overdue-answer_example = mark_broken_overdue-answer 30 31 up 1 swept

list_active-lists_example :
    (cs : List ProofContract) × ((list_active 1 up).0 ≡ ok cs)
    × Perm cs (active_of 1 tables)
    × IsOrdered (λ c d. c.due_at ≤ d.due_at) cs
list_active-lists_example = list_active-lists 1 up refl
