-- ===== src/Contracts/Listing.antt =====
-- What the list of a user's active contracts holds, and in which order.
use mathlib.Core.List.{Perm}
use proof_forge.Prelude.{ℕ, ◌≤◌, ◌≡◌, ◌&&◌, List, [], arith, ◌==◌, select}
use proof_forge.Prelude.Action.{ok, World}
use proof_forge.Prelude.Sorting.{ascending, sort_by-perm, IsOrdered, ascending-IsOrdered}
use proof_forge.Contracts.Domain.{ProofContract, active}
use proof_forge.Contracts.Repository.{Store, list_by_user, is_status}
use proof_forge.Contracts.Service.{list_active}

abbrev pub active_of : ℕ → Store → List ProofContract
active_of user s = select (λ c. c.user_id == user && is_status c.status active) s.contracts

list_active-runs :
    (user : ℕ) (w : World Store)
    → w.outages ≡ []
    → (list_active user w).0 ≡ ok (ascending (λ c. c.due_at) (active_of user w.store))
unfolding list_active list_by_user
list_active-runs user w up = ground arith

-- While the database answers, ListActive returns the user's contracts with the status active, each
-- as often as the table has it and no other, the earliest due date first.
pub list_active-lists :
    (user : ℕ) (w : World Store)
    → w.outages ≡ []
    → (cs : List ProofContract) × ((list_active user w).0 ≡ ok cs)
      × Perm cs (active_of user w.store)
      × IsOrdered (λ c d. c.due_at ≤ d.due_at) cs
list_active-lists user w up = (
  ascending (λ c. c.due_at) (active_of user w.store),
  list_active-runs user w up,
  sort_by-perm _ (active_of user w.store),
  ascending-IsOrdered (λ c. c.due_at) (active_of user w.store),
)
