-- ===== src/Contracts/Lifecycle.antt =====
-- The life of a proof contract: pending until its buddy accepts, active, and then fulfilled, broken or
-- cancelled for good.
use proof_forge.Prelude.{ℕ, ◌≡◌, some, List, [], ◌∷◌, map, arith}
use mathlib.Core.Option
use proof_forge.Prelude.Table.{find}
use proof_forge.Contracts.Domain.{
  Status, pending, active, fulfilled, broken, cancelled, ProofContract, contract_keyed,
}
use proof_forge.Contracts.Repository.{Store, mark_broken, set_status}
use proof_forge.Contracts.Service.{Call, after}
use proof_forge.Contracts.Changes.{Change, perform-Change}

-- The edges of the state machine; the last is the nightly sweep's.
infix 40 ◌⟶◌ ◌⟶*◌
pub data ◌⟶◌ : Status → Status → Type 0 where
  accept : pending ⟶ active
  withdraw : pending ⟶ cancelled
  prove : active ⟶ fulfilled
  default : active ⟶ broken
  give_up : active ⟶ cancelled
  lapse : pending ⟶ broken

pub data ◌⟶*◌ : Status → Status → Type 0 where
  stay : {a : Status} → a ⟶* a
  go : {a b c : Status} → a ⟶ b → b ⟶* c → a ⟶* c

-- The parties and the terms are the same.
pub record IsSameDeal (c c' : ProofContract) : Type 0 where
  pub same_goal : c'.goal_id ≡ c.goal_id
  pub same_user : c'.user_id ≡ c.user_id
  pub same_buddy : c'.buddy_user_id ≡ c.buddy_user_id
  pub same_promise : c'.what_to_prove ≡ c.what_to_prove
  pub same_due : c'.due_at ≡ c.due_at

abbrev pub Follows : ℕ → ProofContract → Store → Type 0
Follows id c t =
    (c' : ProofContract) × (find id t.contracts ≡ some c')
    × IsSameDeal c c'
    × (c.status ⟶* c'.status)

pub set_status-lem :
    (next : Status) (now : ℕ) (c : ProofContract)
    → ((set_status next now c).id ≡ c.id) × ((set_status next now c).status ≡ next)
unfolding set_status
set_status-lem next now c = ground arith

pub mark_broken-id : (now db_now : ℕ) (c : ProofContract) → (mark_broken now db_now c).id ≡ c.id
unfolding mark_broken
mark_broken-id now db_now c = ground arith

pub find-map :
    (f : ProofContract → ProofContract) (id : ℕ) (cs : List ProofContract)
    → ((c : ProofContract) → (f c).id ≡ c.id)
    → find id (map f cs) ≡ Option.map f (find id cs)
unfolding find
find-map f id [] keep = ground arith
find-map f id (c ∷ cs) keep = ground (arith, keep c, find-map f id cs keep)

pub after-Change : (k : Call) (s : Store) → Change s (after k s)
unfolding after
after-Change k s = perform-Change k.env k.request (record { store = s; outages = k.outages })
