-- ===== src/Contracts/Domain.antt =====
-- The contract and its rules (backend/internal/contracts/domain.go).
use proof_forge.Prelude.{ℕ, ◌-◌, ◌*◌, Option, Bool, true, false, ltb, if◌then◌else◌}
use proof_forge.Prelude.Text.{Text, trim_space, byte_length, is_empty}
use proof_forge.Prelude.Table.{Keyed}
use proof_forge.Prelude.Action.{Result, ok, err}

pub data Status : Type 0 where
  pending active fulfilled broken cancelled : Status

pub data Urgency : Type 0 where
  overdue today tomorrow this_week later : Urgency

pub data Error : Type 0 where
  contract_not_found invalid_contract invalid_transition forbidden db_failure : Error

-- Times are nanoseconds.
pub record ProofContract : Type 0 where
  pub id : ℕ
  pub goal_id : ℕ
  pub user_id : ℕ
  pub buddy_user_id : Option ℕ
  pub what_to_prove : Text
  pub how_to_prove : Text
  pub due_at : ℕ
  pub status : Status
  pub fulfilled_at : Option ℕ
  pub broken_at : Option ℕ
  pub cancelled_at : Option ℕ
  pub created_at : ℕ
  pub updated_at : ℕ

instance abbrev pub contract_keyed : Keyed ProofContract
contract_keyed = record { key = λ c. c.id }

abbrev pub hour : ℕ
hour = 3600 * 1000000000

-- Urgency; `later` also stands for a difference that Sub caps.
unfoldable pub urgency : ProofContract → ℕ → Urgency
urgency c now =
    if ltb c.due_at now
    then overdue
    else if ltb (c.due_at - now) (24 * hour)
    then today
    else if ltb (c.due_at - now) (48 * hour)
    then tomorrow
    else if ltb (c.due_at - now) (7 * (24 * hour))
    then this_week
    else later

-- The switch of CanTransitionTo.
unfoldable pub allows : Status → Status → Bool
allows pending active = true
allows pending cancelled = true
allows active fulfilled = true
allows active broken = true
allows active cancelled = true
allows _ _ = false

-- CanTransitionTo
unfoldable pub can_transition_to : ProofContract → Status → Bool
can_transition_to c next = allows c.status next

-- ValidateWhatToProve
unfoldable pub validate_what_to_prove : Text → Result Error (Unit {0})
validate_what_to_prove s =
    if is_empty (trim_space s)
    then err invalid_contract
    else if ltb 2000 (byte_length s)
    then err invalid_contract
    else ok tt
