-- ===== src/Users.antt =====
-- The parts of a user (backend/internal/users/domain.go) that the use cases read.
use proof_forge.Prelude.{ℕ}
use proof_forge.Prelude.Table.{Keyed}
use proof_forge.Prelude.Text.{Text}

pub record User : Type 0 where
  pub id : ℕ
  pub email : Text
  pub display_name : Text

instance abbrev pub user_keyed : Keyed User
user_keyed = record { key = λ u. u.id }
