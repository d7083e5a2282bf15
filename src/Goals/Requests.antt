-- ===== src/Goals/Requests.antt =====
-- The calls of the handlers of backend/internal/goals/http_handler.go, and a history of such calls.
use proof_forge.Prelude.{ℕ, Bool, List, [], ◌∷◌}
use proof_forge.Prelude.Text.{Text}
use proof_forge.Prelude.Action.{pure, ◌>>◌}
use proof_forge.Users.{User}
use proof_forge.Goals.Domain.{CreateInput}
use proof_forge.Goals.Tables.{Store, M}
use proof_forge.Goals.Service.{
  Env, create_goal, dashboard, get_goal, get_invite_preview, accept_invite,
}
use proof_forge.Goals.Refine.{refine_goal}

pub data Request : Type 0 where
  create_request : CreateInput → Request
  dashboard_request : Request
  goal_request : ℕ → Request
  preview_request accept_request refine_request : Text → Request

unfoldable pub perform : Env → User → Request → M (Unit {0})
perform env actor (create_request input) = do create_goal env actor input; pure tt
perform env actor dashboard_request = do dashboard actor; pure tt
perform env actor (goal_request id) = do get_goal actor id; pure tt
perform env actor (preview_request token) = do get_invite_preview env token; pure tt
perform env actor (accept_request token) = accept_invite env actor token
perform env actor (refine_request draft) = do refine_goal env actor draft; pure tt

pub record Call : Type 0 where
  pub env : Env
  pub actor : User
  pub request : Request
  pub outages : List Bool

-- The store after one call.
unfoldable pub after : Call → Store → Store
after c s = (perform c.env c.actor c.request (record { store = s; outages = c.outages })).1.store

unfoldable pub serve : List Call → Store → Store
serve [] s = s
serve (c ∷ cs) s = serve cs (after c s)
