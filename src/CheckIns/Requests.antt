-- ===== src/CheckIns/Requests.antt =====
-- The calls that the handlers of backend/internal/checkins/http_handler.go make of the service, and
-- a history of such calls by any users at any times, under any outages.
use proof_forge.Prelude.{ℕ, Bool, List, [], ◌∷◌}
use proof_forge.Prelude.Action.{pure, ◌>>◌}
use proof_forge.Prelude.Text.{Text}
use proof_forge.Users.{User}
use proof_forge.CheckIns.Domain.{Decision}
use proof_forge.CheckIns.Mime.{Mime}
use proof_forge.CheckIns.Repository.{Store, M}
use proof_forge.CheckIns.Service.{
  Env, create, submit, add_text_evidence, add_link_evidence, add_file_evidence, review, get_detail,
  list_for_goal,
}

pub data Request : Type 0 where
  create_request submit_request detail_request list_request : ℕ → Request
  text_request link_request : ℕ → Text → Request
  file_request : ℕ → List ℕ → Mime → Request
  review_request : ℕ → Decision → Text → Request

unfoldable pub perform : Env → User → Request → M (Unit {0})
perform env actor (create_request goal) = do create env actor goal; pure tt
perform env actor (submit_request id) = submit env actor id
perform env actor (detail_request id) = do get_detail env actor id; pure tt
perform env actor (list_request goal) = do list_for_goal actor goal; pure tt
perform env actor (text_request id content) = do add_text_evidence env actor id content; pure tt
perform env actor (link_request id url) = do add_link_evidence env actor id url; pure tt
perform env actor (file_request id bytes mime) = do
  add_file_evidence env actor id bytes mime
  pure tt
perform env actor (review_request id d comment) = do review env actor id d comment; pure tt

pub record Call : Type 0 where
  pub env : Env
  pub actor : User
  pub request : Request
  pub outages : List Bool

-- The store after one call.
unfoldable pub after : Call → Store → Store
after c s = (perform c.env c.actor c.request (record { store = s; outages = c.outages })).1.store

unfoldable pub serve : List Call → Store → Store
serve [] s = s
serve (c ∷ cs) s = serve cs (after c s)
