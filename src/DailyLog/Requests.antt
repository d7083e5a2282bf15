-- ===== src/DailyLog/Requests.antt =====
-- The calls that backend/internal/dailylog/http_handler.go and the nightly worker make, and a history
-- of such calls.
use proof_forge.Prelude.{ℕ, Bool, List, [], ◌∷◌}
use proof_forge.Prelude.Action.{pure, ◌>>◌}
use proof_forge.Prelude.Text.{Text}
use proof_forge.DailyLog.Repository.{Store, M}
use proof_forge.DailyLog.Service.{
  Env, SubmitInput, submit_log, freeze_day, day_rollover, list_my_entries, get_my_streak,
}

pub data Request : Type 0 where
  log_request : SubmitInput → Request
  freeze_request : ℕ → ℕ → ℕ → Request
  rollover_request : Text → ℕ → ℕ → Request
  list_request : ℕ → ℕ → ℕ → ℕ → Request
  streak_request : ℕ → ℕ → Request

unfoldable pub perform : Env → Request → M (Unit {0})
perform env (log_request input) = do submit_log env input; pure tt
perform env (freeze_request user team date) = do freeze_day env user team date; pure tt
perform env (rollover_request timezone user team) = day_rollover env timezone user team
perform env (list_request user team from to) = do list_my_entries user team from to; pure tt
perform env (streak_request user team) = do get_my_streak user team; pure tt

pub record Call : Type 0 where
  pub env : Env
  pub request : Request
  pub outages : List Bool

-- The store after one call.
unfoldable pub after : Call → Store → Store
after c s = (perform c.env c.request (record { store = s; outages = c.outages })).1.store

unfoldable pub serve : List Call → Store → Store
serve [] s = s
serve (c ∷ cs) s = serve cs (after c s)
