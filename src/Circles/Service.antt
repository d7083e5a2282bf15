-- ===== src/Circles/Service.antt =====
-- The use cases of backend/internal/circles/service.go, the calls of its handlers, and a history of
-- such calls.
use proof_forge.Prelude.{
  ℕ, ◌+◌, ◌*◌, none, some, Bool, true, false, not, List, [], ◌∷◌, map, any, ltb, ◌==◌,
}
use proof_forge.Prelude.Text.{Text, trim_space, text_eq}
use proof_forge.Prelude.Action.{Result, pure, fail, lift, guard, ignore, ◌>>=◌, ◌>>◌}
use proof_forge.Users.{User}
use proof_forge.Goals.{hour}
use proof_forge.Circles.Domain.{
  Error, Detail, Season, SeasonEndAction, extend, start_new, other_action, SeasonEndResult,
  CircleInvitation, InviteToCircleInput, StandingEntry, WeeklyAssembly, validate_name,
  validate_code, invalid_circle_input, season_already_done, season_not_ended,
  unknown_season_end_action,
}
use proof_forge.Circles.Tables.{Store, M, is_active}
use proof_forge.Circles.Repository.{
  create_circle, list_circles_for_user, get_circle_for_user, join_circle,
}
use proof_forge.Circles.Seasons.{
  invite, list_invitations_for_user, accept_invitation, decline_invitation, get_season,
  mark_season_completed, create_extended_season, lazy_complete_expired_season,
}
use proof_forge.Circles.Windows.{Windows, season_windows}
use proof_forge.Circles.Snapshots.{list_standing_snapshots}
use proof_forge.Circles.Standings.{build_standings, build_events}

-- What a call finds outside the package: the readings of the service's clock in their order, the
-- database's clock, its order of texts and its DATE_TRUNC('week', …), Unicode's representatives
-- under case folding, and the generator of codes.
pub record Env : Type 0 where
  pub clock : ℕ → ℕ
  pub db_now : ℕ
  pub collate : Text → Text → Bool
  pub trunc_week : ℕ → ℕ
  pub fold : ℕ → ℕ
  pub code_generate : Result Error Text

abbrev pub default_member_limit : ℕ
default_member_limit = 8

abbrev pub season_length : ℕ
season_length = 7 * (24 * hour)

-- CreateCircle
unfoldable pub create : Env → User → Text → M Detail
create env actor name = do
  lift (validate_name name)
  code ← lift env.code_generate
  create_circle env.collate env.db_now (record {
    owner_user_id = actor.id;
    name = trim_space name;
    invite_code = code;
    member_limit = default_member_limit;
    starts_at = env.clock 0;
    ends_at = env.clock 0 + season_length;
  })

-- LazyCheckSeason
unfoldable pub lazy_check_season : Env → ℕ → M (Unit {0})
lazy_check_season env circle = ignore (lazy_complete_expired_season env.db_now circle)

-- GetCircle
unfoldable pub get_circle : Env → User → ℕ → M Detail
get_circle env actor circle = do
  lazy_check_season env circle
  get_circle_for_user env.collate circle actor.id

-- JoinCircle
unfoldable pub join : Env → User → Text → M Detail
join env actor code = do
  lift (validate_code code)
  join_circle env.collate
      (record { user_id = actor.id; invite_code = code; joined_at = env.clock 0 })

abbrev windows_of : Season → ℕ → Windows
windows_of season now = season_windows season.starts_at season.ends_at now

-- GetStandings
unfoldable pub get_standings : Env → User → ℕ → M (List StandingEntry)
get_standings env actor circle = do
  detail ← get_circle_for_user env.collate circle actor.id
  let w = windows_of detail.active_season (env.clock 0)
  snapshots ← list_standing_snapshots env.collate env.trunc_week circle detail.active_season w
  pure (build_standings snapshots w.week_index)

-- GetWeeklyAssembly
unfoldable pub get_weekly_assembly : Env → User → ℕ → M WeeklyAssembly
get_weekly_assembly env actor circle = do
  detail ← get_circle_for_user env.collate circle actor.id
  let w = windows_of detail.active_season (env.clock 0)
  snapshots ← list_standing_snapshots env.collate env.trunc_week circle detail.active_season w
  let standings = build_standings snapshots w.week_index
  pure (record {
    circle = detail.circle;
    season = detail.active_season;
    current_week = w.week_index;
    standings = standings;
    events = build_events standings (env.clock 1);
  })

-- strings.EqualFold
abbrev pub equal_fold : Env → Text → Text → Bool
equal_fold env s t = text_eq (map env.fold s) (map env.fold t)

-- InviteToCircle
unfoldable pub invite_to_circle : Env → User → ℕ → InviteToCircleInput → M CircleInvitation
invite_to_circle env actor circle input = do
  guard (any (λ c. c == b'@') (trim_space input.target_email)) invalid_circle_input
  guard (not (equal_fold env (trim_space input.target_email) actor.email)) invalid_circle_input
  get_circle_for_user env.collate circle actor.id
  invite env.db_now (record {
    circle_id = circle;
    inviter_user_id = actor.id;
    target_email = trim_space input.target_email;
    message = trim_space input.message;
  })

-- The switch at the end of EndSeason.
unfoldable pub after_season : Env → ℕ → SeasonEndAction → M SeasonEndResult
after_season env circle extend = do
  season ← create_extended_season circle (env.clock 1) (env.clock 1 + season_length)
  pure (record { action = extend; new_season_id = some season.id; redirect_to_goals = false })
after_season env circle start_new =
    pure (record { action = start_new; new_season_id = none; redirect_to_goals = true })
after_season env circle (other_action a) = fail unknown_season_end_action

-- EndSeason
unfoldable pub end_season : Env → User → ℕ → ℕ → SeasonEndAction → M SeasonEndResult
end_season env actor circle season action = do
  get_circle_for_user env.collate circle actor.id
  row ← get_season circle season
  guard (is_active row.status) season_already_done
  guard (not (ltb (env.clock 0) row.ends_at)) season_not_ended
  mark_season_completed season action
  after_season env circle action

pub data Request : Type 0 where
  create_request join_request : Text → Request
  list_request my_invitations_request : Request
  get_request standings_request assembly_request accept_request decline_request : ℕ → Request
  invite_request : ℕ → InviteToCircleInput → Request
  end_season_request : ℕ → ℕ → SeasonEndAction → Request

abbrev pub is_acceptance : Request → Bool
is_acceptance (accept_request id) = true
is_acceptance _ = false

unfoldable pub perform : Env → User → Request → M (Unit {0})
perform env actor (create_request name) = do create env actor name; pure tt
perform env actor (join_request code) = do join env actor code; pure tt
perform env actor list_request = do list_circles_for_user env.collate actor.id; pure tt
perform env actor my_invitations_request = do list_invitations_for_user actor.email; pure tt
perform env actor (get_request circle) = do get_circle env actor circle; pure tt
perform env actor (standings_request circle) = do get_standings env actor circle; pure tt
perform env actor (assembly_request circle) = do get_weekly_assembly env actor circle; pure tt
perform env actor (accept_request id) = accept_invitation env.db_now id actor.id
perform env actor (decline_request id) = decline_invitation id
perform env actor (invite_request circle input) = do
  invite_to_circle env actor circle input
  pure tt
perform env actor (end_season_request circle season action) = do
  end_season env actor circle season action
  pure tt

pub record Call : Type 0 where
  pub env : Env
  pub actor : User
  pub request : Request
  pub outages : List Bool

-- The store after one call.
unfoldable pub after : Call → Store → Store
after c s = (perform c.env c.actor c.request (record { store = s; outages = c.outages })).1.store

unfoldable pub serve : List Call → Store → Store
serve [] s = s
serve (c ∷ cs) s = serve cs (after c s)
