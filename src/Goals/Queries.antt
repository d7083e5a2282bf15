-- ===== src/Goals/Queries.antt =====
-- The statements of backend/internal/goals/postgres_repository.go besides those of the creation: lists
-- of goals, circles, the refinement's tables, and invites.
use proof_forge.Prelude.{
  ℕ, Option, none, some, Bool, true, false, ◌&&◌, ◌||◌, List, [], ◌∷◌, ◌++◌, map, any, count,
  select, concat_map, find_by, leb, ◌==◌, if◌then◌else◌,
}
use mathlib.Core.Option
use proof_forge.Prelude.Text.{Text, text_eq, codes}
use proof_forge.Prelude.Table.{find, modify}
use proof_forge.Prelude.Sorting.{descending}
use proof_forge.Prelude.Action.{statement, query, execute, or_fail, guard, transaction, ◌>>=◌, ◌>>◌}
use proof_forge.Users.{User, user_keyed}
use proof_forge.Goals.Domain.{
  Goal, GoalStatus, PactStatus, InviteStatus, pending, accepted, GoalView, ViewerRole, as_owner,
  as_buddy, InviteRecord, db_failure, invite_not_found, invite_already_accepted, goal_keyed,
}
use proof_forge.Goals.Tables.{
  PactRow, InviteRow, Membership, RefineRequest, GoalRefineResponse, CachedResponse, Store, M,
  is_just, is_goal_in, has_email, has_token, pact_keyed, invite_keyed,
}
use proof_forge.Goals.Repository.{pact_of, invite_of, tx_mark}

-- The rows that a LEFT JOIN sets beside a row: those that match, or one of NULLs.
abbrev pub outer : {A : Type 0} → List A → List (Option A)
outer [] = none ∷ []
outer (x ∷ xs) = some x ∷ map some xs

abbrev pub buddy_of : Option ℕ → List User → Option User
buddy_of none users = none
buddy_of (some id) users = find id users

-- CASE WHEN g.owner_user_id = $1 THEN 'owner' ELSE 'buddy' END
abbrev pub role_of : ℕ → Goal → ViewerRole
role_of user g = if g.owner_user_id == user then as_owner else as_buddy

abbrev pub view_of : ℕ → Store → Goal → Option PactRow → Option InviteRow → GoalView
view_of user s g p i = record {
  goal = g;
  buddy = buddy_of g.buddy_user_id s.users;
  pact = Option.map pact_of p;
  invite = Option.map (invite_of []) i;
  viewer_role = some (role_of user g);
}

-- The rows of one goal, joined with its pacts and its invites.
abbrev pub views_of : ℕ → Store → Goal → List GoalView
views_of user s g =
    concat_map (λ p. map (view_of user s g p) (outer (select (λ i. i.goal_id == g.id) s.invites)))
      (outer (select (λ p. p.goal_id == g.id) s.pacts))

-- WHERE g.owner_user_id = $1 OR g.buddy_user_id = $1
abbrev pub concerns : ℕ → Goal → Bool
concerns user g = g.owner_user_id == user || is_just user g.buddy_user_id

-- ListGoalsForUser
unfoldable pub list_goals_for_user : ℕ → M (List GoalView)
list_goals_for_user user = query db_failure λ s.
    concat_map (views_of user s) (descending (λ g. g.created_at) (select (concerns user) s.goals))

abbrev is_fresh : Text → ℕ → CachedResponse → Bool
is_fresh hash min_created_at c = text_eq c.hash hash && leb min_created_at c.created_at

abbrev pub response_of : Option CachedResponse → Option GoalRefineResponse
response_of none = none
response_of (some c) = some c.response

-- FindGoalRefineCache; the stored JSON stands for the response itself.
unfoldable pub find_goal_refine_cache : Text → ℕ → M (Option GoalRefineResponse)
find_goal_refine_cache hash min_created_at =
    query db_failure (λ s. response_of (find_by (is_fresh hash min_created_at) s.refine_cache))

-- INSERT … ON CONFLICT (hash) DO UPDATE
unfoldable pub put_cached : CachedResponse → List CachedResponse → List CachedResponse
put_cached c [] = c ∷ []
put_cached c (x ∷ xs) =
    let rest = put_cached c xs in if text_eq x.hash c.hash then c ∷ xs else x ∷ rest

-- SaveGoalRefineCache
unfoldable pub save_goal_refine_cache : ℕ → Text → GoalRefineResponse → M (Unit {0})
save_goal_refine_cache db_now hash response = execute db_failure λ s. record s {
  refine_cache =
      put_cached (record { hash = hash; response = response; created_at = db_now }) s.refine_cache;
}

-- WHERE user_id = $1 AND created_at >= $2
abbrev pub is_since : ℕ → ℕ → RefineRequest → Bool
is_since user since r = r.user_id == user && leb since r.created_at

-- CountGoalRefineRequestsSince
unfoldable pub count_goal_refine_requests_since : ℕ → ℕ → M ℕ
count_goal_refine_requests_since user since =
    query db_failure (λ s. count (is_since user since) s.refine_requests)

-- InsertGoalRefineRequest
unfoldable pub insert_goal_refine_request : ℕ → ℕ → Text → M (Unit {0})
insert_goal_refine_request db_now user hash = execute db_failure λ s. record s {
  refine_requests =
      s.refine_requests ++ record { user_id = user; draft_hash = hash; created_at = db_now } ∷ [];
}

abbrev pub is_active_member : ℕ → ℕ → Membership → Bool
is_active_member circle user m =
    m.circle_id == circle && m.user_id == user && text_eq m.status (codes "active")

-- IsCircleMember
unfoldable pub is_circle_member : ℕ → ℕ → M Bool
is_circle_member circle user =
    query db_failure (λ s. any (is_active_member circle user) s.memberships)

-- IsCircleMemberByEmail: a membership of a user with the address.
unfoldable pub is_circle_member_by_email : ℕ → Text → M Bool
is_circle_member_by_email circle email =
    query db_failure
      λ s. any (λ u. has_email email u && any (is_active_member circle u.id) s.memberships) s.users

-- HasActiveGoalInCircle
unfoldable pub has_active_goal_in_circle : ℕ → ℕ → M Bool
has_active_goal_in_circle circle owner =
    query db_failure (λ s. any (is_goal_in circle owner) s.goals)

abbrev pub record_of : InviteRow → Option User → Option Goal → Option User → Option InviteRecord
record_of i (some invitee) (some g) (some owner) = some record {
  invite_id = i.id;
  invite_status = i.status;
  expires_at = i.expires_at;
  goal_id = i.goal_id;
  goal_title = g.title;
  goal_status = g.status;
  pact_id = i.pact_id;
  inviter_id = i.inviter_user_id;
  invitee_id = i.invitee_user_id;
  invitee_email = invitee.email;
  owner_name = owner.display_name;
  owner_email = owner.email;
}
record_of i _ _ _ = none

abbrev pub joined : Store → Option InviteRow → Option InviteRecord
joined s none = none
joined s (some i) =
    record_of i (find i.invitee_user_id s.users) (find i.goal_id s.goals)
      (find i.inviter_user_id s.users)

-- The rows of the query of FindInviteByToken: the invite joined with its goal and its two users.
unfoldable pub load_invite : Text → Store → Option InviteRecord
load_invite hash s = joined s (find_by (has_token hash) s.invites)

-- FindInviteByToken
unfoldable pub find_invite_by_token : Text → M InviteRecord
find_invite_by_token hash = do
  row ← query db_failure (load_invite hash)
  or_fail row invite_not_found

-- status='pending'
abbrev pub is_open : InviteStatus → Bool
is_open pending = true
is_open accepted = false

abbrev is_open_row : Option InviteRow → Bool
is_open_row none = false
is_open_row (some i) = is_open i.status

unfoldable pub accept_row : ℕ → InviteRow → InviteRow
accept_row at i =
    if is_open i.status then record i { status = accepted; accepted_at = some at } else i

unfoldable pub activate_pact : ℕ → PactRow → PactRow
activate_pact at p = record p { status = PactStatus.active; accepted_at = some at; updated_at = at }

unfoldable pub activate_goal : ℕ → Goal → Goal
activate_goal at g = record g { status = GoalStatus.active; updated_at = at }

-- The UPDATE of the invite, guarded by its status; whether a row was affected.
unfoldable pub accept_pending : ℕ → ℕ → M Bool
accept_pending id at = statement db_failure λ s.
    (is_open_row (find id s.invites), record s { invites = modify id (accept_row at) s.invites })

unfoldable pub update_pact : ℕ → ℕ → M (Unit {0})
update_pact id at =
    execute db_failure λ s. record s { pacts = modify id (activate_pact at) s.pacts }

unfoldable pub update_goal : ℕ → ℕ → M (Unit {0})
update_goal id at =
    execute db_failure λ s. record s { goals = modify id (activate_goal at) s.goals }

-- AcceptInvite
unfoldable pub accept_rows : ℕ → ℕ → ℕ → ℕ → M (Unit {0})
accept_rows invite pact goal at = transaction do
  tx_mark
  affected ← accept_pending invite at
  guard affected invite_already_accepted
  update_pact pact at
  update_goal goal at
  tx_mark
