-- ===== src/Goals/Histories.antt =====
-- Every call of the goals component keeps invites, pacts and goals in step.
use proof_forge.Prelude.{
  ℕ, Option, none, some, List, [], ◌∷◌, find_by, ltb, ◌==◌, Bool-cases, inl, inr,
}
use proof_forge.Prelude.Text.{Text, trim_space}
use proof_forge.Prelude.Triple.{Triple, Anything}
use proof_forge.Users.{User, user_keyed}
use proof_forge.Goals.Domain.{
  goal_keyed, CreateInput, db_failure, validate, normalize, validate_draft, invite_not_found,
  goal_not_found, goal_refine_rate_limited,
}
use proof_forge.Goals.Tables.{pact_keyed, Store, invite_keyed, GoalRefineResponse}
use proof_forge.Goals.Queries.{
  list_goals_for_user, is_circle_member, is_circle_member_by_email, has_active_goal_in_circle,
  count_goal_refine_requests_since, insert_goal_refine_request, find_goal_refine_cache,
  save_goal_refine_cache, load_invite, find_invite_by_token,
}
use proof_forge.Goals.Service.{
  Env, create_normal, create_goal, choose_circle, require_circle, goal_params, dashboard, get_goal,
  get_invite_preview, invite_mail, hand_token, summarize,
}
use proof_forge.Goals.Refine.{
  refine_goal, admit_request, answer, ask_provider, cached_or_asked, normalize_response,
  goal_refine_rate_limit,
}
use proof_forge.Goals.Requests.{
  Request, create_request, dashboard_request, goal_request, preview_request, accept_request,
  refine_request, perform, Call, after, serve,
}
use proof_forge.Goals.Consistency.{AreInStep}
use proof_forge.Goals.Agreement.{spares, then_do, same_rows, create-triple, goal_params-IsWaiting}
use proof_forge.Goals.Accepting.{
  reads, checks, lifts, gives, finds, send-triple, accept_invite-triple,
}

require_circle-triple :
    (owner : User) (input : CreateInput) → Triple AreInStep (require_circle owner input) Anything
unfolding require_circle is_circle_member is_circle_member_by_email has_active_goal_in_circle
require_circle-triple owner input = then_do AreInStep _ _ (reads _) λ a.
    then_do AreInStep _ _ (checks a _) λ u.
      then_do AreInStep _ _ (reads _)
        λ b. then_do AreInStep _ _ (checks b _) λ v. then_do AreInStep _ _ (reads _) λ c. checks _ _

choose_circle-triple :
    (env : Env) (owner : User) (input : CreateInput)
    → Triple AreInStep (choose_circle env owner input) Anything
unfolding choose_circle
choose_circle-triple env owner input = elim (Bool-cases (ltb 0 input.circle_id)) [
  | inl given ↦ rw given (then_do AreInStep _ _ (require_circle-triple owner input) (λ u. gives _))
  | inr new ↦ rw new (then_do AreInStep _ _ (lifts _) (λ code. gives _))
]

create_normal-triple :
    (env : Env) (owner : User) (input : CreateInput)
    → Triple AreInStep (create_normal env owner input) Anything
unfolding create_normal
create_normal-triple env owner input =
    then_do AreInStep _ _ (choose_circle-triple env owner input) λ circle.
      then_do AreInStep _ _ (lifts env.token_generate) λ token.
        then_do AreInStep _ _
          (create-triple env.db_now (goal_params env owner input circle token)
            (goal_params-IsWaiting env owner input circle token))
          λ view.
            then_do AreInStep _ _ (send-triple (invite_mail env owner input token))
              (λ v. gives (record view { invite = hand_token token view.invite }))

create_goal-triple :
    (env : Env) (owner : User) (input : CreateInput)
    → Triple AreInStep (create_goal env owner input) Anything
unfolding create_goal
create_goal-triple env owner input =
    then_do AreInStep _ _ (lifts (validate env.lower owner input))
      λ u. create_normal-triple env owner (normalize env.lower input)

ask_provider-triple :
    (env : Env) (draft : Text) → Triple AreInStep (ask_provider env draft) Anything
unfolding ask_provider save_goal_refine_cache
ask_provider-triple env draft = then_do AreInStep _ _ (lifts (env.refine draft)) λ answer.
    then_do AreInStep _ _ (lifts (normalize_response answer))
      λ response. then_do AreInStep _ _ (spares db_failure _ same_rows) (λ u. gives response)

cached-triple :
    (env : Env) (draft : Text) (cached : Option GoalRefineResponse)
    → Triple AreInStep (cached_or_asked env draft cached) Anything
cached-triple env draft none = ask_provider-triple env draft
cached-triple env draft (some response) = gives response

admit-triple :
    (env : Env) (actor : User) (draft : Text)
    → Triple AreInStep (admit_request env actor draft) Anything
unfolding admit_request count_goal_refine_requests_since insert_goal_refine_request
admit-triple env actor draft = then_do AreInStep _ _ (reads _) λ n.
    then_do AreInStep _ _ (checks (ltb n goal_refine_rate_limit) goal_refine_rate_limited)
      λ u. spares db_failure _ same_rows

answer-triple : (env : Env) (draft : Text) → Triple AreInStep (answer env draft) Anything
unfolding answer find_goal_refine_cache
answer-triple env draft = then_do AreInStep _ _ (reads _) (cached-triple env draft)

refine_goal-triple :
    (env : Env) (actor : User) (draft : Text)
    → Triple AreInStep (refine_goal env actor draft) Anything
unfolding refine_goal
refine_goal-triple env actor draft = then_do AreInStep _ _ (lifts (validate_draft draft)) λ u.
    then_do AreInStep _ _ (admit-triple env actor (trim_space draft))
      λ v. answer-triple env (trim_space draft)

list-triple : (user : ℕ) → Triple AreInStep (list_goals_for_user user) Anything
unfolding list_goals_for_user
list-triple user = reads _

find_invite-triple : (hash : Text) → Triple AreInStep (find_invite_by_token hash) Anything
unfolding find_invite_by_token
find_invite-triple hash =
    then_do AreInStep _ _ (reads (load_invite hash)) (λ row. finds row invite_not_found)

dashboard-triple : (owner : User) → Triple AreInStep (dashboard owner) Anything
unfolding dashboard
dashboard-triple owner =
    then_do AreInStep _ _ (list-triple owner.id) (λ views. gives (summarize views, views))

get_goal-triple : (actor : User) (id : ℕ) → Triple AreInStep (get_goal actor id) Anything
unfolding get_goal
get_goal-triple actor id =
    then_do AreInStep _ _ (list-triple actor.id)
      (λ views. finds (find_by (λ v. v.goal.id == id) views) goal_not_found)

perform-triple_in_step :
    (env : Env) (actor : User) (r : Request) → Triple AreInStep (perform env actor r) Anything
unfolding perform get_invite_preview
perform-triple_in_step env actor (create_request input) =
    then_do AreInStep _ _ (create_goal-triple env actor input) (λ v. gives tt)
perform-triple_in_step env actor dashboard_request =
    then_do AreInStep _ _ (dashboard-triple actor) (λ v. gives tt)
perform-triple_in_step env actor (goal_request id) =
    then_do AreInStep _ _ (get_goal-triple actor id) (λ v. gives tt)
perform-triple_in_step env actor (preview_request token) =
    then_do AreInStep _ _ (find_invite-triple (env.hash token)) (λ v. gives tt)
perform-triple_in_step env actor (accept_request token) = accept_invite-triple env actor token
perform-triple_in_step env actor (refine_request draft) =
    then_do AreInStep _ _ (refine_goal-triple env actor draft) (λ v. gives tt)

after-AreInStep : (c : Call) (s : Store) → AreInStep s → AreInStep (after c s)
unfolding after
after-AreInStep c s h =
    ((perform-triple_in_step c.env c.actor c.request).at (record { store = s; outages = c.outages })
      h).0

-- Through any history of calls and outages, every invite has its pact and its goal in the tables, and
-- the three are in step: a pending invite has a pact that is only invited and a goal that waits for
-- its buddy, an accepted one an active pact and an active goal; and no two invites share either.
pub serve-AreInStep : (cs : List Call) (s : Store) → AreInStep s → AreInStep (serve cs s)
unfolding serve
serve-AreInStep [] s h = h
serve-AreInStep (c ∷ cs) s h = serve-AreInStep cs (after c s) (after-AreInStep c s h)
