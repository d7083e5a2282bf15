-- ===== src/Goals/Calls.antt =====
-- Properties of the tables that every call of the goals component keeps.
use proof_forge.Prelude.{
  List, leb, find_by, ◌==◌, ℕ, refl, Option, none, some, ltb, Bool-cases, inl, inr,
}
use proof_forge.Prelude.Text.{Text, trim_space}
use proof_forge.Prelude.Triple.{Triple, Anything, triple_execute, triple_transaction}
use proof_forge.Users.{User}
use proof_forge.Goals.Domain.{
  validate_draft, goal_refine_rate_limited, validate, normalize, InviteRecord,
  invite_already_accepted, invite_expired, unauthorized_acceptance, invite_not_found,
  goal_not_found, goal_keyed, CreateInput, db_failure,
}
use proof_forge.Goals.Tables.{GoalRefineResponse, RefineRequest, invite_accepted, Store}
use proof_forge.Goals.Queries.{
  count_goal_refine_requests_since, insert_goal_refine_request, find_goal_refine_cache,
  save_goal_refine_cache, load_invite, is_open, is_circle_member, is_circle_member_by_email,
  has_active_goal_in_circle, list_goals_for_user, find_invite_by_token, accept_pending, update_pact,
  update_goal, accept_rows,
}
use proof_forge.Goals.Service.{
  invite_mail, hand_token, acceptance_mail, name_of, equal_fold, summarize, Env, require_circle,
  choose_circle, create_normal, create_goal, dashboard, get_goal, get_invite_preview,
  require_acceptable, accept_invite,
}
use proof_forge.Goals.Refine.{
  ask_provider, cached_or_asked, admit_request, answer, goal_refine_rate_limit, normalize_response,
  refine_goal,
}
use proof_forge.Goals.Requests.{
  Request, create_request, dashboard_request, goal_request, preview_request, accept_request,
  refine_request, perform,
}
use proof_forge.Goals.Frame.{
  IsKept, reads, untouched, found, then_do, guarded, lifted, done, send-triple, emit-triple,
  create_goal_with_invite-triple, mark,
}

module _ (P : Store → Type 0) (k : IsKept P) where
  require_circle-triple :
      (owner : User) (input : CreateInput) → Triple P (require_circle owner input) Anything
  unfolding require_circle is_circle_member is_circle_member_by_email has_active_goal_in_circle
  require_circle-triple owner input = then_do P k _ _ (reads P k _) λ a.
      then_do P k _ _ (guarded P k a _) λ u. then_do P k _ _ (reads P k _) λ b.
        then_do P k _ _ (guarded P k b _) λ v. then_do P k _ _ (reads P k _) λ c. guarded P k _ _

  choose_circle-triple :
      (env : Env) (owner : User) (input : CreateInput)
      → Triple P (choose_circle env owner input) Anything
  unfolding choose_circle
  choose_circle-triple env owner input = elim (Bool-cases (ltb 0 input.circle_id)) [
    | inl given ↦ rw given (then_do P k _ _ (require_circle-triple owner input) (λ u. done P k _))
    | inr new ↦ rw new (then_do P k _ _ (lifted P k _) (λ code. done P k _))
  ]

  create_normal-triple :
      (env : Env) (owner : User) (input : CreateInput)
      → Triple P (create_normal env owner input) Anything
  unfolding create_normal
  create_normal-triple env owner input =
      then_do P k _ _ (choose_circle-triple env owner input) λ circle.
        then_do P k _ _ (lifted P k env.token_generate) λ token.
          then_do P k _ _ (create_goal_with_invite-triple P k env.db_now _) λ view.
            then_do P k _ _ (send-triple P k (invite_mail env owner input token))
              (λ v. done P k (record view { invite = hand_token token view.invite }))

  create_goal-triple :
      (env : Env) (owner : User) (input : CreateInput)
      → Triple P (create_goal env owner input) Anything
  unfolding create_goal
  create_goal-triple env owner input =
      then_do P k _ _ (lifted P k (validate env.lower owner input))
        λ u. create_normal-triple env owner (normalize env.lower input)

  accept_rows-triple :
      (invite pact goal at : ℕ) → Triple P (accept_rows invite pact goal at) Anything
  unfolding accept_rows accept_pending update_pact update_goal
  accept_rows-triple invite pact goal at = triple_transaction P _ Anything (
      then_do P k _ _ (mark P k) λ begun.
        then_do P k _ _ (untouched P k db_failure _ (λ s. (refl, refl))) λ affected.
          then_do P k _ _ (guarded P k affected _) λ u.
            then_do P k _ _ (untouched P k db_failure _ (λ s. (refl, refl))) λ v.
              then_do P k _ _
                (triple_execute P db_failure _ (λ s h. k.by_activation s _ goal at refl refl h))
                (λ ended. mark P k))

  require_acceptable-triple :
      (env : Env) (actor : User) (r : InviteRecord)
      → Triple P (require_acceptable env actor r) Anything
  unfolding require_acceptable
  require_acceptable-triple env actor r =
      then_do P k _ _ (guarded P k (is_open r.invite_status) invite_already_accepted) λ a.
        then_do P k _ _ (guarded P k (leb (env.clock 0) r.expires_at) invite_expired)
          λ b. guarded P k (equal_fold env actor.email r.invitee_email) unauthorized_acceptance

  find_invite-triple : (hash : Text) → Triple P (find_invite_by_token hash) Anything
  unfolding find_invite_by_token
  find_invite-triple hash =
      then_do P k _ _ (reads P k (load_invite hash)) (λ row. found P k row invite_not_found)

  accept_invite-triple :
      (env : Env) (actor : User) (token : Text) → Triple P (accept_invite env actor token) Anything
  unfolding accept_invite
  accept_invite-triple env actor token = then_do P k _ _ (find_invite-triple (env.hash token)) λ r.
      then_do P k _ _ (require_acceptable-triple env actor r) λ u.
        then_do P k _ _ (accept_rows-triple r.invite_id r.pact_id r.goal_id (env.clock 1)) λ v.
          then_do P k _ _ (send-triple P k (acceptance_mail env actor r))
            (λ x. emit-triple P k (invite_accepted r.goal_id r.inviter_id (name_of actor)))

  list-triple : (user : ℕ) → Triple P (list_goals_for_user user) Anything
  unfolding list_goals_for_user
  list-triple user = reads P k _

  dashboard-triple : (owner : User) → Triple P (dashboard owner) Anything
  unfolding dashboard
  dashboard-triple owner =
      then_do P k _ _ (list-triple owner.id) (λ views. done P k (summarize views, views))

  get_goal-triple : (actor : User) (id : ℕ) → Triple P (get_goal actor id) Anything
  unfolding get_goal
  get_goal-triple actor id =
      then_do P k _ _ (list-triple actor.id)
        (λ views. found P k (find_by (λ v. v.goal.id == id) views) goal_not_found)

  -- Every call keeps the property if a refinement does.
  pub perform-triple :
      (env : Env) (actor : User) (r : Request)
      → ((draft : Text) → Triple P (refine_goal env actor draft) Anything)
      → Triple P (perform env actor r) Anything
  unfolding perform get_invite_preview
  perform-triple env actor (create_request input) refines =
      then_do P k _ _ (create_goal-triple env actor input) (λ v. done P k tt)
  perform-triple env actor dashboard_request refines =
      then_do P k _ _ (dashboard-triple actor) (λ v. done P k tt)
  perform-triple env actor (goal_request id) refines =
      then_do P k _ _ (get_goal-triple actor id) (λ v. done P k tt)
  perform-triple env actor (preview_request token) refines =
      then_do P k _ _ (find_invite-triple (env.hash token)) (λ v. done P k tt)
  perform-triple env actor (accept_request token) refines = accept_invite-triple env actor token
  perform-triple env actor (refine_request draft) refines =
      then_do P k _ _ (refines draft) (λ v. done P k tt)

  ask_provider-triple : (env : Env) (draft : Text) → Triple P (ask_provider env draft) Anything
  unfolding ask_provider save_goal_refine_cache
  ask_provider-triple env draft = then_do P k _ _ (lifted P k (env.refine draft)) λ answer.
      then_do P k _ _ (lifted P k (normalize_response answer)) λ response.
        then_do P k _ _ (untouched P k db_failure _ (λ s. (refl, refl))) (λ u. done P k response)

  cached_or_asked-triple :
      (env : Env) (draft : Text) (cached : Option GoalRefineResponse)
      → Triple P (cached_or_asked env draft cached) Anything
  cached_or_asked-triple env draft none = ask_provider-triple env draft
  cached_or_asked-triple env draft (some response) = done P k response

  pub answer-triple : (env : Env) (draft : Text) → Triple P (answer env draft) Anything
  unfolding answer find_goal_refine_cache
  answer-triple env draft = then_do P k _ _ (reads P k _) (cached_or_asked-triple env draft)

  admit_request-triple :
      ((s : Store) (rs : List RefineRequest) → P s → P (record s { refine_requests = rs }))
      → (env : Env) (actor : User) (draft : Text)
      → Triple P (admit_request env actor draft) Anything
  unfolding admit_request count_goal_refine_requests_since insert_goal_refine_request
  admit_request-triple free env actor draft = then_do P k _ _ (reads P k _) λ n.
      then_do P k _ _ (guarded P k (ltb n goal_refine_rate_limit) goal_refine_rate_limited)
        λ u. triple_execute P db_failure _ (λ s h. free s _ h)

  -- A refinement keeps what does not depend on the log of requests.
  pub refine_goal-triple :
      ((s : Store) (rs : List RefineRequest) → P s → P (record s { refine_requests = rs }))
      → (env : Env) (actor : User) (draft : Text) → Triple P (refine_goal env actor draft) Anything
  unfolding refine_goal
  refine_goal-triple free env actor draft = then_do P k _ _ (lifted P k (validate_draft draft)) λ u.
      then_do P k _ _ (admit_request-triple free env actor (trim_space draft))
        λ v. answer-triple env (trim_space draft)
