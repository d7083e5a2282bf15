-- ===== src/Circles/Outcome.antt =====
-- Every call makes one change that Circles/Change.antt allows its user, or none.
use proof_forge.Prelude.{ℕ, arith, ◌≡◌, refl, subst, Bool, not, List, [], ◌∷◌, any, ◌==◌}
use proof_forge.Prelude.Text.{Text, trim_space}
use proof_forge.Prelude.Action.{pure, ◌>>◌}
use proof_forge.Prelude.Run.{
  Run, run_query_then, run_lift_then, run_guard_then, run_pure, run_weaken, run_reading, run_bind,
  run-store,
}
use proof_forge.Users.{User, user_keyed}
use proof_forge.Circles.Domain.{InviteToCircleInput, validate_name, validate_code}
use proof_forge.Circles.Tables.{Store, M, invitation_keyed, circle_keyed}
use proof_forge.Circles.Repository.{list_circles_for_user, circle_ids, details_for}
use proof_forge.Circles.Seasons.{list_invitations_for_user}
use proof_forge.Circles.Snapshots.{list_standing_snapshots}
use proof_forge.Circles.Service.{
  Env, create, get_circle, join, get_standings, get_weekly_assembly, invite_to_circle, equal_fold,
  perform, Request, create_request, join_request, list_request, my_invitations_request, get_request,
  standings_request, assembly_request, accept_request, decline_request, invite_request,
  end_season_request, Call, after,
}
use proof_forge.Circles.Change.{Change, unchanged}
use proof_forge.Circles.Parts.{get_circle-View, viewing}
use proof_forge.Circles.MemberCalls.{
  create_circle-Change, join_circle-Change, invite-Change, accept_invitation-Change,
  decline_invitation-Change, lazy-Change,
}
use proof_forge.Circles.SeasonCalls.{end_season-fails}

module _ (env : Env) (actor : User) (r : Request) (s : Store) where
  -- A call that reads and returns.
  reads_only :
      {A : Type 0} (m : M A)
      → Run s m (λ a t. s ≡ t) (λ t. s ≡ t)
      → Run s m (λ a t. Change env actor r s t) (Change env actor r s)
  reads_only m h = run_weaken s _ _ _ _ m (λ a t e. unchanged e) (λ t e. unchanged e) h

  forgets :
      {A : Type 0} (m : M A)
      → Run s m (λ a t. Change env actor r s t) (Change env actor r s)
      → Run s (m >> pure tt) (λ u t. Change env actor r s t) (Change env actor r s)
  forgets m h = run_bind s _ _ _ m _ h (λ a t done. run_pure t _ _ tt done)

module _ (env : Env) (actor : User) (s : Store) where
  create-Change :
      (name : Text)
      → let r = create_request name in
        Run s (create env actor name) (λ d t. Change env actor r s t) (Change env actor r s)
  unfolding create
  create-Change name =
      run_lift_then s _ _ (validate_name name) _
        (λ u fine.
          run_lift_then s _ _ env.code_generate _
            (λ code made. create_circle-Change env actor _ s name code _ refl fine made refl)
            (unchanged refl))
        (unchanged refl)

  join-Change :
      (code : Text)
      → let r = join_request code in
        Run s (join env actor code) (λ d t. Change env actor r s t) (Change env actor r s)
  unfolding join
  join-Change code =
      run_lift_then s _ _ (validate_code code) _
        (λ u fine. join_circle-Change env actor _ s code refl) (unchanged refl)

  invite_to_circle-Change :
      (circle : ℕ) (input : InviteToCircleInput)
      → let r = invite_request circle input in
        Run s
          (invite_to_circle env actor circle input)
          (λ i t. Change env actor r s t)
          (Change env actor r s)
  unfolding invite_to_circle
  invite_to_circle-Change circle input =
      let email = trim_space input.target_email in
      run_guard_then s _ _ (any (λ c. c == b'@') email) _ _
        (λ address.
          run_guard_then s _ _ (not (equal_fold env email actor.email)) _ _
            (λ other.
              viewing env.collate circle actor.id s _ _ _
                (λ d view.
                  invite-Change env actor _ s d.circle input _ refl refl refl refl address
                    (ground (arith, other)) view.visible)
                (unchanged refl))
            (unchanged refl))
        (unchanged refl)

  get_circle-Change :
      (circle : ℕ)
      → let r = get_request circle in
        Run s (get_circle env actor circle) (λ d t. Change env actor r s t) (Change env actor r s)
  unfolding get_circle
  get_circle-Change circle =
      let r = get_request circle in
      run_bind s _ _ _ _ _ (lazy-Change env actor r s circle refl) (λ u t done.
        run_weaken t _ _ _ _ _ (λ d v e. subst (Change env actor r s) e.0 done)
          (λ v e. subst (Change env actor r s) e done)
          (get_circle-View env.collate circle actor.id t))

module _ (actor : User) (s : Store) where
  details-same :
      (collate : Text → Text → Bool) (ids : List ℕ)
      → Run s (details_for collate actor.id ids) (λ ds t. (s ≡ t) × Unit {0}) (λ t. s ≡ t)
  unfolding details_for
  details-same collate [] = run_pure s _ _ _ (refl, tt)
  details-same collate (id ∷ ids) =
      viewing collate id actor.id s _ _ _
        (λ d view.
          run_reading s (λ ds. Unit {0}) _ _ _ _ (details-same collate ids)
            (λ ds u. run_pure s _ _ _ (refl, tt)) refl)
        refl

  list-same :
      (collate : Text → Text → Bool)
      → Run s (list_circles_for_user collate actor.id) (λ ds t. s ≡ t) (λ t. s ≡ t)
  unfolding list_circles_for_user
  list-same collate =
      run_query_then s _ _ _ _ _
        (run_weaken s _ _ _ _ _ (λ ds t e. e.0) (λ t e. e)
          (details-same collate (circle_ids actor.id s)))
        refl

  standings-same :
      (env : Env) (circle : ℕ) → Run s (get_standings env actor circle) (λ es t. s ≡ t) (λ t. s ≡ t)
  unfolding get_standings list_standing_snapshots
  standings-same env circle =
      viewing env.collate circle actor.id s _ _ _
        (λ d view. run_query_then s _ _ _ _ _ (run_pure s _ _ _ refl) refl) refl

  assembly-same :
      (env : Env) (circle : ℕ)
      → Run s (get_weekly_assembly env actor circle) (λ a t. s ≡ t) (λ t. s ≡ t)
  unfolding get_weekly_assembly list_standing_snapshots
  assembly-same env circle =
      viewing env.collate circle actor.id s _ _ _
        (λ d view. run_query_then s _ _ _ _ _ (run_pure s _ _ _ refl) refl) refl

perform-Run :
    (actor : User) (s : Store) (env : Env) (r : Request)
    → Run s (perform env actor r) (λ u t. Change env actor r s t) (Change env actor r s)
unfolding perform list_invitations_for_user
perform-Run actor s env (create_request name) =
    forgets env actor _ s _ (create-Change env actor s name)
perform-Run actor s env (join_request code) = forgets env actor _ s _ (join-Change env actor s code)
perform-Run actor s env list_request =
    forgets env actor _ s _ (reads_only env actor _ s _ (list-same actor s env.collate))
perform-Run actor s env my_invitations_request =
    run_query_then s _ _ _ _ _ (run_pure s _ _ _ (unchanged refl)) (unchanged refl)
perform-Run actor s env (get_request circle) =
    forgets env actor _ s _ (get_circle-Change env actor s circle)
perform-Run actor s env (standings_request circle) =
    forgets env actor _ s _ (reads_only env actor _ s _ (standings-same actor s env circle))
perform-Run actor s env (assembly_request circle) =
    forgets env actor _ s _ (reads_only env actor _ s _ (assembly-same actor s env circle))
perform-Run actor s env (accept_request id) = accept_invitation-Change env actor _ s id refl
perform-Run actor s env (decline_request id) = decline_invitation-Change env actor _ s id refl
perform-Run actor s env (invite_request circle input) =
    forgets env actor _ s _ (invite_to_circle-Change env actor s circle input)
perform-Run actor s env (end_season_request circle season action) = forgets env actor _ s _ (
    run_weaken s _ _ _ _ _ (λ x t never. absurd never) (λ t e. unchanged e)
      (end_season-fails env actor circle season action s))

pub after-Change : (c : Call) (s : Store) → Change c.env c.actor c.request s (after c s)
unfolding after
after-Change c s =
    run-store s (Change c.env c.actor c.request s) _ (perform-Run c.actor s c.env c.request)
      c.outages
