-- ===== src/Circles/SeasonCalls.antt =====
-- What becomes of EndSeason.
use proof_forge.Prelude.{ℕ, ◌≡◌, refl, some, not, ◌&&◌, find_by, ltb, ◌==◌}
use proof_forge.Prelude.Run.{
  Run, run_query_then, run_or_fail_then, run_guard_then, run_pure, run_reading,
}
use proof_forge.Users.{User, user_keyed}
use proof_forge.Circles.Domain.{SeasonEndAction, Season}
use proof_forge.Circles.Tables.{Store, SeasonRow, is_active, invitation_keyed, circle_keyed}
use proof_forge.Circles.Repository.{season_of}
use proof_forge.Circles.Seasons.{get_season, mark_season_completed}
use proof_forge.Circles.Service.{Env, end_season}
use proof_forge.Circles.Parts.{viewing}

pub record FoundSeason (circle season : ℕ) (s : Store) (x : Season) : Type 0 where
  pub row : SeasonRow
  pub found : find_by (λ r. r.id == season && r.circle_id == circle) s.seasons ≡ some row
  pub same : x ≡ season_of row

season-found :
    (circle season : ℕ) (s : Store)
    → Run s (get_season circle season) (λ x t. (s ≡ t) × FoundSeason circle season s x) (λ t. s ≡ t)
unfolding get_season
season-found circle season s =
    run_query_then s _ _ _ _ _
      (run_or_fail_then s _ _ (find_by (λ r. r.id == season && r.circle_id == circle) s.seasons) _ _
        (λ r found. run_pure s _ _ _ (refl, record { row = r; found = found; same = refl })) refl)
      refl

-- EndSeason never succeeds, and changes nothing: when all its checks pass, the database refuses the
-- statement that should complete the season, since the table has no column updated_at.
pub end_season-fails :
    (env : Env) (actor : User) (circle season : ℕ) (action : SeasonEndAction) (s : Store)
    → Run s (end_season env actor circle season action) (λ x t. ⊥) (λ t. s ≡ t)
unfolding end_season mark_season_completed
end_season-fails env actor circle season action s =
    viewing _ circle actor.id s _ _ _
      (λ d view.
        run_reading s (FoundSeason circle season s) _ _ _ _ (season-found circle season s)
          (λ x found.
            run_guard_then s _ _ (is_active x.status) _ _
              (λ running.
                run_guard_then s _ _ (not (ltb (env.clock 0) x.ends_at)) _ _
                  (λ over. record { at = λ o. refl }) refl)
              refl)
          refl)
      refl
