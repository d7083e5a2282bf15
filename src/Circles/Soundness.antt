-- ===== src/Circles/Soundness.antt =====
-- One owner for every circle, and at most one active season, through any history of calls.
use proof_forge.Prelude.{
  ℕ, ◌<◌, ◌≤◌, ◌≡◌, refl, subst, List, [], ◌∷◌, map, arith, All, count-append, ◌==◌, ==_iff,
  Bool-cases, inl, inr,
}
use proof_forge.Users.{User}
use proof_forge.Circles.Domain.{observer}
use proof_forge.Circles.Tables.{
  Store, MembershipRow, SeasonRow, circle_keyed, season_keyed, invitation_keyed, is_active_season,
  season_count,
}
use proof_forge.Circles.Repository.{new_membership, place_season, place_membership}
use proof_forge.Circles.Seasons.{expire}
use proof_forge.Circles.Service.{Env, Request, Call, after, serve}
use proof_forge.Circles.Change.{
  Change, unchanged, creates, joins, invites, accepts, declines, lapses,
}
use proof_forge.Circles.Outcome.{after-Change}
use proof_forge.Circles.Links.{IsLinked, Change-IsLinked}
use proof_forge.Circles.Owners.{AreOwned, upsert_invitation-same, Change-AreOwned}

pub record IsSound (s : Store) : Type 0 where
  pub linked : IsLinked s
  pub owned : AreOwned s
  pub one_season : (circle : ℕ) → season_count circle s.seasons ≤ 1

pub lapse_count :
    (circle of now : ℕ) (rs : List SeasonRow)
    → season_count circle (map (expire of now) rs) ≤ season_count circle rs
lapse_count circle of now [] = omega arith
lapse_count circle of now (r ∷ rs) = ground (arith, lapse_count circle of now rs)

season_count_below :
    (circle : ℕ) (rs : List SeasonRow)
    → All (λ r. r.circle_id < circle) rs
    → season_count circle rs ≡ 0
season_count_below circle [] h = refl
season_count_below circle (r ∷ rs) h = ground (arith, season_count_below circle rs h.1)

add_count :
    (circle of from to : ℕ) (s : Store)
    → season_count of s.seasons ≡ 0
    → season_count circle s.seasons ≤ 1
    → season_count circle (place_season of from to s).1.seasons ≤ 1
unfolding place_season
add_count circle of from to s none_left h =
    let row : SeasonRow = (place_season of from to s).0 in
    let sum = count-append {0} (is_active_season circle) s.seasons (row ∷ []) in
    elim (Bool-cases (of == circle)) [
      | inl own ↦
          let empty : season_count circle s.seasons ≡ 0 =
            subst (λ c. season_count c s.seasons ≡ 0) ((==_iff of circle).0 own) none_left in
          ground arith
      | inr other ↦ ground arith
    ]

pub place_membership-seasons :
    (m : MembershipRow) (s : Store) → (place_membership m s).1.seasons ≡ s.seasons
unfolding place_membership
place_membership-seasons m s = ground arith

Change-one_season :
    (env : Env) (actor : User) (r : Request) (s t : Store)
    → Change env actor r s t
    → IsLinked s
    → ((circle : ℕ) → season_count circle s.seasons ≤ 1)
    → (circle : ℕ) → season_count circle t.seasons ≤ 1
Change-one_season env actor r s t (unchanged e) l h circle = rw (← e) (h circle)
Change-one_season env actor r s t (creates name code p asked long short made fields e) l h circle =
    rw e (
      add_count circle s.next_circle_id p.starts_at p.ends_at _
        (season_count_below s.next_circle_id s.seasons l.seasons) (h circle))
Change-one_season env actor r s t (joins c code asked found new room e) l h circle = rw e (h circle)
Change-one_season env actor r s t (invites c input p asked by to text at other seen e) l h circle =
    rw (e, (upsert_invitation-same env.db_now p s).2) (h circle)
Change-one_season env actor r s t (accepts id i u asked found waiting known own e) l h circle =
    rw (e, place_membership-seasons (new_membership i.circle_id actor.id observer env.db_now) _)
      (h circle)
Change-one_season env actor r s t (declines id asked e) l h circle = rw e (h circle)
Change-one_season env actor r s t (lapses of asked e) l h circle =
    let fewer = lapse_count circle of env.db_now s.seasons in rw e (omega (arith, h circle))

after-IsSound : (c : Call) (s : Store) → IsSound s → IsSound (after c s)
after-IsSound c s h =
    let change = after-Change c s in
    record {
      linked = Change-IsLinked c.env c.actor c.request s (after c s) change h.linked;
      owned = Change-AreOwned c.env c.actor c.request s (after c s) change h.linked h.owned;
      one_season =
          Change-one_season c.env c.actor c.request s (after c s) change h.linked h.one_season;
    }

-- Through any history of calls and outages, every circle has one owner, the user who created it, and
-- no circle ever has two active seasons; nor do the tables refer to a circle that is not there yet.
pub serve-IsSound : (cs : List Call) (s : Store) → IsSound s → IsSound (serve cs s)
unfolding serve
serve-IsSound [] s h = h
serve-IsSound (c ∷ cs) s h = serve-IsSound cs (after c s) (after-IsSound c s h)
