-- ===== src/Circles/Links.antt =====
-- What the tables of circles refer to exists, through every change.
use proof_forge.Prelude.{
  ℕ, ◌<◌, ◌+◌, ◌≡◌, sym, subst, some, List, [], ◌∷◌, map, arith, All, All-map, All-append, any,
  find_by, find_by-All, Bool-cases, Option-cases, inl, inr,
}
use proof_forge.Prelude.Text.{Text}
use proof_forge.Prelude.Table.{find, find-All, find-key, All-modify, IsBelow}
use proof_forge.Users.{User}
use proof_forge.Circles.Domain.{Circle, observer, accepted, declined}
use proof_forge.Circles.Tables.{
  Store, MembershipRow, SeasonRow, circle_keyed, season_keyed, invitation_keyed, is_membership,
}
use proof_forge.Circles.Repository.{
  new_membership, place_season, place_membership, visible_circle, circle_by_code,
}
use proof_forge.Circles.Seasons.{
  InviteToCircleParams, is_invitation, upsert_invitation, renewed, set_invitation, with_status,
  expire,
}
use proof_forge.Circles.Service.{Env, Request}
use proof_forge.Circles.Change.{
  Change, unchanged, creates, joins, invites, accepts, declines, lapses,
}

-- No season, invitation or membership is of a circle that is still to come.
pub record IsLinked (s : Store) : Type 0 where
  pub circles : IsBelow s.next_circle_id s.circles
  pub memberships : All (λ m. m.circle_id < s.next_circle_id) s.memberships
  pub invitations : All (λ i. i.circle_id < s.next_circle_id) s.invitations
  pub seasons : All (λ r. r.circle_id < s.next_circle_id) s.seasons

pub All-map_list :
    {A : Type 0} (P : A → Type 0) (f : A → A) (xs : List A)
    → ((x : A) → P x → P (f x))
    → All P xs
    → All P (map f xs)
All-map_list P f [] keep h = tt
All-map_list P f (x ∷ xs) keep h = (keep x h.0, All-map_list P f xs keep h.1)

pub visible-below :
    (circle user : ℕ) (s : Store) (c : Circle)
    → IsLinked s
    → visible_circle circle user s ≡ some c
    → circle < s.next_circle_id
unfolding visible_circle
visible-below circle user s c l h =
    let found : find circle s.circles ≡ some c = ground arith in
    subst (λ k. k < s.next_circle_id) (find-key circle s.circles c found)
      (find-All (λ x. x.id < s.next_circle_id) circle s.circles c l.circles found)

pub later-All :
    {A : Type 0} (f : A → ℕ) (n : ℕ) (xs : List A)
    → All (λ x. f x < n) xs
    → All (λ x. f x < n + 1) xs
later-All f n xs h = All-map _ _ xs (λ x k. omega arith) h

pub code-below :
    (code : Text) (s : Store) (c : Circle)
    → IsLinked s
    → circle_by_code code s ≡ some c
    → c.id < s.next_circle_id
unfolding circle_by_code
code-below code s c l h = find_by-All (λ x. x.id < s.next_circle_id) _ s.circles c l.circles h

place_membership-IsLinked :
    (m : MembershipRow) (s : Store)
    → m.circle_id < s.next_circle_id
    → IsLinked s
    → IsLinked (place_membership m s).1
unfolding place_membership
place_membership-IsLinked m s below l =
    elim (Bool-cases (any (is_membership m.circle_id m.user_id) s.memberships)) [
      | inl taken ↦ rw taken l
      | inr free ↦ rw free (record {
        circles = l.circles;
        memberships = All-append _ s.memberships _ l.memberships (below, tt);
        invitations = l.invitations;
        seasons = l.seasons;
      })
    ]

upsert_invitation-IsLinked :
    (db_now : ℕ) (p : InviteToCircleParams) (s : Store)
    → p.circle_id < s.next_circle_id
    → IsLinked s
    → IsLinked (upsert_invitation db_now p s).1
unfolding upsert_invitation
upsert_invitation-IsLinked db_now p s below l =
    elim (Option-cases (find_by (is_invitation p.circle_id p.target_email) s.invitations)) [
      | inl new ↦
          rw (new, upsert_invitation)
            (record {
              circles = l.circles;
              memberships = l.memberships;
              invitations = All-append _ s.invitations _ l.invitations (below, tt);
              seasons = l.seasons;
            })
      | inr (i, old) ↦
          rw (old, upsert_invitation)
            (record {
              circles = l.circles;
              memberships = l.memberships;
              invitations =
                  All-modify _ i.id (renewed p.message) s.invitations (λ j k h. h) l.invitations;
              seasons = l.seasons;
            })
    ]

expire-circle : (circle now : ℕ) (r : SeasonRow) → (expire circle now r).circle_id ≡ r.circle_id
expire-circle circle now r = ground arith

-- What the tables have in common before and after a call.
pub Change-IsLinked :
    (env : Env) (actor : User) (r : Request) (s t : Store)
    → Change env actor r s t
    → IsLinked s
    → IsLinked t
unfolding place_season
Change-IsLinked env actor r s t (unchanged e) l = subst IsLinked e l
Change-IsLinked env actor r s t (creates name code p asked long short made fields e) l =
    subst IsLinked (sym e) (record {
      circles =
          All-append _ s.circles _ (later-All (λ c. c.id) s.next_circle_id s.circles l.circles)
            (omega arith, tt);
      memberships =
          All-append _ s.memberships _ (later-All (λ m. m.circle_id) _ s.memberships l.memberships)
            (omega arith, tt);
      invitations = later-All (λ i. i.circle_id) _ s.invitations l.invitations;
      seasons =
          All-append _ s.seasons _ (later-All (λ r. r.circle_id) _ s.seasons l.seasons)
            (omega arith, tt);
    })
Change-IsLinked env actor r s t (joins c code asked found new room e) l =
    subst IsLinked (sym e) (record {
      circles = l.circles;
      memberships = All-append _ s.memberships _ l.memberships (code-below code s c l found, tt);
      invitations = l.invitations;
      seasons = l.seasons;
    })
Change-IsLinked env actor r s t (invites c input p asked by to text at other seen e) l =
    subst IsLinked (sym e)
      (upsert_invitation-IsLinked env.db_now p s (visible-below p.circle_id actor.id s c l seen) l)
Change-IsLinked env actor r s t (accepts id i u asked found waiting known own e) l =
    subst IsLinked (sym e) (
      place_membership-IsLinked (new_membership i.circle_id actor.id observer env.db_now)
        (set_invitation id accepted s).1
        (find-All (λ j. j.circle_id < s.next_circle_id) id s.invitations i l.invitations found)
        (record {
          circles = l.circles;
          memberships = l.memberships;
          invitations =
              All-modify _ id (with_status accepted) s.invitations (λ j k h. h) l.invitations;
          seasons = l.seasons;
        }))
Change-IsLinked env actor r s t (declines id asked e) l = subst IsLinked (sym e) (record {
  circles = l.circles;
  memberships = l.memberships;
  invitations = All-modify _ id (with_status declined) s.invitations (λ i k h. h) l.invitations;
  seasons = l.seasons;
})
Change-IsLinked env actor r s t (lapses circle asked e) l = subst IsLinked (sym e) (record {
  circles = l.circles;
  memberships = l.memberships;
  invitations = l.invitations;
  seasons =
      All-map_list _ (expire circle env.db_now) s.seasons
        (λ r h. rw (expire-circle circle env.db_now r) h) l.seasons;
})
