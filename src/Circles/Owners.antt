-- ===== src/Circles/Owners.antt =====
-- Every circle keeps one owner, through every change.
use proof_forge.Prelude.{
  ℕ, ◌<◌, ◌≡◌, refl, sym, subst, Bool, true, false, ◌&&◌, List, [], ◌∷◌, ◌++◌, arith, All, All-map,
  All-append, count, count-append, any, ◌==◌, Bool-cases, inl, inr,
}
use proof_forge.Users.{User}
use proof_forge.Circles.Domain.{Circle, MemberRole, owner, buddy, observer, accepted}
use proof_forge.Circles.Tables.{
  Store, MembershipRow, circle_keyed, season_keyed, invitation_keyed, is_membership,
}
use proof_forge.Circles.Repository.{
  CreateCircleParams, new_circle, new_membership, place_season, place_membership,
}
use proof_forge.Circles.Seasons.{InviteToCircleParams, upsert_invitation, set_invitation}
use proof_forge.Circles.Service.{Env, Request}
use proof_forge.Circles.Change.{
  Change, unchanged, creates, joins, invites, accepts, declines, lapses, with_circle, with_member,
}
use proof_forge.Circles.Links.{IsLinked}

abbrev pub is_owner : MemberRole → Bool
is_owner owner = true
is_owner buddy = false
is_owner observer = false

-- The owner memberships of a circle, and those of one user among them.
abbrev pub is_owner_of : ℕ → MembershipRow → Bool
is_owner_of circle m = m.circle_id == circle && is_owner m.role

abbrev pub is_owned_by : ℕ → ℕ → MembershipRow → Bool
is_owned_by circle user m = m.circle_id == circle && m.user_id == user && is_owner m.role

-- One owner membership, that of the circle's creator.
abbrev pub HasOwner : List MembershipRow → Circle → Type 0
HasOwner ms c =
    (count (is_owner_of c.id) ms ≡ 1) × (count (is_owned_by c.id c.owner_user_id) ms ≡ 1)

-- An observer who joins, or a circle that is new, leaves the owners of the others alone.
count_below :
    (p : MembershipRow → Bool) (circle : ℕ) (ms : List MembershipRow)
    → ((m : MembershipRow) → p m ≡ true → m.circle_id ≡ circle)
    → All (λ m. m.circle_id < circle) ms
    → count p ms ≡ 0
count_below p circle [] own h = refl
count_below p circle (m ∷ ms) own h = ground (arith, own m, count_below p circle ms own h.1)

owner-circle : (circle : ℕ) (m : MembershipRow) → is_owner_of circle m ≡ true → m.circle_id ≡ circle
owner-circle circle m h = ground arith

owned-circle :
    (circle user : ℕ) (m : MembershipRow) → is_owned_by circle user m ≡ true → m.circle_id ≡ circle
owned-circle circle user m h = ground arith

HasOwner-observer :
    (ms : List MembershipRow) (circle user at : ℕ) (c : Circle)
    → HasOwner ms c
    → HasOwner (ms ++ new_membership circle user observer at ∷ []) c
HasOwner-observer ms circle user at c h =
    let m = new_membership circle user observer at in
    ground (
      arith,
      count-append {0} (is_owner_of c.id) ms (m ∷ []),
      count-append {0} (is_owned_by c.id c.owner_user_id) ms (m ∷ []),
    )

HasOwner-other :
    (ms : List MembershipRow) (circle user at : ℕ) (c : Circle)
    → c.id < circle
    → HasOwner ms c
    → HasOwner (ms ++ new_membership circle user owner at ∷ []) c
HasOwner-other ms circle user at c below h =
    let m = new_membership circle user owner at in
    ground (
      arith,
      count-append {0} (is_owner_of c.id) ms (m ∷ []),
      count-append {0} (is_owned_by c.id c.owner_user_id) ms (m ∷ []),
    )

HasOwner-new :
    (ms : List MembershipRow) (db_now at : ℕ) (p : CreateCircleParams) (id : ℕ)
    → All (λ m. m.circle_id < id) ms
    → HasOwner (ms ++ new_membership id p.owner_user_id owner at ∷ []) (new_circle id db_now p)
HasOwner-new ms db_now at p id below =
    let m = new_membership id p.owner_user_id owner at in
    ground (
      arith,
      count-append {0} (is_owner_of id) ms (m ∷ []),
      count-append {0} (is_owned_by id p.owner_user_id) ms (m ∷ []),
      count_below (is_owner_of id) id ms (owner-circle id) below,
      count_below (is_owned_by id p.owner_user_id) id ms (owned-circle id p.owner_user_id) below,
    )

abbrev pub AreOwned : Store → Type 0
AreOwned s = All (HasOwner s.memberships) s.circles

with_observer-AreOwned :
    (circle user at : ℕ) (s : Store)
    → AreOwned s
    → AreOwned (with_member (new_membership circle user observer at) s)
with_observer-AreOwned circle user at s h =
    All-map _ _ s.circles (HasOwner-observer s.memberships circle user at) h

place_observer-AreOwned :
    (circle user at : ℕ) (s : Store)
    → AreOwned s
    → AreOwned (place_membership (new_membership circle user observer at) s).1
unfolding place_membership
place_observer-AreOwned circle user at s h =
    elim (Bool-cases (any (is_membership circle user) s.memberships)) [
      | inl taken ↦ rw taken h
      | inr free ↦ rw free (with_observer-AreOwned circle user at s h)
    ]

-- The circles below the next key, each with its owner, and the one that a call adds.
pub both :
    {A : Type 0} (P Q : A → Type 0) (xs : List A) → All P xs → All Q xs → All (λ x. P x × Q x) xs
both P Q [] h k = tt
both P Q (x ∷ xs) h k = ((h.0, k.0), both P Q xs h.1 k.1)

with_circle-AreOwned :
    (db_now : ℕ) (p : CreateCircleParams) (s : Store)
    → IsLinked s
    → AreOwned s
    → AreOwned (with_circle db_now p s)
unfolding place_season
with_circle-AreOwned db_now p s l h =
    All-append _ s.circles _
      (All-map _ _ s.circles
        (λ c q. HasOwner-other s.memberships s.next_circle_id p.owner_user_id db_now c q.0 q.1)
        (both (λ c. c.id < s.next_circle_id) (HasOwner s.memberships) s.circles l.circles h))
      (HasOwner-new s.memberships db_now db_now p s.next_circle_id l.memberships, tt)

pub upsert_invitation-same :
    (db_now : ℕ) (p : InviteToCircleParams) (s : Store)
    → ((upsert_invitation db_now p s).1.memberships ≡ s.memberships)
      × ((upsert_invitation db_now p s).1.circles ≡ s.circles)
      × ((upsert_invitation db_now p s).1.seasons ≡ s.seasons)
unfolding upsert_invitation
upsert_invitation-same db_now p s = ground arith

pub Change-AreOwned :
    (env : Env) (actor : User) (r : Request) (s t : Store)
    → Change env actor r s t
    → IsLinked s
    → AreOwned s
    → AreOwned t
unfolding place_season
Change-AreOwned env actor r s t (unchanged e) l h = subst AreOwned e h
Change-AreOwned env actor r s t (creates name code p asked long short made fields e) l h =
    subst AreOwned (sym e) (with_circle-AreOwned env.db_now p s l h)
Change-AreOwned env actor r s t (joins c code asked found new room e) l h =
    subst AreOwned (sym e) (with_observer-AreOwned c.id actor.id (env.clock 0) s h)
Change-AreOwned env actor r s t (invites c input p asked by to text at other seen e) l h =
    let same = upsert_invitation-same env.db_now p s in
    subst AreOwned (sym e) (rw (same.0, same.1) h)
Change-AreOwned env actor r s t (accepts id i u asked found waiting known own e) l h =
    subst AreOwned (sym e)
      (place_observer-AreOwned i.circle_id actor.id env.db_now (set_invitation id accepted s).1 h)
Change-AreOwned env actor r s t (declines id asked e) l h = subst AreOwned (sym e) h
Change-AreOwned env actor r s t (lapses circle asked e) l h = subst AreOwned (sym e) h
