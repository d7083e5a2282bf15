-- ===== src/Circles/Change.antt =====
-- What one call of the circles component may do to its tables.
use proof_forge.Prelude.{
  ℕ, ◌<◌, ◌+◌, ◌*◌, ◌≡◌, some, true, false, ◌&&◌, [], ◌∷◌, ◌++◌, map, any, ltb, ◌==◌, if◌then◌else◌,
}
use proof_forge.Prelude.Text.{Text, text_eq, trim_space, byte_length}
use proof_forge.Prelude.Table.{find}
use proof_forge.Prelude.Action.{ok}
use proof_forge.Goals.{hour}
use proof_forge.Users.{User, user_keyed}
use proof_forge.Circles.Domain.{
  Circle, owner, observer, accepted, declined, completed, InviteToCircleInput,
}
use proof_forge.Circles.Tables.{
  Store, MembershipRow, SeasonRow, InvitationRow, invitation_keyed, is_active, is_membership,
  member_count,
}
use proof_forge.Circles.Repository.{
  CreateCircleParams, new_circle, new_membership, place_season, place_membership, visible_circle,
  circle_by_code,
}
use proof_forge.Circles.Seasons.{InviteToCircleParams, upsert_invitation, is_open, set_invitation}
use proof_forge.Circles.Service.{
  Env, Request, create_request, join_request, invite_request, accept_request, decline_request,
  get_request, equal_fold,
}

-- The store with a circle, its owner's membership and its first season.
abbrev pub with_circle : ℕ → CreateCircleParams → Store → Store
with_circle db_now p s =
    (place_season s.next_circle_id p.starts_at p.ends_at (record s {
      circles = s.circles ++ new_circle s.next_circle_id db_now p ∷ [];
      memberships =
          s.memberships ++ new_membership s.next_circle_id p.owner_user_id owner db_now ∷ [];
      next_circle_id = s.next_circle_id + 1;
    })).1

abbrev pub with_member : MembershipRow → Store → Store
with_member m s = record s { memberships = s.memberships ++ m ∷ [] }

-- A season of the circle that is active, and whose end is before `now`, is completed.
abbrev lapsed : ℕ → ℕ → SeasonRow → SeasonRow
lapsed circle now r =
    if r.circle_id == circle && is_active r.status && ltb r.ends_at now
    then record r { status = completed }
    else r

-- What the user may change who makes the request `r`, in the surroundings `env`. No request ends a
-- season: the statement that EndSeason needs is always refused.
pub data Change (env : Env) (actor : User) (r : Request) (s t : Store) : Type 0 where
  unchanged : s ≡ t → Change env actor r s t
  creates :
      (name code : Text) (p : CreateCircleParams)
      → r ≡ create_request name
      → ltb (byte_length (trim_space name)) 3 ≡ false
      → ltb 80 (byte_length (trim_space name)) ≡ false
      → env.code_generate ≡ ok code
      → p ≡ record {
        owner_user_id = actor.id;
        name = trim_space name;
        invite_code = code;
        member_limit = 8;
        starts_at = env.clock 0;
        ends_at = env.clock 0 + 7 * (24 * hour);
      }
      → t ≡ with_circle env.db_now p s
      → Change env actor r s t
  joins :
      (c : Circle) (code : Text)
      → r ≡ join_request code
      → circle_by_code code s ≡ some c
      → any (is_membership c.id actor.id) s.memberships ≡ false
      → member_count c.id s.memberships < c.member_limit
      → t ≡ with_member (new_membership c.id actor.id observer (env.clock 0)) s
      → Change env actor r s t
  invites :
      (c : Circle) (input : InviteToCircleInput) (p : InviteToCircleParams)
      → r ≡ invite_request p.circle_id input
      → p.inviter_user_id ≡ actor.id
      → p.target_email ≡ trim_space input.target_email
      → p.message ≡ trim_space input.message
      → any (λ c. c == b'@') p.target_email ≡ true
      → equal_fold env p.target_email actor.email ≡ false
      → visible_circle p.circle_id actor.id s ≡ some c
      → t ≡ (upsert_invitation env.db_now p s).1
      → Change env actor r s t
  accepts :
      (id : ℕ) (i : InvitationRow) (u : User)
      → r ≡ accept_request id
      → find id s.invitations ≡ some i
      → is_open i.status ≡ true
      → find actor.id s.users ≡ some u
      → text_eq i.target_email u.email ≡ true
      → t
        ≡ (place_membership
            (new_membership i.circle_id actor.id observer env.db_now)
            (set_invitation id accepted s).1).1
      → Change env actor r s t
  -- By anyone, and whatever the status is.
  declines :
      (id : ℕ)
      → r ≡ decline_request id
      → t ≡ (set_invitation id declined s).1
      → Change env actor r s t
  lapses :
      (circle : ℕ)
      → r ≡ get_request circle
      → t ≡ record s { seasons = map (lapsed circle env.db_now) s.seasons }
      → Change env actor r s t
