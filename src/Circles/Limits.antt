-- ===== src/Circles/Limits.antt =====
-- The limit of a circle's members through any history of calls.
use proof_forge.Prelude.{
  ℕ, ap, ◌<◌, ◌≤◌, ◌+◌, ◌≡◌, ◌≢◌, refl, sym, subst, some, Bool, true, false, List, [], ◌∷◌, ◌++◌,
  arith, All, All-map, All-append, count-append, any, find_by, find_by-All, ◌==◌, ==_iff,
  Bool-cases, inl, inr, if◌then◌else◌,
}
use proof_forge.Prelude.Text.{Text, text_eq_iff}
use proof_forge.Prelude.Table.{find}
use proof_forge.Prelude.Sorting.{IsOrdered}
use proof_forge.Prelude.Action.{ok}
use proof_forge.Users.{User, user_keyed}
use proof_forge.Circles.Domain.{Circle, owner, observer, accepted}
use proof_forge.Circles.Tables.{
  Store, MembershipRow, InvitationRow, circle_keyed, invitation_keyed, is_active_in, is_membership,
  member_count,
}
use proof_forge.Circles.Repository.{
  CreateCircleParams, new_circle, new_membership, place_season, place_membership, circle_by_code,
}
use proof_forge.Circles.Seasons.{set_invitation, is_open, accept_invitation}
use proof_forge.Circles.Service.{
  Env, Request, Call, after, serve, is_acceptance, default_member_limit,
}
use proof_forge.Circles.Change.{
  Change, unchanged, creates, joins, invites, accepts, declines, lapses, with_circle, with_member,
}
use proof_forge.Circles.Outcome.{after-Change}
use proof_forge.Circles.Links.{IsLinked, Change-IsLinked}
use proof_forge.Circles.Owners.{upsert_invitation-same, both}

-- No two circles have one key.
abbrev pub AreDistinct : List Circle → Type 0
AreDistinct = IsOrdered (λ a b. a.id ≢ b.id)

-- No circle has more active members than its limit and `extra`.
abbrev pub IsWithin : ℕ → Store → Type 0
IsWithin extra s = All (λ c. member_count c.id s.memberships ≤ c.member_limit + extra) s.circles

-- The acceptances of circle invitations among the calls.
unfoldable pub acceptances : List Call → ℕ
acceptances [] = 0
acceptances (c ∷ cs) = (if is_acceptance c.request then 1 else 0) + acceptances cs

only_row :
    (p : Circle → Bool) (cs : List Circle) (c : Circle)
    → AreDistinct cs
    → find_by p cs ≡ some c
    → All (λ d. d.id ≡ c.id → d ≡ c) cs
unfolding find_by
only_row p [] c apart h = tt
only_row p (x ∷ xs) c apart h = elim (Bool-cases (p x)) [
  | inl hit ↦
      let same : some x ≡ some c = rw hit at h in
      let first : x ≡ c = cc in
      (
        λ e. first,
        All-map _ _ xs
            (λ d differ e.
              absurd (differ (subst (λ (y : Circle). y.id ≡ d.id) (sym first) (sym e))))
            apart.0,
      )
  | inr miss ↦
      let rest : find_by p xs ≡ some c = rw miss at h in
      (
        λ e. absurd (find_by-All (λ d. x.id ≢ d.id) p xs c apart.0 rest e),
        only_row p xs c apart.1 rest,
      )
]

member_count_below :
    (circle : ℕ) (ms : List MembershipRow)
    → All (λ m. m.circle_id < circle) ms
    → member_count circle ms ≡ 0
member_count_below circle [] h = refl
member_count_below circle (m ∷ ms) h = ground (arith, member_count_below circle ms h.1)

module _ (circle of user at : ℕ) (ms : List MembershipRow) where
  one_more :
      member_count circle (ms ++ new_membership of user observer at ∷ [])
      ≡ member_count circle ms + (if of == circle then 1 else 0)
  one_more =
      ground
        (arith, count-append {0} (is_active_in circle) ms (new_membership of user observer at ∷ []))

  owner_more :
      member_count circle (ms ++ new_membership of user owner at ∷ [])
      ≡ member_count circle ms + (if of == circle then 1 else 0)
  owner_more =
      ground
        (arith, count-append {0} (is_active_in circle) ms (new_membership of user owner at ∷ []))

join-IsWithin :
    (extra : ℕ) (c : Circle) (code : Text) (user at : ℕ) (s : Store)
    → AreDistinct s.circles
    → circle_by_code code s ≡ some c
    → member_count c.id s.memberships < c.member_limit
    → IsWithin extra s
    → IsWithin extra (with_member (new_membership c.id user observer at) s)
unfolding circle_by_code
join-IsWithin extra c code user at s apart found room h =
    All-map _ _ s.circles
      (λ d q. elim (Bool-cases (c.id == d.id)) [
        | inl own ↦
            let e : d ≡ c = q.0 (sym ((==_iff _ _).0 own)) in
            subst
              (λ (x : Circle).
                member_count x.id (s.memberships ++ new_membership c.id user observer at ∷ [])
                ≤ x.member_limit + extra)
              (sym e) (ground (arith, one_more c.id c.id user at s.memberships))
        | inr other ↦ ground (arith, one_more d.id c.id user at s.memberships)
      ])
      (both _ _ s.circles (only_row _ s.circles c apart found) h)

place-IsWithin :
    (extra circle user at : ℕ) (s : Store)
    → IsWithin extra s
    → IsWithin (extra + 1) (place_membership (new_membership circle user observer at) s).1
unfolding place_membership
place-IsWithin extra circle user at s h =
    elim (Bool-cases (any (is_membership circle user) s.memberships)) [
      | inl taken ↦ rw taken (All-map _ _ s.circles (λ d q. omega arith) h)
      | inr free ↦ rw free (
          All-map _ _ s.circles (λ d q. ground (arith, one_more d.id circle user at s.memberships))
            h)
    ]

create-IsWithin :
    (extra db_now : ℕ) (p : CreateCircleParams) (s : Store)
    → p.member_limit ≡ default_member_limit
    → IsLinked s
    → IsWithin extra s
    → IsWithin extra (with_circle db_now p s)
unfolding place_season
create-IsWithin extra db_now p s limit l h =
    let new = s.next_circle_id in
    All-append _ s.circles _
      (All-map _ _ s.circles
        (λ d q. ground (arith, owner_more d.id new p.owner_user_id db_now s.memberships))
        (both (λ d. d.id < s.next_circle_id) _ s.circles l.circles h))
      (
        ground (
          arith,
          owner_more new new p.owner_user_id db_now s.memberships,
          member_count_below new s.memberships l.memberships,
        ),
        tt,
      )

-- What one call adds to the bound.
abbrev added : Request → ℕ
added r = if is_acceptance r then 1 else 0

more : (extra k : ℕ) (s : Store) → IsWithin extra s → IsWithin (extra + k) s
more extra k s h = All-map _ _ s.circles (λ d q. omega arith) h

Change-IsWithin :
    (env : Env) (actor : User) (r : Request) (s t : Store) (extra : ℕ)
    → Change env actor r s t
    → IsLinked s
    → AreDistinct s.circles
    → IsWithin extra s
    → IsWithin (extra + added r) t
unfolding place_season
Change-IsWithin env actor r s t extra (unchanged e) l apart h =
    more extra _ t (subst (IsWithin extra) e h)
Change-IsWithin env actor r s t extra (creates name code p asked long short made fields e) l apart
      h =
    more extra _ t (
      subst (IsWithin extra) (sym e)
        (create-IsWithin extra env.db_now p s (ap (λ q. q.member_limit) fields) l h))
Change-IsWithin env actor r s t extra (joins c code asked found new room e) l apart h =
    more extra _ t (
      subst (IsWithin extra) (sym e)
        (join-IsWithin extra c code actor.id (env.clock 0) s apart found room h))
Change-IsWithin env actor r s t extra (invites c input p asked by to text at other seen e) l apart
      h =
    let same = upsert_invitation-same env.db_now p s in
    more extra _ t (subst (IsWithin extra) (sym e) (rw (same.0, same.1) h))
Change-IsWithin env actor r s t extra (accepts id i u asked found waiting known own e) l apart h =
    subst (λ b. IsWithin (extra + (if b then 1 else 0)) t) (sym (ap is_acceptance asked))
      (subst (IsWithin (extra + 1)) (sym e)
        (place-IsWithin extra i.circle_id actor.id env.db_now (set_invitation id accepted s).1 h))
Change-IsWithin env actor r s t extra (declines id asked e) l apart h =
    more extra _ t (subst (IsWithin extra) (sym e) h)
Change-IsWithin env actor r s t extra (lapses circle asked e) l apart h =
    more extra _ t (subst (IsWithin extra) (sym e) h)

append-AreDistinct :
    (cs : List Circle) (new : Circle)
    → All (λ c. c.id < new.id) cs
    → AreDistinct cs
    → AreDistinct (cs ++ new ∷ [])
append-AreDistinct [] new below apart = (tt, tt)
append-AreDistinct (c ∷ cs) new below apart = (
  All-append _ cs _ apart.0 (λ e. absurd (omega arith), tt),
  append-AreDistinct cs new below.1 apart.1,
)

place_membership-circles :
    (m : MembershipRow) (s : Store) → (place_membership m s).1.circles ≡ s.circles
unfolding place_membership
place_membership-circles m s = ground arith

Change-AreDistinct :
    (env : Env) (actor : User) (r : Request) (s t : Store)
    → Change env actor r s t
    → IsLinked s
    → AreDistinct s.circles
    → AreDistinct t.circles
unfolding place_season
Change-AreDistinct env actor r s t (unchanged e) l h = rw (← e) h
Change-AreDistinct env actor r s t (creates name code p asked long short made fields e) l h =
    rw e (append-AreDistinct s.circles (new_circle s.next_circle_id env.db_now p) l.circles h)
Change-AreDistinct env actor r s t (joins c code asked found new room e) l h = rw e h
Change-AreDistinct env actor r s t (invites c input p asked by to text at other seen e) l h =
    rw (e, (upsert_invitation-same env.db_now p s).1) h
Change-AreDistinct env actor r s t (accepts id i u asked found waiting known own e) l h =
    rw (e, place_membership-circles (new_membership i.circle_id actor.id observer env.db_now) _) h
Change-AreDistinct env actor r s t (declines id asked e) l h = rw e h
Change-AreDistinct env actor r s t (lapses circle asked e) l h = rw e h

-- When no circle has more active members than its limit and `extra`, then after any history of calls
-- and outages none has more than its limit, `extra`, and one for each acceptance of an invitation in
-- the history: creating and joining circles never exceed the limit.
pub serve-IsWithin :
    (cs : List Call) (s : Store) (extra : ℕ)
    → IsLinked s
    → AreDistinct s.circles
    → IsWithin extra s
    → IsWithin (extra + acceptances cs) (serve cs s)
unfolding serve acceptances
serve-IsWithin [] s extra l apart h = more extra 0 s h
serve-IsWithin (c ∷ cs) s extra l apart h =
    let change = after-Change c s in
    let next = after c s in
    let rest =
      serve-IsWithin cs next (extra + added c.request)
        (Change-IsLinked c.env c.actor c.request s next change l)
        (Change-AreDistinct c.env c.actor c.request s next change l apart)
        (Change-IsWithin c.env c.actor c.request s next extra change l apart h) in
    let sum : extra + added c.request + acceptances cs
        ≡ extra + (added c.request + acceptances cs) =
      omega arith in
    subst (λ n. IsWithin n (serve cs next)) sum rest

-- An invitation is accepted whatever the limit is: with an open invitation to the user's address, no
-- membership yet and no outage, the call succeeds and the circle has one active member more.
pub accept_invitation-adds :
    (db_now id : ℕ) (actor u : User) (i : InvitationRow) (s : Store)
    → find id s.invitations ≡ some i
    → is_open i.status ≡ true
    → find actor.id s.users ≡ some u
    → i.target_email ≡ u.email
    → any (is_membership i.circle_id actor.id) s.memberships ≡ false
    → let run = accept_invitation db_now id actor.id (record { store = s; outages = [] }) in
      (run.0 ≡ ok tt)
      × (member_count i.circle_id run.1.store.memberships
          ≡ member_count i.circle_id s.memberships + 1)
unfolding accept_invitation place_membership
accept_invitation-adds db_now id actor u i s found waiting known own new =
    let same = (text_eq_iff i.target_email u.email).1 own in
    rw (known, found, waiting, same, new)
      (refl, ground (arith, one_more i.circle_id i.circle_id actor.id db_now s.memberships))
