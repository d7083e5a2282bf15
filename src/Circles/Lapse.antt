-- ===== src/Circles/Lapse.antt =====
-- What becomes of a circle when its season is over and someone looks at it.
use proof_forge.Prelude.{
  ℕ, ◌<◌, ◌≡◌, ◌≢◌, refl, sym, subst, ◌∙◌, none, some, Bool, true, List, [], ◌∷◌, map, arith, All,
  count, count-append, select, not, any, ◌==◌, Bool-cases, inl, inr,
}
use proof_forge.Prelude.Text.{Text, trim_space}
use proof_forge.Prelude.Sorting.{sort_by}
use proof_forge.Prelude.Action.{Result, ok, err, World, Action, ◌>>=◌}
use proof_forge.Prelude.Hoare.{Outcome}
use proof_forge.Prelude.Run.{
  Run, run_guard_then, run_bind, run_weaken, run_ignore, run_statement_last, run-store,
}
use proof_forge.Users.{User}
use proof_forge.Circles.Domain.{
  Detail, observer, InviteToCircleInput, StandingEntry, WeeklyAssembly, CircleInvitation,
}
use proof_forge.Circles.Tables.{Store, M, SeasonRow, MembershipRow, is_active_season, season_count}
use proof_forge.Circles.Repository.{
  get_circle_for_user, current_season, place_season, place_membership, new_membership,
}
use proof_forge.Circles.Seasons.{
  InviteToCircleParams, expire, lazy_complete_expired_season, upsert_invitation,
}
use proof_forge.Circles.Service.{
  Env, Request, Call, after, serve, get_circle, get_standings, get_weekly_assembly,
  invite_to_circle, equal_fold, lazy_check_season,
}
use proof_forge.Circles.Change.{
  Change, unchanged, creates, joins, invites, accepts, declines, lapses,
}
use proof_forge.Circles.Parts.{get_circle-View}
use proof_forge.Circles.Outcome.{after-Change}
use proof_forge.Circles.Owners.{upsert_invitation-same}
use proof_forge.Circles.Soundness.{lapse_count, place_membership-seasons}

-- The circle has been created and has no active season.
abbrev IsLapsed : ℕ → Store → Type 0
IsLapsed circle s = (circle < s.next_circle_id) × (season_count circle s.seasons ≡ 0)

none_selected : {A : Type 0} (p : A → Bool) (xs : List A) → count p xs ≡ 0 → select p xs ≡ []
none_selected p [] h = refl
none_selected p (x ∷ xs) h = ground (arith, none_selected p xs)

lapsed-current :
    (circle : ℕ) (s : Store) → season_count circle s.seasons ≡ 0 → current_season circle s ≡ none
unfolding current_season sort_by
lapsed-current circle s h = rw (none_selected (is_active_season circle) s.seasons h)

-- Then nobody is shown the circle.
lapsed-hidden :
    (collate : Text → Text → Bool) (circle user : ℕ) (s : Store)
    → season_count circle s.seasons ≡ 0
    → Run s (get_circle_for_user collate circle user) (λ d t. ⊥) (λ t. Unit)
lapsed-hidden collate circle user s h =
    run_weaken s _ _ (λ d t. ⊥) (λ t. Unit) _
      (λ d t q. let row : none ≡ some q.1.row = sym (lapsed-current circle s h) ∙ q.1.latest in cc)
      (λ t e. tt) (get_circle-View collate circle user s)

absurd_ok :
    {S E A : Type 0} (x : Result E A × World S) (a : A)
    → Outcome (λ b t. ⊥) (λ t. Unit) x
    → x.0 ≡ ok a
    → ⊥
absurd_ok (ok b, w) a h e = h
absurd_ok (err d, w) a h e = absurd (ground arith)

never_ok :
    {S E A : Type 0} (s : S) (m : Action S E A)
    → Run s m (λ a t. ⊥) (λ t. Unit)
    → (o : List Bool) (a : A) → (m (record { store = s; outages = o })).0 ≢ ok a
never_ok s m h o a e = absurd_ok (m (record { store = s; outages = o })) a (h.at o) e

place_season-other :
    (circle of from to : ℕ) (s : Store)
    → of ≢ circle
    → season_count circle (place_season of from to s).1.seasons ≡ season_count circle s.seasons
unfolding place_season
place_season-other circle of from to s apart =
    let row : SeasonRow = (place_season of from to s).0 in
    ground (arith, count-append {0} (is_active_season circle) s.seasons (row ∷ []))

upsert_invitation-next :
    (db_now : ℕ) (p : InviteToCircleParams) (s : Store)
    → (upsert_invitation db_now p s).1.next_circle_id ≡ s.next_circle_id
unfolding upsert_invitation
upsert_invitation-next db_now p s = ground arith

place_membership-next :
    (m : MembershipRow) (s : Store) → (place_membership m s).1.next_circle_id ≡ s.next_circle_id
unfolding place_membership
place_membership-next m s = ground arith

Change-IsLapsed :
    (env : Env) (actor : User) (r : Request) (s t : Store) (circle : ℕ)
    → Change env actor r s t
    → IsLapsed circle s
    → IsLapsed circle t
Change-IsLapsed env actor r s t circle (unchanged e) h = subst (IsLapsed circle) e h
Change-IsLapsed env actor r s t circle (creates name code p asked long short made fields e) h =
    subst (IsLapsed circle) (sym e) (
      unfold place_season in omega arith,
      place_season-other circle s.next_circle_id p.starts_at p.ends_at _
            (λ same. absurd (omega arith))
          ∙ h.1,
    )
Change-IsLapsed env actor r s t circle (joins c code asked found new room e) h =
    subst (IsLapsed circle) (sym e) h
Change-IsLapsed env actor r s t circle (invites c input p asked by to text at other seen e) h =
    rw (e, upsert_invitation-next env.db_now p s, (upsert_invitation-same env.db_now p s).2) h
Change-IsLapsed env actor r s t circle (accepts id i u asked found waiting known own e) h =
    let m = new_membership i.circle_id actor.id observer env.db_now in
    rw (e, place_membership-next m _, place_membership-seasons m _) h
Change-IsLapsed env actor r s t circle (declines id asked e) h = subst (IsLapsed circle) (sym e) h
Change-IsLapsed env actor r s t circle (lapses of asked e) h =
    let fewer = lapse_count circle of env.db_now s.seasons in
    subst (IsLapsed circle) (sym e) (h.0, omega arith)

serve-IsLapsed :
    (cs : List Call) (s : Store) (circle : ℕ) → IsLapsed circle s → IsLapsed circle (serve cs s)
unfolding serve
serve-IsLapsed [] s circle h = h
serve-IsLapsed (c ∷ cs) s circle h =
    serve-IsLapsed cs (after c s) circle
      (Change-IsLapsed c.env c.actor c.request s (after c s) circle (after-Change c s) h)

lazy-keeps :
    (env : Env) (circle : ℕ) (s : Store)
    → IsLapsed circle s
    → Run s (lazy_check_season env circle) (λ u t. IsLapsed circle t) (IsLapsed circle)
unfolding lazy_check_season lazy_complete_expired_season
lazy-keeps env circle s h =
    let fewer = lapse_count circle circle env.db_now s.seasons in
    run_ignore s (IsLapsed circle) _
      (run_statement_last s (λ u t. IsLapsed circle t) (IsLapsed circle) _ _ (h.0, omega arith) h)

get_circle-never :
    (env : Env) (actor : User) (circle : ℕ) (s : Store)
    → IsLapsed circle s
    → Run s (get_circle env actor circle) (λ d t. ⊥) (λ t. Unit)
unfolding get_circle
get_circle-never env actor circle s h =
    run_bind s _ _ (λ u t. IsLapsed circle t) _ _
      (run_weaken s _ _ (λ u t. IsLapsed circle t) (λ t. Unit) _ (λ u t q. q) (λ t q. tt)
        (lazy-keeps env circle s h))
      (λ u t q. lapsed-hidden env.collate circle actor.id t q.1)

-- Seasons of the circle that are active are over.
abbrev AreOver : ℕ → ℕ → List SeasonRow → Type 0
AreOver circle now = All (λ r. is_active_season circle r ≡ true → r.ends_at < now)

all_expire :
    (circle now : ℕ) (rs : List SeasonRow)
    → AreOver circle now rs
    → season_count circle (map (expire circle now) rs) ≡ 0
all_expire circle now [] h = refl
all_expire circle now (r ∷ rs) h = elim (Bool-cases (is_active_season circle r)) [
  | inl running ↦ let past = h.0 running in ground (arith, all_expire circle now rs h.1)
  | inr done ↦ ground (arith, all_expire circle now rs h.1)
]

-- A look at a circle whose active seasons are over, by anyone.
look-IsLapsed :
    (env : Env) (reader : User) (circle : ℕ) (s : Store)
    → circle < s.next_circle_id
    → AreOver circle env.db_now s.seasons
    → IsLapsed circle (get_circle env reader circle (record { store = s; outages = [] })).1.store
unfolding get_circle lazy_check_season lazy_complete_expired_season
look-IsLapsed env reader circle s there over =
    let t : Store = record s { seasons = map (expire circle env.db_now) s.seasons } in
    let lapsed : IsLapsed circle t = (there, all_expire circle env.db_now s.seasons over) in
    run-store t (IsLapsed circle) _
      (run_weaken t _ _ _ _ _ (λ d v q. subst (IsLapsed circle) q.0 lapsed)
        (λ v e. subst (IsLapsed circle) e lapsed) (get_circle-View env.collate circle reader.id t))
      []

module _ (env : Env) (actor : User) (circle : ℕ) (s : Store) (h : IsLapsed circle s) where
  hidden_then :
      {A : Type 0} (k : Detail → M A)
      → Run s (get_circle_for_user env.collate circle actor.id >>= k) (λ a t. ⊥) (λ t. Unit)
  hidden_then k =
      run_bind s _ _ _ _ _ (lapsed-hidden env.collate circle actor.id s h.1) (λ d t q. absurd q)

  get_standings-never : Run s (get_standings env actor circle) (λ es t. ⊥) (λ t. Unit)
  unfolding get_standings
  get_standings-never = hidden_then _

  get_weekly_assembly-never : Run s (get_weekly_assembly env actor circle) (λ a t. ⊥) (λ t. Unit)
  unfolding get_weekly_assembly
  get_weekly_assembly-never = hidden_then _

  invite_to_circle-never :
      (input : InviteToCircleInput)
      → Run s (invite_to_circle env actor circle input) (λ i t. ⊥) (λ t. Unit)
  unfolding invite_to_circle
  invite_to_circle-never input =
      run_guard_then s _ _ (any (λ c. c == b'@') (trim_space input.target_email)) _ _
        (λ address.
          run_guard_then s _ _ (not (equal_fold env (trim_space input.target_email) actor.email)) _
            _ (λ other. hidden_then _) tt)
        tt

-- Once anyone has asked for a circle after the end of its active seasons, with no outage, the circle
-- is lost: whatever calls follow, none of GetCircle, GetStandings, GetWeeklyAssembly and
-- InviteToCircle ever succeeds again for this circle, whoever asks.
pub get_circle-locks :
    (look env : Env) (reader actor : User) (circle : ℕ) (input : InviteToCircleInput)
    (cs : List Call) (s : Store) (o : List Bool)
    → circle < s.next_circle_id
    → AreOver circle look.db_now s.seasons
    → let seen = (get_circle look reader circle (record { store = s; outages = [] })).1.store in
      let w : World Store = record { store = serve cs seen; outages = o } in
      ((d : Detail) → (get_circle env actor circle w).0 ≢ ok d)
      × ((es : List StandingEntry) → (get_standings env actor circle w).0 ≢ ok es)
      × ((a : WeeklyAssembly) → (get_weekly_assembly env actor circle w).0 ≢ ok a)
      × ((i : CircleInvitation) → (invite_to_circle env actor circle input w).0 ≢ ok i)
get_circle-locks look env reader actor circle input cs s o there over =
    let lapsed = serve-IsLapsed cs _ circle (look-IsLapsed look reader circle s there over) in
    (
      never_ok _ _ (get_circle-never env actor circle _ lapsed) o,
      never_ok _ _ (get_standings-never env actor circle _ lapsed) o,
      never_ok _ _ (get_weekly_assembly-never env actor circle _ lapsed) o,
      never_ok _ _ (invite_to_circle-never env actor circle _ lapsed input) o,
    )
