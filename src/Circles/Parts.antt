-- ===== src/Circles/Parts.antt =====
-- What the parts that the use cases of circles share find and write.
use proof_forge.Prelude.{
  ℕ, ◌+◌, ◌≡◌, refl, sym, subst, some, Bool, true, false, [], ◌∷◌, ◌++◌, arith, any,
}
use proof_forge.Prelude.Text.{Text}
use proof_forge.Prelude.Action.{◌>>=◌, ◌>>◌}
use proof_forge.Prelude.Run.{
  Run, run_statement_then, run_query_then, run_or_fail_then, run_pure, run_reading, run_bind,
  run_guard,
}
use proof_forge.Users.{user_keyed}
use proof_forge.Circles.Domain.{Detail, db_failure, circle_not_found, not_circle_member}
use proof_forge.Circles.Tables.{
  Store, M, SeasonRow, MembershipRow, is_membership, invitation_keyed, circle_keyed,
}
use proof_forge.Circles.Repository.{
  CreateCircleParams, new_circle, get_circle_for_user, visible_circle, current_season, season_of,
  insert_membership, place_membership, place_circle,
}
use proof_forge.Circles.Change.{with_member}

-- What GetCircleForUser has found.
pub record View (circle user : ℕ) (s : Store) (d : Detail) : Type 0 where
  pub visible : visible_circle circle user s ≡ some d.circle
  pub row : SeasonRow
  pub latest : current_season circle s ≡ some row
  pub season : d.active_season ≡ season_of row

pub get_circle-View :
    (collate : Text → Text → Bool) (circle user : ℕ) (s : Store)
    → Run s
        (get_circle_for_user collate circle user)
        (λ d t. (s ≡ t) × View circle user s d)
        (λ t. s ≡ t)
unfolding get_circle_for_user
get_circle-View collate circle user s =
    run_query_then s _ _ db_failure _ _
      (run_or_fail_then s _ _ (visible_circle circle user s) not_circle_member _
        (λ c seen.
          run_query_then s _ _ db_failure _ _
            (run_query_then s _ _ db_failure _ _
              (run_or_fail_then s _ _ (current_season circle s) circle_not_found _
                (λ row latest.
                  run_pure s _ _ _
                    (refl, record { visible = seen; row = row; latest = latest; season = refl }))
                refl)
              refl)
            refl)
        refl)
      refl

-- A part that reads the circle goes on from the same store.
pub viewing :
    {B : Type 0} (collate : Text → Text → Bool) (circle user : ℕ) (s : Store)
    (Q : B → Store → Type 0) (R : Store → Type 0) (k : Detail → M B)
    → ((d : Detail) → View circle user s d → Run s (k d) Q R)
    → R s
    → Run s (get_circle_for_user collate circle user >>= k) Q R
viewing collate circle user s Q R k h r =
    run_reading s (View circle user s) Q R _ k (get_circle-View collate circle user s) h r

pub placed_circle :
    (db_now : ℕ) (p : CreateCircleParams) (s : Store) (id : ℕ)
    → (place_circle db_now p s).0 ≡ some id
    → (id ≡ s.next_circle_id)
      × ((place_circle db_now p s).1 ≡ record s {
        circles = s.circles ++ new_circle s.next_circle_id db_now p ∷ [];
        next_circle_id = s.next_circle_id + 1;
      })
unfolding place_circle
placed_circle db_now p s id h = ground arith

placed_member :
    (m : MembershipRow) (s : Store)
    → (place_membership m s).0 ≡ true
    → (any (is_membership m.circle_id m.user_id) s.memberships ≡ false)
      × ((place_membership m s).1 ≡ with_member m s)
unfolding place_membership
placed_member m s h = ground arith

inserted :
    (m : MembershipRow) (s : Store)
    → Run s
        (insert_membership m)
        (λ u t.
          (any (is_membership m.circle_id m.user_id) s.memberships ≡ false) × (with_member m s ≡ t))
        (λ t. Unit)
unfolding insert_membership
inserted m s =
    run_statement_then s _ _ db_failure (place_membership m) _
      (run_guard _ _ _ _ db_failure (λ placed. let f = placed_member m s placed in (f.0, sym f.1))
        tt)
      tt

pub inserting :
    {B : Type 0} (m : MembershipRow) (s : Store) (Q : B → Store → Type 0) (k : M B)
    → (any (is_membership m.circle_id m.user_id) s.memberships ≡ false
        → Run (with_member m s) k Q (λ t. Unit))
    → Run s (insert_membership m >> k) Q (λ t. Unit)
inserting m s Q k h =
    run_bind s Q (λ t. Unit) _ _ _ (inserted m s)
      (λ u t q. subst (λ v. Run v k Q (λ t. Unit)) q.1 (h q.0))
