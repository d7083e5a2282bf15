-- ===== src/Circles/MemberCalls.antt =====
-- The transactions and statements on circles, members and invitations make allowed changes.
use proof_forge.Prelude.{
  ℕ, ◌+◌, ◌*◌, ◌==◌, ◌≡◌, refl, Option, none, some, Bool, true, false, not, arith, any, ltb, ltb→lt,
}
use proof_forge.Prelude.Text.{Text, text_eq, trim_space}
use proof_forge.Prelude.Action.{ok}
use proof_forge.Goals.{hour}
use proof_forge.Prelude.Table.{find}
use proof_forge.Prelude.Run.{
  Run, run_statement_then, run_query_then, run_or_fail_then, run_guard_then, run_pure,
  run_transaction, run_ignore, run_guard, run_statement_last,
}
use proof_forge.Users.{User, user_keyed}
use proof_forge.Circles.Domain.{Circle, InviteToCircleInput, validate_name}
use proof_forge.Circles.Tables.{Store, is_membership, member_count, invitation_keyed, circle_keyed}
use proof_forge.Circles.Repository.{
  CreateCircleParams, visible_circle, place_circle, create_circle, join_circle, circle_by_code,
  with_presence,
}
use proof_forge.Circles.Seasons.{
  InviteToCircleParams, invite, upsert_invitation, accept_invitation, decline_invitation,
  lazy_complete_expired_season, is_open,
}
use proof_forge.Circles.Service.{
  Env, lazy_check_season, Request, create_request, join_request, invite_request, accept_request,
  decline_request, get_request, equal_fold,
}
use proof_forge.Circles.Change.{
  Change, unchanged, creates, joins, invites, accepts, declines, lapses,
}
use proof_forge.Circles.Parts.{viewing, inserting, placed_circle}

module _ (env : Env) (actor : User) (r : Request) (s : Store) where
  abbrev IsChange : {A : Type 0} → A → Store → Type 0
  IsChange a t = Change env actor r s t

  idle : Change env actor r s s
  idle = unchanged refl

  pub create_circle-Change :
      (name code : Text) (p : CreateCircleParams)
      → r ≡ create_request name
      → validate_name name ≡ ok tt
      → env.code_generate ≡ ok code
      → p ≡ record {
        owner_user_id = actor.id;
        name = trim_space name;
        invite_code = code;
        member_limit = 8;
        starts_at = env.clock 0;
        ends_at = env.clock 0 + 7 * (24 * hour);
      }
      → Run s (create_circle env.collate env.db_now p) IsChange (Change env actor r s)
  unfolding create_circle validate_name
  create_circle-Change name code p asked fine made_up fields =
      let db_now = env.db_now in
      run_transaction s _ _ _
        (run_statement_then s _ _ _ _ _
          (run_statement_then s _ _ _ (place_circle db_now p) _
            (run_or_fail_then _ _ _ (place_circle db_now p s).0 _ _
              (λ id made. inserting _ _ _ _ (λ free.
                run_statement_then _ _ _ _ _ _
                  (viewing _ _ _ _ _ _ _
                    (λ d view.
                      run_statement_then _ _ _ _ _ _
                        (run_pure _ _ _ _ (
                          creates name code p asked (ground arith) (ground arith) made_up fields
                            (let f = placed_circle db_now p s id made in rw (f.0, f.1))))
                        tt)
                    tt)
                  tt))
              tt)
            tt)
          tt)
        idle

  present-found :
      (o : Option Circle) (found : Circle × Bool)
      → with_presence actor.id s o ≡ some found
      → (o ≡ some found.0) × (found.1 ≡ any (is_membership found.0.id actor.id) s.memberships)
  present-found none found h = absurd (ground arith)
  present-found (some c) found h = ground arith

  pub join_circle-Change :
      (code : Text)
      → r ≡ join_request code
      → Run s
          (join_circle env.collate
            (record { user_id = actor.id; invite_code = code; joined_at = env.clock 0 }))
          IsChange
          (Change env actor r s)
  unfolding join_circle
  join_circle-Change code asked =
      run_transaction s _ _ _
        (run_statement_then s _ _ _ _ _
          (run_query_then s _ _ _ _ _
            (run_or_fail_then s _ _ (with_presence actor.id s (circle_by_code code s)) _ _
              (λ found seen.
                run_guard_then s _ _ (not found.1) _ _
                  (λ new.
                    run_query_then s _ _ _ _ _
                      (run_guard_then s _ _
                        (ltb (member_count found.0.id s.memberships) found.0.member_limit) _ _
                        (λ room. inserting _ s _ _ (λ free.
                          viewing _ _ _ _ _ _ _
                            (λ d view.
                              run_statement_then _ _ _ _ _ _
                                (run_pure _ _ _ _ (
                                  joins found.0 code asked
                                    (present-found (circle_by_code code s) found seen).0 free
                                    (ltb→lt _ _ room) refl))
                                tt)
                            tt))
                        tt)
                      tt)
                  tt)
              tt)
            tt)
          tt)
        idle

  pub invite-Change :
      (c : Circle) (input : InviteToCircleInput) (p : InviteToCircleParams)
      → r ≡ invite_request p.circle_id input
      → p.inviter_user_id ≡ actor.id
      → p.target_email ≡ trim_space input.target_email
      → p.message ≡ trim_space input.message
      → any (λ c. c == b'@') p.target_email ≡ true
      → equal_fold env p.target_email actor.email ≡ false
      → visible_circle p.circle_id actor.id s ≡ some c
      → Run s (invite env.db_now p) IsChange (Change env actor r s)
  unfolding invite
  invite-Change c input p asked by to text at other seen =
      let db_now = env.db_now in
      let done : Change env actor r s (upsert_invitation db_now p s).1 =
        invites c input p asked by to text at other seen refl in
      run_statement_then s _ _ _ (upsert_invitation db_now p) _
        (run_query_then _ _ _ _ _ _
          (run_or_fail_then _ _ _ (find p.circle_id (upsert_invitation db_now p s).1.circles) _ _
            (λ c' named. run_pure _ _ _ _ done) done)
          done)
        idle

  pub accept_invitation-Change :
      (id : ℕ)
      → r ≡ accept_request id
      → Run s (accept_invitation env.db_now id actor.id) IsChange (Change env actor r s)
  unfolding accept_invitation
  accept_invitation-Change id asked =
      run_transaction s _ _ _
        (run_statement_then s _ _ _ _ _
          (run_query_then s _ _ _ _ _
            (run_or_fail_then s _ _ (find actor.id s.users) _ _
              (λ u known.
                run_query_then s _ _ _ _ _
                  (run_or_fail_then s _ _ (find id s.invitations) _ _
                    (λ i found.
                      run_guard_then s _ _ (is_open i.status) _ _
                        (λ waiting.
                          run_guard_then s _ _ (text_eq i.target_email u.email) _ _
                            (λ own.
                              run_statement_then s _ _ _ _ _
                                (run_statement_then _ _ _ _ _ _
                                  (run_statement_last _ _ _ _ _
                                    (accepts id i u asked found waiting known own refl) tt)
                                  tt)
                                tt)
                            tt)
                        tt)
                    tt)
                  tt)
              tt)
            tt)
          tt)
        idle

  pub decline_invitation-Change :
      (id : ℕ)
      → r ≡ decline_request id
      → Run s (decline_invitation id) IsChange (Change env actor r s)
  unfolding decline_invitation
  decline_invitation-Change id asked =
      run_statement_then s _ _ _ _ _
        (run_guard _ _ _ _ _ (λ any. declines id asked refl) (declines id asked refl)) idle

  pub lazy-Change :
      (circle : ℕ)
      → r ≡ get_request circle
      → Run s (lazy_check_season env circle) IsChange (Change env actor r s)
  unfolding lazy_check_season lazy_complete_expired_season
  lazy-Change circle asked =
      run_ignore s (Change env actor r s) _
        (run_statement_last s _ _ _ _ (lapses circle asked refl) idle)
