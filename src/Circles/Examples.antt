-- ===== src/Circles/Examples.antt =====
-- The theorems on circles at concrete inputs.
use proof_forge.Prelude.{ℕ, ◌+◌, ◌≢◌, none, Bool, true, false, List, [], ◌∷◌, map, arith}
use proof_forge.Prelude.Text.{codes}
use mathlib.Core.List.{Perm}
use proof_forge.Prelude.Sorting.{IsOrdered}
use proof_forge.Prelude.Action.{ok, World}
use proof_forge.Users.{User}
use proof_forge.Circles.Domain.{
  Detail, InviteToCircleInput, StandingEntry, WeeklyAssembly, CircleInvitation, active,
  active_member, owner, StandingSnapshot,
}
use proof_forge.Circles.Tables.{Store}
use proof_forge.Circles.Standings.{text_less, with_rank, entry_of, build_standings}
use proof_forge.Circles.Service.{
  Env, Call, create_request, invite_request, accept_request, get_request, get_circle, get_standings,
  get_weekly_assembly, invite_to_circle, serve,
}
use proof_forge.Circles.Change.{Change}
use proof_forge.Circles.Soundness.{IsSound, serve-IsSound}
use proof_forge.Circles.Limits.{IsWithin, serve-IsWithin, acceptances}
use proof_forge.Circles.Lapse.{get_circle-locks}
use proof_forge.Circles.Ranking.{IsInFront, IsRanked, build_standings-ranks}

abbrev anna : User
anna = record { id = 1; email = codes "anna@site"; display_name = codes "Anna" }

abbrev boris : User
boris = record { id = 2; email = codes "boris@site"; display_name = codes "Boris" }

abbrev at_time : ℕ → Env
at_time t = record {
  clock = λ n. t + n;
  db_now = t;
  collate = text_less;
  trunc_week = λ n. n;
  fold = λ n. n;
  code_generate = ok (codes "c0de");
}

abbrev nothing_yet : Store
nothing_yet = record {
  users = anna ∷ boris ∷ [];
  goals = [];
  check_ins = [];
  circles = [];
  memberships = [];
  seasons = [];
  invitations = [];
  next_circle_id = 1;
  next_season_id = 1;
  next_invitation_id = 1;
}

abbrev to_boris : InviteToCircleInput
to_boris = record { target_email = codes "boris@site"; message = codes "" }

abbrev found_and_invite : List Call
found_and_invite =
    record {
      env = at_time 10;
      actor = anna;
      request = create_request (codes "Readers");
      outages = [];
    }
    ∷ record { env = at_time 11; actor = anna; request = invite_request 1 to_boris; outages = [] }
    ∷ record { env = at_time 12; actor = boris; request = accept_request 1; outages = [] }
    ∷ []

nothing_yet-IsSound : IsSound nothing_yet
nothing_yet-IsSound = record {
  linked = record { circles = tt; memberships = tt; invitations = tt; seasons = tt };
  owned = tt;
  one_season = λ circle. omega arith;
}

serve-IsSound_example : IsSound (serve found_and_invite nothing_yet)
serve-IsSound_example = serve-IsSound found_and_invite nothing_yet nothing_yet-IsSound

serve-IsWithin_example :
    IsWithin (0 + acceptances found_and_invite) (serve found_and_invite nothing_yet)
serve-IsWithin_example =
    serve-IsWithin found_and_invite nothing_yet 0
      (record { circles = tt; memberships = tt; invitations = tt; seasons = tt }) tt tt

-- A circle whose season ended at 20.
abbrev overdue : Store
overdue = record nothing_yet {
  circles =
      record {
        id = 1;
        owner_user_id = 1;
        name = codes "Readers";
        invite_code = codes "c0de";
        member_limit = 8;
        created_at = 10;
        updated_at = 10;
      }
      ∷ [];
  memberships =
      record { circle_id = 1; user_id = 1; status = active_member; role = owner; joined_at = 10 }
      ∷ [];
  seasons =
      record {
        id = 1;
        circle_id = 1;
        status = active;
        starts_at = 10;
        ends_at = 20;
        ended_action = none;
      }
      ∷ [];
  next_circle_id = 2;
  next_season_id = 2;
}

abbrev look_again : List Call
look_again = record { env = at_time 31; actor = anna; request = get_request 1; outages = [] } ∷ []

get_circle-locks_example :
    let seen =
      (get_circle (at_time 30) anna 1 (record { store = overdue; outages = [] })).1.store in
    let w : World Store = record { store = serve look_again seen; outages = [] } in
    ((d : Detail) → (get_circle (at_time 32) anna 1 w).0 ≢ ok d)
    × ((es : List StandingEntry) → (get_standings (at_time 32) anna 1 w).0 ≢ ok es)
    × ((a : WeeklyAssembly) → (get_weekly_assembly (at_time 32) anna 1 w).0 ≢ ok a)
    × ((i : CircleInvitation) → (invite_to_circle (at_time 32) anna 1 to_boris w).0 ≢ ok i)
get_circle-locks_example =
    get_circle-locks (at_time 30) (at_time 32) anna anna 1 to_boris look_again overdue []
      (omega arith) (λ e. omega arith, tt)

abbrev of_user : User → ℕ → Bool → StandingSnapshot
of_user u weeks this_week = record {
  user_id = u.id;
  user_email = u.email;
  display_name = u.display_name;
  goals_count = 1;
  approved_weeks = weeks;
  missed_weeks = 0;
  current_streak = 0;
  has_approved_this_week = this_week;
  has_submitted_this_week = false;
  has_approved_prev_week = false;
  has_submitted_prev_week = false;
  last_activity_at = none;
}

abbrev two_members : List StandingSnapshot
two_members = of_user anna 0 false ∷ of_user boris 1 true ∷ []

build_standings-ranks_example :
    let es = build_standings two_members 1 in
    Perm (map (with_rank 0) es) (map (entry_of 1) two_members)
    × IsOrdered IsInFront es
    × IsRanked 1 es
build_standings-ranks_example = build_standings-ranks two_members 1
