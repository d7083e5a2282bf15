-- ===== src/Circles/Standings.antt =====
-- buildStandings, deriveWeeklyStatus and buildEvents of backend/internal/circles/service.go.
use proof_forge.Prelude.{
  ℕ, ◌+◌, ◌-◌, ◌*◌, suc, Bool, true, false, not, ◌&&◌, ◌||◌, List, [], ◌∷◌, ◌++◌, map, ltb, leb,
  ◌==◌, if◌then◌else◌,
}
use proof_forge.Prelude.Int.{ℤ, pos, negsuc, less, same_int}
use proof_forge.Prelude.Text.{Text, codes}
use proof_forge.Prelude.Sorting.{sort_by}
use proof_forge.Users.{user_keyed}
use proof_forge.Circles.Domain.{
  StandingSnapshot, StandingEntry, WeeklyStatus, no_goal, approved, waiting_review, at_risk,
  dropped, comeback, EventKind, approved_event, dropped_event, comeback_event, risk_event, Event,
}

-- deriveWeeklyStatus
unfoldable pub derive_weekly_status : StandingSnapshot → WeeklyStatus
derive_weekly_status s =
    if s.goals_count == 0
    then at_risk
    else if s.has_approved_this_week && not s.has_approved_prev_week && ltb 0 s.missed_weeks
    then comeback
    else if s.has_approved_this_week
    then approved
    else if s.has_submitted_this_week
    then waiting_review
    else if leb 2 s.missed_weeks
    then dropped
    else at_risk

-- What the status adds to the score, and what it takes off.
abbrev pub bonus : WeeklyStatus → ℕ
bonus comeback = 5
bonus approved = 3
bonus _ = 0

abbrev pub penalty : WeeklyStatus → ℕ
penalty dropped = 4
penalty at_risk = 2
penalty _ = 0

-- a - b, as an integer
abbrev pub difference : ℕ → ℕ → ℤ
difference a b = if leb b a then pos (a - b) else negsuc (b - a - 1)

abbrev pub missed : ℕ → StandingSnapshot → ℕ
missed current_week s = if ltb 0 s.goals_count then current_week - s.approved_weeks else 0

-- The body of the first loop of buildStandings; `s` has its missed weeks.
abbrev entry_with : WeeklyStatus → StandingSnapshot → StandingEntry
entry_with status s = record {
  user_id = s.user_id;
  user_email = s.user_email;
  display_name = s.display_name;
  rank = 0;
  weekly_status = status;
  approved_weeks = s.approved_weeks;
  missed_weeks = s.missed_weeks;
  current_streak = s.current_streak;
  score =
      difference (s.approved_weeks * 10 + s.current_streak * 3 + bonus status)
        (s.missed_weeks * 2 + penalty status);
  goals_count = s.goals_count;
  has_activity_this_week = s.has_approved_this_week || s.has_submitted_this_week;
}

unfoldable pub entry_of : ℕ → StandingSnapshot → StandingEntry
unfolding derive_weekly_status
entry_of current_week s =
    let s' : StandingSnapshot = record s { missed_weeks = missed current_week s } in
    entry_with (derive_weekly_status s') s'

-- s < t for Go strings: by their bytes in UTF-8, whose order is that of the runes
unfoldable pub text_less : Text → Text → Bool
text_less [] [] = false
text_less [] (d ∷ t) = true
text_less (c ∷ s) [] = false
text_less (c ∷ s) (d ∷ t) = ltb c d || c == d && text_less s t

-- The comparison of sort.SliceStable.
unfoldable pub ranks_before : StandingEntry → StandingEntry → Bool
ranks_before a b =
    if not (same_int a.score b.score)
    then less b.score a.score
    else if not (a.approved_weeks == b.approved_weeks)
    then ltb b.approved_weeks a.approved_weeks
    else if not (a.current_streak == b.current_streak)
    then ltb b.current_streak a.current_streak
    else text_less a.user_email b.user_email

abbrev pub with_rank : ℕ → StandingEntry → StandingEntry
with_rank n e = record e { rank = n }

-- The last loop of buildStandings.
unfoldable pub number_from : ℕ → List StandingEntry → List StandingEntry
number_from n [] = []
number_from n (e ∷ es) = with_rank n e ∷ number_from (suc n) es

-- buildStandings
unfoldable pub build_standings : List StandingSnapshot → ℕ → List StandingEntry
build_standings snapshots current_week =
    number_from 1 (sort_by ranks_before (map (entry_of current_week) snapshots))

abbrev event_at : ℕ → StandingEntry → EventKind → Text → Event
event_at now e kind text = record {
  kind = kind;
  user_id = e.user_id;
  user_email = e.user_email;
  message = e.display_name ++ text;
  occurred_at = now;
}

abbrev event_for : WeeklyStatus → ℕ → StandingEntry → List Event
event_for approved now e = event_at now e approved_event (codes " подтвердил шаг недели.") ∷ []
event_for comeback now e = event_at now e comeback_event (codes " вернулся в ритм.") ∷ []
event_for dropped now e = event_at now e dropped_event (codes " выпал из недельного ритма.") ∷ []
event_for at_risk now e = event_at now e risk_event (codes " рискует сорвать неделю.") ∷ []
event_for no_goal now e = []
event_for waiting_review now e = []

-- buildEvents
unfoldable pub build_events : List StandingEntry → ℕ → List Event
build_events [] now = []
build_events (e ∷ es) now = event_for e.weekly_status now e ++ build_events es now
