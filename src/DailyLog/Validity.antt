-- ===== src/DailyLog/Validity.antt =====
-- The invariant of the daily log through any history of calls.
use proof_forge.Prelude.{List, [], ◌∷◌}
use proof_forge.Prelude.Triple.{Triple, Anything, triple_pure, triple_seq}
use proof_forge.DailyLog.Repository.{Store, list_entries}
use proof_forge.DailyLog.Service.{Env, list_my_entries, get_my_streak}
use proof_forge.DailyLog.Requests.{
  Request, log_request, freeze_request, rollover_request, list_request, streak_request, perform,
  Call, after, serve,
}
use proof_forge.DailyLog.Soundness.{
  IsSound, IsValid, get_membership-triple, get_streak-triple, read-triple,
}
use proof_forge.DailyLog.Soundness.UseCases.{
  submit_log-triple, freeze_day-triple, day_rollover-triple,
}

perform-triple : (env : Env) (r : Request) → Triple IsValid (perform env r) Anything
unfolding perform list_my_entries get_my_streak list_entries
perform-triple env (log_request input) =
    triple_seq IsValid _ _ Anything Anything (submit_log-triple env input)
      (triple_pure IsValid Anything tt tt)
perform-triple env (freeze_request user team date) =
    triple_seq IsValid _ _ Anything Anything (freeze_day-triple env user team date)
      (triple_pure IsValid Anything tt tt)
perform-triple env (rollover_request timezone user team) =
    day_rollover-triple env timezone user team
perform-triple env (list_request user team from to) =
    triple_seq IsValid _ _ Anything Anything
      (triple_seq IsValid _ _ Anything Anything (get_membership-triple team user) (read-triple _))
      (triple_pure IsValid Anything tt tt)
perform-triple env (streak_request user team) =
    triple_seq IsValid _ _ IsSound Anything
      (triple_seq IsValid _ _ Anything IsSound (get_membership-triple team user)
        (get_streak-triple user team))
      (triple_pure IsValid Anything tt tt)

after-IsValid : (c : Call) (s : Store) → IsValid s → IsValid (after c s)
unfolding after
after-IsValid c s h =
    ((perform-triple c.env c.request).at (record { store = s; outages = c.outages }) h).0

-- From tables that are sound, every history of daily-log calls, whatever statements the database
-- refuses, leads to sound ones: no current streak is above the best one, no streak's counter of the
-- freezes used in a month is above two, and no user has two entries for one day in one team.
pub serve-IsValid : (cs : List Call) (s : Store) → IsValid s → IsValid (serve cs s)
unfolding serve
serve-IsValid [] s h = h
serve-IsValid (c ∷ cs) s h = serve-IsValid cs (after c s) (after-IsValid c s h)
