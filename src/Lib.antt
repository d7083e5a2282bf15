-- ===== src/Lib.antt =====
-- A verification library for the backend of ProofForge: an application in which people set goals,
-- hand in weekly check-ins with evidence that a buddy reviews, log their days in teams, conclude
-- contracts and put up stakes, in circles of friends. It covers the packages of backend/internal that decide, each with its
-- domain types, its use cases (service.go) and its SQL statements (postgres_repository.go).
--
-- The parts, and where they are modelled:
--
--   Prelude       shared names, Boolean tests on the native numbers, strings as lists of runes
--                 (Prelude/Text), tables as lists of rows with a key (Prelude/Table), ORDER BY
--                 (Prelude/Sorting), Go's signed integers (Prelude/Int), one call with its outages
--                 (Prelude/Action), and rules on what a call keeps (Prelude/Triple), leaves
--                 (Prelude/Hoare) and makes of one store (Prelude/Run).
--   Users         the fields of backend/internal/users/domain.go that the other parts read.
--   Goals         backend/internal/goals: Domain (domain.go), Tables (the rows of the tables and the
--                 constraints of backend/migrations on goals), Repository (the creation) and Queries
--                 (the other statements of postgres_repository.go), Service and Refine
--                 (service.go), Requests. Frame and Calls say what every call keeps; Circles,
--                 RateLimit and Answers use it; Occupied is about a second goal. Steps, Acceptance, Consistency, Agreement, Accepting and
--                 Histories are about invites, pacts and goals.
--   Circles       backend/internal/circles: Domain (domain.go), Tables, Repository and Seasons
--                 (postgres_repository.go: circles and members, invitations and seasons), Windows,
--                 Snapshots and Standings (the season's week, the query of the standings, their
--                 order), Service (service.go and a history of calls). Change says what a call may
--                 do; Parts, MemberCalls, SeasonCalls and Outcome are about every call; Links,
--                 Owners, Soundness, Limits, Lapse, Weeks and Ranking use it.
--   Notifications backend/internal/notifications: Repository, Dispatcher (dispatcher.go, policy.go),
--                 Engine (nudge_engine.go); Throttle. The digests are left out.
--   CheckIns      backend/internal/checkins: Domain (domain.go), Mime (DetectMIME), Repository
--                 (postgres_repository.go), Service (service.go), Requests (one call of a
--                 handler, and histories of calls). Change is the specification: the changes of
--                 the tables that a user may make; Outcome and Refinement relate the service to it,
--                 Lifecycle, Reviewers, Limits, Results, Progress, Links and Files draw on it.
--   DailyLog      backend/internal/dailylog: Calendar and Audit (rules.go), Rules (domain.go and
--                 rules.go), Repository, Service, Requests; Soundness and Validity, Counting and
--                 Repeats, Freezes.
--   Contracts     backend/internal/contracts: Domain, Repository, Service with its requests; Changes,
--                 Lifecycle, Closed, Listing.
--   Stakes        backend/internal/stakes: Repository (domain.go and the statements), Service with
--                 its requests; Changes, Consistency.
--
--   Milestones    backend/internal/milestones: Repository (domain.go and the statements), Service with
--                 its requests; Changes and Outcome, Stamps, Order, Reopening.
--
-- How they interact: a check-in belongs to a goal, and a decision on it moves the goal's streak in
-- the transaction of the review; stakes and milestones ask
-- the goal's row for the owner and the buddy. Each part
-- has a store with the tables that its statements touch, one function per method, and `serve`, which
-- runs a history of calls one after another.
--
-- How the code corresponds: a method `CreateCheckIn` is `create_check_in`, or `create` where it is
-- the service's; a method of a service or repository is an Action, which takes the store and the
-- list of coming outages to a result or an error and a new store. An outage is a statement that the
-- database refuses; it changes nothing, and a transaction gives back the store that it began with,
-- its sequences too (the database would leave a gap in the ids).
-- An UPDATE maps the table, an INSERT appends a row with the next value of the sequence, a row that
-- is missing is `none` until the method turns it into its error. A nil pointer and a NULL are `none`.
-- The database refuses a statement that sets a column which no migration gives its table: MarkSeasonCompleted
-- in Circles/Seasons asks for the columns of circle_seasons.
--
-- Numbers and bounds: ids, counters and times are natural numbers; a sequence, a streak or a count
-- that leaves 64 bits is not modelled. Times are nanoseconds (seconds in DailyLog), a local date is
-- the number of days since 1970-01-01, and dates before it are not modelled. MonthReset compares
-- months in the process's zone, which is UTC here. The length of a string is in bytes, as in Go.
-- The loop of ConsecutiveWorkingDays has no bound; its model takes fuel, one step for a day, and
-- any fuel above the distance to the last uncovered working day gives the result.
--
-- What comes from outside is a parameter (the record Env of each part): the clocks, the time zones,
-- the holidays, the membership test of the circles, the keys of the object store, the letter
-- tables of Unicode, SHA-256, the generators of tokens and the provider of refinements.
--
-- Not modelled: calls that run at the same time (each history is sequential), HTTP handlers and JSON,
-- the object store, chat messages, the workers' loops, and the packages of backend/internal that are
-- not named above: visibility, buddy assignment, teams,
-- leaderboards, statistics, the companion and administration. A message whose sending fails counts
-- as not delivered.
pub mod Prelude
pub mod Users
pub mod Goals
pub mod CheckIns
pub mod Circles
pub mod Contracts
pub mod DailyLog
pub mod Milestones
pub mod Notifications
pub mod Stakes
