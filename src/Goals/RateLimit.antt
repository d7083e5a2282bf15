-- ===== src/Goals/RateLimit.antt =====
-- The rate limit of refinements over every window of 24 hours.
use proof_forge.Prelude.{
  ℕ, ◌+◌, ◌-◌, ◌≤◌, ◌<◌, ◌≡◌, ◌⊎◌, ◌∙◌, subst, refl, Bool, ◌&&◌, List, [], ◌∷◌, ◌++◌, arith, All,
  All-append, All-map, count, count-append, ltb, leb, ◌==◌, Bool-cases, inl, inr,
}
use proof_forge.Prelude.Text.{Text, trim_space}
use proof_forge.Prelude.Action.{Result, ok, err, Result-cases, World, and_then}
use proof_forge.Prelude.Triple.{Triple, Anything, Returns}
use proof_forge.Users.{User}
use proof_forge.Goals.Domain.{Error, validate_draft}
use proof_forge.Goals.Tables.{M, Store, RefineRequest}
use proof_forge.Goals.Queries.{
  is_since, count_goal_refine_requests_since, insert_goal_refine_request,
}
use proof_forge.Goals.Service.{Env}
use proof_forge.Goals.Refine.{
  admit_request, answer, goal_refine_rate_limit, goal_refine_rate_window, hash_draft, refine_goal,
}
use proof_forge.Goals.Requests.{Call, after, serve}
use proof_forge.Goals.Frame.{IsKept}
use proof_forge.Goals.Calls.{answer-triple, perform-triple}

-- A request of the user in the 24 hours that begin at `from`, both ends included.
abbrev pub is_in_window : ℕ → ℕ → RefineRequest → Bool
is_in_window user from r =
    r.user_id == user && leb from r.created_at && leb r.created_at (from + goal_refine_rate_window)

-- In no window of 24 hours a user has more than five requests, and none was made after `now`.
abbrev pub IsLimited : ℕ → Store → Type 0
IsLimited now s =
    All (λ r. r.created_at ≤ now) s.refine_requests
    × ((user from : ℕ) → count (is_in_window user from) s.refine_requests ≤ goal_refine_rate_limit)

-- The calls come one after another, on clocks that agree.
abbrev pub AreTimely : ℕ → List Call → Type 0
AreTimely now [] = Unit
AreTimely now (c ∷ cs) =
    (now ≤ c.env.db_now) × (c.env.clock 0 ≡ c.env.db_now) × AreTimely c.env.db_now cs

abbrev pub end_of : ℕ → List Call → ℕ
end_of now [] = now
end_of now (c ∷ cs) = end_of c.env.db_now cs

abbrev logged : Env → User → Text → RefineRequest
logged env actor hash = record { user_id = actor.id; draft_hash = hash; created_at = env.db_now }

-- The log is the same.
abbrev Logs : List RefineRequest → Store → Type 0
Logs rs s = s.refine_requests ≡ rs

Logs-kept : (rs : List RefineRequest) → IsKept (Logs rs)
Logs-kept rs = record {
  by_others = λ s t same h. rw same.1 h;
  by_goal = λ s t g fits goals requests h. rw requests h;
  by_activation = λ s t id at goals requests h. rw requests h;
}

then_log :
    {A B : Type 0} (f : A → M B) (x : Result Error A × World Store)
    → ((a : A) (w : World Store) → (f a w).1.store.refine_requests ≡ w.store.refine_requests)
    → (and_then f x).1.store.refine_requests ≡ x.1.store.refine_requests
then_log f (ok a, w) same = same a w
then_log f (err e, w) same = refl

answer-log :
    (env : Env) (draft : Text) (w : World Store)
    → (answer env draft w).1.store.refine_requests ≡ w.store.refine_requests
answer-log env draft w =
    let rs = w.store.refine_requests in
    ((answer-triple (Logs rs) (Logs-kept rs) env draft).at w refl).0

admit_request-log :
    (env : Env) (actor : User) (draft : Text) (w : World Store)
    → let t = (admit_request env actor draft w).1.store in
      (t.refine_requests ≡ w.store.refine_requests)
      ⊎ (t.refine_requests
          ≡ w.store.refine_requests ++ logged env actor (hash_draft env draft) ∷ [])
unfolding admit_request count_goal_refine_requests_since insert_goal_refine_request
admit_request-log env actor draft w = ground arith

admit_request-barred :
    (env : Env) (actor : User) (draft : Text) (w : World Store)
    → goal_refine_rate_limit
      ≤ count (is_since actor.id (env.clock 0 - goal_refine_rate_window)) w.store.refine_requests
    → (admit_request env actor draft w).1.store.refine_requests ≡ w.store.refine_requests
unfolding admit_request count_goal_refine_requests_since insert_goal_refine_request
admit_request-barred env actor draft w full = ground arith

-- The log after a refinement: as it was, or longer by one request below the limit.
abbrev Grows : Env → User → Store → Store → Type 0
Grows env actor s t =
    (t.refine_requests ≡ s.refine_requests)
    ⊎ ((hash : Text) × (count (is_since actor.id (env.clock 0 - goal_refine_rate_window))
            s.refine_requests
          < goal_refine_rate_limit)
        × (t.refine_requests ≡ s.refine_requests ++ logged env actor hash ∷ []))

admit_request-Grows :
    (env : Env) (actor : User) (draft : Text) (w : World Store)
    → Grows env actor w.store (admit_request env actor draft w).1.store
admit_request-Grows env actor draft w =
    let n =
      count (is_since actor.id (env.clock 0 - goal_refine_rate_window)) w.store.refine_requests in
    elim (Bool-cases (ltb n goal_refine_rate_limit)) [
      | inl below ↦ elim (admit_request-log env actor draft w) [
        | inl same ↦ inl same
        | inr longer ↦ inr (hash_draft env draft, ground arith, longer)
      ]
      | inr full ↦ inl (admit_request-barred env actor draft w (ground arith))
    ]

Grows-log :
    (env : Env) (actor : User) (s t u : Store)
    → u.refine_requests ≡ t.refine_requests
    → Grows env actor s t
    → Grows env actor s u
Grows-log env actor s t u same (inl h) = inl (same ∙ h)
Grows-log env actor s t u same (inr (hash, below, h)) = inr (hash, below, same ∙ h)

refine_goal-Grows :
    (env : Env) (actor : User) (draft : Text) (w : World Store)
    → Grows env actor w.store (refine_goal env actor draft w).1.store
unfolding refine_goal
refine_goal-Grows env actor draft w = elim (Result-cases (validate_draft draft)) [
  | inl (u, fine) ↦
      let d = trim_space draft in
      rw fine (
        Grows-log env actor w.store (admit_request env actor d w).1.store
          (and_then (λ u. answer env d) (admit_request env actor d w)).1.store
          (then_log (λ u. answer env d) (admit_request env actor d w) (λ u. answer-log env d))
          (admit_request-Grows env actor d w))
  | inr (e, bad) ↦ rw bad (inl refl)
]

-- A window that holds the new request holds no other that the limit did not count.
window-since :
    (user from now : ℕ) (rs : List RefineRequest)
    → from ≤ now
    → now ≤ from + goal_refine_rate_window
    → count (is_in_window user from) rs ≤ count (is_since user (now - goal_refine_rate_window)) rs
window-since user from now [] low high = omega arith
window-since user from now (r ∷ rs) low high =
    ground (arith, window-since user from now rs low high)

-- A window that begins after `now` is empty when every request was made before.
window-empty :
    (user from now : ℕ) (rs : List RefineRequest)
    → All (λ r. r.created_at ≤ now) rs
    → now < from
    → count (is_in_window user from) rs ≡ 0
window-empty user from now [] past late = refl
window-empty user from now (r ∷ rs) past late =
    ground (arith, past.0, window-empty user from now rs past.1 late)

window-grows :
    (env : Env) (actor : User) (hash : Text) (rs : List RefineRequest) (user from : ℕ)
    → All (λ r. r.created_at ≤ env.db_now) rs
    → count (is_since actor.id (env.db_now - goal_refine_rate_window)) rs < goal_refine_rate_limit
    → count (is_in_window user from) rs ≤ goal_refine_rate_limit
    → count (is_in_window user from) (rs ++ logged env actor hash ∷ []) ≤ goal_refine_rate_limit
window-grows env actor hash rs user from past below limited =
    elim (Bool-cases (is_in_window user from (logged env actor hash))) [
      | inl inside ↦
          let mine : actor.id ≡ user = ground arith in
          let low : from ≤ env.db_now = ground arith in
          let high : env.db_now ≤ from + goal_refine_rate_window = ground arith in
          let few = window-since user from env.db_now rs low high in
          let counted : count (is_since user (env.db_now - goal_refine_rate_window)) rs
              < goal_refine_rate_limit =
            subst
              (λ u.
                count (is_since u (env.db_now - goal_refine_rate_window)) rs
                < goal_refine_rate_limit)
              mine below in
          rw (count-append (is_in_window user from) rs (logged env actor hash ∷ []), inside)
            (omega arith)
      | inr outside ↦
          rw (count-append (is_in_window user from) rs (logged env actor hash ∷ []), outside)
            (omega arith)
    ]

Grows-IsLimited :
    (env : Env) (actor : User) (s t : Store)
    → env.clock 0 ≡ env.db_now
    → Grows env actor s t
    → IsLimited env.db_now s
    → IsLimited env.db_now t
Grows-IsLimited env actor s t agree (inl same) h = rw same h
Grows-IsLimited env actor s t agree (inr (hash, below, longer)) h =
    let due : count (is_since actor.id (env.db_now - goal_refine_rate_window)) s.refine_requests
        < goal_refine_rate_limit =
      subst
        (λ now.
          count (is_since actor.id (now - goal_refine_rate_window)) s.refine_requests
          < goal_refine_rate_limit)
        agree below in
    rw longer (
      All-append (λ r. r.created_at ≤ env.db_now) s.refine_requests _ h.0 (omega arith, tt),
      λ user from. window-grows env actor hash s.refine_requests user from h.0 due (h.1 user from),
    )

IsLimited-kept : (now : ℕ) → IsKept (IsLimited now)
IsLimited-kept now = record {
  by_others = λ s t same h. rw same.1 h;
  by_goal = λ s t g fits goals requests h. rw requests h;
  by_activation = λ s t id at goals requests h. rw requests h;
}

anything : {E A : Type 0} (r : Result E A) → Returns Anything r
anything (ok a) = tt
anything (err e) = tt

refine_goal-IsLimited :
    (env : Env) (actor : User) (draft : Text)
    → env.clock 0 ≡ env.db_now
    → Triple (IsLimited env.db_now) (refine_goal env actor draft) Anything
refine_goal-IsLimited env actor draft agree = record {
  at = λ w h. (
    Grows-IsLimited env actor w.store (refine_goal env actor draft w).1.store agree
        (refine_goal-Grows env actor draft w) h,
    anything _,
  );
}

later_IsLimited : (t now : ℕ) (s : Store) → t ≤ now → IsLimited t s → IsLimited now s
later_IsLimited t now s past h = (All-map _ _ s.refine_requests (λ r before. omega arith) h.0, h.1)

after-IsLimited :
    (c : Call) (s : Store)
    → c.env.clock 0 ≡ c.env.db_now
    → IsLimited c.env.db_now s
    → IsLimited c.env.db_now (after c s)
unfolding after
after-IsLimited c s agree h =
    ((perform-triple (IsLimited c.env.db_now) (IsLimited-kept c.env.db_now) c.env c.actor c.request
        (λ draft. refine_goal-IsLimited c.env c.actor draft agree)).at
      (record { store = s; outages = c.outages }) h).0

-- When the calls come one after another on clocks that agree, and no user has more than five logged
-- requests in any 24 hours at the beginning, no user ever has: the limit holds for every window of 24
-- hours, not only for those that end at a request.
pub serve-IsLimited :
    (cs : List Call) (now : ℕ) (s : Store)
    → AreTimely now cs
    → IsLimited now s
    → IsLimited (end_of now cs) (serve cs s)
unfolding serve
serve-IsLimited [] now s timely h = h
serve-IsLimited (c ∷ cs) now s timely h =
    serve-IsLimited cs c.env.db_now (after c s) timely.2
      (after-IsLimited c s timely.1 (later_IsLimited now c.env.db_now s timely.0 h))
