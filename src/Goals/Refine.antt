-- ===== src/Goals/Refine.antt =====
-- The refinement of a draft (RefineGoal and normalizeGoalRefineResponse of
-- backend/internal/goals/service.go).
use proof_forge.Prelude.{
  ℕ, ◌-◌, ◌*◌, Option, none, some, not, ◌||◌, List, [], ◌∷◌, length, ltb, ◌==◌, if◌then◌else◌,
}
use proof_forge.Prelude.Text.{Text, trim_space, is_empty}
use proof_forge.Prelude.Action.{Result, ok, err, pure, lift, guard, ◌>>=◌, ◌>>◌}
use proof_forge.Users.{User}
use proof_forge.Goals.Domain.{
  Error, invalid_goal_refine_input, goal_refine_rate_limited, hour, to_lower, validate_draft,
}
use proof_forge.Goals.Tables.{M, GoalRefineVariant, GoalRefineResponse}
use proof_forge.Goals.Queries.{
  find_goal_refine_cache, save_goal_refine_cache, count_goal_refine_requests_since,
  insert_goal_refine_request,
}
use proof_forge.Goals.Service.{Env}

abbrev pub goal_refine_rate_limit : ℕ
goal_refine_rate_limit = 5

abbrev pub goal_refine_rate_window : ℕ
goal_refine_rate_window = 24 * hour

abbrev pub goal_refine_cache_ttl : ℕ
goal_refine_cache_ttl = 30 * (24 * hour)

abbrev pub and_result : {A B : Type 0} → Result Error A → (A → Result Error B) → Result Error B
and_result (ok a) f = f a
and_result (err e) f = err e

-- The loop over the examples of a variant.
unfoldable pub normal_examples : List Text → Result Error (List Text)
normal_examples [] = ok []
normal_examples (e ∷ es) =
    let rest = normal_examples es in
    if is_empty (trim_space e)
    then err invalid_goal_refine_input
    else and_result rest (λ xs. ok (trim_space e ∷ xs))

-- The body of the loop over the variants.
unfoldable pub normal_variant : GoalRefineVariant → Result Error GoalRefineVariant
normal_variant v =
    if is_empty (trim_space v.title) || is_empty (trim_space v.smart)
    then err invalid_goal_refine_input
    else if not (length v.proof_examples == 3)
    then err invalid_goal_refine_input
    else and_result (normal_examples v.proof_examples) λ examples.
      ok
        record { title = trim_space v.title; smart = trim_space v.smart; proof_examples = examples }

unfoldable pub normal_variants : List GoalRefineVariant → Result Error (List GoalRefineVariant)
normal_variants [] = ok []
normal_variants (v ∷ vs) =
    let rest = normal_variants vs in
    and_result (normal_variant v) (λ x. and_result rest (λ xs. ok (x ∷ xs)))

-- normalizeGoalRefineResponse, of what the provider returns
unfoldable pub normalize_response : GoalRefineResponse → Result Error GoalRefineResponse
normalize_response r =
    let category = trim_space r.category in
    if is_empty category || ltb 32 (length category)
    then err invalid_goal_refine_input
    else if not (length r.variants == 3)
    then err invalid_goal_refine_input
    else and_result (normal_variants r.variants)
        λ variants. ok record { category = category; variants = variants }

-- hashGoalRefineDraft
unfoldable pub hash_draft : Env → Text → Text
hash_draft env draft = env.hash (to_lower env.lower (trim_space draft))

-- The end of RefineGoal: the provider is asked, and its answer kept.
unfoldable pub ask_provider : Env → Text → M GoalRefineResponse
ask_provider env draft = do
  answer ← lift (env.refine draft)
  response ← lift (normalize_response answer)
  save_goal_refine_cache env.db_now (hash_draft env draft) response
  pure response

abbrev pub cached_or_asked : Env → Text → Option GoalRefineResponse → M GoalRefineResponse
cached_or_asked env draft none = ask_provider env draft
cached_or_asked env draft (some response) = pure response

-- The rate limit, and the log of the request.
unfoldable pub admit_request : Env → User → Text → M (Unit {0})
admit_request env actor draft = do
  request_count ← count_goal_refine_requests_since actor.id (env.clock 0 - goal_refine_rate_window)
  guard (ltb request_count goal_refine_rate_limit) goal_refine_rate_limited
  insert_goal_refine_request env.db_now actor.id (hash_draft env draft)

-- The answer, from the cache or from the provider.
unfoldable pub answer : Env → Text → M GoalRefineResponse
answer env draft = do
  cached ← find_goal_refine_cache (hash_draft env draft) (env.clock 0 - goal_refine_cache_ttl)
  cached_or_asked env draft cached

-- RefineGoal
unfoldable pub refine_goal : Env → User → Text → M GoalRefineResponse
refine_goal env actor draft = do
  lift (validate_draft draft)
  admit_request env actor (trim_space draft)
  answer env (trim_space draft)
