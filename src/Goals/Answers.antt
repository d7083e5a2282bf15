-- ===== src/Goals/Answers.antt =====
-- What a refinement answers.
use proof_forge.Prelude.{
  ℕ, ◌≡◌, ◌≤◌, refl, sym, subst, find_by, Option, none, some, Bool, true, false, ◌||◌, List, [],
  ◌∷◌, arith, All, length, ltb, ◌==◌, Bool-cases, inl, inr,
}
use proof_forge.Prelude.Text.{Text, trim_space, is_empty, text_eq}
use proof_forge.Prelude.Action.{Result, ok, err, World}
use proof_forge.Prelude.Triple.{
  Triple, Anything, Returns, triple_pure, triple_bind, triple_seq, triple_lift, triple_query,
  triple_execute, triple_guard,
}
use proof_forge.Users.{User}
use proof_forge.Goals.Domain.{Error, validate_draft}
use proof_forge.Goals.Tables.{Store, GoalRefineVariant, GoalRefineResponse, CachedResponse}
use proof_forge.Goals.Queries.{
  response_of, find_goal_refine_cache, put_cached, save_goal_refine_cache,
  count_goal_refine_requests_since, insert_goal_refine_request,
}
use proof_forge.Goals.Service.{Env}
use proof_forge.Goals.Refine.{
  and_result, normal_examples, normal_variant, normal_variants, normalize_response, hash_draft,
  ask_provider, cached_or_asked, answer, admit_request, refine_goal, goal_refine_rate_limit,
}

-- Three variants with a title, a text and three examples, none of them empty, under a category of 1 to
-- 32 runes.
abbrev pub IsFilled : Text → Type 0
IsFilled t = is_empty t ≡ false

abbrev pub IsWholeVariant : GoalRefineVariant → Type 0
IsWholeVariant v =
    IsFilled v.title
    × IsFilled v.smart
    × (length v.proof_examples ≡ 3)
    × All IsFilled v.proof_examples

abbrev pub IsWhole : GoalRefineResponse → Type 0
IsWhole r =
    IsFilled r.category
    × (length r.category ≤ 32)
    × (length r.variants ≡ 3)
    × All IsWholeVariant r.variants

and_result-ok :
    {A B : Type 0} (r : Result Error A) (f : A → Result Error B) (b : B)
    → and_result r f ≡ ok b
    → (a : A) × (r ≡ ok a) × (f a ≡ ok b)
and_result-ok (ok a) f b h = (a, refl, h)
and_result-ok (err e) f b h = absurd (ground arith)

ok_inj : {A : Type 0} (a b : A) → ◌≡◌ {A = Result Error A} (ok a) (ok b) → a ≡ b
ok_inj a b h = cc

normal_examples-IsFilled :
    (es xs : List Text) → normal_examples es ≡ ok xs → (length xs ≡ length es) × All IsFilled xs
unfolding normal_examples
normal_examples-IsFilled [] xs h = rw (ok_inj xs [] (sym h)) (refl, tt)
normal_examples-IsFilled (e ∷ es) xs h = elim (Bool-cases (is_empty (trim_space e))) [
  | inl blank ↦ absurd (ground arith)
  | inr filled ↦
      let (ys, rest, made) =
        and_result-ok (normal_examples es) (λ ys. ok (trim_space e ∷ ys)) xs (rw filled at h) in
      let tail = normal_examples-IsFilled es ys rest in
      rw (ok_inj xs (trim_space e ∷ ys) (sym made)) (ground arith, (filled, tail.1))
]

normal_variant-whole : (v x : GoalRefineVariant) → normal_variant v ≡ ok x → IsWholeVariant x
unfolding normal_variant
normal_variant-whole v x h =
    elim (Bool-cases (is_empty (trim_space v.title) || is_empty (trim_space v.smart))) [
      | inl blank ↦ absurd (ground arith)
      | inr filled ↦ elim (Bool-cases (length v.proof_examples == 3)) [
        | inr other ↦ absurd (ground arith)
        | inl three ↦
            let (examples, fine, made) =
              and_result-ok (normal_examples v.proof_examples)
                (λ examples. ok record {
                  title = trim_space v.title;
                  smart = trim_space v.smart;
                  proof_examples = examples;
                })
                x (rw (filled, three) at h) in
            let tail = normal_examples-IsFilled v.proof_examples examples fine in
            rw (ok_inj x _ (sym made)) (ground arith, ground arith, ground arith, tail.1)
      ]
    ]

normal_variants-whole :
    (vs xs : List GoalRefineVariant)
    → normal_variants vs ≡ ok xs
    → (length xs ≡ length vs) × All IsWholeVariant xs
unfolding normal_variants
normal_variants-whole [] xs h = rw (ok_inj xs [] (sym h)) (refl, tt)
normal_variants-whole (v ∷ vs) xs h =
    let (y, first, made) =
      and_result-ok (normal_variant v) (λ y. and_result (normal_variants vs) (λ ys. ok (y ∷ ys))) xs
        h in
    let (ys, rest, whole) = and_result-ok (normal_variants vs) (λ ys. ok (y ∷ ys)) xs made in
    let tail = normal_variants-whole vs ys rest in
    rw (ok_inj xs (y ∷ ys) (sym whole)) (ground arith, (normal_variant-whole v y first, tail.1))

normalize_response-IsWhole : (r x : GoalRefineResponse) → normalize_response r ≡ ok x → IsWhole x
unfolding normalize_response
normalize_response-IsWhole r x h =
    let category = trim_space r.category in
    elim (Bool-cases (is_empty category || ltb 32 (length category))) [
      | inl odd ↦ absurd (ground arith)
      | inr fine ↦ elim (Bool-cases (length r.variants == 3)) [
        | inr other ↦ absurd (ground arith)
        | inl three ↦
            let (variants, good, made) =
              and_result-ok (normal_variants r.variants)
                (λ variants. ok record { category = category; variants = variants }) x
                (rw (fine, three) at h) in
            let tail = normal_variants-whole r.variants variants good in
            rw (ok_inj x _ (sym made)) (ground arith, ground arith, ground arith, tail.1)
      ]
    ]

-- The cache holds whole responses only.
abbrev pub AreWhole : Store → Type 0
AreWhole s = All (λ c. IsWhole c.response) s.refine_cache

put_cached-IsWhole :
    (c : CachedResponse) (cs : List CachedResponse)
    → IsWhole c.response
    → All (λ x. IsWhole x.response) cs
    → All (λ x. IsWhole x.response) (put_cached c cs)
unfolding put_cached
put_cached-IsWhole c [] whole h = (whole, tt)
put_cached-IsWhole c (x ∷ cs) whole h = elim (Bool-cases (text_eq x.hash c.hash)) [
  | inl same ↦ rw same (whole, h.1)
  | inr other ↦ rw other (h.0, put_cached-IsWhole c cs whole h.1)
]

abbrev IsWholeIfAny : Option GoalRefineResponse → Type 0
IsWholeIfAny none = Unit
IsWholeIfAny (some r) = IsWhole r

find_by-whole :
    (p : CachedResponse → Bool) (cs : List CachedResponse)
    → All (λ x. IsWhole x.response) cs
    → IsWholeIfAny (response_of (find_by p cs))
unfolding find_by
find_by-whole p [] h = tt
find_by-whole p (x ∷ cs) h = elim (Bool-cases (p x)) [
  | inl hit ↦ rw hit h.0
  | inr miss ↦ rw miss (find_by-whole p cs h.1)
]

cache-triple :
    (hash : Text) (min_created_at : ℕ)
    → Triple AreWhole (find_goal_refine_cache hash min_created_at) IsWholeIfAny
unfolding find_goal_refine_cache
cache-triple hash min_created_at =
    triple_query AreWhole _ _ IsWholeIfAny (λ s h. find_by-whole _ s.refine_cache h)

save-triple :
    (db_now : ℕ) (hash : Text) (r : GoalRefineResponse)
    → IsWhole r
    → Triple AreWhole (save_goal_refine_cache db_now hash r) Anything
unfolding save_goal_refine_cache
save-triple db_now hash r whole =
    triple_execute AreWhole _ _ (λ s h. put_cached-IsWhole _ s.refine_cache whole h)

ask_provider-triple : (env : Env) (draft : Text) → Triple AreWhole (ask_provider env draft) IsWhole
unfolding ask_provider
ask_provider-triple env draft =
    triple_bind AreWhole _ _ Anything IsWhole
      (triple_lift AreWhole (env.refine draft) Anything (λ a h. tt))
      λ r q.
        triple_bind AreWhole _ _ IsWhole IsWhole
          (triple_lift AreWhole (normalize_response r) IsWhole (normalize_response-IsWhole r))
          λ x whole.
            triple_seq AreWhole _ _ Anything IsWhole
              (save-triple env.db_now (hash_draft env draft) x whole)
              (triple_pure AreWhole IsWhole x whole)

cached-triple :
    (env : Env) (draft : Text) (cached : Option GoalRefineResponse)
    → IsWholeIfAny cached
    → Triple AreWhole (cached_or_asked env draft cached) IsWhole
cached-triple env draft none h = ask_provider-triple env draft
cached-triple env draft (some r) h = triple_pure AreWhole IsWhole r h

answer-IsWhole : (env : Env) (draft : Text) → Triple AreWhole (answer env draft) IsWhole
unfolding answer
answer-IsWhole env draft =
    triple_bind AreWhole _ _ IsWholeIfAny IsWhole (cache-triple _ _) (cached-triple env draft)

admit-triple :
    (env : Env) (actor : User) (draft : Text)
    → Triple AreWhole (admit_request env actor draft) Anything
unfolding admit_request count_goal_refine_requests_since insert_goal_refine_request
admit-triple env actor draft =
    triple_bind AreWhole _ _ Anything Anything (triple_query AreWhole _ _ Anything (λ s h. tt))
      λ n q.
        triple_seq AreWhole _ _ (λ u. ltb n goal_refine_rate_limit ≡ true) Anything
          (triple_guard AreWhole _ _) (triple_execute AreWhole _ _ (λ s h. h))

refine_goal-triple :
    (env : Env) (actor : User) (draft : Text)
    → Triple AreWhole (refine_goal env actor draft) IsWhole
unfolding refine_goal
refine_goal-triple env actor draft =
    triple_seq AreWhole _ _ Anything IsWhole
      (triple_lift AreWhole (validate_draft draft) Anything (λ a h. tt))
      (triple_seq AreWhole _ _ Anything IsWhole (admit-triple env actor (trim_space draft))
        (answer-IsWhole env (trim_space draft)))

-- Whatever the provider answers: from a cache of whole responses, a refinement that succeeds returns a
-- whole response, and leaves such a cache.
pub refine_goal-IsWhole :
    (env : Env) (actor : User) (draft : Text) (w : World Store) (r : GoalRefineResponse)
    → AreWhole w.store
    → (refine_goal env actor draft w).0 ≡ ok r
    → IsWhole r × AreWhole (refine_goal env actor draft w).1.store
refine_goal-IsWhole env actor draft w r h e =
    let (kept, returned) = (refine_goal-triple env actor draft).at w h in
    (subst (Returns IsWhole) e returned, kept)
