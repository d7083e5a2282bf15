-- ===== src/Goals/Circles.antt =====
-- One goal for an owner in a circle, through any history of calls.
use proof_forge.Prelude.{
  ℕ, ◌≤◌, ◌≡◌, refl, subst, Option, none, some, Bool, true, false, ◌&&◌, List, [], ◌∷◌, ◌++◌, arith,
  any, count, count-append, ◌==◌, Bool-cases, inl, inr,
}
use proof_forge.Prelude.Text.{Text}
use proof_forge.Prelude.Table.{modify}
use proof_forge.Prelude.Triple.{Triple, Anything}
use proof_forge.Users.{User}
use proof_forge.Goals.Domain.{Goal, goal_keyed}
use proof_forge.Goals.Tables.{Store, is_goal_in, is_taken, is_just, is_running, may_insert}
use proof_forge.Goals.Queries.{activate_goal}
use proof_forge.Goals.Service.{Env}
use proof_forge.Goals.Refine.{refine_goal}
use proof_forge.Goals.Requests.{Call, after, serve}
use proof_forge.Goals.Frame.{IsKept}
use proof_forge.Goals.Calls.{perform-triple, refine_goal-triple}

-- No circle has two goals of one owner.
abbrev IsOnePerCircle : Store → Type 0
IsOnePerCircle s = (circle owner : ℕ) → count (is_goal_in circle owner) s.goals ≤ 1

count-any : {A : Type 0} (p : A → Bool) (xs : List A) → any p xs ≡ false → count p xs ≡ 0
count-any p [] h = refl
count-any p (x ∷ xs) h = ground (arith, count-any p xs)

goal_in-fields :
    (circle owner : ℕ) (c : Option ℕ) (u : ℕ) (r : Bool)
    → is_just circle c && u == owner && r ≡ true
    → (c ≡ some circle) × (u ≡ owner) × (r ≡ true)
goal_in-fields circle owner none u r h = absurd (ground arith)
goal_in-fields circle owner (some d) u r h =
    let one : d ≡ circle = ground arith in
    let mine : u ≡ owner = ground arith in (rw one refl, mine, ground arith)

may_insert-untaken :
    (g : Goal) (s : Store)
    → may_insert g s ≡ true
    → is_running g.status ≡ true
    → is_taken g.circle_id g.owner_user_id s.goals ≡ false
unfolding may_insert
may_insert-untaken g s fits running = ground arith

-- A goal that may be inserted finds none of its owner in its circle.
may_insert-free :
    (g : Goal) (s : Store) (circle owner : ℕ)
    → may_insert g s ≡ true
    → is_goal_in circle owner g ≡ true
    → any (is_goal_in circle owner) s.goals ≡ false
may_insert-free g s circle owner fits own =
    let f = goal_in-fields circle owner g.circle_id g.owner_user_id (is_running g.status) own in
    let free : is_taken (some circle) owner s.goals ≡ false =
      subst (λ u. is_taken (some circle) u s.goals ≡ false) f.1
        (subst (λ c. is_taken c g.owner_user_id s.goals ≡ false) f.0
          (may_insert-untaken g s fits f.2)) in
    free

append-one :
    (circle owner : ℕ) (g : Goal) (s : Store)
    → may_insert g s ≡ true
    → count (is_goal_in circle owner) s.goals ≤ 1
    → count (is_goal_in circle owner) (s.goals ++ g ∷ []) ≤ 1
append-one circle owner g s fits h = elim (Bool-cases (is_goal_in circle owner g)) [
  | inl own ↦
      let free = may_insert-free g s circle owner fits own in
      let zero_of = count-any (is_goal_in circle owner) s.goals free in
      rw (count-append (is_goal_in circle owner) s.goals (g ∷ [])) (ground arith)
  | inr other ↦ rw (count-append (is_goal_in circle owner) s.goals (g ∷ [])) (ground arith)
]

activate-same :
    (circle owner at : ℕ) (g : Goal)
    → is_goal_in circle owner (activate_goal at g) ≡ is_goal_in circle owner g
unfolding activate_goal
activate-same circle owner at g = ground arith

count-modify :
    (p : Goal → Bool) (f : Goal → Goal) (id : ℕ) (gs : List Goal)
    → ((g : Goal) → p (f g) ≡ p g)
    → count p (modify id f gs) ≡ count p gs
unfolding modify
count-modify p f id [] same = refl
count-modify p f id (g ∷ gs) same = ground (arith, same g, count-modify p f id gs same)

IsOnePerCircle-kept : IsKept IsOnePerCircle
IsOnePerCircle-kept = record {
  by_others = λ s t same h circle owner. rw same.0 (h circle owner);
  by_goal = λ s t g fits goals requests h circle owner.
      rw goals (append-one circle owner g s fits (h circle owner));
  by_activation = λ s t id at goals requests h circle owner.
      rw
        (
          goals,
          count-modify (is_goal_in circle owner) (activate_goal at) id s.goals
              (activate-same circle owner at),
        )
        (h circle owner);
}

refine-kept :
    (env : Env) (actor : User) (draft : Text)
    → Triple IsOnePerCircle (refine_goal env actor draft) Anything
refine-kept env actor draft =
    refine_goal-triple IsOnePerCircle IsOnePerCircle-kept (λ s rs h. h) env actor draft

after-IsOnePerCircle : (c : Call) (s : Store) → IsOnePerCircle s → IsOnePerCircle (after c s)
unfolding after
after-IsOnePerCircle c s h =
    ((perform-triple IsOnePerCircle IsOnePerCircle-kept c.env c.actor c.request
        (refine-kept c.env c.actor)).at
      (record { store = s; outages = c.outages }) h).0

-- Through any history of calls and outages, no circle comes to have two goals of one owner.
serve-IsOnePerCircle : (cs : List Call) (s : Store) → IsOnePerCircle s → IsOnePerCircle (serve cs s)
unfolding serve
serve-IsOnePerCircle [] s h = h
serve-IsOnePerCircle (c ∷ cs) s h = serve-IsOnePerCircle cs (after c s) (after-IsOnePerCircle c s h)
