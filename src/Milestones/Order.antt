-- ===== src/Milestones/Order.antt =====
-- The place of a new milestone in its goal's list, and the order of the list.
use proof_forge.Prelude.{
  ℕ, ◌≤◌, ◌≡◌, refl, sym, Option, none, some, Bool, true, false, List, [], ◌∷◌, arith, All, All-map,
  ◌==◌, Bool-cases, inl, inr, if◌then◌else◌, select,
}
use proof_forge.Prelude.Int.{
  ℤ, pos, negsuc, less, same_int, same_int_iff, less_irrefl, less-co_trans, less-asym,
  less-next_of_not, next_int,
}
use mathlib.Core.List.{Perm}
use proof_forge.Prelude.Sorting.{sort_by, IsOrdered, sort_by-perm, sort_by-IsOrdered}
use proof_forge.Prelude.Action.{ok, World}
use proof_forge.Users.{User}
use proof_forge.Milestones.Repository.{
  Milestone, MilestoneStatus, placed_before, status_before, find_by_goal, Store, pending, completed,
  CreateInput, max_order, larger, order_after, coalesce, comes_before, find_goal_participants,
  next_sort_order, insert,
}
use proof_forge.Milestones.Service.{Env, create, list_for_goal, is_pending}

-- No order above the maximum, and none at all when there is none.
abbrev Covers : Option ℤ → ℤ → Type 0
Covers none a = true ≡ false
Covers (some b) a = less b a ≡ false

larger-left : (a : ℤ) (o : Option ℤ) → less (larger a o) a ≡ false
larger-left a none = less_irrefl a
larger-left a (some b) = elim (Bool-cases (less a b)) [
  | inl below ↦ rw below (less-asym a b below)
  | inr above ↦ rw above (less_irrefl a)
]

larger-right : (a c : ℤ) (o : Option ℤ) → Covers o c → less (larger a o) c ≡ false
larger-right a c none h = absurd (ground arith)
larger-right a c (some b) h = elim (Bool-cases (less a b)) [
  | inl below ↦ rw below h
  | inr above ↦ rw above (less-co_trans c b a h above)
]

Covers-step :
    (goal : ℕ) (m : Milestone) (rest : Option ℤ) (c : ℤ)
    → Covers rest c
    → Covers (if m.goal_id == goal then some (larger m.sort_order rest) else rest) c
Covers-step goal m rest c h = elim (Bool-cases (m.goal_id == goal)) [
  | inl own ↦ rw own (larger-right m.sort_order c rest h)
  | inr other ↦ rw other h
]

max_order-Covers :
    (goal : ℕ) (ms : List Milestone)
    → All (λ m. (m.goal_id == goal) ≡ true → Covers (max_order goal ms) m.sort_order) ms
unfolding max_order
max_order-Covers goal [] = tt
max_order-Covers goal (m ∷ ms) = (
  λ own. rw own (larger-left m.sort_order (max_order goal ms)),
  All-map _ _ ms (λ n h own. Covers-step goal m (max_order goal ms) n.sort_order (h own))
      (max_order-Covers goal ms),
)

Covers-below : (o : Option ℤ) (x a : ℤ) → Covers o a → less a (next_int (coalesce o x)) ≡ true
Covers-below none x a h = absurd (ground arith)
Covers-below (some b) x a h = less-next_of_not b a h

order_after-above :
    (goal : ℕ) (ms : List Milestone)
    → All (λ m. (m.goal_id == goal) ≡ true → less m.sort_order (order_after goal ms) ≡ true) ms
unfolding order_after
order_after-above goal ms =
    All-map _ _ ms (λ n h own. Covers-below (max_order goal ms) (negsuc 0) n.sort_order (h own))
      (max_order-Covers goal ms)

comes_before-new :
    (n m : Milestone)
    → is_pending m.status ≡ true
    → less n.sort_order m.sort_order ≡ true
    → comes_before n m ≡ is_pending n.status
unfolding comes_before
comes_before-new n m fresh below = ground (arith, less_irrefl n.sort_order)

create-order :
    (env : Env) (actor : User) (goal : ℕ) (input : CreateInput) (w : World Store) (m : Milestone)
    → (create env actor goal input w).0 ≡ ok m
    → (m.sort_order ≡ order_after goal w.store.milestones) × (is_pending m.status ≡ true)
unfolding create find_goal_participants next_sort_order insert
create-order env actor goal input w m h = ground arith

-- A milestone that Create returns is listed behind every pending milestone that its goal had, and
-- before every completed one.
pub create-place :
    (env : Env) (actor : User) (goal : ℕ) (input : CreateInput) (w : World Store) (m : Milestone)
    → (create env actor goal input w).0 ≡ ok m
    → All
        (λ n. (n.goal_id == goal) ≡ true → comes_before n m ≡ is_pending n.status)
        w.store.milestones
create-place env actor goal input w m made =
    let place = create-order env actor goal input w m made in
    All-map _ _ w.store.milestones (λ n h own. comes_before-new n m place.1 (rw place.0 (h own)))
      (order_after-above goal w.store.milestones)

placed_before-asym :
    (x y : ℤ) (i j : ℕ) → placed_before x i y j ≡ true → placed_before y j x i ≡ false
placed_before-asym (pos a) (pos b) i j h = ground arith
placed_before-asym (pos a) (negsuc b) i j h = ground arith
placed_before-asym (negsuc a) (pos b) i j h = ground arith
placed_before-asym (negsuc a) (negsuc b) i j h = ground arith

placed_before-co_trans :
    (x y z : ℤ) (i j k : ℕ)
    → placed_before y j x i ≡ false
    → placed_before z k y j ≡ false
    → placed_before z k x i ≡ false
placed_before-co_trans (pos a) (pos b) (pos c) i j k h h' = ground arith
placed_before-co_trans (pos a) (pos b) (negsuc c) i j k h h' = ground arith
placed_before-co_trans (pos a) (negsuc b) (pos c) i j k h h' = ground arith
placed_before-co_trans (pos a) (negsuc b) (negsuc c) i j k h h' = ground arith
placed_before-co_trans (negsuc a) (pos b) (pos c) i j k h h' = ground arith
placed_before-co_trans (negsuc a) (pos b) (negsuc c) i j k h h' = ground arith
placed_before-co_trans (negsuc a) (negsuc b) (pos c) i j k h h' = ground arith
placed_before-co_trans (negsuc a) (negsuc b) (negsuc c) i j k h h' = ground arith

status_before-asym :
    (s t : MilestoneStatus) (p q : Bool)
    → (p ≡ true → q ≡ false)
    → status_before s t p ≡ true
    → status_before t s q ≡ false
status_before-asym pending pending p q f h = f h
status_before-asym pending completed p q f h = refl
status_before-asym completed pending p q f h = absurd (ground arith)
status_before-asym completed completed p q f h = f h

status_before-co_trans :
    (s t u : MilestoneStatus) (p q r : Bool)
    → (p ≡ false → q ≡ false → r ≡ false)
    → status_before t s p ≡ false
    → status_before u t q ≡ false
    → status_before u s r ≡ false
status_before-co_trans pending pending pending p q r f h k = f h k
status_before-co_trans pending pending completed p q r f h k = refl
status_before-co_trans pending completed pending p q r f h k = absurd (ground arith)
status_before-co_trans pending completed completed p q r f h k = refl
status_before-co_trans completed pending u p q r f h k = absurd (ground arith)
status_before-co_trans completed completed pending p q r f h k = absurd (ground arith)
status_before-co_trans completed completed completed p q r f h k = f h k

comes_before-asym : (m n : Milestone) → comes_before m n ≡ true → comes_before n m ≡ false
unfolding comes_before
comes_before-asym m n =
    status_before-asym m.status n.status _ _
      (placed_before-asym m.sort_order n.sort_order m.id n.id)

comes_before-co_trans :
    (a b c : Milestone)
    → comes_before b a ≡ false
    → comes_before c b ≡ false
    → comes_before c a ≡ false
unfolding comes_before
comes_before-co_trans a b c =
    status_before-co_trans a.status b.status c.status _ _ _
      (placed_before-co_trans a.sort_order b.sort_order c.sort_order a.id b.id c.id)

-- `m` may stand in front of `n`, in words: a completed milestone stands in front of completed ones
-- only; among those of one status the sort_order does not fall, and under one sort_order the id does
-- not.
abbrev pub IsInFront : Milestone → Milestone → Type 0
IsInFront m n =
    (m.status ≡ completed → n.status ≡ completed)
    × (m.status ≡ n.status
        → (less n.sort_order m.sort_order ≡ false) × (m.sort_order ≡ n.sort_order → m.id ≤ n.id))

placed-words :
    (x y : ℤ) (i j : ℕ) → placed_before y j x i ≡ false → (less y x ≡ false) × (x ≡ y → i ≤ j)
placed-words x y i j h = (
  elim (Bool-cases (same_int y x)) [
    | inl same ↦ let e = (same_int_iff y x).0 same in rw e (less_irrefl x)
    | inr apart ↦ ground arith
  ],
  λ e. let same : same_int y x ≡ true = (same_int_iff y x).1 (sym e) in ground arith,
)

status-words :
    (s t : MilestoneStatus) (p : Bool)
    → status_before t s p ≡ false
    → (s ≡ completed → t ≡ completed) × (s ≡ t → p ≡ false)
status-words pending pending p h = (λ e. e, λ e. h)
status-words pending completed p h = (λ e. refl, λ e. absurd (ground arith))
status-words completed pending p h = absurd (ground arith)
status-words completed completed p h = (λ e. refl, λ e. h)

not_before-IsInFront : (m n : Milestone) → comes_before n m ≡ false → IsInFront m n
unfolding comes_before
not_before-IsInFront m n h =
    let words = status-words m.status n.status _ h in
    (words.0, λ e. placed-words m.sort_order n.sort_order m.id n.id (words.1 e))

-- The milestones of a goal, each once, in order.
abbrev pub Lists : ℕ → Store → List Milestone → Type 0
Lists goal s ms = Perm ms (select (λ m. m.goal_id == goal) s.milestones) × IsOrdered IsInFront ms

IsOrdered-map :
    {A : Type 0} (P Q : A → A → Type 0) (xs : List A)
    → ((x y : A) → P x y → Q x y)
    → IsOrdered P xs
    → IsOrdered Q xs
IsOrdered-map P Q [] f h = tt
IsOrdered-map P Q (x ∷ xs) f h = (All-map _ _ xs (f x) h.0, IsOrdered-map P Q xs f h.1)

listed :
    (actor : User) (goal : ℕ) (w : World Store) (ms : List Milestone)
    → (list_for_goal actor goal w).0 ≡ ok ms
    → ms ≡ sort_by comes_before (select (λ m. m.goal_id == goal) w.store.milestones)
unfolding list_for_goal find_goal_participants find_by_goal
listed actor goal w ms h = ground arith

-- What ListForGoal returns is exactly the milestones of the goal, the pending ones first, each group
-- in ascending order of sort_order and then of id.
pub list_for_goal-Lists :
    (actor : User) (goal : ℕ) (w : World Store) (ms : List Milestone)
    → (list_for_goal actor goal w).0 ≡ ok ms
    → Lists goal w.store ms
list_for_goal-Lists actor goal w ms h =
    let own = select (λ m. m.goal_id == goal) w.store.milestones in
    rw (listed actor goal w ms h) (
      sort_by-perm comes_before own,
      IsOrdered-map _ _ _ not_before-IsInFront
          (sort_by-IsOrdered comes_before comes_before-asym comes_before-co_trans own),
    )
