-- ===== src/Prelude/Sorting.antt =====
-- ORDER BY: insertion sort by a numeric key. Rows with equal keys, whose order SQL leaves open, keep
-- the order of their table.
use Prim.Native.Nat.{ℕ, ◌≤◌}
use mathlib.Core.Logic.{inl, inr}
use mathlib.Core.Path.{◌≡◌}
use mathlib.Core.Bool.{Bool, true, false}
use mathlib.Core.List.{List, [], ◌∷◌, Perm}
use mathlib.Core.List.Perm
use native.Mathlib.Omega.{arith}
use proof_forge.Prelude.Tests.{ltb, Bool-cases, if◌then◌else◌}
use proof_forge.Prelude.Lists.{All, All-map}

module _ {A : Type 0} where
  -- `x` goes before the first row that need not come before it.
  unfoldable pub insert_by : (A → A → Bool) → A → List A → List A
  insert_by before c [] = c ∷ []
  insert_by before c (x ∷ xs) =
      let rest = insert_by before c xs in if before x c then x ∷ rest else c ∷ x ∷ xs

  unfoldable pub sort_by : (A → A → Bool) → List A → List A
  unfolding insert_by
  sort_by before [] = []
  sort_by before (c ∷ cs) = insert_by before c (sort_by before cs)

  -- ORDER BY key ASC
  abbrev pub ascending : (A → ℕ) → List A → List A
  ascending key = sort_by (λ x y. ltb (key x) (key y))

  -- ORDER BY key DESC
  abbrev pub descending : (A → ℕ) → List A → List A
  descending key = sort_by (λ x y. ltb (key y) (key x))

  -- Every row is related to all behind it.
  abbrev pub IsOrdered : (A → A → Type 0) → List A → Type 0
  IsOrdered R [] = Unit
  IsOrdered R (x ∷ xs) = All (R x) xs × IsOrdered R xs

  insert_by-perm :
      (before : A → A → Bool) (c : A) (xs : List A) → Perm (insert_by before c xs) (c ∷ xs)
  unfolding insert_by
  insert_by-perm before c [] = Perm.refl (c ∷ [])
  insert_by-perm before c (x ∷ xs) = elim (Bool-cases (before x c)) [
    | inl first ↦
        rw first (Perm.trans (Perm.cons x (insert_by-perm before c xs)) (Perm.swap c x xs))
    | inr later ↦ rw later (Perm.refl (c ∷ x ∷ xs))
  ]

  pub sort_by-perm : (before : A → A → Bool) (xs : List A) → Perm (sort_by before xs) xs
  unfolding sort_by
  sort_by-perm before [] = Perm.refl []
  sort_by-perm before (c ∷ cs) =
      Perm.trans (insert_by-perm before c (sort_by before cs))
        (Perm.cons c (sort_by-perm before cs))

  insert-All :
      (P : A → Type 0) (before : A → A → Bool) (c : A) (xs : List A)
      → P c
      → All P xs
      → All P (insert_by before c xs)
  unfolding insert_by
  insert-All P before c [] p h = (p, tt)
  insert-All P before c (x ∷ xs) p h = elim (Bool-cases (before x c)) [
    | inl first ↦ rw first (h.0, insert-All P before c xs p h.1)
    | inr later ↦ rw later (p, h)
  ]

  -- A strict order whose complement is transitive.
  module _ (before : A → A → Bool) (asym : (x y : A) → before x y ≡ true → before y x ≡ false)
      (co_trans : (x y z : A) → before y x ≡ false → before z y ≡ false → before z x ≡ false) where
    insert_by-IsOrdered :
        (c : A) (xs : List A)
        → IsOrdered (λ x y. before y x ≡ false) xs
        → IsOrdered (λ x y. before y x ≡ false) (insert_by before c xs)
    unfolding insert_by
    insert_by-IsOrdered c [] h = (tt, tt)
    insert_by-IsOrdered c (x ∷ xs) h = elim (Bool-cases (before x c)) [
      | inl first ↦ rw first (
        insert-All (λ y. before y x ≡ false) before c xs (asym x c first) h.0,
        insert_by-IsOrdered c xs h.1,
      )
      | inr later ↦ rw later (
        (
          later,
          All-map (λ y. before y x ≡ false) (λ y. before y c ≡ false) xs
              (λ y k. co_trans c x y later k) h.0,
        ),
        h,
      )
    ]

    pub sort_by-IsOrdered :
        (xs : List A) → IsOrdered (λ x y. before y x ≡ false) (sort_by before xs)
    unfolding sort_by
    sort_by-IsOrdered [] = tt
    sort_by-IsOrdered (c ∷ cs) = insert_by-IsOrdered c (sort_by before cs) (sort_by-IsOrdered cs)

  module _ (key : A → ℕ) where
    insert-ascending :
        (c : A) (xs : List A)
        → IsOrdered (λ x y. key x ≤ key y) xs
        → IsOrdered (λ x y. key x ≤ key y) (insert_by (λ x y. ltb (key x) (key y)) c xs)
    unfolding insert_by
    insert-ascending c [] h = (tt, tt)
    insert-ascending c (x ∷ xs) h = elim (Bool-cases (ltb (key x) (key c))) [
      | inl first ↦
          let below : key x ≤ key c = ground arith in
          rw first (
            insert-All (λ y. key x ≤ key y) (λ a b. ltb (key a) (key b)) c xs below h.0,
            insert-ascending c xs h.1,
          )
      | inr later ↦
          let above : key c ≤ key x = ground arith in
          rw later (
            (above, All-map (λ y. key x ≤ key y) (λ y. key c ≤ key y) xs (λ y k. omega arith) h.0),
            h,
          )
    ]

    insert-descending :
        (c : A) (xs : List A)
        → IsOrdered (λ x y. key y ≤ key x) xs
        → IsOrdered (λ x y. key y ≤ key x) (insert_by (λ x y. ltb (key y) (key x)) c xs)
    unfolding insert_by
    insert-descending c [] h = (tt, tt)
    insert-descending c (x ∷ xs) h = elim (Bool-cases (ltb (key c) (key x))) [
      | inl first ↦
          let above : key c ≤ key x = ground arith in
          rw first (
            insert-All (λ y. key y ≤ key x) (λ a b. ltb (key b) (key a)) c xs above h.0,
            insert-descending c xs h.1,
          )
      | inr later ↦
          let below : key x ≤ key c = ground arith in
          rw later (
            (below, All-map (λ y. key y ≤ key x) (λ y. key y ≤ key c) xs (λ y k. omega arith) h.0),
            h,
          )
    ]

    pub ascending-IsOrdered : (xs : List A) → IsOrdered (λ x y. key x ≤ key y) (ascending key xs)
    unfolding sort_by
    ascending-IsOrdered [] = tt
    ascending-IsOrdered (c ∷ cs) = insert-ascending c (ascending key cs) (ascending-IsOrdered cs)

    pub descending-IsOrdered : (xs : List A) → IsOrdered (λ x y. key y ≤ key x) (descending key xs)
    unfolding sort_by
    descending-IsOrdered [] = tt
    descending-IsOrdered (c ∷ cs) =
        insert-descending c (descending key cs) (descending-IsOrdered cs)
