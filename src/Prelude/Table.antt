-- ===== src/Prelude/Table.antt =====
-- A database table as the list of its rows, oldest first, under a BIGSERIAL key.
use Prim.Native.Nat.{ℕ, ◌≤◌, ◌<◌}
use mathlib.Core.Path.{◌≡◌, refl, subst}
use mathlib.Core.Logic.{◌≢◌, inl, inr}
use mathlib.Core.Option
use mathlib.Core.Option.{Option, none, some}
use mathlib.Core.List.{List, [], ◌∷◌, ◌++◌}
use native.Mathlib.Omega.{arith}
use proof_forge.Prelude.Tests.{◌==◌, ==_iff, Bool-cases, if◌then◌else◌}
use proof_forge.Prelude.Lists.{All}

-- A type of rows with its primary key.
pub record Keyed (A : Type 0) : Type 0 where
  pub key : A → ℕ

module _ {A : Type 0} ⦃k : Keyed A⦄ where
  -- SELECT … WHERE id = n
  unfoldable pub find : ℕ → List A → Option A
  find n [] = none
  find n (r ∷ rs) = if k.key r == n then some r else find n rs

  -- UPDATE … SET … WHERE id = n
  unfoldable pub modify : ℕ → (A → A) → List A → List A
  modify n f [] = []
  modify n f (r ∷ rs) = (if k.key r == n then f r else r) ∷ modify n f rs

  -- DELETE … WHERE id = n
  unfoldable pub erase : ℕ → List A → List A
  erase n [] = []
  erase n (r ∷ rs) = if k.key r == n then erase n rs else r ∷ erase n rs

  pub find-modify :
      (m n : ℕ) (f : A → A) (rs : List A)
      → ((r : A) → k.key (f r) ≡ k.key r)
      → find m (modify n f rs) ≡ (if m == n then Option.map f (find m rs) else find m rs)
  unfolding find modify
  find-modify m n f [] keep = ground arith
  find-modify m n f (r ∷ rs) keep = ground (arith, keep r, find-modify m n f rs keep)

  pub find-erase :
      (m n : ℕ) (rs : List A) → find m (erase n rs) ≡ (if m == n then none else find m rs)
  unfolding find erase
  find-erase m n [] = ground arith
  find-erase m n (r ∷ rs) = ground (arith, find-erase m n rs)

  pub find-append :
      (n : ℕ) (rs : List A) (r : A)
      → k.key r ≡ n
      → find n rs ≡ none
      → find n (rs ++ r ∷ []) ≡ some r
  unfolding find
  find-append n [] r e h = ground arith
  find-append n (x ∷ rs) r e h = ground (arith, find-append n rs r e)

  pub find-append_ne :
      (n : ℕ) (rs : List A) (r : A) → k.key r ≢ n → find n (rs ++ r ∷ []) ≡ find n rs
  unfolding find
  find-append_ne n [] r e = ground arith
  find-append_ne n (x ∷ rs) r e = ground (arith, find-append_ne n rs r e)

  pub find-append_some :
      (n : ℕ) (rs : List A) (r x : A) → find n rs ≡ some r → find n (rs ++ x ∷ []) ≡ some r
  unfolding find
  find-append_some n [] r x h = cc
  find-append_some n (y ∷ rs) r x h = ground (arith, find-append_some n rs r x)

  -- A row that is found has the key and every property that all rows have.
  pub find-key : (n : ℕ) (rs : List A) (r : A) → find n rs ≡ some r → k.key r ≡ n
  unfolding find
  find-key n [] r h = cc
  find-key n (x ∷ rs) r h = ground (arith, find-key n rs r)

  pub find-All :
      (P : A → Type 0) (n : ℕ) (rs : List A) (r : A) → All P rs → find n rs ≡ some r → P r
  unfolding find
  find-All P n [] r a h = cc
  find-All P n (x ∷ rs) r a h = elim (Bool-cases (k.key x == n)) [
    | inl e ↦ let found : some x ≡ some r = rw e at h in subst P (cc) a.0
    | inr e ↦ find-All P n rs r a.1 (rw e at h)
  ]

  pub All-modify :
      (P : A → Type 0) (n : ℕ) (f : A → A) (rs : List A)
      → ((r : A) → k.key r ≡ n → P r → P (f r))
      → All P rs
      → All P (modify n f rs)
  unfolding modify
  All-modify P n f [] keep a = tt
  All-modify P n f (x ∷ rs) keep a = elim (Bool-cases (k.key x == n)) [
    | inl e ↦ rw e (keep x ((==_iff _ _).0 e) a.0, All-modify P n f rs keep a.1)
    | inr e ↦ rw e (a.0, All-modify P n f rs keep a.1)
  ]

  pub All-erase : (P : A → Type 0) (n : ℕ) (rs : List A) → All P rs → All P (erase n rs)
  unfolding erase
  All-erase P n [] a = tt
  All-erase P n (x ∷ rs) a = elim (Bool-cases (k.key x == n)) [
    | inl e ↦ rw e (All-erase P n rs a.1)
    | inr e ↦ rw e (a.0, All-erase P n rs a.1)
  ]

  -- Every key below the next value of the sequence: an inserted row is new.
  abbrev pub IsBelow : ℕ → List A → Type 0
  IsBelow n rs = All (λ r. k.key r < n) rs

  pub find-none_of_below : (n m : ℕ) (rs : List A) → IsBelow n rs → n ≤ m → find m rs ≡ none
  unfolding find
  find-none_of_below n m [] b h = refl
  find-none_of_below n m (x ∷ rs) b h = ground (arith, find-none_of_below n m rs b.1 h)
