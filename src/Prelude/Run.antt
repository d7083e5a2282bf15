-- ===== src/Prelude/Run.antt =====
-- A call from one store: `Run s m Q R` says that `m`, begun with the store `s`, either returns an
-- `a` with `Q a` of the store it leaves, or fails and leaves one with `R`, whichever statements the
-- database refuses. The rules follow the `do` block, a statement at a time.
use mathlib.Core.Path.{◌≡◌, refl, subst}
use mathlib.Core.Bool.{Bool, true, false}
use mathlib.Core.Option.{Option, none, some}
use mathlib.Core.List.{List, [], ◌∷◌}
use proof_forge.Prelude.Action.{
  Result, ok, err, World, Action, pure, fail, lift, statement, query, or_fail, transaction, settle,
  guard, ignore, drop_result, and_then, ◌>>=◌, ◌>>◌,
}
use proof_forge.Prelude.Hoare.{Outcome}

pub record Run {S E A : Type 0} (s : S) (m : Action S E A) (Q : A → S → Type 0) (R : S → Type 0)
    : Type 0 where
  pub at : (o : List Bool) → Outcome Q R (m (record { store = s; outages = o }))

module _ {S E A B : Type 0} (s : S) (Q : B → S → Type 0) (R : S → Type 0) where
  pub run_statement_then :
      (e : E) (f : S → A × S) (k : A → Action S E B)
      → Run (f s).1 (k (f s).0) Q R
      → R s
      → Run s (statement e f >>= k) Q R
  run_statement_then e f k h r = record { at = go }
    where
      go : (o : List Bool) → Outcome Q R ((statement e f >>= k) (record { store = s; outages = o }))
      go [] = h.at []
      go (true ∷ o) = r
      go (false ∷ o) = h.at o

  pub run_query_then :
      (e : E) (f : S → A) (k : A → Action S E B)
      → Run s (k (f s)) Q R
      → R s
      → Run s (query e f >>= k) Q R
  run_query_then e f k h r = run_statement_then e (λ t. (f t, t)) k h r

  pub run_or_fail_then :
      (a : Option A) (e : E) (k : A → Action S E B)
      → ((x : A) → a ≡ some x → Run s (k x) Q R)
      → R s
      → Run s (or_fail a e >>= k) Q R
  run_or_fail_then none e k h r = record { at = λ o. r }
  run_or_fail_then (some x) e k h r = h x refl

  pub run_lift_then :
      (a : Result E A) (k : A → Action S E B)
      → ((x : A) → a ≡ ok x → Run s (k x) Q R)
      → R s
      → Run s (lift a >>= k) Q R
  run_lift_then (ok x) k h r = h x refl
  run_lift_then (err e) k h r = record { at = λ o. r }

  bound :
      (Q' : A → S → Type 0) (k : A → Action S E B) (x : Result E A × World S)
      → ((a : A) (t : S) → Q' a t → Run t (k a) Q R)
      → Outcome Q' R x
      → Outcome Q R (and_then k x)
  bound Q' k (ok a, w) h q = (h a w.store q).at w.outages
  bound Q' k (err e, w) h r = r

  pub run_bind :
      (Q' : A → S → Type 0) (m : Action S E A) (k : A → Action S E B)
      → Run s m Q' R
      → ((a : A) (t : S) → Q' a t → Run t (k a) Q R)
      → Run s (m >>= k) Q R
  run_bind Q' m k hm hk = record { at = λ o. bound Q' k _ hk (hm.at o) }

module _ {S E B : Type 0} (s : S) (Q : B → S → Type 0) (R : S → Type 0) where
  pub run_guard_then :
      (b : Bool) (e : E) (m : Action S E B)
      → (b ≡ true → Run s m Q R)
      → R s
      → Run s (guard b e >> m) Q R
  run_guard_then true e m h r = h refl
  run_guard_then false e m h r = record { at = λ o. r }

  pub run_pure : (b : B) → Q b s → Run {E = E} s (pure b) Q R
  run_pure b q = record { at = λ o. q }

  pub run_fail : (e : E) → R s → Run {A = B} s (fail e) Q R
  run_fail e r = record { at = λ o. r }

  settled :
      (x : Result E B × World S) → R s → Outcome Q (λ t. Unit) x → Outcome Q R (settle s x.0 x.1)
  settled (ok b, w) r q = q
  settled (err e, w) r q = r

  -- What a transaction that fails has done is undone.
  pub run_transaction : (m : Action S E B) → Run s m Q (λ t. Unit) → R s → Run s (transaction m) Q R
  run_transaction m h r = record { at = λ o. settled _ r (h.at o) }

  weaker :
      (Q' : B → S → Type 0) (R' : S → Type 0) (x : Result E B × World S)
      → ((b : B) (t : S) → Q b t → Q' b t)
      → ((t : S) → R t → R' t)
      → Outcome Q R x
      → Outcome Q' R' x
  weaker Q' R' (ok b, w) f g q = f b w.store q
  weaker Q' R' (err e, w) f g r = g w.store r

  pub run_weaken :
      (Q' : B → S → Type 0) (R' : S → Type 0) (m : Action S E B)
      → ((b : B) (t : S) → Q b t → Q' b t)
      → ((t : S) → R t → R' t)
      → Run s m Q R
      → Run s m Q' R'
  run_weaken Q' R' m f g h = record { at = λ o. weaker Q' R' _ f g (h.at o) }

-- A part that only reads hands on what it found out.
pub run_reading :
    {S E A B : Type 0} (s : S) (P : A → Type 0) (Q : B → S → Type 0) (R : S → Type 0)
    (m : Action S E A) (k : A → Action S E B)
    → Run s m (λ a t. (s ≡ t) × P a) (λ t. s ≡ t)
    → ((a : A) → P a → Run s (k a) Q R)
    → R s
    → Run s (m >>= k) Q R
run_reading s P Q R m k hm hk r =
    run_bind s Q R (λ a t. (s ≡ t) × P a) m k
      (run_weaken s (λ a t. (s ≡ t) × P a) (λ t. s ≡ t) (λ a t. (s ≡ t) × P a) R m (λ a t q. q)
        (λ t e. subst R e r) hm)
      (λ a t q. subst (λ u. Run u (k a) Q R) q.0 (hk a q.1))

dropped :
    {S E : Type 0} (R : S → Type 0) (x : Result E (Unit {0}) × World S)
    → Outcome (λ u t. R t) R x
    → Outcome (λ u t. R t) R (drop_result x)
dropped R (ok u, w) h = h
dropped R (err e, w) h = h

-- A part whose error is dropped.
pub run_ignore :
    {S E : Type 0} (s : S) (R : S → Type 0) (m : Action S E (Unit {0}))
    → Run s m (λ u t. R t) R
    → Run s (ignore m) (λ u t. R t) R
run_ignore s R m h = record { at = λ o. dropped R _ (h.at o) }

ended :
    {S E A : Type 0} (R : S → Type 0) (x : Result E A × World S)
    → Outcome (λ a t. R t) R x
    → R x.1.store
ended R (ok a, w) h = h
ended R (err e, w) h = h

-- What the store has in the end, however the call ends.
pub run-store :
    {S E A : Type 0} (s : S) (R : S → Type 0) (m : Action S E A)
    → Run s m (λ a t. R t) R
    → (o : List Bool) → R (m (record { store = s; outages = o })).1.store
run-store s R m h o = ended R _ (h.at o)

-- A test at the end of a call.
pub run_guard :
    {S E : Type 0} (s : S) (Q : Unit {0} → S → Type 0) (R : S → Type 0) (b : Bool) (e : E)
    → (b ≡ true → Q tt s)
    → R s
    → Run s (guard b e) Q R
run_guard s Q R true e h r = record { at = λ o. h refl }
run_guard s Q R false e h r = record { at = λ o. r }

-- A statement at the end of a call.
pub run_statement_last :
    {S E A : Type 0} (s : S) (Q : A → S → Type 0) (R : S → Type 0) (e : E) (f : S → A × S)
    → Q (f s).0 (f s).1
    → R s
    → Run s (statement e f) Q R
run_statement_last {S} {E} {A} s Q R e f h r = record { at = go }
  where
    go : (o : List Bool) → Outcome Q R (statement e f (record { store = s; outages = o }))
    go [] = h
    go (true ∷ o) = r
    go (false ∷ o) = h
