-- ===== src/Prelude/Triple.antt =====
-- Invariants of the store through a `do` block. `Triple P m Q`: from a store with `P`, the action
-- ends in one with `P`, however it ends, and what it returns has `Q`.
use mathlib.Core.Path.{◌≡◌, refl}
use mathlib.Core.Bool.{Bool, true, false}
use mathlib.Core.Option.{Option, none, some}
use mathlib.Core.List.{List, [], ◌∷◌}
use proof_forge.Prelude.Action.{
  Result, ok, err, World, Action, pure, fail, lift, statement, run_statement, query, execute,
  or_fail, attempt, attempted, transaction, settle, guard, ignore, drop_result, and_then, ◌>>=◌,
  ◌>>◌,
}

-- What is returned has `Q`; an error need not.
abbrev pub Returns : {E A : Type 0} → (A → Type 0) → Result E A → Type 0
Returns Q (ok a) = Q a
Returns Q (err e) = Unit

abbrev Ends : {S E A : Type 0} → (S → Type 0) → (A → Type 0) → Result E A × World S → Type 0
Ends P Q (r, w) = P w.store × Returns Q r

pub record Triple {S E A : Type 0} (P : S → Type 0) (m : Action S E A) (Q : A → Type 0)
    : Type 0 where
  pub at : (w : World S) → P w.store → P (m w).1.store × Returns Q (m w).0

-- No claim on the result.
abbrev pub Anything : {A : Type 0} → A → Type 0
Anything a = Unit

module _ {S E : Type 0} (P : S → Type 0) where
  pub triple_pure : {A : Type 0} (Q : A → Type 0) (a : A) → Q a → Triple {E = E} P (pure a) Q
  triple_pure Q a q = record { at = λ w p. (p, q) }

  pub triple_fail : {A : Type 0} (Q : A → Type 0) (e : E) → Triple {A = A} P (fail e) Q
  triple_fail Q e = record { at = λ w p. (p, tt) }

  bind-Ends :
      {A B : Type 0} (f : A → Action S E B) (Q : A → Type 0) (R : B → Type 0)
      → ((a : A) → Q a → Triple P (f a) R)
      → (x : Result E A × World S) → Ends P Q x
      → Ends P R (and_then f x)
  bind-Ends f Q R tf (ok a, w) (p, q) = (tf a q).at w p
  bind-Ends f Q R tf (err e, w) (p, q) = (p, tt)

  pub triple_bind :
      {A B : Type 0} (m : Action S E A) (f : A → Action S E B) (Q : A → Type 0) (R : B → Type 0)
      → Triple P m Q
      → ((a : A) → Q a → Triple P (f a) R)
      → Triple P (m >>= f) R
  triple_bind m f Q R tm tf = record { at = λ w p. bind-Ends f Q R tf (m w) (tm.at w p) }

  pub triple_seq :
      {A B : Type 0} (m : Action S E A) (n : Action S E B) (Q : A → Type 0) (R : B → Type 0)
      → Triple P m Q
      → Triple P n R
      → Triple P (m >> n) R
  triple_seq m n Q R tm tn = triple_bind m (λ a. n) Q R tm (λ a q. tn)

  run-Ends :
      {A : Type 0} (e : E) (f : S → A × S) (Q : A → Type 0) (s : S) (o : List Bool)
      → P s
      → ((t : S) → P t → P (f t).1 × Q (f t).0)
      → Ends P Q (run_statement e f s o)
  run-Ends e f Q s [] p h = h s p
  run-Ends e f Q s (true ∷ o) p h = (p, tt)
  run-Ends e f Q s (false ∷ o) p h = h s p

  pub triple_statement :
      {A : Type 0} (e : E) (f : S → A × S) (Q : A → Type 0)
      → ((s : S) → P s → P (f s).1 × Q (f s).0)
      → Triple P (statement e f) Q
  triple_statement e f Q h = record { at = λ w p. run-Ends e f Q w.store w.outages p h }

  pub triple_query :
      {A : Type 0} (e : E) (f : S → A) (Q : A → Type 0)
      → ((s : S) → P s → Q (f s))
      → Triple P (query e f) Q
  triple_query e f Q h = triple_statement e (λ s. (f s, s)) Q (λ s p. (p, h s p))

  pub triple_execute :
      (e : E) (f : S → S) → ((s : S) → P s → P (f s)) → Triple P (execute e f) Anything
  triple_execute e f h = triple_statement e (λ s. (tt, f s)) Anything (λ s p. (h s p, tt))

  pub triple_or_fail :
      {A : Type 0} (o : Option A) (e : E) (Q : A → Type 0)
      → ((a : A) → o ≡ some a → Q a)
      → Triple P (or_fail o e) Q
  triple_or_fail none e Q h = triple_fail Q e
  triple_or_fail (some a) e Q h = triple_pure Q a (h a refl)

  pub triple_lift :
      {A : Type 0} (r : Result E A) (Q : A → Type 0)
      → ((a : A) → r ≡ ok a → Q a)
      → Triple P (lift r) Q
  triple_lift (ok a) Q h = record { at = λ w p. (p, h a refl) }
  triple_lift (err e) Q h = record { at = λ w p. (p, tt) }

  attempt-Ends :
      {A : Type 0} (Q : A → Type 0) (x : Result E A × World S)
      → Ends P Q x
      → Ends P (Returns Q) (attempted x)
  attempt-Ends Q (r, w) h = h

  pub triple_attempt :
      {A : Type 0} (m : Action S E A) (Q : A → Type 0)
      → Triple P m Q
      → Triple P (attempt m) (Returns Q)
  triple_attempt m Q tm = record { at = λ w p. attempt-Ends Q (m w) (tm.at w p) }

  ignore-Ends :
      (Q : Unit {0} → Type 0) (x : Result E (Unit {0}) × World S)
      → Ends P Q x
      → Ends P Anything (drop_result x)
  ignore-Ends Q (r, w) h = (h.0, tt)

  pub triple_ignore :
      (m : Action S E (Unit {0})) (Q : Unit {0} → Type 0)
      → Triple P m Q
      → Triple P (ignore m) Anything
  triple_ignore m Q tm = record { at = λ w p. ignore-Ends Q (m w) (tm.at w p) }

  pub triple_guard : (b : Bool) (e : E) → Triple P (guard b e) (λ u. b ≡ true)
  triple_guard true e = record { at = λ w p. (p, refl) }
  triple_guard false e = record { at = λ w p. (p, tt) }

  settle-Ends :
      {A : Type 0} (Q : A → Type 0) (s : S) (x : Result E A × World S)
      → P s
      → Ends P Q x
      → Ends P Q (settle s x.0 x.1)
  settle-Ends Q s (ok a, w) p h = h
  settle-Ends Q s (err e, w) p h = (p, tt)

  pub triple_transaction :
      {A : Type 0} (m : Action S E A) (Q : A → Type 0) → Triple P m Q → Triple P (transaction m) Q
  triple_transaction m Q tm = record { at = λ w p. settle-Ends Q w.store (m w) p (tm.at w p) }

anything : {E A : Type 0} (r : Result E A) → Returns Anything r
anything (ok a) = tt
anything (err e) = tt

-- A triple from what holds of the store that the action leaves.
pub triple_always :
    {S E A : Type 0} (P : S → Type 0) (m : Action S E A)
    → ((w : World S) → P w.store → P (m w).1.store)
    → Triple P m Anything
triple_always P m h = record { at = λ w p. (h w p, anything (m w).0) }
