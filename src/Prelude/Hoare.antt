-- ===== src/Prelude/Hoare.antt =====
-- What an action makes of a store: from a store with `P` it either returns an `a` with `Q a` of the
-- store it leaves, or fails and leaves one with `R`.
use mathlib.Core.Path.{◌≡◌, refl}
use mathlib.Core.Bool.{Bool, true, false}
use mathlib.Core.Option.{Option, none, some}
use mathlib.Core.List.{List, [], ◌∷◌}
use proof_forge.Prelude.Action.{
  Result, ok, err, World, Action, pure, lift, statement, run_statement, or_fail, transaction,
  settle, and_then, ◌>>=◌,
}

abbrev pub Outcome :
    {S E A : Type 0} → (A → S → Type 0) → (S → Type 0) → Result E A × World S → Type 0
Outcome Q R (ok a, w) = Q a w.store
Outcome Q R (err e, w) = R w.store

pub record Hoare {S E A : Type 0} (P : S → Type 0) (m : Action S E A) (Q : A → S → Type 0)
    (R : S → Type 0) : Type 0 where
  pub at : (w : World S) → P w.store → Outcome Q R (m w)

settle-Outcome :
    {S E A : Type 0} (Q : A → S → Type 0) (R : S → Type 0) (s : S) (x : Result E A × World S)
    → Outcome Q (λ t. Unit) x
    → R s
    → Outcome Q R (settle s x.0 x.1)
settle-Outcome Q R s (ok a, w) q r = q
settle-Outcome Q R s (err e, w) q r = r

module _ {S E : Type 0} {R : S → Type 0} where
  pub hoare_pure :
      {A : Type 0} (P : S → Type 0) (Q : A → S → Type 0) (a : A)
      → ((s : S) → P s → Q a s)
      → Hoare {E = E} P (pure a) Q R
  hoare_pure P Q a h = record { at = λ w p. h w.store p }

  bind-Outcome :
      {A B : Type 0} (Q : A → S → Type 0) (Q' : B → S → Type 0) (f : A → Action S E B)
      → ((a : A) → Hoare (Q a) (f a) Q' R)
      → (x : Result E A × World S) → Outcome Q R x
      → Outcome Q' R (and_then f x)
  bind-Outcome Q Q' f tf (ok a, w) q = (tf a).at w q
  bind-Outcome Q Q' f tf (err e, w) r = r

  pub hoare_bind :
      {A B : Type 0} (P : S → Type 0) (m : Action S E A) (f : A → Action S E B) (Q : A → S → Type 0)
      (Q' : B → S → Type 0)
      → Hoare P m Q R
      → ((a : A) → Hoare (Q a) (f a) Q' R)
      → Hoare P (m >>= f) Q' R
  hoare_bind P m f Q Q' tm tf = record { at = λ w p. bind-Outcome Q Q' f tf (m w) (tm.at w p) }

  run-Outcome :
      {A : Type 0} (P : S → Type 0) (e : E) (f : S → A × S) (Q : A → S → Type 0) (s : S)
      (o : List Bool)
      → P s
      → ((t : S) → P t → Q (f t).0 (f t).1)
      → ((t : S) → P t → R t)
      → Outcome Q R (run_statement e f s o)
  run-Outcome P e f Q s [] p h r = h s p
  run-Outcome P e f Q s (true ∷ o) p h r = r s p
  run-Outcome P e f Q s (false ∷ o) p h r = h s p

  pub hoare_statement :
      {A : Type 0} (P : S → Type 0) (e : E) (f : S → A × S) (Q : A → S → Type 0)
      → ((s : S) → P s → Q (f s).0 (f s).1)
      → ((s : S) → P s → R s)
      → Hoare P (statement e f) Q R
  hoare_statement P e f Q h r = record { at = λ w p. run-Outcome P e f Q w.store w.outages p h r }

  pub hoare_or_fail :
      {A : Type 0} (P : S → Type 0) (o : Option A) (e : E) (Q : A → S → Type 0)
      → ((a : A) → o ≡ some a → (s : S) → P s → Q a s)
      → ((s : S) → P s → R s)
      → Hoare P (or_fail o e) Q R
  hoare_or_fail P none e Q h r = record { at = λ w p. r w.store p }
  hoare_or_fail P (some a) e Q h r = record { at = λ w p. h a refl w.store p }

  pub hoare_lift :
      {A : Type 0} (P : S → Type 0) (o : Result E A) (Q : A → S → Type 0)
      → ((a : A) (s : S) → P s → Q a s)
      → ((s : S) → P s → R s)
      → Hoare P (lift o) Q R
  hoare_lift P (ok a) Q h r = record { at = λ w p. h a w.store p }
  hoare_lift P (err e) Q h r = record { at = λ w p. r w.store p }

  -- A transaction that fails leaves the store it began with, so nothing is asked of the stores on the
  -- way.
  pub hoare_transaction :
      {A : Type 0} (P : S → Type 0) (m : Action S E A) (Q : A → S → Type 0)
      → Hoare P m Q (λ t. Unit)
      → ((s : S) → P s → R s)
      → Hoare P (transaction m) Q R
  hoare_transaction P m Q tm r = record {
    at = λ w p. settle-Outcome Q R w.store (m w) (tm.at w p) (r w.store p);
  }

both_outcomes :
    {S E A : Type 0} (P : S → Type 0) (x : Result E A × World S)
    → P x.1.store
    → Outcome (λ a s. P s) P x
both_outcomes P (ok a, w) p = p
both_outcomes P (err e, w) p = p

-- What holds of the store however the action ends.
pub hoare_always :
    {S E A : Type 0} (P P' : S → Type 0) (m : Action S E A)
    → ((w : World S) → P w.store → P' (m w).1.store)
    → Hoare P m (λ a s. P' s) P'
hoare_always P P' m h = record { at = λ w p. both_outcomes P' (m w) (h w p) }

ends_of :
    {S E A : Type 0} (P : S → Type 0) (x : Result E A × World S)
    → Outcome (λ a s. P s) P x
    → P x.1.store
ends_of P (ok a, w) p = p
ends_of P (err e, w) p = p

pub hoare-store :
    {S E A : Type 0} (P : S → Type 0) (m : Action S E A)
    → Hoare P m (λ a s. P s) P
    → (w : World S) → P w.store
    → P (m w).1.store
hoare-store P m hm w p = ends_of P (m w) (hm.at w p)

-- Inside a transaction nothing is asked of a failure.
forget_failure :
    {S E A : Type 0} (Q : A → S → Type 0) (R : S → Type 0) (x : Result E A × World S)
    → Outcome Q R x
    → Outcome Q (λ s. Unit) x
forget_failure Q R (ok a, w) q = q
forget_failure Q R (err e, w) r = tt

pub hoare_forget :
    {S E A : Type 0} (P R : S → Type 0) (m : Action S E A) (Q : A → S → Type 0)
    → Hoare P m Q R
    → Hoare P m Q (λ s. Unit)
hoare_forget P R m Q hm = record { at = λ w p. forget_failure Q R (m w) (hm.at w p) }

weaker_failure :
    {S E A : Type 0} (Q : A → S → Type 0) (R R' : S → Type 0) (x : Result E A × World S)
    → ((s : S) → R s → R' s)
    → Outcome Q R x
    → Outcome Q R' x
weaker_failure Q R R' (ok a, w) h q = q
weaker_failure Q R R' (err e, w) h r = h w.store r

pub hoare_weaken :
    {S E A : Type 0} (P R R' : S → Type 0) (m : Action S E A) (Q : A → S → Type 0)
    → ((s : S) → R s → R' s)
    → Hoare P m Q R
    → Hoare P m Q R'
hoare_weaken P R R' m Q h hm = record { at = λ w p. weaker_failure Q R R' (m w) h (hm.at w p) }
