-- ===== src/Prelude/Action.antt =====
-- One use-case call: the store, the statements that the database is going to refuse, and errors
-- as values. A refused statement changes nothing.
use mathlib.Core.Path.{◌≡◌, refl}
use mathlib.Core.Logic.{◌⊎◌, inl, inr}
use mathlib.Core.Bool.{Bool, true, false}
use mathlib.Core.Option.{Option, none, some}
use mathlib.Core.List.{List, [], ◌∷◌}

pub data Result (E A : Type 0) : Type 0 where
  ok : A → Result E A
  err : E → Result E A

pub Result-cases :
    {E A : Type 0} (r : Result E A) → ((a : A) × (r ≡ ok a)) ⊎ ((e : E) × (r ≡ err e))
Result-cases (ok a) = inl (a, refl)
Result-cases (err e) = inr (e, refl)

-- `outages` says of the coming statements, in order, which are refused (true): a lost connection,
-- a timeout. Past its end every statement is executed.
pub record World (S : Type 0) : Type 0 where
  pub store : S
  pub outages : List Bool

abbrev pub Action : Type 0 → Type 0 → Type 0 → Type 0
Action S E A = World S → Result E A × World S

module _ {S E A : Type 0} where
  abbrev pub pure : A → Action S E A
  pure a w = (ok a, w)

  abbrev pub fail : E → Action S E A
  fail e w = (err e, w)

  abbrev pub lift : Result E A → Action S E A
  lift r w = (r, w)

  abbrev pub run_statement : E → (S → A × S) → S → List Bool → Result E A × World S
  run_statement e f s [] = (ok (f s).0, record { store = (f s).1; outages = [] })
  run_statement e f s (true ∷ o) = (err e, record { store = s; outages = o })
  run_statement e f s (false ∷ o) = (ok (f s).0, record { store = (f s).1; outages = o })

  -- One SQL statement: it is refused with `e`, or executed.
  abbrev pub statement : E → (S → A × S) → Action S E A
  statement e f w = run_statement e f w.store w.outages

  -- A statement that only reads.
  abbrev pub query : E → (S → A) → Action S E A
  query e f = statement e (λ s. (f s, s))

  -- `pgx.ErrNoRows` becomes an error of the component.
  abbrev pub or_fail : Option A → E → Action S E A
  or_fail none e = fail e
  or_fail (some a) e = pure a

  -- A call whose error the caller looks at: `x, err := call()`.
  abbrev pub attempted : Result E A × World S → Result E (Result E A) × World S
  attempted (r, w) = (ok r, w)

  abbrev pub attempt : Action S E A → Action S E (Result E A)
  attempt m w = attempted (m w)

  abbrev pub settle : S → Result E A → World S → Result E A × World S
  settle s (ok a) w = (ok a, w)
  settle s (err e) w = (err e, record { store = s; outages = w.outages })

  -- BEGIN … COMMIT, with a rollback on error.
  abbrev pub transaction : Action S E A → Action S E A
  transaction m w = settle w.store (m w).0 (m w).1

module _ {S E : Type 0} where
  -- A statement with no result.
  abbrev pub execute : E → (S → S) → Action S E (Unit {0})
  execute e f = statement e (λ s. (tt, f s))

  abbrev pub guard : Bool → E → Action S E (Unit {0})
  guard true e = pure tt
  guard false e = fail e

  -- An error that the code drops: `_ = call()`.
  abbrev pub drop_result : Result E (Unit {0}) × World S → Result E (Unit {0}) × World S
  drop_result (r, w) = (ok tt, w)

  abbrev pub ignore : Action S E (Unit {0}) → Action S E (Unit {0})
  ignore m w = drop_result (m w)

infixl 5 ◌>>=◌ ◌>>◌
abbrev pub and_then :
    {S E A B : Type 0} → (A → Action S E B) → Result E A × World S → Result E B × World S
and_then f (ok a, w) = f a w
and_then f (err e, w) = (err e, w)

abbrev pub ◌>>=◌ : {S E A B : Type 0} → Action S E A → (A → Action S E B) → Action S E B
◌>>=◌ m f w = and_then f (m w)

abbrev pub ◌>>◌ : {S E A B : Type 0} → Action S E A → Action S E B → Action S E B
m >> n = m >>= λ _. n

done_after :
    {S E A : Type 0} (x : Result E A × World S) → (and_then (λ a. pure {E = E} tt) x).1 ≡ x.1
done_after (ok a, w) = refl
done_after (err e, w) = refl

-- A result that is dropped leaves the same world.
pub seq_done :
    {S E A : Type 0} (m : Action S E A) (w : World S) → ((m >> pure {E = E} tt) w).1 ≡ (m w).1
seq_done m w = done_after (m w)
