-- ===== src/Contracts/Closed.antt =====
-- What no call changes any more, and the sweep of overdue contracts.
use proof_forge.Prelude.{
  ◌⊎◌, suc, ℕ, ◌≡◌, ◌≢◌, ◌∙◌, refl, ap, Bool, true, false, some, List, [], ◌∷◌, map, arith, count,
  subst, ◌<◌, false, Bool-cases, inl, inr,
}
use proof_forge.Prelude.Table.{find, find-modify, find-append_some}
use proof_forge.Prelude.Action.{ok, World}
use proof_forge.Contracts.Domain.{
  Status, pending, active, fulfilled, broken, cancelled, ProofContract, contract_keyed, allows,
}
use proof_forge.Contracts.Repository.{
  Store, mark_broken, set_status, is_overdue, is_open, mark_broken_overdue,
}
use proof_forge.Contracts.Service.{Call, after, serve}
use proof_forge.Contracts.Changes.{Change, unchanged, creates, moves, sweeps}
use proof_forge.Contracts.Lifecycle.{find-map, mark_broken-id, set_status-lem, after-Change}

-- A contract that was fulfilled, broken or cancelled.
abbrev pub IsClosed : Status → Type 0
IsClosed pending = ⊥
IsClosed active = ⊥
IsClosed _ = Unit

closed_bars : (a b : Status) → IsClosed a → ¬ (allows a b ≡ true)
unfolding allows
closed_bars pending b f e = f
closed_bars active b f e = f
closed_bars fulfilled b f e = ground arith
closed_bars broken b f e = ground arith
closed_bars cancelled b f e = ground arith

closed_shut : (a : Status) → IsClosed a → is_open a ≡ false
closed_shut pending f = absurd f
closed_shut active f = absurd f
closed_shut fulfilled f = refl
closed_shut broken f = refl
closed_shut cancelled f = refl

mark_broken-closed :
    (now db_now : ℕ) (c : ProofContract) → IsClosed c.status → mark_broken now db_now c ≡ c
unfolding mark_broken is_overdue
mark_broken-closed now db_now c f = rw (closed_shut c.status f) refl

Change-closed :
    (id : ℕ) (c : ProofContract) (s t : Store)
    → Change s t
    → IsClosed c.status
    → find id s.contracts ≡ some c
    → find id t.contracts ≡ some c
Change-closed id c s t (unchanged same) f found = rw same found
Change-closed id c s t (creates x rows) f found =
    rw rows (find-append_some id s.contracts c x found)
Change-closed id c s t (moves j now next d at_j edge rows) f found =
    let keep : (x : ProofContract) → (set_status next now x).id ≡ x.id =
      λ x. (set_status-lem next now x).0 in
    let row = find-modify id j (set_status next now) s.contracts keep in
    let differ : c ≢ d = λ e. closed_bars c.status next f (rw e edge) in rw rows (ground arith)
Change-closed id c s t (sweeps now db_now rows) f found = rw rows (
    find-map (mark_broken now db_now) id s.contracts (mark_broken-id now db_now)
    ∙ rw found (ap some (mark_broken-closed now db_now c f)))

-- Once a contract is fulfilled, broken or cancelled, no history of calls changes any field of its row.
pub serve-closed :
    (ks : List Call) (id : ℕ) (c : ProofContract) (s : Store)
    → IsClosed c.status
    → find id s.contracts ≡ some c
    → find id (serve ks s).contracts ≡ some c
unfolding serve
serve-closed [] id c s f found = found
serve-closed (k ∷ ks) id c s f found =
    serve-closed ks id c (after k s) f (Change-closed id c s (after k s) (after-Change k s) f found)

-- An open contract whose due date has passed, in words.
abbrev IsDue : ℕ → ProofContract → Type 0
IsDue now c = ((c.status ≡ pending) ⊎ (c.status ≡ active)) × (c.due_at < now)

-- The rows before and after a sweep, with the number of those that were due.
pub data Sweep (now db_now : ℕ) : List ProofContract → List ProofContract → ℕ → Type 0 where
  none_left : Sweep now db_now [] [] 0
  breaks :
      (c : ProofContract) (cs ds : List ProofContract) (n : ℕ)
      → IsDue now c
      → Sweep now db_now cs ds n
      → Sweep now db_now
          (c ∷ cs)
          (record c { status = broken; broken_at = some db_now; updated_at = db_now } ∷ ds)
          (suc n)
  spares :
      (c : ProofContract) (cs ds : List ProofContract) (n : ℕ)
      → ¬ (IsDue now c)
      → Sweep now db_now cs ds n
      → Sweep now db_now (c ∷ cs) (c ∷ ds) n

open_words : (a : Status) → is_open a ≡ true → (a ≡ pending) ⊎ (a ≡ active)
open_words pending h = inl refl
open_words active h = inr refl
open_words fulfilled h = absurd (ground arith)
open_words broken h = absurd (ground arith)
open_words cancelled h = absurd (ground arith)

words_open : (a : Status) → (a ≡ pending) ⊎ (a ≡ active) → is_open a ≡ true
words_open a (inl e) = ap is_open e
words_open a (inr e) = ap is_open e

overdue_words : (now : ℕ) (c : ProofContract) → is_overdue now c ≡ true → IsDue now c
unfolding is_overdue
overdue_words now c h = (open_words c.status (ground arith), ground arith)

words_overdue : (now : ℕ) (c : ProofContract) → IsDue now c → is_overdue now c ≡ true
unfolding is_overdue
words_overdue now c h = let opened = words_open c.status h.0 in let past = h.1 in ground arith

swept_rows :
    (now db_now : ℕ) (cs : List ProofContract)
    → Sweep now db_now cs (map (mark_broken now db_now) cs) (count (is_overdue now) cs)
unfolding mark_broken
swept_rows now db_now [] = none_left
swept_rows now db_now (c ∷ cs) = elim (Bool-cases (is_overdue now c)) [
  | inl late ↦
      let due = overdue_words now c late in rw late (breaks _ _ _ _ due (swept_rows now db_now cs))
  | inr on_time ↦
      let spared : ¬ (IsDue now c) =
        λ due. let late = words_overdue now c due in absurd (ground arith) in
      rw on_time (spares _ _ _ _ spared (swept_rows now db_now cs))
]

-- When the database takes the statement, the sweep breaks exactly the contracts that are pending or
-- active and whose due date is before now, with the time of the database, and leaves every other row
-- as it is; it returns how many it has broken.
pub mark_broken_overdue-answer :
    (now db_now : ℕ) (w : World Store) (n : ℕ)
    → (mark_broken_overdue now db_now w).0 ≡ ok n
    → Sweep now db_now w.store.contracts (mark_broken_overdue now db_now w).1.store.contracts n
unfolding mark_broken_overdue
mark_broken_overdue-answer now db_now w n h = swept_answer now db_now w.store w.outages n h
  where
    swept_answer :
        (now db_now : ℕ) (s : Store) (o : List Bool) (n : ℕ)
        → (mark_broken_overdue now db_now (record { store = s; outages = o })).0 ≡ ok n
        → Sweep now db_now s.contracts
            (mark_broken_overdue now db_now (record { store = s; outages = o })).1.store.contracts
            n
    swept_answer now db_now s [] n h =
        let e : count (is_overdue now) s.contracts ≡ n = ground arith in
        subst (Sweep now db_now s.contracts _) e (swept_rows now db_now s.contracts)
    swept_answer now db_now s (true ∷ o) n h = absurd (ground arith)
    swept_answer now db_now s (false ∷ o) n h =
        let e : count (is_overdue now) s.contracts ≡ n = ground arith in
        subst (Sweep now db_now s.contracts _) e (swept_rows now db_now s.contracts)
