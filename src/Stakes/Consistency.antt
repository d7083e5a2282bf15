-- ===== src/Stakes/Consistency.antt =====
-- Forfeitures and the stakes they stand for, through any history of calls.
use proof_forge.Prelude.{
  ℕ, ◌≡◌, ◌≢◌, ◌∙◌, ◌⊎◌, refl, some, Bool, true, false, List, [], ◌∷◌, arith, count, count-append,
  ◌==◌, Bool-cases, inl, inr,
}
use proof_forge.Prelude.Text.{Text}
use proof_forge.Prelude.Table.{find, modify, find-modify, find-append_some}
use proof_forge.Prelude.Action.{err}
use proof_forge.Users.{User}
use proof_forge.Goals.{Goal, goal_keyed}
use proof_forge.Stakes.Repository.{
  Store, Stake, StakeForfeiture, StakeStatus, forfeited, stake_keyed, find_by_id, set_status,
  update_status, insert_forfeiture, find_goal_participants, db_failure, stake_not_active,
}
use proof_forge.Stakes.Service.{Env, forfeit, is_active, Call, after, serve}
use proof_forge.Stakes.Changes.{Change, unchanged, creates, closes, forfeits, after-Change_stakes}

abbrev pub is_of : ℕ → StakeForfeiture → Bool
is_of id f = f.stake_id == id

-- A stake has no forfeiture, or one and is forfeited.
abbrev pub IsAccounted : ℕ → Store → Type 0
IsAccounted id s =
    (count (is_of id) s.forfeitures ≡ 0)
    ⊎ (count (is_of id) s.forfeitures ≡ 1)
      × (k : Stake) × (find id s.stakes ≡ some k)
      × (k.status ≡ forfeited)

set_status-lem :
    (next : StakeStatus) (now : ℕ) (k : Stake)
    → ((set_status next now k).id ≡ k.id) × ((set_status next now k).status ≡ next)
unfolding set_status
set_status-lem next now k = ground arith

forfeited_not_active : (k : Stake) → is_active k.status ≡ true → k.status ≢ forfeited
forfeited_not_active k h e = ground arith

-- The row of `id` after the row of `j` was updated.
other_row :
    (id j now : ℕ) (next : StakeStatus) (k : Stake) (s t : Store)
    → id ≢ j
    → t.stakes ≡ modify j (set_status next now) s.stakes
    → find id s.stakes ≡ some k
    → find id t.stakes ≡ some k
other_row id j now next k s t apart rows found = rw rows (
    find-modify id j (set_status next now) s.stakes (λ x. (set_status-lem next now x).0)
    ∙ ground arith)

own_row :
    (j now : ℕ) (next : StakeStatus) (k : Stake) (s t : Store)
    → t.stakes ≡ modify j (set_status next now) s.stakes
    → find j s.stakes ≡ some k
    → find j t.stakes ≡ some (set_status next now k)
own_row j now next k s t rows found = rw rows (
    find-modify j j (set_status next now) s.stakes (λ x. (set_status-lem next now x).0)
    ∙ ground arith)

-- A stake that is active has no forfeiture.
active_unaccounted :
    (id : ℕ) (k : Stake) (s : Store)
    → find id s.stakes ≡ some k
    → is_active k.status ≡ true
    → IsAccounted id s
    → count (is_of id) s.forfeitures ≡ 0
active_unaccounted id k s found live (inl none_yet) = none_yet
active_unaccounted id k s found live (inr (one, k', found', gone)) =
    let same : k ≡ k' = ground arith in absurd (forfeited_not_active k live (rw same gone))

-- The row of `id` is as it was and so is the number of its forfeitures.
IsAccounted-keep :
    (id : ℕ) (s t : Store)
    → count (is_of id) t.forfeitures ≡ count (is_of id) s.forfeitures
    → ((k : Stake) → find id s.stakes ≡ some k → find id t.stakes ≡ some k)
    → IsAccounted id s
    → IsAccounted id t
IsAccounted-keep id s t same keep (inl none_yet) = inl (same ∙ none_yet)
IsAccounted-keep id s t same keep (inr (one, k, found, gone)) =
    inr (same ∙ one, k, keep k found, gone)

Change-IsAccounted : (id : ℕ) (s t : Store) → Change s t → IsAccounted id s → IsAccounted id t
Change-IsAccounted id s t (unchanged stakes forfeitures) h =
    IsAccounted-keep id s t (rw forfeitures refl) (λ k found. rw stakes found) h
Change-IsAccounted id s t (creates x stakes forfeitures) h =
    IsAccounted-keep id s t (rw forfeitures refl)
      (λ k found. rw stakes (find-append_some id s.stakes k x found)) h
Change-IsAccounted id s t (closes j now next k at_j live stakes forfeitures) h =
    elim (Bool-cases (id == j)) [
      | inl same ↦
          let one : id ≡ j = ground arith in
          inl (rw forfeitures (active_unaccounted id k s (rw one at_j) live h))
      | inr other ↦
          IsAccounted-keep id s t (rw forfeitures refl)
            (λ x found. other_row id j now next x s t (ground arith) stakes found) h
    ]
Change-IsAccounted id s t (forfeits j now k f at_j live stakes of_j forfeitures) h =
    let added = count-append (is_of id) s.forfeitures (f ∷ []) in
    elim (Bool-cases (id == j)) [
      | inl same ↦
          let one : id ≡ j = ground arith in
          let before = active_unaccounted id k s (rw one at_j) live h in
          inr (
            rw forfeitures (ground arith),
            set_status forfeited now k,
            rw one (own_row j now forfeited k s t stakes at_j),
            (set_status-lem forfeited now k).1,
          )
      | inr other ↦
          IsAccounted-keep id s t (rw forfeitures (ground arith))
            (λ x found. other_row id j now forfeited x s t (ground arith) stakes found) h
    ]

-- Through any history of calls and outages, each stake has either no forfeiture, or exactly one and
-- its status is forfeited: no stake is forfeited twice, and none is declared forfeit while its row
-- says otherwise.
pub serve-IsAccounted :
    (cs : List Call) (id : ℕ) (s : Store) → IsAccounted id s → IsAccounted id (serve cs s)
unfolding serve
serve-IsAccounted [] id s h = h
serve-IsAccounted (c ∷ cs) id s h =
    serve-IsAccounted cs id (after c s)
      (Change-IsAccounted id s (after c s) (after-Change_stakes c s) h)

abbrev half_forfeited : ℕ → ℕ → Store → Store
half_forfeited id now s = record s { stakes = modify id (set_status forfeited now) s.stakes }

forfeit-half :
    (env : Env) (actor : User) (id : ℕ) (reason : Text) (s : Store) (k : Stake) (g : Goal)
    → find id s.stakes ≡ some k
    → is_active k.status ≡ true
    → find k.goal_id s.goals ≡ some g
    → g.buddy_user_id ≡ some actor.id
    → forfeit env actor id reason
        (record { store = s; outages = false ∷ false ∷ false ∷ true ∷ [] })
      ≡ (err db_failure, record { store = half_forfeited id env.now s; outages = [] })
unfolding forfeit find_by_id find_goal_participants update_status insert_forfeiture
forfeit-half env actor id reason s k g found live goal buddy = ground arith

forfeit-again :
    (env : Env) (actor : User) (id : ℕ) (reason : Text) (s : Store) (k : Stake)
    → find id s.stakes ≡ some k
    → is_active k.status ≡ false
    → forfeit env actor id reason (record { store = s; outages = [] })
      ≡ (err stake_not_active, record { store = s; outages = [] })
unfolding forfeit find_by_id
forfeit-again env actor id reason s k found dead = ground arith

-- When the buddy forfeits an active stake of a goal and the database refuses only the last of the
-- four statements, the call fails with that error, yet the stake stays forfeited and no forfeiture is
-- entered; a second try then fails because the stake is not active.
pub forfeit-halfway :
    (env env' : Env) (actor : User) (id : ℕ) (reason reason' : Text) (s : Store) (k : Stake)
    (g : Goal)
    → find id s.stakes ≡ some k
    → is_active k.status ≡ true
    → find k.goal_id s.goals ≡ some g
    → g.buddy_user_id ≡ some actor.id
    → let (r, w) =
        forfeit env actor id reason
          (record { store = s; outages = false ∷ false ∷ false ∷ true ∷ [] }) in
      (r ≡ err db_failure)
      × (find id w.store.stakes ≡ some (set_status forfeited env.now k))
      × (w.store.forfeitures ≡ s.forfeitures)
      × (forfeit env' actor id reason' w ≡ (err stake_not_active, w))
forfeit-halfway env env' actor id reason reason' s k g found live goal buddy =
    let half = half_forfeited id env.now s in
    let row = own_row id env.now forfeited k s half refl found in
    let gone = (set_status-lem forfeited env.now k).1 in
    rw (forfeit-half env actor id reason s k g found live goal buddy) (
      refl,
      row,
      refl,
      forfeit-again env' actor id reason' half (set_status forfeited env.now k) row (rw gone refl),
    )
