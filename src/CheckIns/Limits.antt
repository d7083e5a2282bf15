-- ===== src/CheckIns/Limits.antt =====
-- The limit on evidence items, over any history of calls.
use proof_forge.Prelude.{ℕ, ◌≤◌, List, [], ◌∷◌, arith, count-append}
use proof_forge.CheckIns.Domain.{max_evidence_items}
use proof_forge.CheckIns.Repository.{Store, evidence_count}
use proof_forge.CheckIns.Requests.{Call, after, serve}
use proof_forge.CheckIns.Change.{Change, unchanged, creates, submits, attaches, decides}
use proof_forge.CheckIns.Refinement.{after-Change}

-- No check-in has more evidence than the limit.
abbrev pub IsWithinCap : Store → Type 0
IsWithinCap s = (id : ℕ) → evidence_count id s ≤ max_evidence_items

Change-IsWithinCap :
    (actor now : ℕ) (s t : Store) → Change actor now s t → IsWithinCap s → IsWithinCap t
Change-IsWithinCap actor now s t (unchanged same) h id = rw same.2 (h id)
Change-IsWithinCap actor now s t (creates x eligible new tables) h id = rw tables.2 (h id)
Change-IsWithinCap actor now s t (submits j d own editable tables) h id = rw tables.2 (h id)
Change-IsWithinCap actor now s t (attaches j d item own room of tables) h id =
    rw (tables.0, count-append) (ground (arith, h id, room.1))
Change-IsWithinCap actor now s t (decides j d r at_j open_review of tables) h id =
    rw tables.3 (h id)

-- From tables where no check-in has more than 20 evidence items, no history of calls leads to one
-- that has.
pub serve-IsWithinCap : (cs : List Call) (s : Store) → IsWithinCap s → IsWithinCap (serve cs s)
unfolding serve
serve-IsWithinCap [] s h = h
serve-IsWithinCap (k ∷ cs) s h =
    serve-IsWithinCap cs (after k s)
      (Change-IsWithinCap k.actor.id k.env.now s (after k s) (after-Change k s) h)
