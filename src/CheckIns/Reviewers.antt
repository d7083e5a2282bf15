-- ===== src/CheckIns/Reviewers.antt =====
-- Nobody decides on a check-in of their own.
use proof_forge.Prelude.{ℕ, ◌≡◌, ◌≢◌, ◌∙◌, sym, some, List, [], ◌∷◌, All, All-append, All-map}
use proof_forge.Prelude.Table.{find}
use proof_forge.CheckIns.Domain.{CheckIn, ReviewRecord, check_in_keyed}
use proof_forge.CheckIns.Repository.{Store}
use proof_forge.CheckIns.Requests.{Call, after, serve}
use proof_forge.CheckIns.Change.{Change, unchanged, creates, submits, attaches, decides}
use proof_forge.CheckIns.Refinement.{after-Change}
use proof_forge.CheckIns.Lifecycle.{Change-Follows}

-- The review's check-in is in its table, and the reviewer is not its owner.
abbrev pub IsByOther : Store → ReviewRecord → Type 0
IsByOther s r =
    (c : CheckIn) × (find r.check_in_id s.check_ins ≡ some c)
    × (c.owner_user_id ≢ r.reviewer_user_id)

abbrev pub AreByOthers : Store → Type 0
AreByOthers s = All (IsByOther s) s.reviews

module _ (actor now : ℕ) (s t : Store) (ch : Change actor now s t) where
  IsByOther-kept : (r : ReviewRecord) → IsByOther s r → IsByOther t r
  IsByOther-kept r (c, found, other) =
      let (c', found', owner, goal, path) = Change-Follows actor now r.check_in_id c s t ch found in
      (c', found', λ e. other (sym owner ∙ e))

  AreByOthers-kept : AreByOthers s → All (IsByOther t) s.reviews
  AreByOthers-kept h = All-map (IsByOther s) (IsByOther t) s.reviews IsByOther-kept h

Change-AreByOthers :
    (actor now : ℕ) (s t : Store) → Change actor now s t → AreByOthers s → AreByOthers t
Change-AreByOthers actor now s t (unchanged same) h =
    rw same.3 (AreByOthers-kept actor now s t (unchanged same) h)
Change-AreByOthers actor now s t (creates x eligible new tables) h =
    rw tables.3 (AreByOthers-kept actor now s t (creates x eligible new tables) h)
Change-AreByOthers actor now s t (submits j d own editable tables) h =
    rw tables.3 (AreByOthers-kept actor now s t (submits j d own editable tables) h)
Change-AreByOthers actor now s t (attaches j d item own room of tables) h =
    rw tables.3 (AreByOthers-kept actor now s t (attaches j d item own room of tables) h)
Change-AreByOthers actor now s t (decides j d r at_j open_review of tables) h =
    let ch : Change actor now s t = decides j d r at_j open_review of tables in
    let new : IsByOther t r =
      IsByOther-kept actor now s t ch r (d, rw of.0 at_j, λ e. open_review.0 (e ∙ of.1)) in
    rw tables.2
      (All-append (IsByOther t) s.reviews (r ∷ []) (AreByOthers-kept actor now s t ch h) (new, tt))

-- From tables where every review is of a check-in of somebody else, every history of calls leads to
-- such tables: no owner ever reviews a check-in of their own.
pub serve-AreByOthers : (cs : List Call) (s : Store) → AreByOthers s → AreByOthers (serve cs s)
unfolding serve
serve-AreByOthers [] s h = h
serve-AreByOthers (k ∷ cs) s h =
    serve-AreByOthers cs (after k s)
      (Change-AreByOthers k.actor.id k.env.now s (after k s) (after-Change k s) h)
