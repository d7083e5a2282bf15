-- ===== src/Circles/Ranking.antt =====
-- The order of the standings and their ranks.
use proof_forge.Prelude.{
  ℕ, suc, ◌≤◌, ◌≡◌, refl, sym, subst, Bool, true, false, not, List, [], ◌∷◌, map, arith, All,
  All-map, ltb, ◌==◌, Bool-cases, inl, inr, if◌then◌else◌,
}
use mathlib.Core.List.{Perm}
use mathlib.Core.List.Perm
use proof_forge.Prelude.Int.{ℤ, pos, negsuc, less, same_int, less_irrefl, same_int_iff}
use proof_forge.Prelude.Text.{Text}
use proof_forge.Prelude.Sorting.{sort_by, IsOrdered, sort_by-perm, sort_by-IsOrdered}
use proof_forge.Circles.Domain.{StandingEntry, StandingSnapshot}
use proof_forge.Circles.Standings.{
  text_less, ranks_before, with_rank, number_from, entry_of, build_standings,
}

text_less-asym : (s t : Text) → text_less s t ≡ true → text_less t s ≡ false
unfolding text_less
text_less-asym [] [] h = refl
text_less-asym [] (d ∷ t) h = refl
text_less-asym (c ∷ s) [] h = absurd (ground arith)
text_less-asym (c ∷ s) (d ∷ t) h = ground (arith, text_less-asym s t)

text_less-co_trans :
    (s t u : Text) → text_less t s ≡ false → text_less u t ≡ false → text_less u s ≡ false
unfolding text_less
text_less-co_trans [] t [] h k = refl
text_less-co_trans [] [] (e ∷ u) h k = refl
text_less-co_trans [] (d ∷ t) (e ∷ u) h k = refl
text_less-co_trans (c ∷ s) [] u h k = absurd (ground arith)
text_less-co_trans (c ∷ s) (d ∷ t) [] h k = absurd (ground arith)
text_less-co_trans (c ∷ s) (d ∷ t) (e ∷ u) h k = ground (arith, text_less-co_trans s t u)

-- A criterion on numbers, and what decides when it does not: the larger number comes first.
module _ (m n : ℕ) (p q : Bool) where
  number-asym :
      (p ≡ true → q ≡ false)
      → (if not (m == n) then ltb n m else p) ≡ true
      → (if not (n == m) then ltb m n else q) ≡ false
  number-asym f h = ground (arith, f)

number-co_trans :
    (l m n : ℕ) (p q r : Bool)
    → (p ≡ false → q ≡ false → r ≡ false)
    → (if not (m == l) then ltb l m else p) ≡ false
    → (if not (n == m) then ltb m n else q) ≡ false
    → (if not (n == l) then ltb l n else r) ≡ false
number-co_trans l m n p q r f h k = ground (arith, f)

score-asym :
    (m n : ℤ) (p q : Bool)
    → (p ≡ true → q ≡ false)
    → (if not (same_int m n) then less n m else p) ≡ true
    → (if not (same_int n m) then less m n else q) ≡ false
score-asym (pos a) (pos b) p q f h = ground (arith, f)
score-asym (pos a) (negsuc b) p q f h = ground (arith, f)
score-asym (negsuc a) (pos b) p q f h = ground (arith, f)
score-asym (negsuc a) (negsuc b) p q f h = ground (arith, f)

score-co_trans :
    (l m n : ℤ) (p q r : Bool)
    → (p ≡ false → q ≡ false → r ≡ false)
    → (if not (same_int m l) then less l m else p) ≡ false
    → (if not (same_int n m) then less m n else q) ≡ false
    → (if not (same_int n l) then less l n else r) ≡ false
score-co_trans (pos a) (pos b) (pos c) p q r f h k = ground (arith, f)
score-co_trans (pos a) (pos b) (negsuc c) p q r f h k = ground (arith, f)
score-co_trans (pos a) (negsuc b) (pos c) p q r f h k = ground (arith, f)
score-co_trans (pos a) (negsuc b) (negsuc c) p q r f h k = ground (arith, f)
score-co_trans (negsuc a) (pos b) (pos c) p q r f h k = ground (arith, f)
score-co_trans (negsuc a) (pos b) (negsuc c) p q r f h k = ground (arith, f)
score-co_trans (negsuc a) (negsuc b) (pos c) p q r f h k = ground (arith, f)
score-co_trans (negsuc a) (negsuc b) (negsuc c) p q r f h k = ground (arith, f)

ranks_before-asym : (a b : StandingEntry) → ranks_before a b ≡ true → ranks_before b a ≡ false
unfolding ranks_before
ranks_before-asym a b = score-asym a.score b.score _ _ (
    number-asym a.approved_weeks b.approved_weeks _ _ (
      number-asym a.current_streak b.current_streak _ _ (text_less-asym a.user_email b.user_email)))

ranks_before-co_trans :
    (a b c : StandingEntry)
    → ranks_before b a ≡ false
    → ranks_before c b ≡ false
    → ranks_before c a ≡ false
unfolding ranks_before
ranks_before-co_trans a b c = score-co_trans a.score b.score c.score _ _ _ (
    number-co_trans a.approved_weeks b.approved_weeks c.approved_weeks _ _ _ (
      number-co_trans a.current_streak b.current_streak c.current_streak _ _ _
        (text_less-co_trans a.user_email b.user_email c.user_email)))

-- The ranks are consecutive numbers from `n` on.
abbrev pub IsRanked : ℕ → List StandingEntry → Type 0
IsRanked n [] = Unit
IsRanked n (e ∷ es) = (e.rank ≡ n) × IsRanked (suc n) es

number_from-IsRanked : (n : ℕ) (es : List StandingEntry) → IsRanked n (number_from n es)
unfolding number_from
number_from-IsRanked n [] = tt
number_from-IsRanked n (e ∷ es) = (refl, number_from-IsRanked (suc n) es)

-- None ranks before one that stands in front of it.
abbrev IsInOrder : List StandingEntry → Type 0
IsInOrder = IsOrdered (λ a b. ranks_before b a ≡ false)

number_from-All :
    (P : StandingEntry → Type 0) (n : ℕ) (es : List StandingEntry)
    → ((m : ℕ) (e : StandingEntry) → P e → P (with_rank m e))
    → All P es
    → All P (number_from n es)
unfolding number_from
number_from-All P n [] keep h = tt
number_from-All P n (e ∷ es) keep h = (keep n e h.0, number_from-All P (suc n) es keep h.1)

number_from-IsInOrder :
    (n : ℕ) (es : List StandingEntry) → IsInOrder es → IsInOrder (number_from n es)
unfolding number_from ranks_before
number_from-IsInOrder n [] h = tt
number_from-IsInOrder n (e ∷ es) h = (
  number_from-All (λ b. ranks_before b e ≡ false) (suc n) es (λ m b k. k) h.0,
  number_from-IsInOrder (suc n) es h.1,
)

unranked :
    (n : ℕ) (es : List StandingEntry) → map (with_rank 0) (number_from n es) ≡ map (with_rank 0) es
unfolding number_from
unranked n [] = refl
unranked n (e ∷ es) = rw (unranked (suc n) es)

unrank-entries :
    (current_week : ℕ) (ss : List StandingSnapshot)
    → map (with_rank 0) (map (entry_of current_week) ss) ≡ map (entry_of current_week) ss
unfolding entry_of
unrank-entries w [] = refl
unrank-entries w (s ∷ ss) = rw (unrank-entries w ss)

-- The order in words: by the score, then the approved weeks, then the streak, then the address.
abbrev pub IsInFront : StandingEntry → StandingEntry → Type 0
IsInFront a b =
    (less a.score b.score ≡ false)
    × (a.score ≡ b.score
        → (b.approved_weeks ≤ a.approved_weeks)
          × (a.approved_weeks ≡ b.approved_weeks
              → (b.current_streak ≤ a.current_streak)
                × (a.current_streak ≡ b.current_streak
                    → text_less b.user_email a.user_email ≡ false)))

not_before-IsInFront : (a b : StandingEntry) → ranks_before b a ≡ false → IsInFront a b
unfolding ranks_before
not_before-IsInFront a b h = (
  elim (Bool-cases (same_int b.score a.score)) [
    | inl same ↦ let e = (same_int_iff b.score a.score).0 same in rw e (less_irrefl a.score)
    | inr apart ↦ ground arith
  ],
  λ score.
      let h' = rw ((same_int_iff b.score a.score).1 (sym score)) at h in
      (ground (arith), λ weeks. (ground arith, λ streak. ground arith)),
)

IsInOrder-IsInFront : (es : List StandingEntry) → IsInOrder es → IsOrdered IsInFront es
IsInOrder-IsInFront [] h = tt
IsInOrder-IsInFront (e ∷ es) h =
    (All-map _ _ es (not_before-IsInFront e) h.0, IsInOrder-IsInFront es h.1)

-- The standings hold one entry for each snapshot; they stand in descending order of the score, then
-- of the approved weeks, then of the streak, and then in the order of the e-mail addresses; and their
-- ranks are 1, 2, 3 and so on.
pub build_standings-ranks :
    (ss : List StandingSnapshot) (current_week : ℕ)
    → let es = build_standings ss current_week in
      Perm (map (with_rank 0) es) (map (entry_of current_week) ss)
      × IsOrdered IsInFront es
      × IsRanked 1 es
unfolding build_standings
build_standings-ranks ss w =
    let entries = map (entry_of w) ss in
    let sorted = sort_by ranks_before entries in
    (
      rw (unranked 1 sorted) (
          subst (λ es. Perm (map (with_rank 0) sorted) es) (unrank-entries w ss)
            (Perm.map (with_rank 0) (sort_by-perm ranks_before entries))),
      IsInOrder-IsInFront (number_from 1 sorted) (
          number_from-IsInOrder 1 sorted
            (sort_by-IsOrdered ranks_before ranks_before-asym ranks_before-co_trans entries)),
      number_from-IsRanked 1 sorted,
    )
