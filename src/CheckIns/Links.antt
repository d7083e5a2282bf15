-- ===== src/CheckIns/Links.antt =====
-- What `sanitize_url` leaves of a link.
use proof_forge.Prelude.{
  ℕ, ◌≤◌, ◌⊎◌, ◌≡◌, ◌≢◌, refl, Bool, true, [], ◌∷◌, ◌++◌, arith, ◌==◌, All, Bool-cases, inl, inr,
  ap,
}
use native.Mathlib.Nat.{le_trans}
use proof_forge.Prelude.Text.{Text, trim_space, has_prefix, byte_length, codes}
use proof_forge.Prelude.Action.{ok, World}
use proof_forge.Users.{User}
use proof_forge.CheckIns.Domain.{cut_fragment, sanitize_url, validate_link, has_web_scheme}
use proof_forge.CheckIns.Repository.{Store, EvidenceItem, insert_evidence, insert_row}
use proof_forge.CheckIns.Service.{Env, add_link_evidence}

-- No rune of the text is '#'.
abbrev pub HasNoFragment : Text → Type 0
HasNoFragment = All (λ c. c ≢ b'#')

cut_fragment-HasNoFragment : (s : Text) → HasNoFragment (cut_fragment s)
unfolding cut_fragment
cut_fragment-HasNoFragment [] = tt
cut_fragment-HasNoFragment (c ∷ s) = elim (Bool-cases (c == b'#')) [
  | inl hash ↦ rw hash tt
  | inr plain ↦ rw plain ((λ e. ground arith), cut_fragment-HasNoFragment s)
]

-- Nothing, or a text that starts with '#'.
abbrev pub starts_fragment : Text → Bool
starts_fragment [] = true
starts_fragment (c ∷ s) = c == b'#'

-- `r` is `s` without its fragment.
abbrev pub IsBeforeFragment : Text → Text → Type 0
IsBeforeFragment r s = (fragment : Text) × (s ≡ r ++ fragment) × (starts_fragment fragment ≡ true)

cut_fragment-IsBeforeFragment : (s : Text) → IsBeforeFragment (cut_fragment s) s
unfolding cut_fragment
cut_fragment-IsBeforeFragment [] = ([], refl, refl)
cut_fragment-IsBeforeFragment (c ∷ s) = elim (Bool-cases (c == b'#')) [
  | inl hash ↦ (c ∷ s, rw hash, hash)
  | inr plain ↦
      let (fragment, split, start) = cut_fragment-IsBeforeFragment s in
      (fragment, rw plain (ap (λ (r : Text). c ∷ r) split), start)
]

-- A sanitized link is what stands before the first '#' of the trimmed text: it has no '#', and what
-- was cut off is nothing or starts with the '#'.
pub sanitize_url-before :
    (raw : Text)
    → HasNoFragment (sanitize_url raw) × IsBeforeFragment (sanitize_url raw) (trim_space raw)
unfolding sanitize_url
sanitize_url-before raw =
    (cut_fragment-HasNoFragment (trim_space raw), cut_fragment-IsBeforeFragment (trim_space raw))

cut_fragment-prefix :
    (p s : Text) → HasNoFragment p → has_prefix p s ≡ true → has_prefix p (cut_fragment s) ≡ true
unfolding cut_fragment
cut_fragment-prefix [] s plain h = refl
cut_fragment-prefix (c ∷ p) [] plain h = cc
cut_fragment-prefix (c ∷ p) (d ∷ s) plain h =
    ground (arith, cut_fragment-prefix p s plain.1, plain.0)

byte_length-cut_fragment : (s : Text) → byte_length (cut_fragment s) ≤ byte_length s
unfolding cut_fragment
byte_length-cut_fragment [] = omega arith
byte_length-cut_fragment (c ∷ s) = elim (Bool-cases (c == b'#')) [
  | inl hash ↦ rw hash (omega arith)
  | inr plain ↦ rw plain (omega (arith, byte_length-cut_fragment s))
]

-- What a link has to be: an address of the web, of 2048 bytes at most.
abbrev pub IsWebLink : Text → Type 0
IsWebLink url =
    ((has_prefix (codes "https://") url ≡ true) ⊎ (has_prefix (codes "http://") url ≡ true))
    × (byte_length url ≤ 2048)

validate_link-tests :
    (raw : Text)
    → validate_link raw ≡ ok tt
    → (has_web_scheme (trim_space raw) ≡ true) × (byte_length (trim_space raw) ≤ 2048)
unfolding validate_link
validate_link-tests raw h = ground arith

has_web_scheme-cases :
    (url : Text)
    → has_web_scheme url ≡ true
    → (has_prefix (codes "https://") url ≡ true) ⊎ (has_prefix (codes "http://") url ≡ true)
unfolding has_web_scheme
has_web_scheme-cases url h = elim (Bool-cases (has_prefix (codes "https://") url)) [
  | inl https ↦ inl https
  | inr other ↦ inr (rw other at h)
]

validate_link-ok : (raw : Text) → validate_link raw ≡ ok tt → IsWebLink (trim_space raw)
validate_link-ok raw h =
    let (scheme, short) = validate_link-tests raw h in
    (has_web_scheme-cases (trim_space raw) scheme, short)

cut_fragment-IsWebLink : (s : Text) → IsWebLink s → IsWebLink (cut_fragment s)
cut_fragment-IsWebLink s (inl https, short) = (
  inl (cut_fragment-prefix (codes "https://") s (omega arith) https),
  le_trans (byte_length-cut_fragment s) short,
)
cut_fragment-IsWebLink s (inr http, short) = (
  inr (cut_fragment-prefix (codes "http://") s (omega arith) http),
  le_trans (byte_length-cut_fragment s) short,
)

stored_link :
    (env : Env) (actor : User) (id : ℕ) (raw : Text) (w : World Store) (item : EvidenceItem)
    → (add_link_evidence env actor id raw w).0 ≡ ok item
    → (validate_link raw ≡ ok tt) × (item.external_url ≡ sanitize_url raw)
unfolding add_link_evidence insert_evidence insert_row
stored_link env actor id raw w item h = ground arith

-- Every link that a call adds is stored as a web address of at most 2048 bytes, with no fragment.
pub add_link_evidence-IsWebLink :
    (env : Env) (actor : User) (id : ℕ) (raw : Text) (w : World Store) (item : EvidenceItem)
    → (add_link_evidence env actor id raw w).0 ≡ ok item
    → IsWebLink item.external_url × HasNoFragment item.external_url
unfolding sanitize_url
add_link_evidence-IsWebLink env actor id raw w item h =
    let (valid, stored) = stored_link env actor id raw w item h in
    rw stored (
      cut_fragment-IsWebLink (trim_space raw) (validate_link-ok raw valid),
      cut_fragment-HasNoFragment (trim_space raw),
    )
