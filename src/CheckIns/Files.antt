-- ===== src/CheckIns/Files.antt =====
-- What the stored kind of a file says of its bytes.
use proof_forge.Prelude.{
  ℕ, suc, zero, ◌≡◌, ◌≤◌, ◌+◌, ◌↔◌, ◌⊎◌, inl, inr, refl, some, Bool, true, false, ◌&&◌, ◌||◌, List,
  [], ◌∷◌, arith, take, drop, length, leb,
}
use proof_forge.Prelude.Text.{has_prefix}
use proof_forge.CheckIns.Domain.{image}
use proof_forge.CheckIns.Mime.{
  Mime, detect_mime, detect_head, mime_to_kind, is_jpeg, is_png, is_gif, is_webp,
}

-- The bytes from `m` on begin with `p`.
abbrev IsAt : ℕ → List ℕ → List ℕ → Type 0
IsAt m p bytes = take (length p) (drop m bytes) ≡ p

-- The bytes that the formats of JPEG, PNG, GIF (87a or 89a) and WEBP begin with; a WEBP file has its
-- size between RIFF and WEBP.
abbrev pub IsImage : List ℕ → Type 0
IsImage bytes =
    IsAt 0 (255 ∷ 216 ∷ 255 ∷ []) bytes
    ⊎ (IsAt 0 (137 ∷ 80 ∷ 78 ∷ 71 ∷ 13 ∷ 10 ∷ 26 ∷ 10 ∷ []) bytes
        ⊎ ((IsAt 0 (71 ∷ 73 ∷ 70 ∷ 56 ∷ 55 ∷ 97 ∷ []) bytes
              ⊎ IsAt 0 (71 ∷ 73 ∷ 70 ∷ 56 ∷ 57 ∷ 97 ∷ []) bytes)
            ⊎ (IsAt 0 (82 ∷ 73 ∷ 70 ∷ 70 ∷ []) bytes × IsAt 8 (87 ∷ 69 ∷ 66 ∷ 80 ∷ []) bytes)))

prefix-take :
    (p s : List ℕ) (n : ℕ)
    → length p ≤ n
    → (has_prefix p (take n s) ≡ true) ↔ (take (length p) s ≡ p)
prefix-take [] s n h = (λ e. refl, λ e. refl)
prefix-take (c ∷ p) s zero h = absurd (omega arith)
prefix-take (c ∷ p) [] (suc n) h = ground arith
prefix-take (c ∷ p) (d ∷ s) (suc n) h = ground (arith, prefix-take p s n (omega arith))

prefix-drop :
    (m : ℕ) (p s : List ℕ) (n : ℕ)
    → m + length p ≤ n
    → (has_prefix p (drop m (take n s)) ≡ true) ↔ IsAt m p s
prefix-drop zero p s n h = prefix-take p s n (omega arith)
prefix-drop (suc m) p s zero h = absurd (omega arith)
prefix-drop (suc m) [] [] (suc n) h = (λ e. refl, λ e. refl)
prefix-drop (suc m) (c ∷ p) [] (suc n) h = ground arith
prefix-drop (suc m) p (d ∷ s) (suc n) h = prefix-drop m p s n (omega arith)

prefix-length :
    (m c : ℕ) (p s : List ℕ)
    → has_prefix (c ∷ p) (drop m s) ≡ true
    → leb (m + length (c ∷ p)) (length s) ≡ true
prefix-length zero c p [] h = absurd (ground arith)
prefix-length zero c [] (d ∷ s) h = ground arith
prefix-length zero c (b ∷ p) (d ∷ s) h = ground (arith, prefix-length zero b p s)
prefix-length (suc m) c p [] h = absurd (ground arith)
prefix-length (suc m) c p (d ∷ s) h = ground (arith, prefix-length m c p s)

both : (a b : Bool) → a && b ≡ true → (a ≡ true) × (b ≡ true)
both a b h = (ground arith, ground arith)

either : (a b : Bool) → a || b ≡ true → (a ≡ true) ⊎ (b ≡ true)
either true b h = inl refl
either false b h = inr h

module _ (bytes : List ℕ) where
  abbrev head : List ℕ
  head = take 512 bytes

  -- A prefix that is there is long enough for the code's test of the length.
  long_enough :
      (m c : ℕ) (p : List ℕ)
      → m + length (c ∷ p) ≤ 512
      → IsAt m (c ∷ p) bytes
      → (leb (m + length (c ∷ p)) (length head) ≡ true) × (has_prefix (c ∷ p) (drop m head) ≡ true)
  long_enough m c p short h =
      let there = (prefix-drop m (c ∷ p) bytes 512 short).1 h in
      (prefix-length m c p head there, there)

  jpeg-words : (is_jpeg head ≡ true) ↔ IsAt 0 (255 ∷ 216 ∷ 255 ∷ []) bytes
  unfolding is_jpeg
  jpeg-words = (
    λ h. (prefix-drop 0 _ bytes 512 (omega arith)).0 (both _ _ h).1,
    λ h. let q = long_enough 0 255 (216 ∷ 255 ∷ []) (omega arith) h in rw (q.0, q.1) refl,
  )

  png-words : (is_png head ≡ true) ↔ IsAt 0 (137 ∷ 80 ∷ 78 ∷ 71 ∷ 13 ∷ 10 ∷ 26 ∷ 10 ∷ []) bytes
  unfolding is_png
  png-words = (
    λ h. (prefix-drop 0 _ bytes 512 (omega arith)).0 (both _ _ h).1,
    λ h.
        let q = long_enough 0 137 (80 ∷ 78 ∷ 71 ∷ 13 ∷ 10 ∷ 26 ∷ 10 ∷ []) (omega arith) h in
        rw (q.0, q.1) refl,
  )

  gif-words : (is_gif head ≡ true) ↔ (
      IsAt 0 (71 ∷ 73 ∷ 70 ∷ 56 ∷ 55 ∷ 97 ∷ []) bytes
      ⊎ IsAt 0 (71 ∷ 73 ∷ 70 ∷ 56 ∷ 57 ∷ 97 ∷ []) bytes)
  unfolding is_gif
  gif-words = (
    λ h. elim (either _ _ (both _ _ h).1) [
      | inl old ↦ inl ((prefix-drop 0 _ bytes 512 (omega arith)).0 old)
      | inr new ↦ inr ((prefix-drop 0 _ bytes 512 (omega arith)).0 new)
    ],
    λ h. elim h [
      | inl old ↦
          let q = long_enough 0 71 (73 ∷ 70 ∷ 56 ∷ 55 ∷ 97 ∷ []) (omega arith) old in
          let size = q.0 in let found = q.1 in ground arith
      | inr new ↦
          let q = long_enough 0 71 (73 ∷ 70 ∷ 56 ∷ 57 ∷ 97 ∷ []) (omega arith) new in
          let size = q.0 in let found = q.1 in ground arith
    ],
  )

  webp-words :
      (is_webp head ≡ true)
      ↔ (IsAt 0 (82 ∷ 73 ∷ 70 ∷ 70 ∷ []) bytes × IsAt 8 (87 ∷ 69 ∷ 66 ∷ 80 ∷ []) bytes)
  unfolding is_webp
  webp-words = (
    λ h.
        let q = both _ _ h in
        (
          (prefix-drop 0 _ bytes 512 (omega arith)).0 (both _ _ q.0).1,
          (prefix-drop 8 _ bytes 512 (omega arith)).0 q.1,
        ),
    λ h.
        let riff = long_enough 0 82 (73 ∷ 70 ∷ 70 ∷ []) (omega arith) h.0 in
        let webp = long_enough 8 87 (69 ∷ 66 ∷ 80 ∷ []) (omega arith) h.1 in
        rw (webp.0, riff.1, webp.1) refl,
  )

kind-signature :
    (b : ℕ) (bytes : List ℕ) (hint : Mime)
    → let h = take 512 (b ∷ bytes) in
      (mime_to_kind (detect_mime (b ∷ bytes) hint) ≡ some image)
      ↔ (is_jpeg h || is_png h || is_gif h || is_webp h ≡ true)
unfolding detect_mime detect_head mime_to_kind
kind-signature b bytes hint = ground arith

signature-words :
    (bytes : List ℕ)
    → let h = take 512 bytes in
      (is_jpeg h || is_png h || is_gif h || is_webp h ≡ true) ↔ IsImage bytes
signature-words bytes = (
  λ h. elim (either _ _ h) [
    | inl first ↦ elim (either _ _ first) [
      | inl two ↦ elim (either _ _ two) [
        | inl jpeg ↦ inl ((jpeg-words bytes).0 jpeg)
        | inr png ↦ inr (inl ((png-words bytes).0 png))
      ]
      | inr gif ↦ inr (inr (inl ((gif-words bytes).0 gif)))
    ]
    | inr webp ↦ inr (inr (inr ((webp-words bytes).0 webp)))
  ],
  λ h. elim h [
    | inl jpeg ↦ let q = (jpeg-words bytes).1 jpeg in ground arith
    | inr (inl png) ↦ let q = (png-words bytes).1 png in ground arith
    | inr (inr (inl gif)) ↦ let q = (gif-words bytes).1 gif in ground arith
    | inr (inr (inr webp)) ↦ let q = (webp-words bytes).1 webp in ground arith
  ],
)

-- A file that is not empty is an image for the service exactly when its first bytes are those of a
-- JPEG, PNG, GIF or WEBP file, whatever type the client claims.
pub detect_mime-image :
    (b : ℕ) (bytes : List ℕ) (hint : Mime)
    → (mime_to_kind (detect_mime (b ∷ bytes) hint) ≡ some image) ↔ IsImage (b ∷ bytes)
detect_mime-image b bytes hint =
    let kind = kind-signature b bytes hint in
    let words = signature-words (b ∷ bytes) in (λ h. words.0 (kind.0 h), λ h. kind.1 (words.1 h))
