-- ===== src/CheckIns/Mime.antt =====
-- MIME detection by magic bytes (DetectMIME, mimeToKind and fileExtension of
-- backend/internal/checkins/domain.go). A file is the list of its bytes.
use proof_forge.Prelude.{
  ℕ, Option, none, some, Bool, ◌&&◌, ◌||◌, List, [], ◌∷◌, take, drop, length, leb, if◌then◌else◌,
}
use proof_forge.Prelude.Text.{Text, codes, has_prefix}
use proof_forge.CheckIns.Domain.{EvidenceKind, file, image}

-- A MIME type: those that the code names, and any other string.
pub data Mime : Type 0 where
  image_jpeg image_png image_gif image_webp text_plain application_pdf : Mime
  application_octet_stream : Mime
  other : Text → Mime

-- allowedMIMETypes
unfoldable pub mime_to_kind : Mime → Option EvidenceKind
mime_to_kind image_jpeg = some image
mime_to_kind image_png = some image
mime_to_kind image_gif = some image
mime_to_kind image_webp = some image
mime_to_kind text_plain = some file
mime_to_kind application_pdf = some file
mime_to_kind _ = none

unfoldable pub is_jpeg : List ℕ → Bool
is_jpeg head = leb 3 (length head) && has_prefix (0xFF ∷ 0xD8 ∷ 0xFF ∷ []) head

unfoldable pub is_png : List ℕ → Bool
is_png head =
    leb 8 (length head) && has_prefix (0x89 ∷ b'P' ∷ b'N' ∷ b'G' ∷ 13 ∷ 10 ∷ 0x1A ∷ 10 ∷ []) head

unfoldable pub is_gif : List ℕ → Bool
is_gif head =
    leb 6 (length head) && (has_prefix (codes "GIF87a") head || has_prefix (codes "GIF89a") head)

unfoldable pub is_webp : List ℕ → Bool
is_webp head =
    leb 12 (length head)
    && has_prefix (codes "RIFF") head
    && has_prefix (codes "WEBP") (drop 8 head)

unfoldable pub is_pdf : List ℕ → Bool
is_pdf head = leb 4 (length head) && has_prefix (codes "%PDF") head

abbrev text_or_binary : Mime → Mime
text_or_binary text_plain = text_plain
text_or_binary _ = application_octet_stream

-- The `switch` of DetectMIME.
unfoldable pub detect_head : List ℕ → Mime → Mime
detect_head head hint =
    if is_jpeg head
    then image_jpeg
    else if is_png head
    then image_png
    else if is_gif head
    then image_gif
    else if is_webp head
    then image_webp
    else if is_pdf head
    then application_pdf
    else text_or_binary hint

-- DetectMIME
unfoldable pub detect_mime : List ℕ → Mime → Mime
unfolding detect_head
detect_mime [] hint = hint
detect_mime (b ∷ bytes) hint = detect_head (take 512 (b ∷ bytes)) hint

unfoldable pub file_extension : Mime → Text
file_extension image_jpeg = codes ".jpg"
file_extension image_png = codes ".png"
file_extension image_gif = codes ".gif"
file_extension image_webp = codes ".webp"
file_extension text_plain = codes ".txt"
file_extension application_pdf = codes ".pdf"
file_extension _ = codes ".bin"
