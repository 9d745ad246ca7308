-- ===== src/Ingest/Mime.antt =====
-- `_detect_mime` and the tables of MIME types of app/api/routes/ingest.py. str.lower and
-- filetype.guess are parameters.
use knowledgebase.Prelude.{
  ℕ, Bool, true, false, Option, none, some, List, [], ◌∷◌, if◌then◌else◌, take,
}
use knowledgebase.Prelude.Text.{
  Text, codes, same_text, strip_left, strip_right, strip, until, extension,
}

abbrev pub octet_stream : Text
octet_stream = codes "application/octet-stream"

abbrev pub zip_archive : Text
zip_archive = codes "application/zip"

-- _ZIP_EXTENSION_MIME and _EXT_MIME_FALLBACK
abbrev zip_extension_mime : List (Text × Text)
zip_extension_mime =
    (codes ".docx", codes "application/vnd.openxmlformats-officedocument.wordprocessingml.document")
    ∷ (
      codes ".pptx",
      codes "application/vnd.openxmlformats-officedocument.presentationml.presentation",
    )
    ∷ (codes ".xlsx", codes "application/vnd.openxmlformats-officedocument.spreadsheetml.sheet")
    ∷ []

abbrev ext_mime_fallback : List (Text × Text)
ext_mime_fallback =
    (codes ".csv", codes "text/csv")
    ∷ (codes ".tsv", codes "text/tab-separated-values")
    ∷ (codes ".xls", codes "application/vnd.ms-excel")
    ∷ []

unfoldable pub allowed_mime : List Text
allowed_mime =
    codes "application/pdf"
    ∷ codes "application/vnd.openxmlformats-officedocument.wordprocessingml.document"
    ∷ codes "application/vnd.openxmlformats-officedocument.presentationml.presentation"
    ∷ codes "application/vnd.openxmlformats-officedocument.spreadsheetml.sheet"
    ∷ codes "application/msword"
    ∷ codes "application/vnd.ms-powerpoint"
    ∷ codes "application/vnd.ms-excel"
    ∷ codes "text/plain"
    ∷ codes "text/markdown"
    ∷ codes "text/x-markdown"
    ∷ codes "text/html"
    ∷ codes "application/xhtml+xml"
    ∷ codes "text/csv"
    ∷ codes "text/tab-separated-values"
    ∷ codes "application/csv"
    ∷ []

-- table.get(key, default)
unfoldable pub get : Text → Text → List (Text × Text) → Text
unfolding same_text
get key default [] = default
get key default (entry ∷ table) =
    let rest = get key default table in if same_text entry.0 key then entry.1 else rest

module _ (lower : Text → Text) (guess : List ℕ → Option Text) where
  abbrev pub hint : Text → Text
  hint content_type = lower (strip (until b';' content_type))

  abbrev is_hint : Text → Bool
  is_hint [] = false
  is_hint (c ∷ s) = if same_text (c ∷ s) octet_stream then false else true

  abbrev guessed : Option Text → Text
  guessed none = octet_stream
  guessed (some mime) = mime

  unfoldable pub by_content : List ℕ → Text → Text
  unfolding same_text until strip_left strip_right
  by_content bytes content_type =
      if is_hint (hint content_type) then hint content_type else guessed (guess (take 2048 bytes))

  abbrev unzipped : Text → Text → Text
  unzipped ext detected =
      if same_text detected zip_archive then get ext detected zip_extension_mime else detected

  abbrev fallback : Text → Text → Text
  fallback ext detected =
      if same_text detected octet_stream then get ext detected ext_mime_fallback else detected

  unfoldable pub detect_mime : List ℕ → Text → Text → Text
  unfolding by_content get extension same_text
  detect_mime bytes content_type filename =
      let ext = lower (extension filename) in
      fallback ext (unzipped ext (by_content bytes content_type))
