-- ===== src/Parsing.antt =====
-- app/parsers: the router and the parsers. What the libraries and the Unstructured services give for the bytes of a file (the texts of
-- pages, paragraphs, elements) are functions in `ParserServices`.
pub mod Parsed
mod Examples
use knowledgebase.Prelude.{
  ℕ, suc, Bool, true, false, Option, none, some, List, [], ◌∷◌, ◌++◌, map, length, if◌then◌else◌,
}
use knowledgebase.Prelude.Text.{
  Text, codes, one_of, same_text, strip, strip_left, strip_right, until, join_with,
}
use knowledgebase.Prelude.Attempt.{Fetched, got, raised, and_then}
use knowledgebase.Prelude.Table.{order_asc}
use knowledgebase.Prelude.Dict.{Dict, dict_get, dict_set}
use knowledgebase.Models.{Digest}
use knowledgebase.Chunker.{Page, ParsedDocument}
use knowledgebase.Startup.{ServiceRegistry}

-- An element of Unstructured; a missing text is empty.
pub record Element : Type 0 where
  pub text : Text
  pub page_number : Option ℕ

pub record ParserServices : Type 0 where
  pub registry : ServiceRegistry
  pub pool_ready : Bool
  pub lower : Text → Text
  pub sha256 : Text → Digest
  pub decode : List ℕ → Text
  pub pdf_texts : List ℕ → Fetched (List Text)
  pub docx_paragraphs : List ℕ → Fetched (List Text)
  pub html_text : List Text → List ℕ → Fetched Text
  pub unstructured_api : Text → List ℕ → Text → Text → Fetched (List Element)
  pub unstructured_local : Text → List ℕ → Text → Text → Fetched (List Element)

module _ (services : ParserServices) where
  -- A document with its length and its digest.
  abbrev pub document : Text → List Page → Text → ParsedDocument
  document raw_text pages parse_mode = record {
    raw_text = raw_text;
    pages = pages;
    parse_mode = parse_mode;
    char_count = length raw_text;
    checksum = services.sha256 raw_text;
  }

  abbrev lines : List Text → Text
  lines texts = join_with (b'\n' ∷ []) texts

  unfoldable pub parse_plain : List ℕ → Fetched ParsedDocument
  unfolding strip_left strip_right
  parse_plain bytes = got (document (strip (services.decode bytes)) [] (codes "plain_text"))

  unfoldable pub parse_html : List ℕ → Fetched ParsedDocument
  parse_html bytes =
      and_then
        (services.html_text
          (codes "script" ∷ codes "style" ∷ codes "nav" ∷ codes "footer" ∷ codes "header" ∷ [])
          bytes)
        (λ raw_text. got (document raw_text [] (codes "beautifulsoup4")))

  abbrev kept : Text → List Text → List Text
  kept [] rest = rest
  kept (c ∷ s) rest = (c ∷ s) ∷ rest

  -- The texts that are not blank, stripped.
  unfoldable pub stripped : List Text → List Text
  unfolding strip_left strip_right
  stripped [] = []
  stripped (t ∷ texts) = kept (strip t) (stripped texts)

  unfoldable pub parse_docx : List ℕ → Fetched ParsedDocument
  unfolding stripped
  parse_docx bytes =
      and_then (services.docx_paragraphs bytes)
        (λ paragraphs. got (document (lines (stripped paragraphs)) [] (codes "python_docx")))

  abbrev kept_page : ℕ → Text → List Page → List Page
  kept_page n [] rest = rest
  kept_page n (c ∷ s) rest = record { page_number = n; text = c ∷ s } ∷ rest

  -- The pages that are not blank, from the page number `n` on.
  unfoldable pub pdf_pages : ℕ → List Text → List Page
  unfolding strip_left strip_right
  pdf_pages n [] = []
  pdf_pages n (t ∷ texts) = kept_page n (strip t) (pdf_pages (suc n) texts)

  unfoldable pub parse_pdf : List ℕ → Fetched ParsedDocument
  unfolding stripped pdf_pages
  parse_pdf bytes =
      and_then (services.pdf_texts bytes)
        (λ texts. got (document (lines (stripped texts)) (pdf_pages 1 texts) (codes "pymupdf")))

  abbrev or_none : Option (List Text) → List Text
  or_none none = []
  or_none (some texts) = texts

  abbrev on_page : Option ℕ → Text → Dict (List Text) → Dict (List Text)
  on_page none text pages = pages
  on_page (some n) text pages = dict_set n (or_none (dict_get n pages) ++ text ∷ []) pages

  abbrev with_element : Option ℕ → Text → Dict (List Text) → Dict (List Text)
  with_element page_number [] pages = pages
  with_element page_number (c ∷ s) pages = on_page page_number (c ∷ s) pages

  -- The texts of each page number.
  unfoldable pub page_texts : List Element → Dict (List Text) → Dict (List Text)
  unfolding strip_left strip_right dict_get dict_set
  page_texts [] pages = pages
  page_texts (el ∷ elements) pages =
      page_texts elements (with_element el.page_number (strip el.text) pages)

  abbrev pub page_of : ℕ × List Text → Page
  page_of (n, texts) = record { page_number = n; text = lines texts }

  unfoldable pub elements_to_document : List Element → Text → ParsedDocument
  unfolding stripped page_texts order_asc
  elements_to_document elements parse_mode =
      document (lines (stripped (map (λ (el : Element). el.text) elements)))
        (map page_of (order_asc (λ entry. entry.0) (page_texts elements []))) parse_mode

  abbrev known_strategy : Text → Text
  known_strategy strategy =
      if one_of strategy (codes "fast" ∷ codes "hi_res" ∷ codes "ocr_only" ∷ codes "auto" ∷ [])
      then strategy
      else codes "fast"

  unfoldable pub parse_unstructured : Text → List ℕ → Text → Text → Fetched ParsedDocument
  unfolding one_of elements_to_document
  parse_unstructured filename bytes mime_type strategy =
      and_then (services.unstructured_api filename bytes mime_type (known_strategy strategy))
        (λ elements. got (elements_to_document elements (codes "unstructured_api")))

  unfoldable pub parse_local_unstructured : Text → List ℕ → Text → Text → Fetched ParsedDocument
  unfolding one_of elements_to_document
  parse_local_unstructured filename bytes mime_type strategy =
      and_then (services.unstructured_local filename bytes mime_type (known_strategy strategy))
        (λ elements. got (elements_to_document elements (codes "local_unstructured")))

  abbrev pub is_pdf : Text → Bool
  is_pdf normalized = same_text normalized (codes "application/pdf")

  abbrev pub is_docx : Text → Bool
  is_docx normalized = one_of normalized (
      codes "application/vnd.openxmlformats-officedocument.wordprocessingml.document"
      ∷ codes "application/msword"
      ∷ [])

  abbrev pub is_html : Text → Bool
  is_html normalized = one_of normalized (codes "text/html" ∷ codes "application/xhtml+xml" ∷ [])

  abbrev pub parse_local : Text → List ℕ → Fetched ParsedDocument
  parse_local normalized bytes =
      if is_pdf normalized
      then parse_pdf bytes
      else if is_docx normalized
      then parse_docx bytes
      else if is_html normalized
      then parse_html bytes
      else parse_plain bytes

  abbrev in_pool : Fetched ParsedDocument → Fetched ParsedDocument
  in_pool parsed =
      if services.pool_ready then parsed else raised (codes "Parser pool not initialized")

  unfoldable pub parse_document : Text → List ℕ → Text → Text → Fetched ParsedDocument
  unfolding same_text one_of strip_left strip_right until parse_unstructured
      parse_local_unstructured parse_pdf parse_docx parse_html parse_plain
  parse_document filename bytes mime_type parsing_strategy =
      if services.registry.frozen
      then (if same_text services.registry.parse_backend (codes "unstructured_api")
          then parse_unstructured filename bytes mime_type parsing_strategy
          else if same_text services.registry.parse_backend (codes "local_unstructured")
          then parse_local_unstructured filename bytes mime_type parsing_strategy
          else in_pool (parse_local (strip (until b';' (services.lower mime_type))) bytes))
      else raised (codes "Registry must be frozen before parsing")
