-- ===== src/Parsing/Examples.antt =====
-- A PDF file with a blank page, and elements of Unstructured of which one has no page.
use knowledgebase.Prelude.{◌≡◌, refl, true, none, some, List, [], ◌∷◌, length}
use knowledgebase.Prelude.Text.{codes}
use knowledgebase.Prelude.Attempt.{got, raised}
use knowledgebase.Chunker.{ParsedDocument}
use knowledgebase.Startup.{new_registry}
use knowledgebase.Parsing.{ParserServices, Element, parse_document, elements_to_document}
use knowledgebase.Parsing.Parsed.{IsParsed, parse_document-IsParsed}

abbrev services : ParserServices
services = record {
  registry = record new_registry { frozen = true };
  pool_ready = true;
  lower = λ s. s;
  sha256 = λ s. length s;
  decode = λ bytes. bytes;
  pdf_texts = λ bytes. got (codes " one " ∷ codes "  " ∷ codes "three" ∷ []);
  docx_paragraphs = λ bytes. got [];
  html_text = λ tags bytes. got [];
  unstructured_api = λ name bytes mime strategy. raised (codes "no service");
  unstructured_local = λ name bytes mime strategy. raised (codes "no service");
}

abbrev parsed : ParsedDocument
parsed = record {
  raw_text = codes "one\nthree";
  pages =
      record { page_number = 1; text = codes "one" }
      ∷ record { page_number = 3; text = codes "three" }
      ∷ [];
  parse_mode = codes "pymupdf";
  char_count = 9;
  checksum = 9;
}

ran :
    parse_document services (codes "a.pdf") [] (codes "application/pdf; v=1") (codes "fast")
    ≡ got parsed
unfolding parse_document
ran = refl

parse_document-IsParsed_example : IsParsed services parsed
parse_document-IsParsed_example =
    parse_document-IsParsed services (codes "a.pdf") [] (codes "application/pdf; v=1")
      (codes "fast") parsed ran

abbrev elements : List Element
elements =
    record { text = codes "on page 2"; page_number = some 2 }
    ∷ record { text = codes "on no page"; page_number = none }
    ∷ []

-- The text without a page is in the raw text, but on no page.
pageless_text_lost :
    (elements_to_document services elements (codes "unstructured_api")).pages
    ≡ record { page_number = 2; text = codes "on page 2" } ∷ []
unfolding elements_to_document
pageless_text_lost = refl
