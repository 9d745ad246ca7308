-- ===== src/Parsing/Parsed.antt =====
-- What the documents of app/parsers hold, whichever parser made them.
use knowledgebase.Prelude.{
  ℕ, suc, ◌≡◌, ◌≢◌, refl, subst, Option, none, some, List, [], ◌∷◌, ◌++◌, map, length, All, All-in,
  ◌⊎◌, Bool-cases, inl, inr, ◌==◌,
}
use knowledgebase.Prelude.Text.{Text, codes, strip, same_text, until}
use knowledgebase.Prelude.Attempt.{Fetched, got, raised, and_then}
use knowledgebase.Prelude.Table.{All-order_asc}
use knowledgebase.Prelude.Dict.{Dict, dict_get, dict_set, dict_get-In}
use knowledgebase.Chunker.{Page, ParsedDocument}
use knowledgebase.Parsing.{
  Element, ParserServices, document, parse_plain, parse_html, parse_docx, parse_pdf,
  parse_unstructured, parse_local_unstructured, parse_local, parse_document, pdf_pages, kept_page,
  page_texts, page_of, with_element, elements_to_document, or_none, known_strategy, is_pdf, is_docx,
  is_html, lines, stripped,
}

module _ (services : ParserServices) where
  -- The length and the digest are those of the text, and no page is empty.
  abbrev pub IsParsed : ParsedDocument → Type 0
  IsParsed doc =
      (doc.char_count ≡ length doc.raw_text)
      × (doc.checksum ≡ services.sha256 doc.raw_text)
      × All (λ (p : Page). p.text ≢ []) doc.pages

  pdf_pages-All :
      (n : ℕ) (texts : List Text) → All (λ (p : Page). p.text ≢ []) (pdf_pages services n texts)
  unfolding pdf_pages
  pdf_pages-All n [] = tt
  pdf_pages-All n (t ∷ texts) = from (strip t) (pdf_pages-All (suc n) texts)
    where
      from :
          (s : Text)
          → All (λ (p : Page). p.text ≢ []) (pdf_pages services (suc n) texts)
          → All
              (λ (p : Page). p.text ≢ [])
              (kept_page services n s (pdf_pages services (suc n) texts))
      from [] h = h
      from (c ∷ s) h = ((λ e. cc), h)

  -- There is a first text, and it is not empty.
  abbrev IsFilled : List Text → Type 0
  IsFilled [] = ⊥
  IsFilled (t ∷ texts) = t ≢ []

  filled_page :
      (n : ℕ) (texts : List Text) → IsFilled texts → (page_of services (n, texts)).text ≢ []
  filled_page n [] h = absurd h
  filled_page n (t ∷ []) h = h
  filled_page n ([] ∷ u ∷ texts) h = absurd (h refl)
  filled_page n ((c ∷ t) ∷ u ∷ texts) h = λ e. cc

  filled_pages :
      (entries : Dict (List Text))
      → All (λ e. IsFilled e.1) entries
      → All (λ (p : Page). p.text ≢ []) (map (page_of services) entries)
  filled_pages [] h = tt
  filled_pages ((n, texts) ∷ entries) h = (filled_page n texts h.0, filled_pages entries h.1)

  dict_set-IsFilled :
      (k : ℕ) (v : List Text) (d : Dict (List Text))
      → IsFilled v
      → All (λ e. IsFilled e.1) d
      → All (λ e. IsFilled e.1) (dict_set k v d)
  unfolding dict_set
  dict_set-IsFilled k v [] h r = (h, tt)
  dict_set-IsFilled k v ((l, s) ∷ d) h r = elim (Bool-cases (l == k)) [
    | inl e ↦ rw e (h, r.1)
    | inr e ↦ rw e (r.0, dict_set-IsFilled k v d h r.1)
  ]

  added :
      (texts : List Text) (c : ℕ) (s : Text)
      → (texts ≡ []) ⊎ IsFilled texts
      → IsFilled (texts ++ (c ∷ s) ∷ [])
  added [] c s h = λ e. cc
  added (u ∷ texts) c s (inl e) = absurd (cc)
  added (u ∷ texts) c s (inr h) = h

  before_page :
      (n : ℕ) (pages : Dict (List Text)) (o : Option (List Text))
      → dict_get n pages ≡ o
      → All (λ e. IsFilled e.1) pages
      → (or_none services o ≡ []) ⊎ IsFilled (or_none services o)
  before_page n pages none e h = inl refl
  before_page n pages (some texts) e h =
      inr (All-in (λ x. IsFilled x.1) pages (n, texts) h (dict_get-In n pages texts e))

  with_element-IsFilled :
      (page_number : Option ℕ) (s : Text) (pages : Dict (List Text))
      → All (λ e. IsFilled e.1) pages
      → All (λ e. IsFilled e.1) (with_element services page_number s pages)
  with_element-IsFilled page_number [] pages h = h
  with_element-IsFilled none (c ∷ s) pages h = h
  with_element-IsFilled (some n) (c ∷ s) pages h =
      dict_set-IsFilled n _ pages
        (added (or_none services (dict_get n pages)) c s (before_page n pages _ refl h)) h

  page_texts-IsFilled :
      (elements : List Element) (pages : Dict (List Text))
      → All (λ e. IsFilled e.1) pages
      → All (λ e. IsFilled e.1) (page_texts services elements pages)
  unfolding page_texts
  page_texts-IsFilled [] pages h = h
  page_texts-IsFilled (el ∷ elements) pages h =
      page_texts-IsFilled elements _ (with_element-IsFilled el.page_number (strip el.text) pages h)

  elements-IsParsed :
      (elements : List Element) (parse_mode : Text)
      → IsParsed (elements_to_document services elements parse_mode)
  unfolding elements_to_document
  elements-IsParsed elements parse_mode = (
    refl,
    refl,
    filled_pages _
        (All-order_asc (λ e. IsFilled e.1) (λ e. e.0) _ (page_texts-IsFilled elements [] tt)),
  )

  -- What a parser gives, unless it raises.
  abbrev Gives : Fetched ParsedDocument → Type 0
  Gives (got doc) = IsParsed doc
  Gives (raised e) = Unit

  then-Gives :
      {A : Type 0} (x : Fetched A) (f : A → ParsedDocument)
      → ((a : A) → IsParsed (f a))
      → Gives (and_then x (λ a. got (f a)))
  then-Gives (got a) f h = h a
  then-Gives (raised e) f h = tt

  parse_pdf-Gives : (bytes : List ℕ) → Gives (parse_pdf services bytes)
  unfolding parse_pdf
  parse_pdf-Gives bytes =
      then-Gives (services.pdf_texts bytes)
        (λ texts.
          document services (lines services (stripped services texts)) (pdf_pages services 1 texts)
            (codes "pymupdf"))
        (λ texts. (refl, refl, pdf_pages-All 1 texts))

  parse_docx-Gives : (bytes : List ℕ) → Gives (parse_docx services bytes)
  unfolding parse_docx
  parse_docx-Gives bytes =
      then-Gives (services.docx_paragraphs bytes)
        (λ paragraphs.
          document services (lines services (stripped services paragraphs)) []
            (codes "python_docx"))
        (λ paragraphs. (refl, refl, tt))

  parse_html-Gives : (bytes : List ℕ) → Gives (parse_html services bytes)
  unfolding parse_html
  parse_html-Gives bytes =
      then-Gives _ (λ raw_text. document services raw_text [] (codes "beautifulsoup4"))
        (λ raw_text. (refl, refl, tt))

  parse_plain-Gives : (bytes : List ℕ) → Gives (parse_plain services bytes)
  unfolding parse_plain
  parse_plain-Gives bytes = (refl, refl, tt)

  parse_unstructured-Gives :
      (filename : Text) (bytes : List ℕ) (mime_type strategy : Text)
      → Gives (parse_unstructured services filename bytes mime_type strategy)
        × Gives (parse_local_unstructured services filename bytes mime_type strategy)
  unfolding parse_unstructured parse_local_unstructured
  parse_unstructured-Gives filename bytes mime_type strategy = (
    then-Gives
        (services.unstructured_api filename bytes mime_type (known_strategy services strategy))
        (λ elements. elements_to_document services elements (codes "unstructured_api"))
        (λ elements. elements-IsParsed elements (codes "unstructured_api")),
    then-Gives
        (services.unstructured_local filename bytes mime_type (known_strategy services strategy))
        (λ elements. elements_to_document services elements (codes "local_unstructured"))
        (λ elements. elements-IsParsed elements (codes "local_unstructured")),
  )

  parse_local-Gives :
      (normalized : Text) (bytes : List ℕ) → Gives (parse_local services normalized bytes)
  parse_local-Gives normalized bytes = elim (Bool-cases (is_pdf services normalized)) [
    | inl e ↦ rw e (parse_pdf-Gives bytes)
    | inr e ↦ elim (Bool-cases (is_docx services normalized)) [
      | inl f ↦ rw (e, f) (parse_docx-Gives bytes)
      | inr f ↦ elim (Bool-cases (is_html services normalized)) [
        | inl g ↦ rw (e, f, g) (parse_html-Gives bytes)
        | inr g ↦ rw (e, f, g) (parse_plain-Gives bytes)
      ]
    ]
  ]

  parse_document-Gives :
      (filename : Text) (bytes : List ℕ) (mime_type parsing_strategy : Text)
      → Gives (parse_document services filename bytes mime_type parsing_strategy)
  unfolding parse_document
  parse_document-Gives filename bytes mime_type parsing_strategy =
      let (api, local) = parse_unstructured-Gives filename bytes mime_type parsing_strategy in
      let parsed = parse_local-Gives (strip (until b';' (services.lower mime_type))) bytes in
      elim (Bool-cases services.registry.frozen) [
        | inr e ↦ rw e tt
        | inl e ↦
            elim (Bool-cases
              (same_text services.registry.parse_backend (codes "unstructured_api"))) [
                | inl f ↦ rw (e, f) api
                | inr f ↦
                    elim (Bool-cases
                      (same_text services.registry.parse_backend (codes "local_unstructured"))) [
                        | inl g ↦ rw (e, f, g) local
                        | inr g ↦ elim (Bool-cases services.pool_ready) [
                          | inl i ↦ rw (e, f, g, i) parsed
                          | inr i ↦ rw (e, f, g, i) tt
                        ]
                      ]
              ]
      ]

  -- Whichever parser the router chooses, a document that it gives has the length and the digest of its text, and no empty page.
  pub parse_document-IsParsed :
      (filename : Text) (bytes : List ℕ) (mime_type parsing_strategy : Text) (doc : ParsedDocument)
      → parse_document services filename bytes mime_type parsing_strategy ≡ got doc
      → IsParsed doc
  parse_document-IsParsed filename bytes mime_type parsing_strategy doc h =
      subst Gives h (parse_document-Gives filename bytes mime_type parsing_strategy)
