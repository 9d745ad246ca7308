-- ===== src/Startup/Ready.antt =====
-- What holds once app/core/startup.py has run.
use knowledgebase.Prelude.{
  ℕ, ◌≡◌, ◌⊎◌, inl, inr, refl, ap, subst, Bool, true, false, Option, none, some, [], ◌∷◌, ◌++◌, map,
  arith, In, ==_iff, ◌==◌, Bool-cases,
}
use knowledgebase.Prelude.Text.{Text, codes, same_text, same_text→eq, one_of}
use knowledgebase.Prelude.Attempt.{Fetched, got, raised, and_then}
use knowledgebase.Prelude.Table.{first, first-In, delete}
use knowledgebase.Startup.{
  ServiceRegistry, Collections, Probed, probe_qdrant, recreate, checked_collection, reached, closed,
  create_collection, init_chroma, created, storing, fallen_back, finished, stored_in, Started,
  run_startup_probes, has_name, freeze,
}

In-last : (c : Text × ℕ) (cs : Collections) → In c (cs ++ c ∷ [])
In-last c [] = inl refl
In-last c (d ∷ cs) = inr (In-last c cs)

module _ {F : Type 0} (probed : Probed F) where
  -- If the probe says that Qdrant is there, it has the collection with the dimension.
  abbrev IsPrepared : ℕ → Bool × Collections → Type 0
  IsPrepared dim (true, stored) = In {A = Text × ℕ} (probed.qdrant_collection, dim) stored
  IsPrepared dim (false, stored) = Unit

  create-IsPrepared :
      (dim : ℕ) (stored : Collections) → IsPrepared dim (create_collection probed dim stored)
  create-IsPrepared dim stored = from probed.qdrant_creates
    where
      from :
          (c : Fetched Unit)
          → IsPrepared dim (elim c as (λ _. Bool × Collections) [
            | raised e ↦ (false, stored)
            | got t ↦ (true, stored ++ (probed.qdrant_collection, dim) ∷ [])
          ])
      from (raised e) = tt
      from (got t) = In-last (probed.qdrant_collection, dim) stored

  recreate-IsPrepared :
      (dim : ℕ) (stored : Collections) → IsPrepared dim (recreate probed dim stored)
  unfolding recreate
  recreate-IsPrepared dim stored = from probed.qdrant_deletes
    where
      from :
          (c : Fetched Unit)
          → IsPrepared dim (elim c as (λ _. Bool × Collections) [
            | raised e ↦ (false, stored)
            | got t ↦
                create_collection probed dim (delete (has_name probed.qdrant_collection) stored)
          ])
      from (raised e) = tt
      from (got t) = create-IsPrepared dim (delete (has_name probed.qdrant_collection) stored)

  checked-IsPrepared :
      (dim : ℕ) (stored : Collections) (o : Option (Text × ℕ))
      → first (has_name probed.qdrant_collection) stored ≡ o
      → IsPrepared dim (checked_collection probed dim stored o)
  checked-IsPrepared dim stored none e = create-IsPrepared dim stored
  checked-IsPrepared dim stored (some (name, size)) e = elim (Bool-cases (size == dim)) [
    | inl b ↦
        let (there, named) = first-In (has_name probed.qdrant_collection) stored e in
        let same_size : size ≡ dim = ground (arith, ==_iff size dim) in
        let same_name = same_text→eq name probed.qdrant_collection named in
        rw (b, IsPrepared)
          (subst (λ n. In {A = Text × ℕ} (n, dim) stored) same_name
            (subst (λ m. In {A = Text × ℕ} (name, m) stored) same_size there))
    | inr b ↦ rw (b, IsPrepared) (recreate-IsPrepared dim stored)
  ]

  closed-IsPrepared :
      (dim : ℕ) (o : Bool × Collections) → IsPrepared dim o → IsPrepared dim (closed probed o)
  closed-IsPrepared dim (false, stored) h = tt
  closed-IsPrepared dim (true, stored) h = from probed.qdrant_closes
    where
      from :
          (c : Fetched Unit)
          → IsPrepared dim (elim c as (λ _. Bool × Collections) [
            | raised e ↦ (false, stored)
            | got t ↦ (true, stored)
          ])
      from (raised e) = tt
      from (got t) = h

  probe_qdrant-IsPrepared :
      (dim : ℕ) (stored : Collections) → IsPrepared dim (probe_qdrant probed dim stored)
  unfolding probe_qdrant
  probe_qdrant-IsPrepared dim stored = from probed.qdrant_url probed.qdrant_answers
    where
      from :
          (url : Text) (answers : Fetched Unit)
          → IsPrepared dim (elim url as (λ _. Bool × Collections) [
            | [] ↦ (false, stored)
            | ◌∷◌ c url ↦ closed probed (reached probed dim stored answers)
          ])
      from [] answers = tt
      from (c ∷ url) (raised e) = tt
      from (c ∷ url) (got t) = closed-IsPrepared dim _ (checked-IsPrepared dim stored _ refl)

  one_of-In :
      (name : Text) (stored : Collections)
      → one_of name (map (λ c. c.0) stored) ≡ true
      → (dim : ℕ) × In {A = Text × ℕ} (name, dim) stored
  unfolding one_of
  one_of-In name [] h = absurd (cc)
  one_of-In name ((other, dim) ∷ stored) h = elim (Bool-cases (same_text name other)) [
    | inl e ↦ let same = same_text→eq name other e in (dim, inl (ap (λ n. (n, dim)) same))
    | inr e ↦ let (d, m) = one_of-In name stored (rw e at h) in (d, inr m)
  ]

  -- The registry is frozen and asks for hybrid searches, and the vector store that it names has the collection, Qdrant with the dimension of the vectors.
  abbrev pub IsReady : Started probed → Type 0
  IsReady (registry, qdrant, chroma) =
      (registry.frozen ≡ true)
      × (registry.search_mode ≡ codes "hybrid")
      × (((registry.vector_backend ≡ codes "qdrant")
            × In {A = Text × ℕ} (probed.qdrant_collection, registry.embed_dimension) qdrant)
          ⊎ ((registry.vector_backend ≡ codes "chroma")
              × ((dim : ℕ) × In {A = Text × ℕ} (probed.qdrant_collection, dim) chroma)))

  -- What a step of the start gives, if it does not raise, is ready in the end.
  abbrev IsReadied : Fetched (Started probed) → Type 0
  IsReadied (raised e) = Unit
  IsReadied (got started) = IsReady started

  created-IsReadied :
      (registry : ServiceRegistry) (qdrant chroma : Collections) (c : Fetched Unit)
      → IsReadied (
          and_then
            (fallen_back probed registry qdrant (created probed registry.embed_dimension chroma c))
            (finished probed))
  unfolding freeze one_of same_text
  created-IsReadied registry qdrant chroma (raised e) = tt
  created-IsReadied registry qdrant chroma (got t) = (
    refl,
    refl,
    inr (
      refl,
      (
        registry.embed_dimension,
        In-last (probed.qdrant_collection, registry.embed_dimension) chroma,
      ),
    ),
  )

  chroma-IsReadied :
      (registry : ServiceRegistry) (qdrant chroma : Collections)
      → IsReadied (
          and_then
            (fallen_back probed registry qdrant
              (init_chroma probed registry.embed_dimension chroma))
            (finished probed))
  unfolding init_chroma freeze one_of same_text
  chroma-IsReadied registry qdrant chroma =
      elim (Bool-cases (one_of probed.qdrant_collection (map (λ c. c.0) chroma))) [
        | inl e ↦
            rw (e, IsReadied) (refl, refl, inr (refl, one_of-In probed.qdrant_collection chroma e))
        | inr e ↦ rw (e, IsReadied) (created-IsReadied registry qdrant chroma probed.chroma_creates)
      ]

  storing-IsReadied :
      (registry : ServiceRegistry) (chroma : Collections) (o : Bool × Collections)
      → IsPrepared registry.embed_dimension o
      → IsReadied (and_then (storing probed registry chroma o) (finished probed))
  unfolding freeze one_of same_text
  storing-IsReadied registry chroma (true, qdrant) h = (refl, refl, inl (refl, h))
  storing-IsReadied registry chroma (false, qdrant) h = chroma-IsReadied registry qdrant chroma

  embedded-IsReadied :
      (r : Fetched ServiceRegistry) (qdrant chroma : Collections)
      → IsReadied (and_then (and_then r (stored_in probed qdrant chroma)) (finished probed))
  embedded-IsReadied (raised e) qdrant chroma = tt
  embedded-IsReadied (got registry) qdrant chroma =
      storing-IsReadied registry chroma (probe_qdrant probed registry.embed_dimension qdrant)
        (probe_qdrant-IsPrepared registry.embed_dimension qdrant)

  -- Whatever the services answer, a start that is not ended by an exception has frozen the registry, with hybrid as its search mode: the mode fts_only, in which
  -- searches are lexical, is never reached. The vector store that it names has the collection, and Qdrant has it with the dimension of the embeddings.
  pub run_startup_probes-IsReady :
      (qdrant chroma : Collections) (started : Started probed)
      → run_startup_probes probed qdrant chroma ≡ got started
      → IsReady started
  unfolding run_startup_probes
  run_startup_probes-IsReady qdrant chroma started h =
      subst IsReadied h (embedded-IsReadied _ qdrant chroma)
