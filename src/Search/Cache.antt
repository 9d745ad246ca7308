-- ===== src/Search/Cache.antt =====
-- What the cache of app/search/engine.py returns and how large it grows.
use knowledgebase.Prelude.{
  ℕ, zero, suc, ◌+◌, ◌≤◌, ◌<◌, ◌≡◌, inl, inr, refl, sym, ap, ◌∙◌, subst, Bool, true, false, Option,
  none, some, List, [], ◌∷◌, ◌++◌, arith, length, length-append, ltb, leb, Bool-cases, In,
}
use knowledgebase.Prelude.Text.{Text, same_text_refl}
use knowledgebase.Prelude.Table.{
  first, delete, update, exists, first_by, first_by-In, length-update,
}
use knowledgebase.Models.{Time}
use knowledgebase.Search.{
  Entry, has_key, cache_get, put_entry, make_room, cache_set, search, without, put_into,
}

module _ {A : Type 0} where
  length-delete_le : (p : A → Bool) (xs : List A) → length (delete p xs) ≤ length xs
  unfolding delete
  length-delete_le p [] = omega arith
  length-delete_le p (x ∷ xs) =
      let rest = length-delete_le p xs in
      elim (Bool-cases (p x)) [ inl e ↦ rw e (omega arith) | inr e ↦ rw e (omega arith) ]

  -- Deleting a row that is there makes the table shorter.
  length-delete_lt :
      (p : A → Bool) (xs : List A) (y : A) → In y xs → p y ≡ true → length (delete p xs) < length xs
  unfolding delete
  length-delete_lt p [] y m h = absurd m
  length-delete_lt p (x ∷ xs) y (inl e) h =
      let rest = length-delete_le p xs in rw (sym e, h) (omega arith)
  length-delete_lt p (x ∷ xs) y (inr m) h =
      let rest = length-delete_lt p xs y m h in
      elim (Bool-cases (p x)) [ inl e ↦ rw e (omega arith) | inr e ↦ rw e (omega arith) ]

module _ {R : Type 0} (ttl max_entries : ℕ) where
  put_entry-le :
      (k : Text) (now : Time) (r : R) (cache : List (Entry R))
      → length (put_entry ttl max_entries k now r cache) ≤ length cache + 1
  unfolding put_entry
  put_entry-le k now r cache = elim (Bool-cases (exists (has_key ttl max_entries k) cache)) [
    | inl e ↦ rw e (
        omega (
          arith,
          length-update (has_key ttl max_entries k)
              (λ (e : Entry R). record e { stored_at = now; response = r }) cache,
        ))
    | inr e ↦ rw (e, length-append) (omega arith)
  ]

  make_room-lt :
      (cache room : List (Entry R))
      → 1 ≤ max_entries
      → length cache ≤ max_entries
      → make_room ttl max_entries cache ≡ some room
      → length room < max_entries
  unfolding make_room
  make_room-lt cache room pos h e = elim (Bool-cases (leb max_entries (length cache))) [
    | inr f ↦
        let same : cache ≡ room = ground (arith, rw f at e) in
        subst (λ c. length c < max_entries) same (ground arith)
    | inl f ↦ from (first_by (λ x. x.stored_at) cache) refl (rw f at e)
  ]
    where
      from :
          (oldest : Option (Entry R))
          → first_by (λ x. x.stored_at) cache ≡ oldest
          → without ttl max_entries oldest cache ≡ some room
          → length room < max_entries
      from none o e = absurd (cc)
      from (some oldest) o e =
          let shorter =
            length-delete_lt (has_key ttl max_entries oldest.key) cache oldest
              (first_by-In _ cache o) (same_text_refl oldest.key) in
          let same : delete (has_key ttl max_entries oldest.key) cache ≡ room = ground arith in
          subst (λ c. length c < max_entries) same (omega (arith, shorter))

module _ {A : Type 0} where
  first_updated :
      (p : A → Bool) (f : A → A) (xs : List A)
      → ((x : A) → p x ≡ true → p (f x) ≡ true)
      → exists p xs ≡ true
      → (x : A) × (first p (update p f xs) ≡ some (f x))
  unfolding first update exists
  first_updated p f [] keep h = absurd (cc)
  first_updated p f (x ∷ xs) keep h = elim (Bool-cases (p x)) [
    | inl e ↦ (x, rw (e, keep x e) refl)
    | inr e ↦ let (y, found) = first_updated p f xs keep (rw e at h) in (y, rw (e, e) found)
  ]

  first_appended :
      (p : A → Bool) (xs : List A) (y : A)
      → exists p xs ≡ false
      → p y ≡ true
      → first p (xs ++ y ∷ []) ≡ some y
  unfolding first exists
  first_appended p [] y h e = rw e refl
  first_appended p (x ∷ xs) y h e = elim (Bool-cases (p x)) [
    | inl b ↦ absurd (ground arith)
    | inr b ↦ rw b (first_appended p xs y (rw b at h) e)
  ]

module _ {R : Type 0} (ttl max_entries : ℕ) where
  -- An entry that is fresh is the answer to its query.
  hit :
      (k : Text) (response : Option R) (now done : Time) (cache : List (Entry R)) (e : Entry R)
      → 1 ≤ ttl
      → first (has_key ttl max_entries k) cache ≡ some e
      → ltb now (e.stored_at + ttl) ≡ true
      → search ttl max_entries k response now done cache ≡ some (e.response, cache)
  unfolding search cache_get
  hit k response now done cache e pos found fresh = from ttl refl pos
    where
      from :
          (t : ℕ)
          → t ≡ ttl
          → 1 ≤ t
          → search ttl max_entries k response now done cache ≡ some (e.response, cache)
      from zero s p = absurd (omega arith)
      from (suc n) s p = rw (sym s, found, (rw (sym s) at fresh)) refl

  -- The entry that was just written is found.
  put_entry-first :
      (k : Text) (now : Time) (r : R) (cache : List (Entry R))
      → (e : Entry R) × (first (has_key ttl max_entries k) (put_entry ttl max_entries k now r cache)
          ≡ some e)
        × (e.response ≡ r)
        × (e.stored_at ≡ now)
  unfolding put_entry
  put_entry-first k now r cache = elim (Bool-cases (exists (has_key ttl max_entries k) cache)) [
    | inl e ↦
        let (x, found) =
          first_updated (has_key ttl max_entries k)
            (λ (y : Entry R). record y { stored_at = now; response = r }) cache (λ y h. h) e in
        (record x { stored_at = now; response = r }, rw e found, refl, refl)
    | inr e ↦ (
      record { key = k; stored_at = now; response = r },
      rw e (first_appended (has_key ttl max_entries k) cache _ e (same_text_refl k)),
      refl,
      refl,
    )
  ]

  abbrev finish : Option R → Text → Time → List (Entry R) → Option (R × List (Entry R))
  finish none k done cache = none
  finish (some r) k done cache =
      elim (put_into ttl max_entries k done r (make_room ttl max_entries cache)) [
        | none ↦ none
        | some after ↦ some (r, after)
      ]

  -- A search that is not in the cache stores its result, once room is made.
  miss :
      (k : Text) (response : Option R) (now done : Time) (cache : List (Entry R))
      → 1 ≤ ttl
      → first (has_key ttl max_entries k) cache ≡ none
      → search ttl max_entries k response now done cache ≡ finish response k done cache
  unfolding search cache_get cache_set
  miss k response now done cache pos absent = from ttl refl pos response
    where
      from :
          (t : ℕ)
          → t ≡ ttl
          → 1 ≤ t
          → (o : Option R) → search ttl max_entries k o now done cache ≡ finish o k done cache
      from zero s p o = absurd (omega arith)
      from (suc n) s p none = rw (sym s, absent) refl
      from (suc n) s p (some r) = rw (sym s, absent) refl

  stored :
      (k : Text) (response : Option R) (now done : Time) (cache after : List (Entry R)) (r : R)
      → 1 ≤ ttl
      → first (has_key ttl max_entries k) cache ≡ none
      → search ttl max_entries k response now done cache ≡ some (r, after)
      → (room : List (Entry R)) × (make_room ttl max_entries cache ≡ some room)
        × (put_entry ttl max_entries k done r room ≡ after)
  stored k response now done cache after r pos absent h =
      from response (make_room ttl max_entries cache) refl
        (sym (miss k response now done cache pos absent) ∙ h)
    where
      from :
          (x : Option R) (o : Option (List (Entry R)))
          → make_room ttl max_entries cache ≡ o
          → finish x k done cache ≡ some (r, after)
          → (room : List (Entry R)) × (make_room ttl max_entries cache ≡ some room)
            × (put_entry ttl max_entries k done r room ≡ after)
      from none o e h = absurd (cc)
      from (some x) none e h = absurd (let g = rw (e, finish) at h in cc)
      from (some x) (some room) e h =
          let g = rw (e, finish) at h in
          let same : x ≡ r = ground arith in (room, e, rw (sym same) (ground arith))

  -- A search whose key is not in the cache stores its result, and until that is older than the limit the next search with the
  -- same key gets it again, whatever it would find itself by then.
  pub search_again :
      (k : Text) (response other : Option R) (now done later finished : Time)
      (cache after : List (Entry R)) (r : R)
      → 1 ≤ ttl
      → first (has_key ttl max_entries k) cache ≡ none
      → search ttl max_entries k response now done cache ≡ some (r, after)
      → ltb later (done + ttl) ≡ true
      → search ttl max_entries k other later finished after ≡ some (r, after)
  search_again k response other now done later finished cache after r pos absent h soon =
      let (room, made, written) = stored k response now done cache after r pos absent h in
      let (e, found, same, at_time) = put_entry-first k done r room in
      subst (λ c. search ttl max_entries k other later finished c ≡ some (r, c)) written
        (hit k other later finished _ e pos found (rw at_time soon)
          ∙ ap (λ x. some (x, put_entry ttl max_entries k done r room)) same)

  -- A search whose key is not in the cache leaves at most as many entries as the limit allows, if there were no more
  -- before and the limit is not 0.
  pub search_bounded :
      (k : Text) (response : Option R) (now done : Time) (cache after : List (Entry R)) (r : R)
      → 1 ≤ ttl
      → 1 ≤ max_entries
      → first (has_key ttl max_entries k) cache ≡ none
      → length cache ≤ max_entries
      → search ttl max_entries k response now done cache ≡ some (r, after)
      → length after ≤ max_entries
  search_bounded k response now done cache after r pos room_for absent small h =
      let (room, made, written) = stored k response now done cache after r pos absent h in
      subst (λ (c : List (Entry R)). length c ≤ max_entries) written
        (omega (
          arith,
          make_room-lt ttl max_entries cache room room_for small made,
          put_entry-le ttl max_entries k done r room,
        ))
