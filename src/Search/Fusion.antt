-- ===== src/Search/Fusion.antt =====
-- The scores of the hybrid search of app/search/engine.py, against a score that is computed for each id alone.
use knowledgebase.Prelude.{
  ◌≡◌, ◌⊎◌, refl, ap, ◌∙◌, true, false, Option, none, some, List, [], ◌∷◌, arith, ==_iff, ◌==◌,
  if◌then◌else◌, Bool-cases, inl, inr,
}
use knowledgebase.Prelude.Dict.{
  Dict, dict_get, dict_set, dict_get-dict_set, dict_get-dict_set_other,
}
use knowledgebase.Models.{Uuid}
use knowledgebase.Search.Engine.{SearchServices, Hit, Row, add_hits, add_rows, fuse, or_nought}

module _ {S V F : Type 0} (services : SearchServices S V F) (id : Uuid) where
  -- The weighted score of the last hit of the id.
  abbrev vector_part : List (Hit S) → Option S → Option S
  vector_part [] so_far = so_far
  vector_part (h ∷ hits) so_far =
      vector_part hits
        (if h.point_id == id then some (services.scores.vector_weighted h.score) else so_far)

  -- The weighted ranks of the rows of the id, added to what there is.
  abbrev with_ranks : List (Row × S) → Option S → Option S
  with_ranks [] so_far = so_far
  with_ranks ((row, rank) ∷ rows) so_far = with_ranks rows (
      if row.0.id == id
      then some
          (services.scores.plus (or_nought services so_far) (services.scores.lexical_weighted rank))
      else so_far)

  add_hits_lem :
      (hits : List (Hit S)) (scores : Dict S)
      → dict_get id (add_hits services hits scores) ≡ vector_part hits (dict_get id scores)
  unfolding add_hits
  add_hits_lem [] scores = refl
  add_hits_lem (h ∷ hits) scores =
      add_hits_lem hits (dict_set h.point_id (services.scores.vector_weighted h.score) scores)
      ∙ ap (vector_part hits) (one (Bool-cases (h.point_id == id)))
    where
      one :
          (h.point_id == id ≡ true) ⊎ (h.point_id == id ≡ false)
          → dict_get id (dict_set h.point_id (services.scores.vector_weighted h.score) scores) ≡ (
              if h.point_id == id
              then some (services.scores.vector_weighted h.score)
              else dict_get id scores)
      one (inl e) =
          let same : h.point_id ≡ id = ground (arith, ==_iff h.point_id id) in
          rw (e, same) (dict_get-dict_set id _ scores)
      one (inr e) = rw e (dict_get-dict_set_other id h.point_id _ scores e)

  add_rows_lem :
      (rows : List (Row × S)) (scores : Dict S)
      → dict_get id (add_rows services rows scores) ≡ with_ranks rows (dict_get id scores)
  unfolding add_rows
  add_rows_lem [] scores = refl
  add_rows_lem ((row, rank) ∷ rows) scores =
      add_rows_lem rows _ ∙ ap (with_ranks rows) (one (Bool-cases (row.0.id == id)))
    where
      one :
          (row.0.id == id ≡ true) ⊎ (row.0.id == id ≡ false)
          → dict_get id (
              dict_set row.0.id
                (services.scores.plus
                  (or_nought services (dict_get row.0.id scores))
                  (services.scores.lexical_weighted rank))
                scores)
            ≡ (if row.0.id == id
                then some (
                    services.scores.plus
                      (or_nought services (dict_get id scores))
                      (services.scores.lexical_weighted rank))
                else dict_get id scores)
      one (inl e) =
          let same : row.0.id ≡ id = ground (arith, ==_iff row.0.id id) in
          rw (e, same) (dict_get-dict_set id _ scores)
      one (inr e) = rw e (dict_get-dict_set_other id row.0.id _ scores e)

module _ {S V F : Type 0} (services : SearchServices S V F) where
  -- The score of an id in the dict of the hybrid search is the weighted score of its last hit, with the weighted rank of each of its rows added
  -- to it in turn, or to nought where it has no hit; an id without hit and row has no score. It does not depend on the
  -- hits and the rows of other ids.
  pub fuse_lem :
      (id : Uuid) (hits : List (Hit S)) (rows : List (Row × S))
      → dict_get id (fuse services hits rows)
        ≡ with_ranks services id rows (vector_part services id hits none)
  unfolding dict_get
  fuse_lem id hits rows =
      add_rows_lem services id rows (add_hits services hits [])
      ∙ ap (with_ranks services id rows) (add_hits_lem services id hits [])
