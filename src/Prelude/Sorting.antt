-- ===== src/Prelude/Sorting.antt =====
-- What `sorted(…, reverse=True)` keeps and in which order it puts it.
use Prim.Native.Nat.{ℕ, zero, suc}
use mathlib.Core.Path.{◌≡◌}
use mathlib.Core.Logic.{◌⊎◌, inl, inr}
use mathlib.Core.Bool.{Bool, true, false}
use mathlib.Core.List.{List, [], ◌∷◌}
use knowledgebase.Prelude.Tests.{Bool-cases}
use knowledgebase.Prelude.Lists.{All, All-mono, All-take, All-in, In, take}
use knowledgebase.Prelude.Dict.{insert_sorted, sort_desc}

module _ {A : Type 0} (P : A → Type 0) (at_least : A → A → Bool) where
  pub All-insert_sorted :
      (x : A) (xs : List A) → P x → All P xs → All P (insert_sorted at_least x xs)
  unfolding insert_sorted
  All-insert_sorted x [] h k = (h, tt)
  All-insert_sorted x (y ∷ ys) h k = elim (Bool-cases (at_least x y)) [
    | inl e ↦ rw e (h, k)
    | inr e ↦ rw e (k.0, All-insert_sorted x ys h k.1)
  ]

  pub All-sort_desc : (xs : List A) → All P xs → All P (sort_desc at_least xs)
  unfolding sort_desc
  All-sort_desc [] h = tt
  All-sort_desc (x ∷ xs) h = All-insert_sorted x (sort_desc at_least xs) h.0 (All-sort_desc xs h.1)

-- A test that orders all elements.
abbrev pub IsOrder : {A : Type 0} → (A → A → Bool) → Type 0
IsOrder {A = A} at_least =
    ((x y : A) → at_least x y ≡ false → at_least y x ≡ true)
    × ((x y z : A) → at_least x y ≡ true → at_least y z ≡ true → at_least x z ≡ true)

-- No element stands after one that is below it.
abbrev pub Sorted : {A : Type 0} → (A → A → Bool) → List A → Type 0
Sorted at_least [] = Unit
Sorted at_least (x ∷ xs) = All (λ y. at_least x y ≡ true) xs × Sorted at_least xs

module _ {A : Type 0} (at_least : A → A → Bool) where
  insert_sorted-Sorted :
      (x : A) (xs : List A)
      → IsOrder at_least
      → Sorted at_least xs
      → Sorted at_least (insert_sorted at_least x xs)
  unfolding insert_sorted
  insert_sorted-Sorted x [] laws h = (tt, tt)
  insert_sorted-Sorted x (y ∷ ys) laws h = elim (Bool-cases (at_least x y)) [
    | inl e ↦
        rw (e, Sorted)
          (
            (
              e,
              All-mono (λ z. at_least y z ≡ true) (λ z. at_least x z ≡ true) ys
                  (λ z k. laws.1 x y z e k) h.0,
            ),
            h,
          )
    | inr e ↦
        rw (e, Sorted)
          (
            All-insert_sorted (λ z. at_least y z ≡ true) at_least x ys (laws.0 x y e) h.0,
            insert_sorted-Sorted x ys laws h.1,
          )
  ]

  pub sort_desc-Sorted : (xs : List A) → IsOrder at_least → Sorted at_least (sort_desc at_least xs)
  unfolding sort_desc
  sort_desc-Sorted [] laws = tt
  sort_desc-Sorted (x ∷ xs) laws =
      insert_sorted-Sorted x (sort_desc at_least xs) laws (sort_desc-Sorted xs laws)

  In-insert_sorted :
      (x y : A) (xs : List A) → (y ≡ x) ⊎ In y xs → In y (insert_sorted at_least x xs)
  unfolding insert_sorted
  In-insert_sorted x y [] h = h
  In-insert_sorted x y (z ∷ zs) h = elim (Bool-cases (at_least x z)) [
    | inl e ↦ rw e h
    | inr e ↦ rw e (elim h [
      | inl q ↦ inr (In-insert_sorted x y zs (inl q))
      | inr m ↦ elim m [ inl q ↦ inl q | inr n ↦ inr (In-insert_sorted x y zs (inr n)) ]
    ])
  ]

  pub In-sort_desc : (y : A) (xs : List A) → In y xs → In y (sort_desc at_least xs)
  unfolding sort_desc
  In-sort_desc y [] h = h
  In-sort_desc y (x ∷ xs) (inl e) = In-insert_sorted x y (sort_desc at_least xs) (inl e)
  In-sort_desc y (x ∷ xs) (inr m) =
      In-insert_sorted x y (sort_desc at_least xs) (inr (In-sort_desc y xs m))

  pub Sorted-take : (n : ℕ) (xs : List A) → Sorted at_least xs → Sorted at_least (take n xs)
  Sorted-take zero xs h = tt
  Sorted-take (suc n) [] h = tt
  Sorted-take (suc n) (x ∷ xs) h =
      (All-take (λ y. at_least x y ≡ true) n xs h.0, Sorted-take n xs h.1)

  -- An element is among the first of a sorted list, or none of these is below it.
  pub Sorted-top :
      (n : ℕ) (xs : List A) (y : A)
      → Sorted at_least xs
      → In y xs
      → In y (take n xs) ⊎ All (λ x. at_least x y ≡ true) (take n xs)
  Sorted-top zero xs y h m = inr tt
  Sorted-top (suc n) [] y h m = absurd m
  Sorted-top (suc n) (x ∷ xs) y h (inl e) = inl (inl e)
  Sorted-top (suc n) (x ∷ xs) y h (inr m) = elim (Sorted-top n xs y h.1 m) [
    | inl k ↦ inl (inr k)
    | inr k ↦ inr (All-in (λ z. at_least x z ≡ true) xs y h.0 m, k)
  ]
