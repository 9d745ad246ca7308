-- ===== src/Prelude/Dict.antt =====
-- Python dicts whose keys are ids, as the list of their entries in the order of insertion, and `sorted(…, reverse=True)`.
use Prim.Native.Nat.{ℕ}
use mathlib.Core.Bool.{Bool, false}
use mathlib.Core.Option.{Option, none, some}
use mathlib.Core.List.{List, [], ◌∷◌}
use mathlib.Core.Path.{◌≡◌, refl, ap}
use mathlib.Core.Logic.{inl, inr}
use native.Mathlib.Omega.{arith}
use knowledgebase.Prelude.Lists.{In}
use knowledgebase.Prelude.Tests.{◌==◌, ==_refl, if◌then◌else◌, Bool-cases}

abbrev pub Dict : Type 0 → Type 0
Dict S = List (ℕ × S)

module _ {S : Type 0} where
  unfoldable pub dict_get : ℕ → Dict S → Option S
  dict_get k [] = none
  dict_get k ((l, s) ∷ d) = let rest = dict_get k d in if l == k then some s else rest

  unfoldable pub dict_set : ℕ → S → Dict S → Dict S
  dict_set k v [] = (k, v) ∷ []
  dict_set k v ((l, s) ∷ d) =
      let rest = dict_set k v d in if l == k then (l, v) ∷ d else (l, s) ∷ rest

module _ {A : Type 0} where
  -- `at_least x y` says that x may stand before y.
  unfoldable pub insert_sorted : (A → A → Bool) → A → List A → List A
  insert_sorted at_least x [] = x ∷ []
  insert_sorted at_least x (y ∷ ys) =
      let rest = insert_sorted at_least x ys in if at_least x y then x ∷ y ∷ ys else y ∷ rest

  -- Where neither of two is below the other they keep their order.
  unfoldable pub sort_desc : (A → A → Bool) → List A → List A
  unfolding insert_sorted
  sort_desc at_least [] = []
  sort_desc at_least (x ∷ xs) = insert_sorted at_least x (sort_desc at_least xs)

module _ {S : Type 0} where
  pub dict_get-dict_set : (k : ℕ) (v : S) (d : Dict S) → dict_get k (dict_set k v d) ≡ some v
  unfolding dict_get dict_set
  dict_get-dict_set k v [] = rw (==_refl k) refl
  dict_get-dict_set k v ((l, s) ∷ d) = elim (Bool-cases (l == k)) [
    | inl e ↦ rw (e, dict_get, e) refl
    | inr e ↦ rw (e, dict_get, e) (dict_get-dict_set k v d)
  ]

  pub dict_get-dict_set_other :
      (k l : ℕ) (v : S) (d : Dict S) → (l == k) ≡ false → dict_get k (dict_set l v d) ≡ dict_get k d
  unfolding dict_get dict_set
  dict_get-dict_set_other k l v [] h = rw h refl
  dict_get-dict_set_other k l v ((m, s) ∷ d) h = elim (Bool-cases (m == l)) [
    | inl e ↦ let other : (m == k) ≡ false = ground (arith, h, e) in rw (e, dict_get, other) refl
    | inr e ↦
        rw (e, dict_get)
          (ap (λ rest. if m == k then some s else rest) (dict_get-dict_set_other k l v d h))
  ]

  pub dict_get-In : (k : ℕ) (d : Dict S) (s : S) → dict_get k d ≡ some s → In (k, s) d
  unfolding dict_get
  dict_get-In k [] s e = absurd (cc)
  dict_get-In k ((l, t) ∷ d) s e = elim (Bool-cases (l == k)) [
    | inl b ↦
        let g = rw b at e in
        let same : l ≡ k = ground (arith, b) in
        let value : t ≡ s = ground arith in inl (rw (same, value) refl)
    | inr b ↦ inr (dict_get-In k d s (rw b at e))
  ]
