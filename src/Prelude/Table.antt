-- ===== src/Prelude/Table.antt =====
-- The SQL statements that the program issues, over a table as the list of its rows in the order
-- in which they were inserted.
use Prim.Native.Nat.{ℕ, suc, ◌≤◌}
use mathlib.Core.Path.{◌≡◌, refl, ap, subst}
use mathlib.Core.Logic.{inl, inr}
use mathlib.Core.Bool.{Bool, true, false}
use mathlib.Core.List.{List, [], ◌∷◌, ◌++◌}
use mathlib.Core.Option.{Option, none, some}
use native.Mathlib.Omega.{arith}
use knowledgebase.Prelude.Tests.{leb, if◌then◌else◌, Bool-cases, Option-cases}
use knowledgebase.Prelude.Lists.{length, All, All-mono, In}

module _ {A : Type 0} where
  -- SELECT … WHERE p
  unfoldable pub select : (A → Bool) → List A → List A
  select p [] = []
  select p (x ∷ xs) = let rest = select p xs in if p x then x ∷ rest else rest

  -- UPDATE … WHERE p
  unfoldable pub update : (A → Bool) → (A → A) → List A → List A
  update p f [] = []
  update p f (x ∷ xs) = (if p x then f x else x) ∷ update p f xs

  -- DELETE … WHERE p
  unfoldable pub delete : (A → Bool) → List A → List A
  delete p [] = []
  delete p (x ∷ xs) = let rest = delete p xs in if p x then rest else x ∷ rest

  -- The row count of an UPDATE or a DELETE.
  unfoldable pub count : (A → Bool) → List A → ℕ
  count p [] = 0
  count p (x ∷ xs) = let rest = count p xs in if p x then suc rest else rest

  unfoldable pub exists : (A → Bool) → List A → Bool
  exists p [] = false
  exists p (x ∷ xs) = let rest = exists p xs in if p x then true else rest

  -- The first row that satisfies `p`: a SELECT by a unique column.
  unfoldable pub first : (A → Bool) → List A → Option A
  first p [] = none
  first p (x ∷ xs) = let rest = first p xs in if p x then some x else rest

  abbrev earlier : (A → ℕ) → A → Option A → A
  earlier key x none = x
  earlier key x (some y) = if leb (key x) (key y) then x else y

  -- ORDER BY key LIMIT 1 (the earlier row where keys are equal).
  unfoldable pub first_by : (A → ℕ) → List A → Option A
  first_by key [] = none
  first_by key (x ∷ xs) = some (earlier key x (first_by key xs))

  insert_desc : (A → ℕ) → A → List A → List A
  insert_desc key x [] = x ∷ []
  insert_desc key x (y ∷ ys) =
      let rest = insert_desc key x ys in if leb (key y) (key x) then x ∷ y ∷ ys else y ∷ rest

  -- ORDER BY key DESC (the earlier row first where keys are equal).
  unfoldable pub order_desc : (A → ℕ) → List A → List A
  unfolding insert_desc
  order_desc key [] = []
  order_desc key (x ∷ xs) = insert_desc key x (order_desc key xs)

module _ {A : Type 0} where
  insert_asc : (A → ℕ) → A → List A → List A
  insert_asc key x [] = x ∷ []
  insert_asc key x (y ∷ ys) =
      let rest = insert_asc key x ys in if leb (key x) (key y) then x ∷ y ∷ ys else y ∷ rest

  -- ORDER BY key (the earlier row first where keys are equal).
  unfoldable pub order_asc : (A → ℕ) → List A → List A
  unfolding insert_asc
  order_asc key [] = []
  order_asc key (x ∷ xs) = insert_asc key x (order_asc key xs)

module _ {A : Type 0} (P : A → Type 0) where
  pub All-update :
      (p : A → Bool) (f : A → A) (xs : List A)
      → ((x : A) → p x ≡ true → P x → P (f x))
      → All P xs
      → All P (update p f xs)
  unfolding update
  All-update p f [] k h = tt
  All-update p f (x ∷ xs) k h = (ground (arith, k x, h.0), All-update p f xs k h.1)

  -- What `R` says of the rows may be used, and the rows that are left alone count too.
  pub All-update_with :
      (R Q : A → Type 0) (p : A → Bool) (f : A → A) (xs : List A)
      → ((x : A) → R x → p x ≡ true → P x → Q (f x))
      → ((x : A) → R x → p x ≡ false → P x → Q x)
      → All R xs
      → All P xs
      → All Q (update p f xs)
  unfolding update
  All-update_with R Q p f [] hit miss r h = tt
  All-update_with R Q p f (x ∷ xs) hit miss r h =
      let rest = All-update_with R Q p f xs hit miss r.1 h.1 in
      elim (Bool-cases (p x)) [
        | inl e ↦ (rw e (hit x r.0 e h.0), rest)
        | inr e ↦ (rw e (miss x r.0 e h.0), rest)
      ]

  pub All-delete : (p : A → Bool) (xs : List A) → All P xs → All P (delete p xs)
  unfolding delete
  All-delete p [] h = tt
  All-delete p (x ∷ xs) h = elim (Bool-cases (p x)) [
    | inl e ↦ rw e (All-delete p xs h.1)
    | inr e ↦ rw e (h.0, All-delete p xs h.1)
  ]

  -- The rows that are left do not satisfy `p`.
  pub All-delete_with :
      (Q : A → Type 0) (p : A → Bool) (xs : List A)
      → ((x : A) → p x ≡ false → P x → Q x)
      → All P xs
      → All Q (delete p xs)
  unfolding delete
  All-delete_with Q p [] keep h = tt
  All-delete_with Q p (x ∷ xs) keep h = elim (Bool-cases (p x)) [
    | inl e ↦ rw e (All-delete_with Q p xs keep h.1)
    | inr e ↦ rw e (keep x e h.0, All-delete_with Q p xs keep h.1)
  ]

  All-insert_desc :
      (key : A → ℕ) (x : A) (xs : List A) → P x → All P xs → All P (insert_desc key x xs)
  unfolding insert_desc
  All-insert_desc key x [] k h = (k, tt)
  All-insert_desc key x (y ∷ ys) k h = elim (Bool-cases (leb (key y) (key x))) [
    | inl e ↦ rw e (k, (h.0, h.1))
    | inr e ↦ rw e (h.0, All-insert_desc key x ys k h.1)
  ]

  pub All-order_desc : (key : A → ℕ) (xs : List A) → All P xs → All P (order_desc key xs)
  unfolding order_desc
  All-order_desc key [] h = tt
  All-order_desc key (x ∷ xs) h =
      All-insert_desc key x (order_desc key xs) h.0 (All-order_desc key xs h.1)

  All-insert_asc :
      (key : A → ℕ) (x : A) (xs : List A) → P x → All P xs → All P (insert_asc key x xs)
  unfolding insert_asc
  All-insert_asc key x [] k h = (k, tt)
  All-insert_asc key x (y ∷ ys) k h = elim (Bool-cases (leb (key x) (key y))) [
    | inl e ↦ rw e (k, (h.0, h.1))
    | inr e ↦ rw e (h.0, All-insert_asc key x ys k h.1)
  ]

  pub All-order_asc : (key : A → ℕ) (xs : List A) → All P xs → All P (order_asc key xs)
  unfolding order_asc
  All-order_asc key [] h = tt
  All-order_asc key (x ∷ xs) h =
      All-insert_asc key x (order_asc key xs) h.0 (All-order_asc key xs h.1)

  pub All-select : (p : A → Bool) (xs : List A) → All P xs → All P (select p xs)
  unfolding select
  All-select p [] h = tt
  All-select p (x ∷ xs) h = elim (Bool-cases (p x)) [
    | inl e ↦ rw e (h.0, All-select p xs h.1)
    | inr e ↦ rw e (All-select p xs h.1)
  ]

module _ {A : Type 0} where
  -- What holds of the rows that satisfy `p` holds of the selection.
  pub All-select_with :
      (Q : A → Type 0) (p : A → Bool) (xs : List A)
      → All (λ x. p x ≡ true → Q x) xs
      → All Q (select p xs)
  unfolding select
  All-select_with Q p [] h = tt
  All-select_with Q p (x ∷ xs) h = elim (Bool-cases (p x)) [
    | inl e ↦ rw e (h.0 e, All-select_with Q p xs h.1)
    | inr e ↦ rw e (All-select_with Q p xs h.1)
  ]

  pub select_sound : (p : A → Bool) (xs : List A) → All (λ x. p x ≡ true) (select p xs)
  unfolding select
  select_sound p [] = tt
  select_sound p (x ∷ xs) = elim (Bool-cases (p x)) [
    | inl e ↦ rw e (e, select_sound p xs)
    | inr e ↦ rw e (select_sound p xs)
  ]

  pub length-update : (p : A → Bool) (f : A → A) (xs : List A) → length (update p f xs) ≡ length xs
  unfolding update
  length-update p f [] = refl
  length-update p f (x ∷ xs) = ap suc (length-update p f xs)

  pub first_by-nil : (key : A → ℕ) (xs : List A) → first_by key xs ≡ none → xs ≡ []
  unfolding first_by
  first_by-nil key [] h = refl
  first_by-nil key (x ∷ xs) h = cc

  -- No row has a smaller key than the one that `first_by` returns.
  pub first_by_least :
      (key : A → ℕ) (xs : List A) {y : A} → first_by key xs ≡ some y → All (λ x. key y ≤ key x) xs
  unfolding first_by
  first_by_least key [] h = tt
  first_by_least key (x ∷ xs) {y = y} h = elim (Option-cases (first_by key xs)) [
    | inl e ↦ (ground arith, rw (first_by-nil key xs e) tt)
    | inr (z, e) ↦ (
      ground arith,
      All-mono (λ w. key z ≤ key w) (λ w. key y ≤ key w) xs (λ w g. ground arith)
          (first_by_least key xs e),
    )
  ]

  pub first_by-In : (key : A → ℕ) (xs : List A) {y : A} → first_by key xs ≡ some y → In y xs
  unfolding first_by
  first_by-In key [] h = ground arith
  first_by-In key (x ∷ xs) {y = y} h = elim (Option-cases (first_by key xs)) [
    | inl e ↦ inl (ground arith)
    | inr (z, e) ↦ elim (Bool-cases (leb (key x) (key z))) [
      | inl b ↦ inl (ground arith)
      | inr b ↦ inr (subst (λ w. In w xs) (ground arith) (first_by-In key xs e))
    ]
  ]

  pub select-In : (p : A → Bool) (xs : List A) (y : A) → In y (select p xs) → In y xs × (p y ≡ true)
  unfolding select
  select-In p [] y m = absurd m
  select-In p (x ∷ xs) y m = elim (Bool-cases (p x)) [
    | inl e ↦ elim (rw (e, select) at m) [
      | inl q ↦ (inl q, rw q e)
      | inr m' ↦ let found = select-In p xs y m' in (inr found.0, found.1)
    ]
    | inr e ↦ let found = select-In p xs y (rw (e, select) at m) in (inr found.0, found.1)
  ]

  pub In-select : (p : A → Bool) (xs : List A) (y : A) → In y xs → p y ≡ true → In y (select p xs)
  unfolding select
  In-select p [] y m e = absurd m
  In-select p (x ∷ xs) y (inl q) e = rw (subst (λ z. p z ≡ true) q e) (inl q)
  In-select p (x ∷ xs) y (inr q) e = elim (Bool-cases (p x)) [
    | inl b ↦ rw b (inr (In-select p xs y q e))
    | inr b ↦ rw b (In-select p xs y q e)
  ]

  pub first-In : (p : A → Bool) (xs : List A) {y : A} → first p xs ≡ some y → In y xs × (p y ≡ true)
  unfolding first
  first-In p [] h = absurd (cc)
  first-In p (x ∷ xs) {y = y} h = elim (Bool-cases (p x)) [
    | inl e ↦ (inl (ground arith), ground arith)
    | inr e ↦
        let found : In y xs × (p y ≡ true) = first-In p xs (ground arith) in (inr found.0, found.1)
  ]

  -- A write to rows that a SELECT does not show, before and after, does not change its result.
  pub select-update :
      (q p : A → Bool) (f : A → A) (xs : List A)
      → ((x : A) → p x ≡ true → q x ≡ false)
      → ((x : A) → p x ≡ true → q (f x) ≡ false)
      → select q (update p f xs) ≡ select q xs
  unfolding select update
  select-update q p f [] before after = refl
  select-update q p f (x ∷ xs) before after = elim (Bool-cases (p x)) [
    | inl e ↦ rw (e, before x e, after x e) (select-update q p f xs before after)
    | inr e ↦
        rw e (ap (λ rest. if q x then x ∷ rest else rest) (select-update q p f xs before after))
  ]

  -- A write that keeps what a test says keeps what a lookup by it finds, up to the write.
  pub exists-update :
      (q p : A → Bool) (f : A → A) (xs : List A)
      → ((x : A) → q (f x) ≡ q x)
      → exists q (update p f xs) ≡ exists q xs
  unfolding exists update
  exists-update q p f [] same = refl
  exists-update q p f (x ∷ xs) same = elim (Bool-cases (p x)) [
    | inl e ↦ rw (e, same x) (ap (λ rest. if q x then true else rest) (exists-update q p f xs same))
    | inr e ↦ rw e (ap (λ rest. if q x then true else rest) (exists-update q p f xs same))
  ]

  pub exists_false : (q : A → Bool) (xs : List A) → exists q xs ≡ false → All (λ x. q x ≡ false) xs
  unfolding exists
  exists_false q [] e = tt
  exists_false q (x ∷ xs) e = (ground arith, exists_false q xs (ground arith))

  pub exists-append :
      (q : A → Bool) (xs : List A) (x : A) → q x ≡ true → exists q (xs ++ x ∷ []) ≡ true
  unfolding exists
  exists-append q [] x e = rw e
  exists-append q (y ∷ xs) x e = ground (arith, exists-append q xs x e)

  -- A SELECT by a weaker test still shows a row that satisfies the stronger one.
  pub exists-select :
      (q p : A → Bool) (xs : List A)
      → ((x : A) → q x ≡ true → p x ≡ true)
      → exists q xs ≡ true
      → exists q (select p xs) ≡ true
  unfolding exists select
  exists-select q p [] sub e = e
  exists-select q p (x ∷ xs) sub e = elim (Bool-cases (q x)) [
    | inl b ↦ rw (sub x b, b)
    | inr b ↦ elim (Bool-cases (p x)) [
      | inl c ↦ rw (c, b) (exists-select q p xs sub (rw b at e))
      | inr c ↦ rw c (exists-select q p xs sub (rw b at e))
    ]
  ]
