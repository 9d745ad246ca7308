-- ===== src/Prelude/Counts.antt =====
-- How many rows a SELECT shows before and after the writes of Prelude/Table.
use Prim.Native.Nat.{suc, ◌+◌, ◌≤◌}
use mathlib.Core.Path.{◌≡◌, refl, sym, ap, ◌∙◌}
use mathlib.Core.Logic.{◌≢◌, inl, inr}
use mathlib.Core.Bool.{Bool, true, false}
use mathlib.Core.List.{List, [], ◌∷◌, ◌++◌}
use native.Mathlib.Omega.{arith}
use knowledgebase.Prelude.Tests.{if◌then◌else◌, Bool-cases}
use knowledgebase.Prelude.Lists.{All, In, length}
use knowledgebase.Prelude.Table.{select, update, count}

module _ {A : Type 0} where
  pub length-select : (q : A → Bool) (xs : List A) → length (select q xs) ≡ count q xs
  unfolding select count
  length-select q [] = refl
  length-select q (x ∷ xs) = elim (Bool-cases (q x)) [
    | inl e ↦ rw e (ap suc (length-select q xs))
    | inr e ↦ rw e (length-select q xs)
  ]

  pub select-append :
      (q : A → Bool) (xs : List A) (y : A)
      → select q (xs ++ y ∷ []) ≡ select q xs ++ (if q y then y ∷ [] else [])
  unfolding select
  select-append q [] y = refl
  select-append q (x ∷ xs) y = elim (Bool-cases (q x)) [
    | inl e ↦ rw e (ap (λ rest. x ∷ rest) (select-append q xs y))
    | inr e ↦ rw e (select-append q xs y)
  ]

  pub count-append :
      (q : A → Bool) (xs : List A) (y : A)
      → count q (xs ++ y ∷ []) ≡ count q xs + (if q y then 1 else 0)
  unfolding count
  count-append q [] y = elim (Bool-cases (q y)) [ inl e ↦ rw e refl | inr e ↦ rw e refl ]
  count-append q (x ∷ xs) y = elim (Bool-cases (q x)) [
    | inl e ↦ rw e (omega (arith, count-append q xs y))
    | inr e ↦ rw e (count-append q xs y)
  ]

  pub count_zero : (q : A → Bool) (xs : List A) → All (λ x. q x ≡ false) xs → count q xs ≡ 0
  unfolding count
  count_zero q [] h = refl
  count_zero q (x ∷ xs) h = rw h.0 (count_zero q xs h.1)

  -- A write that brings no row into view.
  pub count-update_le :
      (q p : A → Bool) (f : A → A) (xs : List A)
      → All (λ x. p x ≡ true → q (f x) ≡ true → q x ≡ true) xs
      → count q (update p f xs) ≤ count q xs
  unfolding count update
  count-update_le q p f [] h = omega arith
  count-update_le q p f (x ∷ xs) h =
      let rest = count-update_le q p f xs h.1 in
      elim (Bool-cases (p x)) [
        | inr e ↦ elim (Bool-cases (q x)) [
          | inl b ↦ rw (e, b) (omega arith)
          | inr b ↦ rw (e, b) rest
        ]
        | inl e ↦ elim (Bool-cases (q (f x))) [
          | inl b ↦ rw (e, b, h.0 e b) (omega arith)
          | inr b ↦ elim (Bool-cases (q x)) [
            | inl c ↦ rw (e, b, c) (omega arith)
            | inr c ↦ rw (e, b, c) rest
          ]
        ]
      ]

  -- A write that keeps what the test says of the rows that it changes.
  pub select-update_comm :
      (q p : A → Bool) (f : A → A) (xs : List A)
      → All (λ x. p x ≡ true → q (f x) ≡ q x) xs
      → select q (update p f xs) ≡ update p f (select q xs)
  unfolding select update
  select-update_comm q p f [] h = refl
  select-update_comm q p f (x ∷ xs) h =
      let rest = select-update_comm q p f xs h.1 in
      elim (Bool-cases (p x)) [
        | inl e ↦ elim (Bool-cases (q x)) [
          | inl b ↦ rw (e, h.0 e, b, e) (ap (λ r. f x ∷ r) rest)
          | inr b ↦ rw (e, h.0 e, b) rest
        ]
        | inr e ↦ elim (Bool-cases (q x)) [
          | inl b ↦ rw (e, b, e) (ap (λ r. x ∷ r) rest)
          | inr b ↦ rw (e, b) rest
        ]
      ]

  -- A write to rows that a SELECT shows neither before nor after.
  pub select-update_hidden :
      (q p : A → Bool) (f : A → A) (xs : List A)
      → All (λ x. p x ≡ true → (q x ≡ false) × (q (f x) ≡ false)) xs
      → select q (update p f xs) ≡ select q xs
  unfolding select update
  select-update_hidden q p f [] h = refl
  select-update_hidden q p f (x ∷ xs) h =
      let rest = select-update_hidden q p f xs h.1 in
      elim (Bool-cases (p x)) [
        | inl e ↦ rw (e, (h.0 e).0, (h.0 e).1) rest
        | inr e ↦ rw e (ap (λ r. if q x then x ∷ r else r) rest)
      ]

  pub In-update :
      (p : A → Bool) (f : A → A) (xs : List A) (x : A)
      → In x xs
      → In (if p x then f x else x) (update p f xs)
  unfolding update
  In-update p f [] x m = absurd m
  In-update p f (y ∷ ys) x (inl e) = inl (ap (λ z. if p z then f z else z) e)
  In-update p f (y ∷ ys) x (inr m) = inr (In-update p f ys x m)

  pub count_pos : (q : A → Bool) (xs : List A) (x : A) → In x xs → q x ≡ true → 1 ≤ count q xs
  unfolding count
  count_pos q [] x m h = absurd m
  count_pos q (y ∷ ys) x (inl e) h = rw (sym e, h) (omega arith)
  count_pos q (y ∷ ys) x (inr m) h =
      let rest = count_pos q ys x m h in
      elim (Bool-cases (q y)) [ inl e ↦ rw e (omega arith) | inr e ↦ rw e rest ]

  pub count_two :
      (q : A → Bool) (xs : List A) (x y : A)
      → In x xs
      → In y xs
      → x ≢ y
      → q x ≡ true
      → q y ≡ true
      → 2 ≤ count q xs
  unfolding count
  count_two q [] x y m n d h k = absurd m
  count_two q (z ∷ zs) x y (inl e) (inl f) d h k = absurd (d (e ∙ sym f))
  count_two q (z ∷ zs) x y (inl e) (inr n) d h k =
      let rest = count_pos q zs y n k in rw (sym e, h) (omega arith)
  count_two q (z ∷ zs) x y (inr m) (inl f) d h k =
      let rest = count_pos q zs x m h in rw (sym f, k) (omega arith)
  count_two q (z ∷ zs) x y (inr m) (inr n) d h k =
      let rest = count_two q zs x y m n d h k in
      elim (Bool-cases (q z)) [ inl e ↦ rw e (omega arith) | inr e ↦ rw e rest ]
