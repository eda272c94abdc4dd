-- ===== src/Base/Sorting.antt =====
-- ORDER BY, LIMIT and OFFSET on the rows of a table.
use Prim.Native.Nat.{ℕ, zero, suc, ◌+◌, ◌*◌, ◌≤◌}
use mathlib.Core.Path.{◌≡◌, refl, ap, sym, ◌∙◌}
use mathlib.Core.Bool.{Bool, true, false}
use mathlib.Core.List.{List, [], ◌∷◌, ◌++◌, Perm}
use mathlib.Core.List.Perm
use mathlib.Core.Logic.{◌⊎◌, inl, inr}
use native.Mathlib.Nat.{suc-mul}
use native.Mathlib.Omega.{arith}
use echo_security_scanner.Base.Tests.{if◌then◌else◌, Bool-cases}
use echo_security_scanner.Base.Lists.{length, take, drop, All, All_imp, All_at, In, here, there}

module _ {ℓ} {A : Type ℓ} where
  unfoldable pub insert : (A → A → Bool) → A → List A → List A
  insert before x [] = x ∷ []
  insert before x (y ∷ ys) =
      let rest = insert before x ys in if before y x then y ∷ rest else x ∷ y ∷ ys

  -- ORDER BY: rows that tie stay in the order in which the statement meets them.
  unfoldable pub order_by : (A → A → Bool) → List A → List A
  unfolding insert
  order_by before [] = []
  order_by before (x ∷ xs) = insert before x (order_by before xs)

  -- LIMIT and OFFSET.
  abbrev pub page_of : ℕ → ℕ → List A → List A
  page_of limit offset xs = take limit (drop offset xs)

  -- The pages that a client meets who raises the offset by the limit, `n` times.
  unfoldable pub walk : ℕ → ℕ → ℕ → List A → List A
  walk limit zero offset xs = []
  walk limit (suc n) offset xs = page_of limit offset xs ++ walk limit n (offset + limit) xs

module _ {ℓ} {A : Type ℓ} where
  insert-perm : (before : A → A → Bool) (x : A) (xs : List A) → Perm (insert before x xs) (x ∷ xs)
  unfolding insert
  insert-perm before x [] = Perm.rfl
  insert-perm before x (y ∷ ys) = elim (Bool-cases (before y x)) [
    | inl e ↦ rw e (Perm.trans (Perm.cons y (insert-perm before x ys)) (Perm.swap x y ys))
    | inr e ↦ rw e Perm.rfl
  ]

  pub order_by-perm : (before : A → A → Bool) (xs : List A) → Perm (order_by before xs) xs
  unfolding order_by
  order_by-perm before [] = Perm.rfl
  order_by-perm before (x ∷ xs) =
      Perm.trans (insert-perm before x (order_by before xs)) (Perm.cons x (order_by-perm before xs))

  length-insert :
      (before : A → A → Bool) (x : A) (xs : List A) → length (insert before x xs) ≡ suc (length xs)
  unfolding insert
  length-insert before x [] = refl
  length-insert before x (y ∷ ys) = ground (arith, length-insert before x ys)

  pub length-order_by :
      (before : A → A → Bool) (xs : List A) → length (order_by before xs) ≡ length xs
  unfolding order_by
  length-order_by before [] = refl
  length-order_by before (x ∷ xs) =
      length-insert before x (order_by before xs) ∙ ap suc (length-order_by before xs)

  All-insert {κ} :
      (P : A → Type κ) (before : A → A → Bool) (x : A) (xs : List A)
      → P x
      → All P xs
      → All P (insert before x xs)
  unfolding insert
  All-insert P before x [] p h = (p, tt)
  All-insert P before x (y ∷ ys) p h = elim (Bool-cases (before y x)) [
    | inl e ↦ rw e (h.0, All-insert P before x ys p h.1)
    | inr e ↦ rw e (p, h)
  ]

  pub All-order_by {κ} :
      (P : A → Type κ) (before : A → A → Bool) (xs : List A) → All P xs → All P (order_by before xs)
  unfolding order_by
  All-order_by P before [] h = tt
  All-order_by P before (x ∷ xs) h = All-insert P before x _ h.0 (All-order_by P before xs h.1)

  -- No row goes before one that stands ahead of it.
  abbrev pub IsOrdered : (A → A → Bool) → List A → Type 0
  IsOrdered before [] = Unit
  IsOrdered before (x ∷ xs) = All (λ y. before y x ≡ false) xs × IsOrdered before xs

  -- What an ORDER BY needs of its comparison.
  pub record IsComparison (before : A → A → Bool) : Type ℓ where
    pub asymm : (a b : A) → before a b ≡ true → before b a ≡ false
    pub trans : (a b c : A) → before a b ≡ false → before b c ≡ false → before a c ≡ false

  insert-IsOrdered :
      (before : A → A → Bool) (x : A) (xs : List A)
      → IsComparison before
      → IsOrdered before xs
      → IsOrdered before (insert before x xs)
  unfolding insert
  insert-IsOrdered before x [] c h = (tt, tt)
  insert-IsOrdered before x (y ∷ ys) c h = elim (Bool-cases (before y x)) [
    | inl e ↦ rw e (
      All-insert (λ z. before z y ≡ false) before x ys (c.asymm y x e) h.0,
      insert-IsOrdered before x ys c h.1,
    )
    | inr e ↦ rw e (
      (
        e,
        All_imp (λ z. before z y ≡ false) (λ z. before z x ≡ false) ys (λ z k. c.trans z y x k e)
            h.0,
      ),
      h,
    )
  ]

  pub order_by-IsOrdered :
      (before : A → A → Bool) (xs : List A)
      → IsComparison before
      → IsOrdered before (order_by before xs)
  unfolding order_by
  order_by-IsOrdered before [] c = tt
  order_by-IsOrdered before (x ∷ xs) c =
      insert-IsOrdered before x _ c (order_by-IsOrdered before xs c)

  take-append-drop : (n : ℕ) (xs : List A) → take n xs ++ drop n xs ≡ xs
  take-append-drop zero xs = refl
  take-append-drop (suc n) [] = refl
  take-append-drop (suc n) (x ∷ xs) = ap (◌∷◌ x) (take-append-drop n xs)

  drop-nil : (n : ℕ) → drop {A = A} n [] ≡ []
  drop-nil zero = refl
  drop-nil (suc n) = refl

  drop-drop : (m n : ℕ) (xs : List A) → drop m (drop n xs) ≡ drop (n + m) xs
  drop-drop m zero xs = ap (λ k. drop k xs) (omega arith)
  drop-drop m (suc n) [] = drop-nil m ∙ sym (drop-nil (suc n + m))
  drop-drop m (suc n) (x ∷ xs) =
      let e : suc n + m ≡ suc (n + m) = omega arith in rw e (drop-drop m n xs)

  drop-all : (n : ℕ) (xs : List A) → length xs ≤ n → drop n xs ≡ []
  drop-all zero [] h = refl
  drop-all zero (x ∷ xs) h = absurd (omega arith)
  drop-all (suc n) [] h = refl
  drop-all (suc n) (x ∷ xs) h = drop-all n xs (omega arith)

  -- Enough pages hold every row behind the first offset, once and in order.
  pub walk-lem :
      (limit n offset : ℕ) (xs : List A)
      → length xs ≤ offset + n * limit
      → walk limit n offset xs ≡ drop offset xs
  unfolding walk
  walk-lem limit zero offset xs h = sym (drop-all offset xs (omega arith))
  walk-lem limit (suc n) offset xs h =
      let more : suc n * limit ≡ n * limit + limit = suc-mul n limit in
      ap (λ ys. take limit (drop offset xs) ++ ys)
        (walk-lem limit n (offset + limit) xs (omega arith) ∙ sym (drop-drop limit offset xs))
      ∙ take-append-drop limit (drop offset xs)

  In-insert_new : (before : A → A → Bool) (x : A) (xs : List A) → In x (insert before x xs)
  unfolding insert
  In-insert_new before x [] = here
  In-insert_new before x (y ∷ ys) = elim (Bool-cases (before y x)) [
    | inl e ↦ rw e (there (In-insert_new before x ys))
    | inr e ↦ rw e here
  ]

  In-insert_old :
      (before : A → A → Bool) (x : A) (xs : List A) {a : A} → In a xs → In a (insert before x xs)
  unfolding insert
  In-insert_old before x [] m = elim m [ ]
  In-insert_old before x (y ∷ ys) here = elim (Bool-cases (before y x)) [
    | inl e ↦ rw e here
    | inr e ↦ rw e (there here)
  ]
  In-insert_old before x (y ∷ ys) (there m) = elim (Bool-cases (before y x)) [
    | inl e ↦ rw e (there (In-insert_old before x ys m))
    | inr e ↦ rw e (there (there m))
  ]

  -- An ORDER BY loses no row.
  pub In-order_by :
      (before : A → A → Bool) (xs : List A) {a : A} → In a xs → In a (order_by before xs)
  unfolding order_by
  In-order_by before (x ∷ xs) here = In-insert_new before x (order_by before xs)
  In-order_by before (x ∷ xs) (there m) =
      In-insert_old before x (order_by before xs) (In-order_by before xs m)
  In-order_by before [] m = elim m [ ]

  -- A row of an ordered list is among the first `n`, or there are as many, and none of these goes
  -- behind it.
  pub take_or_behind :
      (before : A → A → Bool) (n : ℕ) (xs : List A) {a : A}
      → IsOrdered before xs
      → In a xs
      → In a (take n xs) ⊎ ((length (take n xs) ≡ n) × All (λ y. before a y ≡ false) (take n xs))
  take_or_behind before zero xs o m = inr (refl, tt)
  take_or_behind before (suc n) (x ∷ xs) o here = inl here
  take_or_behind before (suc n) (x ∷ xs) o (there m) = elim (take_or_behind before n xs o.1 m) [
    | inl k ↦ inl (there k)
    | inr (e, h) ↦ inr (ap suc e, (All_at (λ y. before y x ≡ false) o.0 m, h))
  ]
  take_or_behind before (suc n) [] o m = elim m [ ]
