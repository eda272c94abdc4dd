-- ===== src/Base/Grouping.antt =====
-- GROUP BY with COUNT(*) on the values of a column.
use Prim.Native.Nat.{ℕ, ◌+◌}
use mathlib.Core.Path.{◌≡◌, refl, ap, sym, ◌∙◌}
use mathlib.Core.Bool.{Bool, true, false}
use mathlib.Core.List.{List, [], ◌∷◌}
use mathlib.Core.Logic.{◌≢◌, ◌↔◌, inl, inr}
use native.Mathlib.Omega.{arith}
use echo_security_scanner.Base.Tests.{if◌then◌else◌, Bool-cases}
use echo_security_scanner.Base.Lists.{length, filter, All, All_imp, All_and, In, here, there}

module _ {ℓ} {A : Type ℓ} where
  -- One more row with the value `k`.
  unfoldable pub count_into : (A → A → Bool) → A → List (A × ℕ) → List (A × ℕ)
  count_into eq k [] = (k, 1) ∷ []
  count_into eq k (g ∷ rest) =
      let more = count_into eq k rest in if eq k g.0 then (g.0, g.1 + 1) ∷ rest else g ∷ more

  -- A row for each value, with the number of times that it is met.
  unfoldable pub group_counts : (A → A → Bool) → List A → List (A × ℕ)
  unfolding count_into
  group_counts eq [] = []
  group_counts eq (k ∷ ks) = count_into eq k (group_counts eq ks)

  -- `counts.get(k, 0)`
  unfoldable pub get_count : (A → A → Bool) → A → List (A × ℕ) → ℕ
  get_count eq k [] = 0
  get_count eq k (g ∷ rest) = let later = get_count eq k rest in if eq k g.0 then g.1 else later

  -- `sum(counts.values())`
  unfoldable pub sum_counts : List (A × ℕ) → ℕ
  sum_counts [] = 0
  sum_counts (g ∷ rest) = g.1 + sum_counts rest

module _ {ℓ} {A : Type ℓ} where
  -- What the test of a GROUP BY decides.
  pub record IsEquality (eq : A → A → Bool) : Type ℓ where
    pub decides : (a b : A) → (eq a b ≡ true) ↔ (a ≡ b)

  count_into_same :
      (eq : A → A → Bool) (k : A) (gs : List (A × ℕ))
      → IsEquality eq
      → get_count eq k (count_into eq k gs) ≡ get_count eq k gs + 1
  unfolding count_into get_count
  count_into_same eq k [] e = ground (arith, (e.decides k k).1 refl)
  count_into_same eq k (g ∷ gs) e = ground (arith, count_into_same eq k gs e)

  count_into_other :
      (eq : A → A → Bool) (j k : A) (gs : List (A × ℕ))
      → IsEquality eq
      → eq j k ≡ false
      → get_count eq j (count_into eq k gs) ≡ get_count eq j gs
  unfolding count_into get_count
  count_into_other eq j k [] e n = ground arith
  count_into_other eq j k (g ∷ gs) e n = elim (Bool-cases (eq k g.0)) [
    | inl y ↦
        let same : k ≡ g.0 = (e.decides k g.0).0 y in
        let other : eq j g.0 ≡ false = ap (eq j) (sym same) ∙ n in ground (arith, y, other)
    | inr y ↦ ground (arith, y, count_into_other eq j k gs e n)
  ]

  -- The count of a value is the number of rows that have it.
  pub get_count-group_counts :
      (eq : A → A → Bool) (k : A) (ks : List A)
      → IsEquality eq
      → get_count eq k (group_counts eq ks) ≡ length (filter (eq k) ks)
  unfolding group_counts get_count
  get_count-group_counts eq k [] e = refl
  get_count-group_counts eq k (j ∷ ks) e = elim (Bool-cases (eq k j)) [
    | inl y ↦
        let same : k ≡ j = (e.decides k j).0 y in
        rw y (
          ap (λ i. get_count eq k (count_into eq i (group_counts eq ks))) (sym same)
          ∙ count_into_same eq k (group_counts eq ks) e
          ∙ ground (arith, get_count-group_counts eq k ks e))
    | inr y ↦
        rw y (count_into_other eq k j (group_counts eq ks) e y ∙ get_count-group_counts eq k ks e)
  ]

  sum_counts-count_into :
      (eq : A → A → Bool) (k : A) (gs : List (A × ℕ))
      → sum_counts (count_into eq k gs) ≡ sum_counts gs + 1
  unfolding count_into sum_counts
  sum_counts-count_into eq k [] = refl
  sum_counts-count_into eq k (g ∷ gs) = ground (arith, sum_counts-count_into eq k gs)

  -- The counts add up to the number of rows.
  pub sum_counts-group_counts :
      (eq : A → A → Bool) (ks : List A) → sum_counts (group_counts eq ks) ≡ length ks
  unfolding group_counts sum_counts
  sum_counts-group_counts eq [] = refl
  sum_counts-group_counts eq (k ∷ ks) =
      omega (arith, sum_counts-count_into eq k (group_counts eq ks), sum_counts-group_counts eq ks)

  -- The value has a row of its own, unless it is not met.
  pub get_count-In :
      (eq : A → A → Bool) (k : A) (gs : List (A × ℕ))
      → IsEquality eq
      → get_count eq k gs ≢ 0
      → In (k, get_count eq k gs) gs
  unfolding get_count
  get_count-In eq k [] e h = absurd (h refl)
  get_count-In eq k (g ∷ gs) e h = elim (Bool-cases (eq k g.0)) [
    | inl y ↦ let same : k ≡ g.0 = (e.decides k g.0).0 y in rw (y, same) here
    | inr y ↦ rw (y, get_count) (there (get_count-In eq k gs e (ground (arith, h, y))))
  ]

  -- No two rows are of one value.
  abbrev IsDistinct : (A → A → Bool) → List (A × ℕ) → Type 0
  IsDistinct eq [] = Unit
  IsDistinct eq (g ∷ gs) = All (λ h. eq h.0 g.0 ≡ false) gs × IsDistinct eq gs

  count_into-All :
      (eq : A → A → Bool) (P : A → Type 0) (k : A) (gs : List (A × ℕ))
      → P k
      → All (λ g. P g.0) gs
      → All (λ g. P g.0) (count_into eq k gs)
  unfolding count_into
  count_into-All eq P k [] p h = (p, tt)
  count_into-All eq P k (g ∷ gs) p h = elim (Bool-cases (eq k g.0)) [
    | inl y ↦ rw y h
    | inr y ↦ rw y (h.0, count_into-All eq P k gs p h.1)
  ]

  count_into-IsDistinct :
      (eq : A → A → Bool) (k : A) (gs : List (A × ℕ))
      → IsDistinct eq gs
      → IsDistinct eq (count_into eq k gs)
  unfolding count_into
  count_into-IsDistinct eq k [] d = (tt, tt)
  count_into-IsDistinct eq k (g ∷ gs) d = elim (Bool-cases (eq k g.0)) [
    | inl y ↦ rw y d
    | inr y ↦
        rw y
          (count_into-All eq (λ a. eq a g.0 ≡ false) k gs y d.0, count_into-IsDistinct eq k gs d.1)
  ]

  group_counts-IsDistinct : (eq : A → A → Bool) (ks : List A) → IsDistinct eq (group_counts eq ks)
  unfolding group_counts
  group_counts-IsDistinct eq [] = tt
  group_counts-IsDistinct eq (k ∷ ks) =
      count_into-IsDistinct eq k (group_counts eq ks) (group_counts-IsDistinct eq ks)

  own_counts :
      (eq : A → A → Bool) (gs : List (A × ℕ))
      → IsEquality eq
      → IsDistinct eq gs
      → All (λ g. g.1 ≡ get_count eq g.0 gs) gs
  unfolding get_count
  own_counts eq [] e d = tt
  own_counts eq (g ∷ gs) e d = (
    ground (arith, (e.decides g.0 g.0).1 refl),
    All_imp (λ h. (eq h.0 g.0 ≡ false) × (h.1 ≡ get_count eq h.0 gs)) _ gs
        (λ h p. ground (arith, p.0, p.1)) (All_and _ _ gs d.0 (own_counts eq gs e d.1)),
  )

  -- Every row's count is the number of rows that have its value.
  pub group_counts-own :
      (eq : A → A → Bool) (ks : List A)
      → IsEquality eq
      → All (λ g. g.1 ≡ length (filter (eq g.0) ks)) (group_counts eq ks)
  group_counts-own eq ks e =
      All_imp (λ g. g.1 ≡ get_count eq g.0 (group_counts eq ks)) _ (group_counts eq ks)
        (λ g h. h ∙ get_count-group_counts eq g.0 ks e)
        (own_counts eq (group_counts eq ks) e (group_counts-IsDistinct eq ks))
