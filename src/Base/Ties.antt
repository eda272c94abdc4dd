-- ===== src/Base/Ties.antt =====
-- An ORDER BY whose ties the database breaks as it likes: the statement may meet the rows in any order,
-- and the keys of the result are the same.
use Prim.Native.Nat.{ℕ, zero, suc}
use mathlib.Core.Path.{◌≡◌, refl, ap, ap₂, sym, subst, ◌∙◌}
use mathlib.Core.Bool.{Bool, true, false, ◌&&◌, ◌||◌}
use mathlib.Core.List.{List, [], ◌∷◌, map, Permᴰ}
use mathlib.Core.Logic.{inl, inr}
use native.Mathlib.Omega.{arith}
use echo_security_scanner.Base.Tests.{ltb, ◌==◌, Bool-cases}
use echo_security_scanner.Base.PyStr.{Text, text_eq, text_eq_refl, text_eq_iff}
use echo_security_scanner.Base.Lists.{take, drop, All, In, here, there}
use echo_security_scanner.Base.Sorting.{insert, order_by, page_of, IsComparison}

-- The rows of the one list are those of the other in any order.
abbrev pub IsShuffled {ℓ} : {A : Type ℓ} → List A → List A → Type ℓ
IsShuffled xs ys = Permᴰ xs ys

-- Only equal keys are tied.
abbrev pub IsConnex {ℓ} : {A : Type ℓ} → (A → A → Bool) → Type ℓ
IsConnex before = (a b : _) → before a b ≡ false → before b a ≡ false → a ≡ b

module _ {A : Type 0} (before : A → A → Bool) (c : IsComparison before)
    (connex : IsConnex before) where
  insert-insert :
      (x y : A) (zs : List A)
      → insert before x (insert before y zs) ≡ insert before y (insert before x zs)
  unfolding insert
  insert-insert x y [] = ground (arith, connex x y, c.asymm x y, c.asymm y x)
  insert-insert x y (z ∷ zs) = ground (
    arith,
    insert-insert x y zs,
    connex x y,
    c.asymm x y,
    c.asymm y x,
    c.trans z x y,
    c.trans z y x,
  )

  order_by-Permᴰ : {xs ys : List A} → Permᴰ xs ys → order_by before xs ≡ order_by before ys
  unfolding order_by
  order_by-Permᴰ Permᴰ.nil = refl
  order_by-Permᴰ (Permᴰ.cons e d) = ap₂ (insert before) e (order_by-Permᴰ d)
  order_by-Permᴰ (Permᴰ.swap {a} {b} {l = l} e f) =
      rw (← e, ← f) (insert-insert a b (order_by before l))
  order_by-Permᴰ (Permᴰ.trans d e) = order_by-Permᴰ d ∙ order_by-Permᴰ e

module _ {A K : Type 0} (key : A → K) where
  map-insert :
      (before : K → K → Bool) (x : A) (ys : List A)
      → map key (insert (λ a b. before (key a) (key b)) x ys) ≡ insert before (key x) (map key ys)
  unfolding insert
  map-insert before x [] = refl
  map-insert before x (y ∷ ys) = ground (arith, map-insert before x ys)

  map-order_by :
      (before : K → K → Bool) (xs : List A)
      → map key (order_by (λ a b. before (key a) (key b)) xs) ≡ order_by before (map key xs)
  unfolding order_by
  map-order_by before [] = refl
  map-order_by before (x ∷ xs) =
      map-insert before x (order_by (λ a b. before (key a) (key b)) xs)
      ∙ ap (insert before (key x)) (map-order_by before xs)

  map-Permᴰ : {xs ys : List A} → Permᴰ xs ys → Permᴰ (map key xs) (map key ys)
  map-Permᴰ Permᴰ.nil = Permᴰ.nil
  map-Permᴰ (Permᴰ.cons e d) = Permᴰ.cons (ap key e) (map-Permᴰ d)
  map-Permᴰ (Permᴰ.swap e f) = Permᴰ.swap (ap key e) (ap key f)
  map-Permᴰ (Permᴰ.trans d e) = Permᴰ.trans (map-Permᴰ d) (map-Permᴰ e)

  pub on_key :
      (before : K → K → Bool) → IsComparison before → IsComparison (λ a b. before (key a) (key b))
  on_key before c = record {
    asymm = λ a b. c.asymm (key a) (key b);
    trans = λ a b d. c.trans (key a) (key b) (key d);
  }

  -- However the ties are broken, the keys come in one order.
  pub order_by-keys :
      (before : K → K → Bool) {xs ys : List A}
      → IsComparison before
      → IsConnex before
      → IsShuffled xs ys
      → map key (order_by (λ a b. before (key a) (key b)) xs)
        ≡ map key (order_by (λ a b. before (key a) (key b)) ys)
  order_by-keys before {xs} {ys} c connex d =
      map-order_by before xs
      ∙ order_by-Permᴰ before c connex (map-Permᴰ d)
      ∙ sym (map-order_by before ys)

  pub map-take : (n : ℕ) (xs : List A) → map key (take n xs) ≡ take n (map key xs)
  map-take zero xs = refl
  map-take (suc n) [] = refl
  map-take (suc n) (x ∷ xs) = ap (λ ks. key x ∷ ks) (map-take n xs)

  pub map-drop : (n : ℕ) (xs : List A) → map key (drop n xs) ≡ drop n (map key xs)
  map-drop zero xs = refl
  map-drop (suc n) [] = refl
  map-drop (suc n) (x ∷ xs) = map-drop n xs

  pub map-page_of :
      (limit offset : ℕ) (xs : List A)
      → map key (page_of limit offset xs) ≡ page_of limit offset (map key xs)
  map-page_of limit offset xs =
      map-take limit (drop offset xs) ∙ ap (take limit) (map-drop offset xs)

pub All-shuffled :
    {A : Type 0} (P : A → Type 0) {xs ys : List A} → IsShuffled xs ys → All P ys → All P xs
All-shuffled P Permᴰ.nil h = tt
All-shuffled P (Permᴰ.cons e d) h = (subst P (sym e) h.0, All-shuffled P d h.1)
All-shuffled P (Permᴰ.swap e f) h = (subst P (sym e) h.1.0, (subst P (sym f) h.0, h.1.1))
All-shuffled P (Permᴰ.trans d e) h = All-shuffled P d (All-shuffled P e h)

pub All-map :
    {A B : Type 0} (P : B → Type 0) (f : A → B) (xs : List A)
    → All (λ a. P (f a)) xs
    → All P (map f xs)
All-map P f [] h = tt
All-map P f (x ∷ xs) h = (h.0, All-map P f xs h.1)

pub In-map : {A B : Type 0} (f : A → B) {x : A} {xs : List A} → In x xs → In (f x) (map f xs)
In-map f here = here
In-map f (there m) = there (In-map f m)

-- By a rank that falls, and by `before` within one rank.
abbrev pub ranked_before {ℓ} : {K : Type ℓ} → (K → K → Bool) → ℕ × K → ℕ × K → Bool
ranked_before before a b = ltb b.0 a.0 || a.0 == b.0 && before a.1 b.1

pub ranked_before-IsComparison :
    {K : Type 0} (before : K → K → Bool) → IsComparison before → IsComparison (ranked_before before)
ranked_before-IsComparison before c = record {
  asymm = λ a b h. ground (arith, c.asymm a.1 b.1);
  trans = λ a b d h k. ground (arith, c.trans a.1 b.1 d.1);
}

pub ranked_before-IsConnex :
    {K : Type 0} (before : K → K → Bool) → IsConnex before → IsConnex (ranked_before before)
ranked_before-IsConnex before connex (m, s) (n, t) h k =
    ap₂ (λ x y. (x, y)) (ground arith) (connex s t (ground arith) (ground arith))

-- By two texts, one after the other.
abbrev pub texts_before : (Text → Text → Bool) → Text × Text → Text × Text → Bool
texts_before before a b = before a.0 b.0 || text_eq a.0 b.0 && before a.1 b.1

module _ (before : Text → Text → Bool) (c : IsComparison before) where
  pub texts_before-IsConnex : IsConnex before → IsConnex (texts_before before)
  texts_before-IsConnex connex (s, t) (u, v) h k =
      let first : s ≡ u = connex s u (ground arith) (ground arith) in
      let same : text_eq s u ≡ true = rw first (text_eq_refl u) in
      let same' : text_eq u s ≡ true = rw first (text_eq_refl u) in
      ap₂ (λ x y. (x, y)) first (connex t v (ground arith) (ground arith))

  texts_asymm :
      (a b : Text × Text) → texts_before before a b ≡ true → texts_before before b a ≡ false
  texts_asymm (s, t) (u, v) h = elim (Bool-cases (text_eq s u)) [
    | inl e ↦
        let same : s ≡ u = (text_eq_iff s u).0 e in
        let back : before u s ≡ before s u = ap₂ before (sym same) same in
        ground (arith, c.asymm s u, c.asymm t v)
    | inr e ↦
        let back : text_eq u s ≡ true → text_eq s u ≡ true =
          λ x. (text_eq_iff s u).1 (sym ((text_eq_iff u s).0 x)) in
        ground (arith, c.asymm s u, back)
  ]

  texts_trans :
      IsConnex before
      → (a b d : Text × Text) → texts_before before a b ≡ false
      → texts_before before b d ≡ false
      → texts_before before a d ≡ false
  texts_trans connex (s, t) (u, v) (x, y) h k = elim (Bool-cases (text_eq s x)) [
    | inl e ↦
        let same : s ≡ x = (text_eq_iff s x).0 e in
        let mid : s ≡ u =
          connex s u (ground arith) (subst (λ z. before u z ≡ false) (sym same) (ground arith)) in
        let one : text_eq s u ≡ true = rw mid (text_eq_refl u) in
        let two : text_eq u x ≡ true = rw (← mid, same) (text_eq_refl x) in
        ground (arith, c.trans s u x, c.trans t v y)
    | inr e ↦ ground (arith, c.trans s u x)
  ]

  pub texts_before-IsComparison : IsConnex before → IsComparison (texts_before before)
  texts_before-IsComparison connex = record { asymm = texts_asymm; trans = texts_trans connex }
