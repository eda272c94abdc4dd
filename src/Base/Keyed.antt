-- ===== src/Base/Keyed.antt =====
-- Lists whose elements have distinct keys.
use Prim.Native.Nat.{ℕ, ◌<◌}
use mathlib.Core.Path.{◌≡◌, refl, sym, ◌∙◌}
use mathlib.Core.Bool.{Bool, true, false}
use mathlib.Core.List.{List, [], ◌∷◌, ◌++◌, map}
use mathlib.Core.Logic.{◌≢◌, inl, inr}
use mathlib.Core.Option.{none, some}
use native.Mathlib.Omega.{arith}
use echo_security_scanner.Base.Tests.{Bool-cases, ◌==◌}
use echo_security_scanner.Base.Lists.{All, All_at, All-append, In, here, there, find?, filter}

module _ {ℓ} {A : Type ℓ} where
  pub find?-In : (p : A → Bool) (xs : List A) (x : A) → find? p xs ≡ some x → In x xs × (p x ≡ true)
  find?-In p [] x h = cc
  find?-In p (y ∷ xs) x h = elim (Bool-cases (p y)) [
    | inl e ↦ let same : y ≡ x = ground (arith, e) in rw (← same) (here, e)
    | inr e ↦ let r = find?-In p xs x (ground (arith, e)) in (there r.0, r.1)
  ]

  pub find?_of_none : (p : A → Bool) (xs : List A) → find? p xs ≡ none → All (λ x. p x ≡ false) xs
  find?_of_none p [] h = tt
  find?_of_none p (y ∷ xs) h = ground (arith, find?_of_none p xs)

module _ {ℓ} {A : Type ℓ} (key : A → ℕ) where
  abbrev pub IsUnique : List A → Type 0
  IsUnique [] = Unit
  IsUnique (x ∷ xs) = All (λ y. key y ≢ key x) xs × IsUnique xs

  pub IsUnique-at :
      (xs : List A) {x y : A} → IsUnique xs → In x xs → In y xs → key x ≡ key y → x ≡ y
  IsUnique-at [] u m k e = elim m [ ]
  IsUnique-at (z ∷ xs) u here here e = refl
  IsUnique-at (z ∷ xs) u here (there k) e = absurd (All_at (λ y. key y ≢ key z) u.0 k (sym e))
  IsUnique-at (z ∷ xs) u (there m) here e = absurd (All_at (λ y. key y ≢ key z) u.0 m e)
  IsUnique-at (z ∷ xs) u (there m) (there k) e = IsUnique-at xs u.1 m k e

  pub filter-All {κ} :
      (P : A → Type κ) (p : A → Bool) (xs : List A) → All P xs → All P (filter p xs)
  filter-All P p [] h = tt
  filter-All P p (x ∷ xs) h = ground (arith, filter-All P p xs h.1)

  pub filter-IsUnique : (p : A → Bool) (xs : List A) → IsUnique xs → IsUnique (filter p xs)
  filter-IsUnique p [] u = tt
  filter-IsUnique p (x ∷ xs) u = elim (Bool-cases (p x)) [
    | inl e ↦ rw e (filter-All (λ y. key y ≢ key x) p xs u.0, filter-IsUnique p xs u.1)
    | inr e ↦ rw e (filter-IsUnique p xs u.1)
  ]

  -- The element found by its key is the one that has it.
  pub find?_key :
      (xs : List A) {x : A} → IsUnique xs → In x xs → find? (λ y. key y == key x) xs ≡ some x
  find?_key [] u m = elim m [ ]
  find?_key (z ∷ xs) u here = ground arith
  find?_key (z ∷ xs) u (there m) =
      ground (arith, All_at (λ y. key y ≢ key z) u.0 m, find?_key xs u.1 m)

  pub IsUnique-snoc :
      (xs : List A) (x : A) → All (λ y. key y < key x) xs → IsUnique xs → IsUnique (xs ++ x ∷ [])
  IsUnique-snoc [] x h u = (tt, tt)
  IsUnique-snoc (y ∷ xs) x h u = (
    All-append (λ z. key z ≢ key y) xs (x ∷ []) u.0 (λ e. absurd (omega arith), tt),
    IsUnique-snoc xs x h.1 u.1,
  )

  map_fresh_key :
      (f : A → A)
      → ((a : A) → key (f a) ≡ key a)
      → (k : ℕ) (xs : List A) → All (λ y. key y ≢ k) xs
      → All (λ y. key y ≢ k) (map f xs)
  map_fresh_key f e k [] h = tt
  map_fresh_key f e k (x ∷ xs) h = (λ p. h.0 (sym (e x) ∙ p), map_fresh_key f e k xs h.1)

  -- A change that keeps the keys keeps them distinct.
  pub map-IsUnique :
      (f : A → A)
      → ((a : A) → key (f a) ≡ key a)
      → (xs : List A) → IsUnique xs
      → IsUnique (map f xs)
  map-IsUnique f e [] u = tt
  map-IsUnique f e (x ∷ xs) u =
      (rw (e x) (map_fresh_key f e (key x) xs u.0), map-IsUnique f e xs u.1)
