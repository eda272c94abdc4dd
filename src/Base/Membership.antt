-- ===== src/Base/Membership.antt =====
-- Membership in a filtered list, and the element that an `any(...)` is about.
use mathlib.Core.Path.{◌≡◌}
use mathlib.Core.Bool.{Bool, true}
use mathlib.Core.List.{List, [], ◌∷◌}
use mathlib.Core.Logic.{inl, inr}
use native.Mathlib.Omega.{arith}
use echo_security_scanner.Base.Tests.{Bool-cases}
use echo_security_scanner.Base.Lists.{filter, any, In, here, there}

module _ {A : Type 0} (p : A → Bool) where
  pub In-filter : (xs : List A) {x : A} → In x xs → p x ≡ true → In x (filter p xs)
  In-filter [] m h = elim m [ ]
  In-filter (y ∷ xs) here h = rw h here
  In-filter (y ∷ xs) (there m) h = elim (Bool-cases (p y)) [
    | inl e ↦ rw e (there (In-filter xs m h))
    | inr e ↦ rw e (In-filter xs m h)
  ]

  kept :
      (y : A) (xs ys : List A) {x : A}
      → p y ≡ true
      → (In x ys → In x xs × (p x ≡ true))
      → In x (y ∷ ys)
      → In x (y ∷ xs) × (p x ≡ true)
  kept y xs ys e rest here = (here, e)
  kept y xs ys e rest (there n) = let (k, h) = rest n in (there k, h)

  pub filter-In : (xs : List A) {x : A} → In x (filter p xs) → In x xs × (p x ≡ true)
  filter-In [] m = elim m [ ]
  filter-In (y ∷ xs) {x} m = elim (Bool-cases (p y)) [
    | inl e ↦ kept y xs (filter p xs) e (λ n. filter-In xs n) (rw e at m)
    | inr e ↦ let n : In x (filter p xs) = rw e at m in let (k, h) = filter-In xs n in (there k, h)
  ]

  pub any-In : (xs : List A) → any p xs ≡ true → (x : A) × In x xs × (p x ≡ true)
  any-In [] h = absurd (ground arith)
  any-In (y ∷ xs) h = elim (Bool-cases (p y)) [
    | inl e ↦ (y, here, e)
    | inr e ↦ let (x, m, k) = any-In xs (ground arith) in (x, there m, k)
  ]

  pub In-any : (xs : List A) {x : A} → In x xs → p x ≡ true → any p xs ≡ true
  In-any [] m h = elim m [ ]
  In-any (y ∷ xs) here h = rw h
  In-any (y ∷ xs) (there m) h = ground (arith, In-any xs m h)
