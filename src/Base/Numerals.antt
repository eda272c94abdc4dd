-- ===== src/Base/Numerals.antt =====
-- The decimal digits that `str` gives a number, read back.
use Prim.Native.Nat.{ℕ, zero, suc, ◌+◌, ◌-◌, ◌*◌, ◌/◌, ◌%◌, ◌<◌}
use mathlib.Core.Path.{◌≡◌, refl, ap, sym, ◌∙◌}
use mathlib.Core.List.{[], ◌∷◌, ◌++◌}
use mathlib.Core.Logic.{inl, inr}
use native.Mathlib.Omega.{arith}
use echo_security_scanner.Base.Tests.{ltb, Bool-cases}
use echo_security_scanner.Base.PyStr.{Text, digits, show_nat}

read_from : ℕ → Text → ℕ
read_from n [] = n
read_from n (c ∷ cs) = read_from (n * 10 + (c - 48)) cs

unfoldable pub read_nat : Text → ℕ
unfolding read_from
read_nat = read_from 0

read_from_snoc :
    (n : ℕ) (xs : Text) (d : ℕ) → read_from n (xs ++ d ∷ []) ≡ read_from n xs * 10 + (d - 48)
unfolding read_from
read_from_snoc n [] d = refl
read_from_snoc n (c ∷ cs) d = read_from_snoc (n * 10 + (c - 48)) cs d

read-digits : (fuel n : ℕ) → n < fuel → read_from 0 (digits fuel n) ≡ n
unfolding digits read_from
read-digits zero n h = absurd (omega arith)
read-digits (suc fuel) n h = elim (Bool-cases (ltb n 10)) [
  | inl e ↦ rw e (omega arith)
  | inr e ↦
      let big : 9 < n = ground arith in
      let rest = read-digits fuel (n / 10) (omega arith) in
      rw (e, read_from_snoc 0 (digits fuel (n / 10)) (n % 10 + 48), rest) (omega arith)
]

pub read_nat-show_nat : (n : ℕ) → read_nat (show_nat n) ≡ n
unfolding read_nat show_nat
read_nat-show_nat n = read-digits (suc n) n (omega arith)

pub show_nat_injective : (m n : ℕ) → show_nat m ≡ show_nat n → m ≡ n
show_nat_injective m n h = sym (read_nat-show_nat m) ∙ ap read_nat h ∙ read_nat-show_nat n
