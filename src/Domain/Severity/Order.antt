-- ===== src/Domain/Severity/Order.antt =====
-- The order of severities, and their names (app/domain/severity.py).
use echo_security_scanner.Base.{
  ◌≤◌, ◌≡◌, refl, List, [], ◌∷◌, arith, ltb, true, false, sym, subst, All, In, here, there,
  Bool-cases, inl, inr,
}
use echo_security_scanner.Domain.Severity.{Severity, rank, max_from, max_severity}

abbrev IsGreatest : Severity → List Severity → Severity → Type 0
IsGreatest best xs m = (rank best ≤ rank m) × All (λ s. rank s ≤ rank m) xs × In m (best ∷ xs)

behind : {a b c : Severity} {ys : List Severity} → In a (b ∷ ys) → In a (b ∷ c ∷ ys)
behind here = here
behind (there m) = there (there m)

open_nil : (best : Severity) → IsGreatest best [] (max_from best [])
unfolding max_from
open_nil best = (omega arith, tt, here)

step_of :
    (best x : Severity) (xs : List Severity)
    → ltb (rank best) (rank x) ≡ true
    → max_from best (x ∷ xs) ≡ max_from x xs
unfolding max_from
step_of best x xs e = rw e refl

stay_of :
    (best x : Severity) (xs : List Severity)
    → ltb (rank best) (rank x) ≡ false
    → max_from best (x ∷ xs) ≡ max_from best xs
unfolding max_from
stay_of best x xs e = rw e refl

max_from_lem : (best : Severity) (xs : List Severity) → IsGreatest best xs (max_from best xs)
max_from_lem best [] = open_nil best
max_from_lem best (x ∷ xs) = elim (Bool-cases (ltb (rank best) (rank x))) [
  | inl e ↦
      let (a, b, m) = max_from_lem x xs in
      subst (IsGreatest best (x ∷ xs)) (sym (step_of best x xs e))
        (ground (arith, a), (a, b), there m)
  | inr e ↦
      let (a, b, m) = max_from_lem best xs in
      subst (IsGreatest best (x ∷ xs)) (sym (stay_of best x xs e))
        (a, (ground (arith, a), b), behind m)
]

-- Of a list that is not empty, the maximum is an element, and no element's rank is above it.
pub max_severity-greatest :
    (x : Severity) (xs : List Severity)
    → In (max_severity (x ∷ xs)) (x ∷ xs)
      × All (λ s. rank s ≤ rank (max_severity (x ∷ xs))) (x ∷ xs)
unfolding max_severity
max_severity-greatest x xs = let (a, b, m) = max_from_lem x xs in (m, (a, b))
