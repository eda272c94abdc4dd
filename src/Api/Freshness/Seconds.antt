-- ===== src/Api/Freshness/Seconds.antt =====
-- When a revalidating client is told that nothing changed (`apply_freshness` of app/api/deps.py).
use echo_security_scanner.Base.{
  ℕ, ◌≤◌, ◌≡◌, refl, ap, ap₂, ◌≢◌, ◌↔◌, true, max, none, some, List, [], ◌∷◌, ◌++◌, Text, codes,
  text_eq_iff, show_nat, show_nat_injective, arith, inl, inr, Option-cases,
}
use echo_security_scanner.Domain.Models.{Time, ScanRun}
use echo_security_scanner.Api.Freshness.{newest, stamp, etag, apply_freshness}

newest-none : (runs : List ScanRun) → newest runs ≡ none → runs ≡ []
unfolding newest
newest-none [] h = refl
newest-none (q ∷ runs) h = absurd (ground arith)

newest-snoc :
    (runs : List ScanRun) (r : ScanRun) {t : Time}
    → newest runs ≡ some t
    → newest (runs ++ r ∷ []) ≡ some (max t r.completed_at)
unfolding newest
newest-snoc [] r h = cc
newest-snoc (q ∷ runs) r h = elim (Option-cases (newest runs)) [
  | inl e ↦ rw (newest-none runs e) (ground (arith, newest-none runs e))
  | inr (u, e) ↦ ground (arith, e, newest-snoc runs r e)
]

snoc_not_nil : (xs : Text) (a : ℕ) → xs ++ a ∷ [] ≢ []
snoc_not_nil [] a h = cc
snoc_not_nil (x ∷ xs) a h = cc

snoc_injective : (xs ys : Text) (a : ℕ) → xs ++ a ∷ [] ≡ ys ++ a ∷ [] → xs ≡ ys
snoc_injective [] [] a h = refl
snoc_injective [] (y ∷ ys) a h = absurd (snoc_not_nil ys a (cc h))
snoc_injective (x ∷ xs) [] a h = absurd (snoc_not_nil xs a (cc h))
snoc_injective (x ∷ xs) (y ∷ ys) a h = ap₂ ◌∷◌ (cc h) (snoc_injective xs ys a (cc h))

etag_injective : (t u : Time) → etag t ≡ etag u → stamp t ≡ stamp u
unfolding etag
etag_injective t u h =
    show_nat_injective (stamp t) (stamp u)
      (snoc_injective (show_nat (stamp t)) (show_nat (stamp u)) b'"' (cc h))

etag_stamp : (t u : Time) → stamp t ≡ stamp u → etag t ≡ etag u
unfolding etag
etag_stamp t u h = ap (λ n. codes "W/\"" ++ (show_nat n ++ codes "\"")) h

-- A client revalidates after one more run was recorded. It is told that nothing changed exactly where
-- that run completed in no later second than the newest one that the client saw: a run of a later
-- second is never hidden, and one of the same second always is.
pub apply_freshness-snoc :
    (http_date : Time → Text) (runs : List ScanRun) (r : ScanRun) (t : Time)
    → newest runs ≡ some t
    → ((apply_freshness http_date (some (etag t)) (runs ++ r ∷ [])).1 ≡ true)
      ↔ (stamp r.completed_at ≤ stamp t)
unfolding apply_freshness
apply_freshness-snoc http_date runs r t h =
    rw (newest-snoc runs r h, apply_freshness)
      (
        λ k. ground (arith, etag_injective t (max t r.completed_at) ((text_eq_iff (etag t) _).0 k)),
        λ k. (text_eq_iff (etag t) _).1 (etag_stamp t (max t r.completed_at) (ground arith)),
      )
