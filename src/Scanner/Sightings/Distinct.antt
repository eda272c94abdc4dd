-- ===== src/Scanner/Sightings/Distinct.antt =====
-- No row is proposed twice (`parse_report` of app/scanner/parser.py with `_upsert_findings` of
-- app/scanner/persist.py).
use echo_security_scanner.Base.{
  ℕ, ◌+◌, ◌≡◌, refl, false, Option, some, List, [], ◌∷◌, arith, any, Option-cases, inl, inr,
}
use echo_security_scanner.Scanner.Parser.{ParsedFinding, same_key}
use echo_security_scanner.Scanner.Parser.Dedup.{IsDistinct}
use echo_security_scanner.Scanner.Upsert.{PackageKey, package_key, key_eq}
use echo_security_scanner.Scanner.Upsert.Packages.{IsInjective}
use echo_security_scanner.Scanner.Sightings.{proposed, proposed_rows, same_row, has_duplicates}

same_row-same_key :
    (i r p q n m : ℕ) (f g : ParsedFinding) (ids : PackageKey → Option ℕ)
    → IsInjective ids
    → ids (package_key f) ≡ some p
    → ids (package_key g) ≡ some q
    → same_key f g ≡ false
    → same_row (proposed i r f p n) (proposed i r g q m) ≡ false
unfolding same_row proposed same_key key_eq package_key
same_row-same_key i r p q n m f g ids inj a b h =
    ground (arith, inj (package_key f) (package_key g) p)

any-proposed_rows :
    (i r p n : ℕ) (f : ParsedFinding) (ids : PackageKey → Option ℕ) (fs : List ParsedFinding)
    (next : ℕ)
    → IsInjective ids
    → ids (package_key f) ≡ some p
    → any (same_key f) fs ≡ false
    → any (same_row (proposed i r f p n)) (proposed_rows i r ids fs next) ≡ false
unfolding proposed_rows
any-proposed_rows i r p n f ids [] next inj a h = refl
any-proposed_rows i r p n f ids (g ∷ fs) next inj a h = elim (Option-cases (ids (package_key g))) [
  | inl e ↦ rw (e, proposed_rows) (any-proposed_rows i r p n f ids fs next inj a (ground arith))
  | inr (q, e) ↦
      rw (e, proposed_rows, same_row-same_key i r p q n next f g ids inj a e (ground arith))
        (any-proposed_rows i r p n f ids fs (next + 1) inj a (ground arith))
]

-- Findings with distinct keys, under package ids that tell packages apart, give rows no two of which
-- meet in the unique constraint of the findings: the upsert never updates one row twice.
pub proposed_rows_distinct :
    (i r : ℕ) (ids : PackageKey → Option ℕ) (fs : List ParsedFinding) (next : ℕ)
    → IsInjective ids
    → IsDistinct fs
    → has_duplicates (proposed_rows i r ids fs next) ≡ false
unfolding has_duplicates proposed_rows
proposed_rows_distinct i r ids [] next inj d = refl
proposed_rows_distinct i r ids (f ∷ fs) next inj d = elim (Option-cases (ids (package_key f))) [
  | inl e ↦ rw (e, proposed_rows) (proposed_rows_distinct i r ids fs next inj d.1)
  | inr (p, e) ↦
      rw (e, proposed_rows, any-proposed_rows i r p next f ids fs (next + 1) inj e d.0)
        (proposed_rows_distinct i r ids fs (next + 1) inj d.1)
]
