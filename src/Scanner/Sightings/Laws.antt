-- ===== src/Scanner/Sightings/Laws.antt =====
-- What an upsert of findings leaves of the table (`_upsert_findings` of app/scanner/persist.py).
use echo_security_scanner.Base.{
  ℕ, ◌+◌, ◌≡◌, refl, ◌∙◌, inl, inr, false, Option, List, [], ◌∷◌, map, Text, text_eq_iff, arith,
  filter, All, Option-cases, Bool-cases,
}
use echo_security_scanner.Domain.Models.{Finding}
use echo_security_scanner.Scanner.Parser.{ParsedFinding}
use echo_security_scanner.Scanner.Upsert.{PackageKey, package_key}
use echo_security_scanner.Scanner.Sightings.{
  proposed, proposed_rows, same_row, seen_again, upsert_finding, upsert_rows,
}
use echo_security_scanner.Scanner.Rollup.{of_cve, member}

-- A row of another CVE leaves a CVE's rows as they were.
upsert_finding-other :
    (c : Text) (new : Finding) (table : List Finding)
    → of_cve c new ≡ false
    → filter (of_cve c) (upsert_finding new table) ≡ filter (of_cve c) table
unfolding upsert_finding
upsert_finding-other c new [] h = rw h
upsert_finding-other c new (row ∷ table) h =
    ground (arith, text_eq_iff new.cve_id row.cve_id, upsert_finding-other c new table h)

pub upsert_rows-other :
    (c : Text) (rows table : List Finding)
    → All (λ r. of_cve c r ≡ false) rows
    → filter (of_cve c) (upsert_rows rows table) ≡ filter (of_cve c) table
unfolding upsert_rows
upsert_rows-other c [] table h = refl
upsert_rows-other c (new ∷ rows) table h =
    upsert_rows-other c rows (upsert_finding new table) h.1 ∙ upsert_finding-other c new table h.0

pub proposed_rows-All {ℓ} :
    (P : Finding → Type ℓ) (image_id run_id : ℕ) (ids : PackageKey → Option ℕ)
    (fs : List ParsedFinding) (next : ℕ)
    → All (λ f. (p n : ℕ) → P (proposed image_id run_id f p n)) fs
    → All P (proposed_rows image_id run_id ids fs next)
unfolding proposed_rows
proposed_rows-All P i r ids [] next h = tt
proposed_rows-All P i r ids (f ∷ fs) next h = elim (Option-cases (ids (package_key f))) [
  | inl e ↦ rw (e, proposed_rows) (proposed_rows-All P i r ids fs next h.1)
  | inr (p, e) ↦ rw (e, proposed_rows) (h.0 p next, proposed_rows-All P i r ids fs (next + 1) h.1)
]

each_other :
    (c : Text) (image_id run_id : ℕ) (fs : List ParsedFinding)
    → member c (map (λ f. f.cve_id) fs) ≡ false
    → All (λ f. (p n : ℕ) → of_cve c (proposed image_id run_id f p n) ≡ false) fs
unfolding proposed
each_other c i r [] h = tt
each_other c i r (f ∷ fs) h = (λ p n. ground arith, each_other c i r fs (ground arith))

-- The rows of a report are of the report's CVEs.
pub proposed_rows-other :
    (c : Text) (image_id run_id : ℕ) (ids : PackageKey → Option ℕ) (fs : List ParsedFinding)
    (next : ℕ)
    → member c (map (λ f. f.cve_id) fs) ≡ false
    → All (λ r. of_cve c r ≡ false) (proposed_rows image_id run_id ids fs next)
proposed_rows-other c i r ids fs next h =
    proposed_rows-All (λ r. of_cve c r ≡ false) i r ids fs next (each_other c i r fs h)

upsert_finding-All {ℓ} :
    (P : Finding → Type ℓ)
    → ((new row : Finding) → P new → P row → P (seen_again new row))
    → (new : Finding) (table : List Finding) → P new
    → All P table
    → All P (upsert_finding new table)
unfolding upsert_finding
upsert_finding-All P k new [] p t = (p, tt)
upsert_finding-All P k new (row ∷ table) p t = elim (Bool-cases (same_row new row)) [
  | inl e ↦ rw e (k new row p t.0, t.1)
  | inr e ↦ rw e (t.0, upsert_finding-All P k new table p t.1)
]

-- A property of every proposed row and of every row of the table, kept by a renewed sighting.
pub upsert_rows-All {ℓ} :
    (P : Finding → Type ℓ)
    → ((new row : Finding) → P new → P row → P (seen_again new row))
    → (rows table : List Finding) → All P rows
    → All P table
    → All P (upsert_rows rows table)
unfolding upsert_rows
upsert_rows-All P k [] table h t = t
upsert_rows-All P k (new ∷ rows) table h t =
    upsert_rows-All P k rows (upsert_finding new table) h.1 (upsert_finding-All P k new table h.0 t)
