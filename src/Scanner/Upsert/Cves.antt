-- ===== src/Scanner/Upsert/Cves.antt =====
-- What the upsert of the CVEs leaves of their derived columns (`_upsert_cves` of
-- app/scanner/persist.py).
use echo_security_scanner.Base.{◌≡◌, List, [], ◌∷◌, Text, text_eq, arith, All, Bool-cases, inl, inr}
use echo_security_scanner.Domain.Models.{Cve}
use echo_security_scanner.Scanner.Parser.{ParsedFinding}
use echo_security_scanner.Scanner.Upsert.{
  CveFields, collect, collect_all, update_cve, new_cve, upsert_cve, upsert_all_cves,
}

-- The id and the derived columns of a row stay.
pub record SameRollup (row new : Cve) : Type 0 where
  pub id : new.id ≡ row.id
  pub rank : new.max_severity_rank ≡ row.max_severity_rank
  pub severity : new.max_severity ≡ row.max_severity
  pub count : new.affected_image_count ≡ row.affected_image_count

pub update_cve-SameRollup : (new : CveFields) (row : Cve) → SameRollup row (update_cve new row)
unfolding update_cve
update_cve-SameRollup new row = ground arith

-- A property that an update keeps and that a new row has.
upsert_cve-All {ℓ} :
    (P : Cve → Type ℓ)
    → ((row new : Cve) → SameRollup row new → P row → P new)
    → (c : CveFields) (rows : List Cve) → P (new_cve c)
    → All P rows
    → All P (upsert_cve c rows)
unfolding upsert_cve
upsert_cve-All P k c [] p h = (p, tt)
upsert_cve-All P k c (row ∷ rows) p h = elim (Bool-cases (text_eq c.id row.id)) [
  | inl e ↦ rw e (k row (update_cve c row) (update_cve-SameRollup c row) h.0, h.1)
  | inr e ↦ rw e (h.0, upsert_cve-All P k c rows p h.1)
]

pub upsert_all_cves-All {ℓ} :
    (P : Cve → Type ℓ)
    → ((row new : Cve) → SameRollup row new → P row → P new)
    → (cs : List CveFields) (rows : List Cve) → All (λ c. P (new_cve c)) cs
    → All P rows
    → All P (upsert_all_cves cs rows)
unfolding upsert_all_cves
upsert_all_cves-All P k [] rows p h = h
upsert_all_cves-All P k (c ∷ cs) rows p h =
    upsert_all_cves-All P k cs (upsert_cve c rows) p.1 (upsert_cve-All P k c rows p.0 h)

-- The collected ids are those of the findings.
collect-All {ℓ} :
    (P : Text → Type ℓ) (f : ParsedFinding) (cs : List CveFields)
    → P f.cve_id
    → All (λ c. P c.id) cs
    → All (λ c. P c.id) (collect f cs)
unfolding collect
collect-All P f [] p h = (p, tt)
collect-All P f (c ∷ cs) p h = elim (Bool-cases (text_eq f.cve_id c.id)) [
  | inl e ↦ rw e h
  | inr e ↦ rw e (h.0, collect-All P f cs p h.1)
]

pub collect_all-All {ℓ} :
    (P : Text → Type ℓ) (fs : List ParsedFinding) (cs : List CveFields)
    → All (λ f. P f.cve_id) fs
    → All (λ c. P c.id) cs
    → All (λ c. P c.id) (collect_all fs cs)
unfolding collect_all
collect_all-All P [] cs p h = h
collect_all-All P (f ∷ fs) cs p h =
    collect_all-All P fs (collect f cs) p.1 (collect-All P f cs p.0 h)
