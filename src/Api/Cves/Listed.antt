-- ===== src/Api/Cves/Listed.antt =====
-- Which CVEs are listed, in terms of the current findings (`list_cves` of app/api/routes/cves.py).
use mathlib.Core.List.{Perm}
use echo_security_scanner.Base.{
  ℕ, zero, suc, ◌+◌, ◌*◌, ◌≤◌, ◌≡◌, refl, ap, ◌∙◌, Bool, true, false, ◌&&◌, Option, none, some,
  List, [], ◌∷◌, ◌++◌, Text, ◌==◌, leb, arith, length, filter, any, all, All_imp, filter_congr, map,
  map-append, walk, walk-lem, order_by, length-order_by, order_by-perm, order_by-IsOrdered,
  IsComparison, IsOrdered, subst,
}
use echo_security_scanner.Domain.Severity.{Severity, rank}
use echo_security_scanner.Domain.Models.{Cve, Finding}
use echo_security_scanner.Domain.Database.{Db}
use echo_security_scanner.Scanner.Rollup.{current_findings, max_rank, count_images}
use echo_security_scanner.Scanner.Rollup.Meaning.{IsRolledUp, count_images_pos}
use echo_security_scanner.Scanner.Persist.Consistency.{IsConsistent}
use echo_security_scanner.Api.Params.{PageParams}
use echo_security_scanner.Api.Schemas.{CveSummary}
use echo_security_scanner.Api.Cves.{is_listed, cve_before, cve_summary, listed_page}

-- A list of current findings is of a severity: it is its worst, or none is asked for and there is a
-- finding.
abbrev pub is_worst : Option Severity → List Finding → Bool
is_worst none [] = false
is_worst none (f ∷ fs) = true
is_worst (some s) fs =
    any (λ f. f.severity_rank == rank s) fs && all (λ f. leb f.severity_rank (rank s)) fs

all_max : (r : ℕ) (fs : List Finding) → all (λ f. leb f.severity_rank r) fs ≡ leb (max_rank fs) r
unfolding max_rank
all_max r [] = ground arith
all_max r (f ∷ fs) = ground (arith, all_max r fs)

any_max :
    (r : ℕ) (f : Finding) (fs : List Finding)
    → (max_rank (f ∷ fs) == r)
      ≡ (any (λ g. g.severity_rank == r) (f ∷ fs) && all (λ g. leb g.severity_rank r) (f ∷ fs))
unfolding max_rank
any_max r f [] = ground arith
any_max r f (g ∷ fs) = ground (arith, any_max r g fs, all_max r (g ∷ fs))

worst_listed :
    (severity : Option Severity) (c : Cve) (fs : List Finding)
    → c.max_severity_rank ≡ max_rank fs
    → c.affected_image_count ≡ count_images fs
    → is_listed severity c ≡ is_worst severity fs
unfolding count_images
worst_listed none c [] r n = ground arith
worst_listed (some s) c [] r n = ground arith
worst_listed none c (f ∷ fs) r n = ground (arith, count_images_pos f fs)
worst_listed (some s) c (f ∷ fs) r n = ground (arith, count_images_pos f fs, any_max (rank s) f fs)

-- The CVEs that the listing is to hold.
abbrev pub live_cves : Option Severity → Db → List Cve
live_cves severity db =
    filter (λ c. is_worst severity (current_findings db.images db.findings c.id)) db.cves

listed_live :
    (severity : Option Severity) (db : Db)
    → IsConsistent db
    → filter (is_listed severity) db.cves ≡ live_cves severity db
listed_live severity db sound = filter_congr (is_listed severity) _ db.cves (
    All_imp (IsRolledUp db.images db.findings) _ db.cves
      (λ c h. worst_listed severity c (current_findings db.images db.findings c.id) h.rank h.count)
      sound.rolled_up)

-- The items of `n` pages, the offset raised by the limit.
pub walked : (Text → Text → Bool) → Option Severity → Db → ℕ → ℕ → ℕ → List CveSummary
walked collate severity db limit zero offset = []
walked collate severity db limit (suc n) offset =
    (listed_page collate (record { limit = limit; offset = offset }) severity db).items
    ++ walked collate severity db limit n (offset + limit)

walked_lem :
    (collate : Text → Text → Bool) (severity : Option Severity) (db : Db) (limit n offset : ℕ)
    → walked collate severity db limit n offset
      ≡ map cve_summary (
          walk limit n offset (order_by (cve_before collate) (filter (is_listed severity) db.cves)))
unfolding walked walk listed_page
walked_lem collate severity db limit zero offset = refl
walked_lem collate severity db limit (suc n) offset =
    rw (walked_lem collate severity db limit n (offset + limit), map-append) refl

cve_before-IsComparison :
    (collate : Text → Text → Bool) → IsComparison collate → IsComparison (cve_before collate)
cve_before-IsComparison collate c = record {
  asymm = λ a b h. ground (arith, c.asymm a.id b.id);
  trans = λ a b d h k. ground (arith, c.trans a.id b.id d.id);
}

-- On a consistent database, where the database's order of texts is an order: a client who walks
-- through enough pages meets each CVE once that some image's current run found, and no other, the
-- worst first; with a severity, those whose worst current finding has it. The total counts them.
pub list_cves_walk :
    (collate : Text → Text → Bool) (severity : Option Severity) (db : Db) (limit n : ℕ)
    (params : PageParams)
    → IsComparison collate
    → IsConsistent db
    → (listed_page collate params severity db).pagination.total ≤ n * limit
    → (rows : List Cve) × (walked collate severity db limit n 0 ≡ map cve_summary rows)
      × Perm rows (live_cves severity db)
      × IsOrdered (cve_before collate) rows
      × (length rows ≡ (listed_page collate params severity db).pagination.total)
unfolding listed_page
list_cves_walk collate severity db limit n params c sound enough =
    let rows = filter (is_listed severity) db.cves in
    let sorted = order_by (cve_before collate) rows in
    let counted : length sorted ≡ length rows = length-order_by (cve_before collate) rows in
    (
      sorted,
      walked_lem collate severity db limit n 0
          ∙ ap (map cve_summary) (walk-lem limit n 0 sorted (omega (arith, counted))),
      subst (Perm sorted) (listed_live severity db sound) (order_by-perm (cve_before collate) rows),
      order_by-IsOrdered (cve_before collate) rows (cve_before-IsComparison collate c),
      counted,
    )
