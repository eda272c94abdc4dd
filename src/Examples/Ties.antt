-- ===== src/Examples/Ties.antt =====
-- The listings whose ORDER BY leaves ties, at the data of the other examples, by a database that meets
-- its rows from the last to the first (app/api/routes/images.py, app/api/routes/cves.py).
use mathlib.Core.List.{Perm}
use mathlib.Core.List.Permᴰ
use echo_security_scanner.Base.{
  here, ℕ, ◌*◌, ◌≤◌, ◌≡◌, refl, false, none, List, [], ◌∷◌, codes, arith, length, filter,
  filter_map, map, reverse, All, In, IsConnex, IsShuffled, IsOrdered, text_eq,
}
use echo_security_scanner.Scanner.Upsert.{text_lt}
use echo_security_scanner.Scanner.Rollup.{current_findings, count_images, max_rank}
use echo_security_scanner.Scanner.Persist.Consistency.{IsConsistent}
use echo_security_scanner.Api.Schemas.{shown}
use echo_security_scanner.Api.Images.{
  Joined, join_finding, finding_before, cve_in_image, shown_findings, full_page,
}
use echo_security_scanner.Api.Images.Findings
use echo_security_scanner.Api.Images.Findings.{is_of_run, image_cves_walk}
use echo_security_scanner.Api.Cves.{
  affected_page, cve_images, Affected, affected_before, affected_image, current_image,
}
use echo_security_scanner.Api.Cves.Joins.{IsJoined}
use echo_security_scanner.Api.Cves.Carriers
use echo_security_scanner.Api.Cves.Carriers.{row_image, item_image, cve_images_walk}
use echo_security_scanner.Examples.Scans.{nginx, cve_0, one_scan-IsConsistent}
use echo_security_scanner.Examples.Listings.{listed_db, small_page, linked, text_lt-IsComparison}

text_lt-IsConnex : IsConnex text_lt
unfolding text_lt
text_lt-IsConnex [] [] h k = refl
text_lt-IsConnex [] (y ∷ t) h k = absurd (cc h)
text_lt-IsConnex (x ∷ s) [] h k = absurd (cc k)
text_lt-IsConnex (x ∷ s) (y ∷ t) h k = ground (arith, text_lt-IsConnex s t)

abbrev backwards {ℓ} : {A : Type ℓ} → ℕ → List A → List A
backwards request rows = reverse rows

backwards_shuffles :
    {A : Type 0} (request : ℕ) (rows : List A) → IsShuffled (backwards request rows) rows
backwards_shuffles request rows = Permᴰ.reverse rows

few_findings :
    (shown_findings (backwards 0) text_lt small_page none nginx listed_db).pagination.total ≤ 2 * 10
unfolding shown_findings full_page
few_findings = omega arith

image_cves_walk_example :
    let here_now =
      filter_map (join_finding listed_db) (filter (is_of_run nginx 1 none) listed_db.findings) in
    let items = Findings.walked backwards text_lt none nginx listed_db 10 2 0 in
    All (λ i. In i (map cve_in_image here_now)) items
    × ((rows : List Joined) × (map (λ i. i.cve_id) items ≡ map (λ j. j.finding.cve_id) rows)
        × Perm rows here_now
        × IsOrdered (finding_before text_lt) rows)
    × (length items
        ≡ (shown_findings (backwards 0) text_lt small_page none nginx listed_db).pagination.total)
image_cves_walk_example =
    image_cves_walk backwards text_lt none nginx listed_db 1 10 2 small_page backwards_shuffles
      text_lt-IsComparison text_lt-IsConnex linked refl few_findings

listed_db-IsConsistent : IsConsistent listed_db
listed_db-IsConsistent = record {
  images_unique = one_scan-IsConsistent.images_unique;
  packages = one_scan-IsConsistent.packages;
  runs_passed = one_scan-IsConsistent.runs_passed;
  rolled_up = one_scan-IsConsistent.rolled_up;
}

few_carriers :
    (affected_page (backwards 0) text_lt small_page (codes "CVE-0") listed_db).pagination.total
    ≤ 2 * 10
unfolding affected_page current_image text_eq
few_carriers = omega arith

cve_images_walk_example :
    let items = Carriers.walked backwards text_lt (codes "CVE-0") listed_db 10 2 0 in
    (cve_images (backwards 0) text_lt false (codes "CVE-0") small_page listed_db
      ≡ shown (affected_page (backwards 0) text_lt small_page (codes "CVE-0") listed_db))
    × ((found : List Affected) × All (IsJoined listed_db) found
        × (map (λ (a : Affected). a.finding) found
            ≡ current_findings listed_db.images listed_db.findings (codes "CVE-0"))
        × (1 ≡ count_images (map (λ (a : Affected). a.finding) found))
        × (4 ≡ max_rank (map (λ (a : Affected). a.finding) found))
        × All (λ i. In i (map affected_image found)) items
        × ((rows : List Affected) × (map item_image items ≡ map row_image rows)
            × Perm rows found
            × IsOrdered (affected_before text_lt) rows))
    × (length items
        ≡ (affected_page
            (backwards 0)
            text_lt
            small_page
            (codes "CVE-0")
            listed_db).pagination.total)
cve_images_walk_example =
    cve_images_walk backwards text_lt cve_0 listed_db 10 2 small_page backwards_shuffles
      text_lt-IsComparison text_lt-IsConnex listed_db-IsConsistent linked here few_carriers
