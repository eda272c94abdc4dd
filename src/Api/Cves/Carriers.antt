-- ===== src/Api/Cves/Carriers.antt =====
-- Which images a CVE is shown in (`cve_images` of app/api/routes/cves.py), against the derived columns of
-- the CVE.
use mathlib.Core.List.{Perm, map-map}
use echo_security_scanner.Base.{
  IsComparison, IsConnex, IsOrdered, IsShuffled, order_by-IsOrdered, order_by-keys, on_key,
  ranked_before, ranked_before-IsComparison, ranked_before-IsConnex, texts_before,
  texts_before-IsComparison, texts_before-IsConnex, map-page_of, page_of, All-append, All-map,
  All-take, All-drop, All-order_by, All-shuffled, All-In, In-map, ℕ, zero, suc, ◌+◌, ◌*◌, ◌≤◌, ◌≡◌,
  refl, sym, ap, ◌∙◌, Bool, true, false, List, [], ◌∷◌, ◌++◌, Text, text_eq, text_eq_refl, arith,
  length, length-map, filter, filter_map, any, All, All_at, All_imp, All-filter, In, here, there,
  map, map-append, walk, walk-lem, order_by, length-order_by, order_by-perm,
}
use echo_security_scanner.Domain.Models.{Cve, Finding}
use echo_security_scanner.Domain.Database.{Db}
use echo_security_scanner.Scanner.Rollup.{current_findings, max_rank, count_images}
use echo_security_scanner.Scanner.Rollup.Meaning.{IsRolledUp}
use echo_security_scanner.Scanner.Persist.Consistency.{IsConsistent}
use echo_security_scanner.Api.Params.{PageParams}
use echo_security_scanner.Api.Schemas.{ImageAffectedByCve, shown}
use echo_security_scanner.Api.Images.Findings.{IsLinked}
use echo_security_scanner.Api.Cves.{
  current_image, Affected, join_affected, affected_before, affected_image, names_cve, affected_page,
  cve_images,
}
use echo_security_scanner.Api.Cves.Joins.{
  IsJoined, affected_findings, affected-IsJoined, counted_current,
}

-- The items of `n` pages, the offset raised by the limit. Each request meets the rows in an order of
-- its own.
pub walked :
    (ℕ → List Affected → List Affected)
    → (Text → Text → Bool)
    → Text
    → Db
    → ℕ
    → ℕ
    → ℕ
    → List ImageAffectedByCve
walked meets collate cve_id db limit zero offset = []
walked meets collate cve_id db limit (suc n) offset =
    (affected_page (meets offset) collate (record { limit = limit; offset = offset }) cve_id
      db).items
    ++ walked meets collate cve_id db limit n (offset + limit)

-- What the ORDER BY compares.
abbrev affected_key : Affected → ℕ × (Text × Text)
affected_key a = (a.finding.severity_rank, (a.image.name, a.image.tag))

-- The image that a row, or an item, names.
abbrev pub row_image : Affected → Text × Text
row_image a = (a.image.name, a.image.tag)

abbrev pub item_image : ImageAffectedByCve → Text × Text
item_image i = (i.name, i.tag)

affected_before-IsComparison :
    (collate : Text → Text → Bool)
    → IsComparison collate
    → IsConnex collate
    → IsComparison (affected_before collate)
affected_before-IsComparison collate c connex =
    on_key affected_key (ranked_before (texts_before collate)) (
      ranked_before-IsComparison (texts_before collate)
        (texts_before-IsComparison collate c connex))

-- The rows as the joins find them.
abbrev found_rows : Text → Db → List Affected
found_rows cve_id db = filter_map (join_affected db) (filter (names_cve cve_id) db.findings)

module _ (meets : ℕ → List Affected → List Affected)
    (shuffles : (request : ℕ) (rows : List Affected) → IsShuffled (meets request rows) rows)
    (collate : Text → Text → Bool) (c : IsComparison collate) (connex : IsConnex collate)
    (cve_id : Text) (db : Db) where
  same_images :
      (request : ℕ)
      → map row_image (order_by (affected_before collate) (meets request (found_rows cve_id db)))
        ≡ map row_image (order_by (affected_before collate) (found_rows cve_id db))
  same_images request =
      sym (map-map (λ (k : ℕ × (Text × Text)). k.1) affected_key _)
      ∙ ap (map (λ (k : ℕ × (Text × Text)). k.1)) (
          order_by-keys affected_key (ranked_before (texts_before collate))
            (ranked_before-IsComparison (texts_before collate)
              (texts_before-IsComparison collate c connex))
            (ranked_before-IsConnex (texts_before collate) (texts_before-IsConnex collate c connex))
            (shuffles request (found_rows cve_id db)))
      ∙ map-map (λ (k : ℕ × (Text × Text)). k.1) affected_key _

  page_images :
      (limit offset : ℕ)
      → map item_image
          (affected_page
            (meets offset)
            collate
            (record { limit = limit; offset = offset })
            cve_id
            db).items
        ≡ page_of limit offset
            (map row_image (order_by (affected_before collate) (found_rows cve_id db)))
  unfolding affected_page
  page_images limit offset =
      map-map item_image affected_image _
      ∙ map-page_of row_image limit offset _
      ∙ ap (page_of limit offset) (same_images offset)

  walked_images :
      (limit n offset : ℕ)
      → map item_image (walked meets collate cve_id db limit n offset)
        ≡ walk limit n offset
            (map row_image (order_by (affected_before collate) (found_rows cve_id db)))
  unfolding walked walk
  walked_images limit zero offset = refl
  walked_images limit (suc n) offset =
      rw (map-append, page_images limit offset, walked_images limit n (offset + limit)) refl

  -- Every item is a row of the statement.
  walked_rows :
      (limit n offset : ℕ)
      → All
          (λ i. In i (map affected_image (found_rows cve_id db)))
          (walked meets collate cve_id db limit n offset)
  unfolding walked affected_page
  walked_rows limit zero offset = tt
  walked_rows limit (suc n) offset =
      let rows = found_rows cve_id db in
      let Is : ImageAffectedByCve → Type 0 = λ i. In i (map affected_image rows) in
      All-append Is _ _
        (All-map Is affected_image _ (
          All-take _ limit _ (
            All-drop _ offset _ (
              All-order_by _ (affected_before collate) (meets offset rows) (
                All-shuffled (λ a. Is (affected_image a)) (shuffles offset rows)
                  (All_imp _ _ rows (λ a m. In-map affected_image m) (All-In rows)))))))
        (walked_rows limit n (offset + limit))

known : (c : Cve) (cves : List Cve) → In c cves → any (λ (d : Cve). text_eq d.id c.id) cves ≡ true
known c [] m = elim m [ ]
known c (d ∷ cves) here = ground (arith, text_eq_refl c.id)
known c (d ∷ cves) (there m) = ground (arith, known c cves m)

-- On a consistent database whose findings' keys name rows, for a CVE of the database, where the
-- database's order of texts is an order in which only equal texts tie, and each request may break the
-- ties of its ORDER BY in its own way: a page is shown. The rows that the joins find are the CVE's
-- current findings, each with the image, the package and the run that it names, and the CVE's image
-- count and rank are those of just these. A client who walks through enough pages meets as many items
-- as the total says, each of them such a row, and the images of the items are in order those of all
-- these rows, so each image as often as the CVE has findings there.
pub cve_images_walk :
    (meets : ℕ → List Affected → List Affected) (collate : Text → Text → Bool) (c : Cve) (db : Db)
    (limit n : ℕ) (params : PageParams)
    → ((request : ℕ) (rows : List Affected) → IsShuffled (meets request rows) rows)
    → IsComparison collate
    → IsConnex collate
    → IsConsistent db
    → All (IsLinked db) db.findings
    → In c db.cves
    → (affected_page (meets 0) collate params c.id db).pagination.total ≤ n * limit
    → let items = walked meets collate c.id db limit n 0 in
      (cve_images (meets 0) collate false c.id params db
        ≡ shown (affected_page (meets 0) collate params c.id db))
      × ((found : List Affected) × All (IsJoined db) found
          × (map (λ (a : Affected). a.finding) found ≡ current_findings db.images db.findings c.id)
          × (c.affected_image_count ≡ count_images (map (λ (a : Affected). a.finding) found))
          × (c.max_severity_rank ≡ max_rank (map (λ (a : Affected). a.finding) found))
          × All (λ i. In i (map affected_image found)) items
          × ((rows : List Affected) × (map item_image items ≡ map row_image rows)
              × Perm rows found
              × IsOrdered (affected_before collate) rows))
      × (length items ≡ (affected_page (meets 0) collate params c.id db).pagination.total)
unfolding cve_images affected_page current_findings
cve_images_walk meets collate c db limit n params shuffles comparison connex sound linked m enough =
    let fs = filter (names_cve c.id) db.findings in
    let found = filter_map (join_affected db) fs in
    let sorted = order_by (affected_before collate) found in
    let items = walked meets collate c.id db limit n 0 in
    let finding : Affected → Finding = λ a. a.finding in
    let linked_fs : All (IsLinked db) fs =
      All-filter (IsLinked db) (names_cve c.id) db.findings
        (All_imp (IsLinked db) _ db.findings (λ f l _. l) linked) in
    let joined : map finding found ≡ current_findings db.images db.findings c.id =
      affected_findings db fs sound.images_unique linked_fs in
    let total : length (filter_map (current_image db) fs) ≡ length found =
      counted_current db fs sound.images_unique
      ∙ ap length (sym joined)
      ∙ length-map finding found in
    let counted : length (map row_image sorted) ≡ length found =
      length-map row_image sorted ∙ length-order_by (affected_before collate) found in
    let met : map item_image items ≡ map row_image sorted =
      walked_images meets shuffles collate comparison connex c.id db limit n 0
      ∙ walk-lem limit n 0 (map row_image sorted) (omega (arith, counted, total)) in
    let derived = All_at (IsRolledUp db.images db.findings) sound.rolled_up m in
    (
      rw (known c db.cves m) refl,
      (
        found,
        affected-IsJoined db fs sound.images_unique linked_fs,
        joined,
        derived.count ∙ ap count_images (sym joined),
        derived.rank ∙ ap max_rank (sym joined),
        walked_rows meets shuffles collate comparison connex c.id db limit n 0,
        (
          sorted,
          met,
          order_by-perm (affected_before collate) found,
          order_by-IsOrdered (affected_before collate) found
              (affected_before-IsComparison collate comparison connex),
        ),
      ),
      sym (length-map item_image items) ∙ ap length met ∙ counted ∙ sym total,
    )
