-- ===== src/Scanner/Upsert.antt =====
-- app/scanner/persist.py: the three upserts of a scan's result.
pub mod Cves
pub mod Packages
use echo_security_scanner.Base.{
  ℕ, ◌+◌, Bool, true, false, not, ◌&&◌, ◌||◌, Option, none, some, List, [], ◌∷◌, ◌++◌, map, Text,
  codes, text_eq, ◌==◌, ltb, if◌then◌else◌, any, find?, filter, length, is_none, coalesce, reverse,
}
use echo_security_scanner.Errors.{Exception, other, ok, raise, Exec}
use echo_security_scanner.Domain.Severity.{
  Severity, unknown, low, medium, high, critical, rank, rank_to_severity,
}
use echo_security_scanner.Domain.Models.{Time, Package, Cve, Finding, FindingCounts, Image}
use echo_security_scanner.Domain.Database.{Db, Sequences}
use echo_security_scanner.Scanner.Parser.{ParsedFinding, ParsedReport}

-- A package's name, version and type.
pub record PackageKey : Type 0 where
  pub name : Text
  pub version : Text
  pub type : Text

unfoldable pub package_key : ParsedFinding → PackageKey
package_key f = record { name = f.package_name; version = f.package_version; type = f.package_type }

unfoldable pub key_eq : PackageKey → PackageKey → Bool
key_eq k l = text_eq k.name l.name && text_eq k.version l.version && text_eq k.type l.type

-- `<` on texts and on tuples of texts: lexicographic.
unfoldable pub text_lt : Text → Text → Bool
text_lt s [] = false
text_lt [] (y ∷ ys) = true
text_lt (x ∷ xs) (y ∷ ys) = ltb x y || x == y && text_lt xs ys

key_lt : PackageKey → PackageKey → Bool
unfolding text_lt
key_lt k l =
    text_lt k.name l.name
    || text_eq k.name l.name
      && (text_lt k.version l.version || text_eq k.version l.version && text_lt k.type l.type)

insert_key : PackageKey → List PackageKey → List PackageKey
unfolding key_eq key_lt
insert_key k [] = k ∷ []
insert_key k (l ∷ ls) =
    if key_eq k l then l ∷ ls else if key_lt k l then k ∷ l ∷ ls else l ∷ insert_key k ls

-- `sorted({…})`
sorted_keys : List ParsedFinding → List PackageKey
unfolding insert_key package_key
sorted_keys [] = []
sorted_keys (f ∷ fs) = insert_key (package_key f) (sorted_keys fs)

has_key : PackageKey → Package → Bool
unfolding key_eq
has_key k p = key_eq k (record { name = p.name; version = p.version; type = p.type })

-- One proposed row, on the rows and the next id; it takes an id also where it conflicts.
insert_package : PackageKey → List Package × ℕ → List Package × ℕ
unfolding has_key
insert_package k (packages, next) = if any (has_key k) packages then (packages, next + 1) else (
  packages ++ record { id = next; name = k.name; version = k.version; type = k.type } ∷ [],
  next + 1,
)

unfoldable pub insert_packages : List PackageKey → List Package × ℕ → List Package × ℕ
unfolding insert_package
insert_packages [] state = state
insert_packages (k ∷ ks) state = insert_packages ks (insert_package k state)

-- `package_ids.get(key)`, of the rows that the select finds.
package_id_of : List Package → PackageKey → Option ℕ
unfolding has_key
package_id_of packages k = elim (find? (has_key k) packages) [ none ↦ none | some p ↦ some p.id ]

-- The ids by key: `get` on the dict is a search in the rows that the select returns.
unfoldable pub upsert_packages : ParsedReport → Db → (PackageKey → Option ℕ) × Db
unfolding sorted_keys insert_packages package_id_of
upsert_packages report db =
    let keys = sorted_keys report.findings in
    let (packages, next) = insert_packages keys (db.packages, db.seq.next_package) in
    (
      package_id_of (filter (λ p. any (λ k. has_key k p) keys) packages),
      record db { packages = packages; seq = record db.seq { next_package = next } },
    )

-- The dict that `_upsert_cves` collects for one id.
pub record CveFields : Type 0 where
  pub id : Text
  pub title : Option Text
  pub description : Option Text
  pub published_at : Option Time
  pub last_modified_at : Option Time

fill : ParsedFinding → CveFields → CveFields
fill f c = record c {
  title = coalesce c.title f.title;
  description = coalesce c.description f.description;
  published_at = coalesce c.published_at f.published_at;
  last_modified_at = coalesce c.last_modified_at f.last_modified_at;
}

empty_fields : Text → CveFields
empty_fields id = record {
  id = id;
  title = none;
  description = none;
  published_at = none;
  last_modified_at = none;
}

collect : ParsedFinding → List CveFields → List CveFields
unfolding fill empty_fields
collect f [] = fill f (empty_fields f.cve_id) ∷ []
collect f (c ∷ cs) = if text_eq f.cve_id c.id then fill f c ∷ cs else c ∷ collect f cs

pub collect_all : List ParsedFinding → List CveFields → List CveFields
unfolding collect
collect_all [] cs = cs
collect_all (f ∷ fs) cs = collect_all fs (collect f cs)

-- The `where` of the update: the row lacks a field that the proposed row has.
unfoldable pub fills_in : CveFields → Cve → Bool
fills_in new row =
    is_none row.title && not (is_none new.title)
    || is_none row.description && not (is_none new.description)
    || is_none row.published_at && not (is_none new.published_at)
    || is_none row.last_modified_at && not (is_none new.last_modified_at)

unfoldable pub update_cve : CveFields → Cve → Cve
unfolding fills_in
update_cve new row =
    if fills_in new row
    then record row {
      title = coalesce new.title row.title;
      description = coalesce new.description row.description;
      published_at = coalesce new.published_at row.published_at;
      last_modified_at = coalesce new.last_modified_at row.last_modified_at;
    }
    else row

unfoldable pub new_cve : CveFields → Cve
new_cve c = record {
  id = c.id;
  title = c.title;
  description = c.description;
  max_severity = unknown;
  max_severity_rank = 0;
  affected_image_count = 0;
  published_at = c.published_at;
  last_modified_at = c.last_modified_at;
}

unfoldable pub upsert_cve : CveFields → List Cve → List Cve
unfolding update_cve new_cve
upsert_cve new [] = new_cve new ∷ []
upsert_cve new (row ∷ rows) =
    if text_eq new.id row.id then update_cve new row ∷ rows else row ∷ upsert_cve new rows

unfoldable pub upsert_all_cves : List CveFields → List Cve → List Cve
unfolding upsert_cve
upsert_all_cves [] rows = rows
upsert_all_cves (c ∷ cs) rows = upsert_all_cves cs (upsert_cve c rows)

unfoldable pub upsert_cves : ParsedReport → Db → Db
unfolding collect_all upsert_all_cves
upsert_cves report db = record db {
  cves = upsert_all_cves (collect_all report.findings []) db.cves;
}
