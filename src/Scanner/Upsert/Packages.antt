-- ===== src/Scanner/Upsert/Packages.antt =====
-- The ids that `_upsert_packages` of app/scanner/persist.py returns.
use echo_security_scanner.Base.{
  ℕ, ◌+◌, ◌<◌, ◌≡◌, sym, ◌∙◌, true, Option, some, List, [], ◌∷◌, text_eq_iff, arith, any, find?, In,
  All, All_imp, All-append, IsUnique, IsUnique-at, IsUnique-snoc, filter-IsUnique, find?-In,
  Option-cases, Bool-cases, inl, inr,
}
use echo_security_scanner.Domain.Models.{Package}
use echo_security_scanner.Domain.Database.{Db}
use echo_security_scanner.Scanner.Parser.{ParsedReport}
use echo_security_scanner.Scanner.Upsert.{
  PackageKey, key_eq, has_key, insert_package, insert_packages, package_id_of, sorted_keys,
  upsert_packages,
}

-- The rows have distinct ids, all below the sequence.
pub record ArePackages (packages : List Package) (next : ℕ) : Type 0 where
  pub unique : IsUnique (λ (p : Package). p.id) packages
  pub fresh : All (λ p. p.id < next) packages

next_grows :
    (packages : List Package) (next : ℕ)
    → All (λ p. p.id < next) packages
    → All (λ p. p.id < next + 1) packages
next_grows packages next h =
    All_imp (λ p. p.id < next) (λ p. p.id < next + 1) packages (λ p l. omega arith) h

insert_package-ArePackages :
    (k : PackageKey) (packages : List Package) (next : ℕ)
    → ArePackages packages next
    → let after = insert_package k (packages, next) in ArePackages after.0 after.1
unfolding insert_package
insert_package-ArePackages k packages next h = elim (Bool-cases (any (has_key k) packages)) [
  | inl e ↦
      rw (e, insert_package)
        (record { unique = h.unique; fresh = next_grows packages next h.fresh })
  | inr e ↦
      rw (e, insert_package)
        (record {
          unique = IsUnique-snoc (λ (p : Package). p.id) packages _ h.fresh h.unique;
          fresh =
              All-append (λ p. p.id < next + 1) packages _ (next_grows packages next h.fresh)
                (omega arith, tt);
        })
]

insert_packages-ArePackages :
    (ks : List PackageKey) (state : List Package × ℕ)
    → ArePackages state.0 state.1
    → let after = insert_packages ks state in ArePackages after.0 after.1
unfolding insert_packages
insert_packages-ArePackages [] state h = h
insert_packages-ArePackages (k ∷ ks) state h =
    insert_packages-ArePackages ks (insert_package k state)
      (insert_package-ArePackages k state.0 state.1 h)

pub upsert_packages-ArePackages :
    (report : ParsedReport) (db : Db)
    → ArePackages db.packages db.seq.next_package
    → let after = (upsert_packages report db).1 in ArePackages after.packages after.seq.next_package
unfolding upsert_packages
upsert_packages-ArePackages report db h =
    insert_packages-ArePackages (sorted_keys report.findings) (db.packages, db.seq.next_package) h

key_eq_trans : (k l m : PackageKey) → key_eq k m ≡ true → key_eq l m ≡ true → key_eq k l ≡ true
unfolding key_eq
key_eq_trans k l m h g = ground (
  arith,
  text_eq_iff k.name m.name,
  text_eq_iff l.name m.name,
  text_eq_iff k.name l.name,
  text_eq_iff k.version m.version,
  text_eq_iff l.version m.version,
  text_eq_iff k.version l.version,
  text_eq_iff k.type m.type,
  text_eq_iff l.type m.type,
  text_eq_iff k.type l.type,
)

-- Two keys with one id are equal.
abbrev pub IsInjective : (PackageKey → Option ℕ) → Type 0
IsInjective ids = (k l : PackageKey) (p : ℕ) → ids k ≡ some p → ids l ≡ some p → key_eq k l ≡ true

row_of :
    (packages : List Package) (k : PackageKey) (p : ℕ)
    → package_id_of packages k ≡ some p
    → (row : Package) × In row packages × (has_key k row ≡ true) × (row.id ≡ p)
unfolding package_id_of
row_of packages k p h = elim (Option-cases (find? (has_key k) packages)) [
  | inl e ↦ absurd (ground (arith, e))
  | inr (row, e) ↦
      let found = find?-In (has_key k) packages row e in (row, found.0, found.1, ground (arith, e))
]

package_id_of-IsInjective :
    (packages : List Package)
    → IsUnique (λ (p : Package). p.id) packages
    → IsInjective (package_id_of packages)
unfolding has_key
package_id_of-IsInjective packages u k l p h g =
    let (x, m, kx, ex) = row_of packages k p h in
    let (y, n, ly, ey) = row_of packages l p g in
    let same = IsUnique-at (λ (p : Package). p.id) packages u m n (ex ∙ sym ey) in
    key_eq_trans k l _ kx (rw same ly)

pub upsert_packages-IsInjective :
    (report : ParsedReport) (db : Db)
    → ArePackages db.packages db.seq.next_package
    → IsInjective (upsert_packages report db).0
unfolding upsert_packages
upsert_packages-IsInjective report db h = package_id_of-IsInjective _ (
    filter-IsUnique (λ (p : Package). p.id) _ _
      (insert_packages-ArePackages (sorted_keys report.findings) (db.packages, db.seq.next_package)
        h).unique)
