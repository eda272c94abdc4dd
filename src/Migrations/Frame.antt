-- ===== src/Migrations/Frame.antt =====
-- A migration works in a database that holds other tables as it does in an empty one
-- (app/db/migrations).
use echo_security_scanner.Base.{
  Option-cases, ◌≡◌, refl, ap, ap₂, ◌∙◌, Bool, true, false, not, ◌&&◌, List, [], ◌∷◌, ◌++◌, Text,
  text_eq, arith, any, all, filter, any-append, filter-append, Bool-cases, inl, inr,
}
use echo_security_scanner.Errors.{ok}
use echo_security_scanner.Migrations.{
  Column, Table, Index, Catalog, Statement, create_table, create_index, drop_index, drop_table,
  is_table, is_index, is_taken, refers_to, has_column, is_resolved, is_depended_on, is_refused,
  effect, execute_all,
}
use echo_security_scanner.Migrations.Initial.Tables.{
  image_table, scan_run_table, scan_job_table, package_table, cve_table, finding_table,
}
use echo_security_scanner.Migrations.Initial.Indexes.{
  ix_scan_run_image_completed, ix_scan_run_completed, ix_scan_run_last_success,
  ix_scan_job_claimable, uq_scan_job_active, ix_scan_job_lease, ix_cve_max_severity_rank,
  ix_cve_live_by_severity, ix_finding_cve, ix_finding_image_severity, ix_finding_last_seen,
}
use echo_security_scanner.Migrations.Initial.{upgrade, downgrade}

-- Both catalogs.
abbrev pub beside : Catalog → Catalog → Catalog
beside a b = record { tables = a.tables ++ b.tables; indexes = a.indexes ++ b.indexes }

-- The catalog has no part in the statement: its names are others, it has no index on a table that is
-- dropped, and no foreign key to it.
abbrev pub is_apart : Catalog → Statement → Bool
is_apart c (create_table t) = not (is_taken t.name c)
is_apart c (create_index i) = not (is_taken i.name c)
is_apart c (drop_index n) = not (any (is_index n) c.indexes)
is_apart c (drop_table n) =
    not (any (is_table n) c.tables)
    && not (is_depended_on n c.tables)
    && not (any (λ (i : Index). text_eq i.table n) c.indexes)

filter-not :
    {A : Type 0} (p : A → Bool) (xs : List A) → any p xs ≡ false → filter (λ x. not (p x)) xs ≡ xs
filter-not p [] h = refl
filter-not p (x ∷ xs) h = ground (arith, filter-not p xs)

drop_beside :
    {A : Type 0} (p : A → Bool) (xs ys : List A)
    → any p ys ≡ false
    → filter (λ x. not (p x)) (xs ++ ys) ≡ filter (λ x. not (p x)) xs ++ ys
drop_beside p xs ys h =
    filter-append (λ x. not (p x)) xs ys
    ∙ ap (λ zs. filter (λ x. not (p x)) xs ++ zs) (filter-not p ys h)

is_resolved-beside :
    (own : Text) (ts us : List Table) (ks : List Column)
    → all (is_resolved ts own) ks ≡ true
    → all (is_resolved (ts ++ us) own) ks ≡ true
is_resolved-beside own ts us [] h = refl
is_resolved-beside own ts us (k ∷ ks) h = elim (Option-cases k.references) [
  | inl e ↦ ground (arith, e, is_resolved-beside own ts us ks)
  | inr (r, e) ↦ ground (arith, e, is_resolved-beside own ts us ks, any-append (is_table r) ts us)
]

apart_effect :
    (s : Statement) (a c : Catalog)
    → is_apart c s ≡ true
    → effect s (beside a c) ≡ beside (effect s a) c
unfolding effect
apart_effect (create_table t) a c h = refl
apart_effect (create_index i) a c h = refl
apart_effect (drop_index n) a c h =
    ap (λ (is : List Index). record { tables = a.tables ++ c.tables; indexes = is })
      (drop_beside (is_index n) a.indexes c.indexes (ground arith))
apart_effect (drop_table n) a c h =
    ap₂ (λ (ts : List Table) (is : List Index). record { tables = ts; indexes = is })
      (drop_beside (is_table n) a.tables c.tables (ground arith))
      (drop_beside (λ (i : Index). text_eq i.table n) a.indexes c.indexes (ground arith))

apart_refused :
    (s : Statement) (a c : Catalog)
    → is_apart c s ≡ true
    → is_refused s a ≡ false
    → is_refused s (beside a c) ≡ false
unfolding is_refused
apart_refused (create_table t) a c h k = ground (
  arith,
  h,
  k,
  any-append (is_table t.name) a.tables c.tables,
  any-append (is_index t.name) a.indexes c.indexes,
  is_resolved-beside t.name a.tables c.tables t.columns,
)
apart_refused (create_index i) a c h k = ground (
  arith,
  h,
  k,
  any-append (is_table i.name) a.tables c.tables,
  any-append (is_index i.name) a.indexes c.indexes,
  any-append (λ t. is_table i.table t && all (λ (k : Text × Bool). has_column k.0 t) i.keys)
      a.tables c.tables,
)
apart_refused (drop_index n) a c h k =
    ground (arith, h, k, any-append (is_index n) a.indexes c.indexes)
apart_refused (drop_table n) a c h k = ground (
  arith,
  h,
  k,
  any-append (is_table n) a.tables c.tables,
  any-append (λ t. not (is_table n t) && any (refers_to n) t.columns) a.tables c.tables,
)

-- What a script does to a catalog, it does beside one that it has no part in.
execute_all-beside :
    (script : List Statement) (a b c : Catalog)
    → all (is_apart c) script ≡ true
    → execute_all script a ≡ ok b
    → execute_all script (beside a c) ≡ ok (beside b c)
unfolding execute_all
execute_all-beside [] a b c h e = let same : a ≡ b = cc e in rw same refl
execute_all-beside (s ∷ rest) a b c h e =
    let this : is_apart c s ≡ true = ground arith in
    let others : all (is_apart c) rest ≡ true = ground arith in
    elim (Bool-cases (is_refused s a)) [
      | inl r ↦ absurd (ground (arith, r, e))
      | inr r ↦
          rw (apart_refused s a c this r, apart_effect s a c this)
            (execute_all-beside rest (effect s a) b c others (ground (arith, r, e)))
    ]

abbrev pub no_catalog : Catalog
no_catalog = record { tables = []; indexes = [] }

-- The schema that the program runs on.
abbrev pub initial_schema : Catalog
initial_schema = record {
  tables =
      finding_table ∷ cve_table ∷ package_table ∷ scan_job_table ∷ scan_run_table ∷ image_table
      ∷ [];
  indexes =
      ix_finding_last_seen ∷ ix_finding_image_severity ∷ ix_finding_cve ∷ ix_cve_live_by_severity
      ∷ ix_cve_max_severity_rank ∷ ix_scan_job_lease ∷ uq_scan_job_active ∷ ix_scan_job_claimable
      ∷ ix_scan_run_last_success ∷ ix_scan_run_completed ∷ ix_scan_run_image_completed ∷ [];
}

upgraded : execute_all upgrade no_catalog ≡ ok initial_schema
unfolding execute_all text_eq
upgraded = refl

downgraded : execute_all downgrade initial_schema ≡ ok no_catalog
unfolding execute_all text_eq
downgraded = refl

-- In a database whose tables and indexes have other names and no foreign key to the program's tables,
-- the upgrade refuses nothing and adds the six tables and eleven indexes of the schema, and the
-- downgrade then refuses nothing and gives back the catalog as it was.
pub downgrade_undoes :
    (c : Catalog)
    → all (is_apart c) upgrade ≡ true
    → all (is_apart c) downgrade ≡ true
    → (execute_all upgrade c ≡ ok (beside initial_schema c))
      × (execute_all downgrade (beside initial_schema c) ≡ ok c)
downgrade_undoes c up down = (
  execute_all-beside upgrade no_catalog initial_schema c up upgraded,
  execute_all-beside downgrade initial_schema no_catalog c down downgraded,
)
