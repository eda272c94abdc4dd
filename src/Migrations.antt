-- ===== src/Migrations.antt =====
-- app/db/migrations: statements that define a schema, and what they do to the database's catalog.
-- The tables, sequences and indexes that the database makes for keys and constraints by itself are
-- not listed in it.
pub mod Initial
pub mod Frame
use echo_security_scanner.Base.{
  ℕ, Bool, true, false, not, ◌&&◌, ◌||◌, Option, none, some, List, [], ◌∷◌, ◌++◌, Text, codes,
  text_eq, if◌then◌else◌, any, all, filter,
}
use echo_security_scanner.Errors.{Result, ok, raise, other, and_then}

-- The column types that the migration uses.
pub data ColumnType : Type 0 where
  integer big_integer small_integer boolean free_text timestamp : ColumnType
  string : ℕ → ColumnType
  one_of : List Text → ColumnType

pub record Column : Type 0 where
  pub name : Text
  pub type : ColumnType
  pub nullable : Bool
  pub primary_key : Bool
  pub server_default : Option Text
  -- A foreign key to the id of a table, ON DELETE CASCADE.
  pub references : Option Text

pub data Constraint : Type 0 where
  unique_constraint : List Text → Text → Constraint
  check_constraint : Text → Text → Constraint

pub record Table : Type 0 where
  pub name : Text
  pub columns : List Column
  pub constraints : List Constraint

-- An index: its columns, each with whether it descends, and its WHERE.
pub record Index : Type 0 where
  pub name : Text
  pub table : Text
  pub unique : Bool
  pub keys : List (Text × Bool)
  pub condition : Option Text

pub record Catalog : Type 0 where
  pub tables : List Table
  pub indexes : List Index

pub data Statement : Type 0 where
  create_table : Table → Statement
  create_index : Index → Statement
  drop_index : Text → Statement
  drop_table : Text → Statement

abbrev pub is_table : Text → Table → Bool
is_table n t = text_eq t.name n

abbrev pub is_index : Text → Index → Bool
is_index n i = text_eq i.name n

-- Tables and indexes share their names.
abbrev pub is_taken : Text → Catalog → Bool
is_taken n c = any (is_table n) c.tables || any (is_index n) c.indexes

abbrev pub refers_to : Text → Column → Bool
refers_to n k = elim k.references [ none ↦ false | some r ↦ text_eq r n ]

-- A foreign key's table is there, or is the new one.
abbrev pub is_resolved : List Table → Text → Column → Bool
is_resolved tables own k = elim k.references [
  | none ↦ true
  | some r ↦ text_eq r own || any (is_table r) tables
]

abbrev pub has_column : Text → Table → Bool
has_column n t = any (λ (k : Column). text_eq k.name n) t.columns

abbrev pub is_indexable : List Table → Index → Bool
is_indexable tables i =
    any (λ t. is_table i.table t && all (λ (k : Text × Bool). has_column k.0 t) i.keys) tables

-- Another table has a foreign key to it.
abbrev pub is_depended_on : Text → List Table → Bool
is_depended_on n tables = any (λ t. not (is_table n t) && any (refers_to n) t.columns) tables

unfoldable pub is_refused : Statement → Catalog → Bool
is_refused (create_table t) c =
    is_taken t.name c || not (all (is_resolved c.tables t.name) t.columns)
is_refused (create_index i) c = is_taken i.name c || not (is_indexable c.tables i)
is_refused (drop_index n) c = not (any (is_index n) c.indexes)
is_refused (drop_table n) c = not (any (is_table n) c.tables) || is_depended_on n c.tables

-- A table's indexes go with it.
unfoldable pub effect : Statement → Catalog → Catalog
effect (create_table t) c = record c { tables = t ∷ c.tables }
effect (create_index i) c = record c { indexes = i ∷ c.indexes }
effect (drop_index n) c = record c { indexes = filter (λ i. not (is_index n i)) c.indexes }
effect (drop_table n) c = record {
  tables = filter (λ t. not (is_table n t)) c.tables;
  indexes = filter (λ (i : Index). not (text_eq i.table n)) c.indexes;
}

unfoldable pub execute_all : List Statement → Catalog → Result Catalog
unfolding is_refused effect
execute_all [] c = ok c
execute_all (s ∷ rest) c =
    let after = execute_all rest (effect s c) in
    if is_refused s c then raise (other (codes "ProgrammingError") []) else after
