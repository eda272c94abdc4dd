-- ===== src/Examples/Schemas.antt =====
-- The migration beside Alembic's own table (app/db/migrations).
use echo_security_scanner.Base.{◌≡◌, refl, true, false, none, [], ◌∷◌, codes, text_eq, all}
use echo_security_scanner.Errors.{ok}
use echo_security_scanner.Migrations.{Column, Catalog, string, execute_all}
use echo_security_scanner.Migrations.Initial.{upgrade, downgrade}
use echo_security_scanner.Migrations.Frame.{beside, is_apart, initial_schema, downgrade_undoes}

abbrev version_num : Column
version_num = record {
  name = codes "version_num";
  type = string 32;
  nullable = false;
  primary_key = true;
  server_default = none;
  references = none;
}

abbrev versions_only : Catalog
versions_only = record {
  tables =
      record { name = codes "alembic_version"; columns = version_num ∷ []; constraints = [] } ∷ [];
  indexes = [];
}

apart_up : all (is_apart versions_only) upgrade ≡ true
unfolding text_eq
apart_up = refl

apart_down : all (is_apart versions_only) downgrade ≡ true
unfolding text_eq
apart_down = refl

downgrade_undoes_example :
    (execute_all upgrade versions_only ≡ ok (beside initial_schema versions_only))
    × (execute_all downgrade (beside initial_schema versions_only) ≡ ok versions_only)
downgrade_undoes_example = downgrade_undoes versions_only apart_up apart_down
