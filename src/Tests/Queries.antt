-- ===== src/Tests/Queries.antt =====
-- A query that is answered, and a server's error with its code.
use kit_legacy.Base.{◌↔◌, ◌≢◌, after_prefix, String, codes, ◌≡◌, refl, true, false, []}
use kit_legacy.Errors.Value.{GoError, foreign, error_text}
use kit_legacy.Errors.Error.{to_error, is_error}
use kit_legacy.Errors.Builtin.{
  err_database_integrity_violation, err_database_no_rows, err_database_generic,
}
use kit_legacy.Observe.Level.{lvl_info}
use kit_legacy.Database.Classify.{
  violates_integrity, PgLib, db_err_to_error, is_integrity_code, find_sqlstate,
  until_last_parenthesis,
}
use kit_legacy.Database.Codes.{IsIntegrity, db_err_to_error_lem}
use kit_legacy.Database.Store.{Database, query}
use kit_legacy.Database.Queries.{Queries, query-Queries}
use kit_legacy.Database.Construct.{with_defaults}
use kit_legacy.Tests.Libs.{plain_errors}
use kit_legacy.Tests.Utils.{background}
use kit_legacy.Tests.Observe.{observer_at}
use kit_legacy.Tests.Store.{pgx}
use kit_legacy.Tests.Construct.{traces, shop}

abbrev pub pg : PgLib
pg = record {
  integrity_constraint_violation = "23000";
  restrict_violation = "23001";
  not_null_violation = "23502";
  foreign_key_violation = "23503";
  unique_violation = "23505";
  check_violation = "23514";
  exclusion_violation = "23P01";
  no_rows_text = "no rows in result set";
}

abbrev pub database : Database
database = record { config = with_defaults 2 shop; observer = observer_at lvl_info }

query-Queries_example :
    Queries database pg pgx traces background "select 1" []
      (query database pg pgx traces background "main.main" "select 1" [])
query-Queries_example = query-Queries database pg pgx traces background "main.main" "select 1" []

abbrev duplicate : GoError String
duplicate = foreign "ERROR: duplicate key (SQLSTATE 23505)"

-- A message that names a code of its own hides that of the server.
hidden_test :
    violates_integrity pg (find_sqlstate (codes "ERROR: bad (SQLSTATE x) (SQLSTATE 23505)")) ≡ false
unfolding violates_integrity find_sqlstate until_last_parenthesis after_prefix is_integrity_code
hidden_test = refl

db_err_to_error_lem_example :
    let made = to_error (db_err_to_error pg duplicate) in
    ((is_error {F = String} err_database_integrity_violation made ≡ true)
      ↔ IsIntegrity pg (codes "23505"))
    × (¬ IsIntegrity pg (codes "23505")
        → (is_error {F = String} err_database_no_rows made ≡ true)
          ↔ (error_text duplicate ≡ pg.no_rows_text))
    × (¬ IsIntegrity pg (codes "23505")
        → error_text duplicate ≢ pg.no_rows_text
        → is_error {F = String} err_database_generic made ≡ true)
db_err_to_error_lem_example =
    db_err_to_error_lem pg duplicate (codes "ERROR: duplicate key ") (codes "23505") refl
      (
        refl,
        (
          refl,
          (
            refl,
            (
              refl,
              (
                refl,
                (
                  refl,
                  (
                    refl,
                    (
                      refl,
                      (
                        refl,
                        (
                          refl,
                          (
                            refl,
                            (
                              refl,
                              (
                                refl,
                                (refl, (refl, (refl, (refl, (refl, (refl, (refl, (refl, tt)))))))),
                              ),
                            ),
                          ),
                        ),
                      ),
                    ),
                  ),
                ),
              ),
            ),
          ),
        ),
      )
      (refl, (refl, (refl, (refl, (refl, tt)))))
