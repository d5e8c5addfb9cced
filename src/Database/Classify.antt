-- ===== src/Database/Classify.antt =====
-- `_dbErrToError` of database.go, and the regular expression `\(SQLSTATE (.*)\)` that it applies to
-- an error's text, over code points.
use kit_legacy.Base.{
  ℕ, String, same_text, codes, same_codes, after_prefix, ◌==◌, Bool, false, ◌||◌, Option, none,
  some, List, [], ◌∷◌, if◌then◌else◌,
}
use kit_legacy.Errors.Value.{GoError, ErrorsLib, error_text}
use kit_legacy.Errors.Error.{Error, wrap_with_depth}
use kit_legacy.Errors.Builtin.{
  err_database_integrity_violation, err_database_no_rows, err_database_generic,
}

-- github.com/jackc/pgerrcode's codes that the switch names, in its order, and the text of
-- `pgx.ErrNoRows`.
pub record PgLib : Type 0 where
  pub integrity_constraint_violation : String
  pub restrict_violation : String
  pub not_null_violation : String
  pub foreign_key_violation : String
  pub unique_violation : String
  pub check_violation : String
  pub exclusion_violation : String
  pub no_rows_text : String

-- `(.*)\)`: greedy, so up to the last parenthesis of the line.
unfoldable pub until_last_parenthesis : List ℕ → Option (List ℕ)
until_last_parenthesis [] = none
until_last_parenthesis (c ∷ s) =
    let rest = until_last_parenthesis s in
    if c == 10
    then none
    else elim rest [ some m ↦ some (c ∷ m) | none ↦ if c == b')' then some [] else none ]

abbrev pub bind_option : Option (List ℕ) → (List ℕ → Option (List ℕ)) → Option (List ℕ)
bind_option none f = none
bind_option (some s) f = f s

-- The first position from which the whole expression matches.
unfoldable pub find_sqlstate : List ℕ → Option (List ℕ)
find_sqlstate [] = none
find_sqlstate (c ∷ s) =
    let later = find_sqlstate s in
    elim (bind_option (after_prefix (codes "(SQLSTATE ") (c ∷ s)) until_last_parenthesis) [
      | some code ↦ some code
      | none ↦ later
    ]

unfoldable pub is_integrity_code : PgLib → List ℕ → Bool
is_integrity_code pg code =
    same_codes code (codes pg.integrity_constraint_violation)
    || same_codes code (codes pg.restrict_violation)
    || same_codes code (codes pg.not_null_violation)
    || same_codes code (codes pg.foreign_key_violation)
    || same_codes code (codes pg.unique_violation)
    || same_codes code (codes pg.check_violation)
    || same_codes code (codes pg.exclusion_violation)

-- whether the first switch returns
unfoldable pub violates_integrity : PgLib → Option (List ℕ) → Bool
violates_integrity pg none = false
violates_integrity pg (some code) = is_integrity_code pg code

module _ {F : Type 0} ⦃lib : ErrorsLib F⦄ where
  unfoldable pub db_err_to_error : PgLib → GoError F → Error F
  db_err_to_error pg err =
      if violates_integrity pg (find_sqlstate (codes (error_text err)))
      then wrap_with_depth err_database_integrity_violation 1 (some err)
      else if same_text (error_text err) pg.no_rows_text
      then wrap_with_depth err_database_no_rows 1 (some err)
      else wrap_with_depth err_database_generic 1 (some err)
