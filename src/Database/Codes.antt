-- ===== src/Database/Codes.antt =====
-- `_dbErrToError` of database.go on the errors of the server, which print with their code.
use kit_legacy.Base.{
  ℕ, ◌==◌, codes, after_prefix, ◌++◌, ◌≡◌, refl, true, false, some, List, [], ◌∷◌, All, arith, ap,
  same_codes, false, ◌⊎◌, ◌↔◌, ◌≢◌, eq_iff, ◌∙◌, same_text, Bool-cases, inl, inr,
}
use kit_legacy.Errors.Value.{GoError, ErrorsLib, error_text}
use kit_legacy.Errors.Error.{new_error, to_error, is_error, wrap_with_depth}
use kit_legacy.Errors.Builtin.{
  err_database_integrity_violation, err_database_no_rows, err_database_generic,
}
use kit_legacy.Database.Classify.{
  PgLib, until_last_parenthesis, find_sqlstate, is_integrity_code, violates_integrity,
  db_err_to_error,
}

-- The bytes of a text that are none of a given one.
abbrev pub Without : ℕ → List ℕ → Type 0
Without c = All (λ x. (x == c) ≡ false)

-- ` (SQLSTATE code)` as an error of the server ends, from the parenthesis on.
abbrev pub sqlstate : List ℕ → List ℕ
sqlstate code = codes "(SQLSTATE " ++ (code ++ (b')' ∷ []))

until_last_parenthesis-append :
    (code : List ℕ) → Without 10 code → until_last_parenthesis (code ++ (b')' ∷ [])) ≡ some code
unfolding until_last_parenthesis
until_last_parenthesis-append [] h = refl
until_last_parenthesis-append (c ∷ code) (other, h) =
    rw (other, until_last_parenthesis-append code h) refl

find_sqlstate-append :
    (message code : List ℕ)
    → Without b'(' message
    → Without 10 code
    → find_sqlstate (message ++ sqlstate code) ≡ some code
unfolding find_sqlstate after_prefix
find_sqlstate-append [] code _ h = ground (arith, until_last_parenthesis-append code h)
find_sqlstate-append (c ∷ message) code (other, clean) h =
    ground (arith, find_sqlstate-append message code clean h)

same_codes_iff : (s t : List ℕ) → (same_codes s t ≡ true) ↔ (s ≡ t)
same_codes_iff [] [] = ground arith
same_codes_iff [] (b ∷ t) = ground arith
same_codes_iff (a ∷ s) [] = ground arith
same_codes_iff (a ∷ s) (b ∷ t) = ground (arith, same_codes_iff s t)

-- The class 23 of PostgreSQL: its general code and the six conditions of it.
abbrev pub IsIntegrity : PgLib → List ℕ → Type 0
IsIntegrity pg code =
    (code ≡ codes pg.integrity_constraint_violation)
    ⊎ (code ≡ codes pg.restrict_violation)
    ⊎ (code ≡ codes pg.not_null_violation)
    ⊎ (code ≡ codes pg.foreign_key_violation)
    ⊎ (code ≡ codes pg.unique_violation)
    ⊎ (code ≡ codes pg.check_violation)
    ⊎ (code ≡ codes pg.exclusion_violation)

is_integrity_code_iff :
    (pg : PgLib) (code : List ℕ) → (is_integrity_code pg code ≡ true) ↔ IsIntegrity pg code
unfolding is_integrity_code
is_integrity_code_iff pg code = ground (
  arith,
  same_codes_iff code (codes pg.integrity_constraint_violation),
  same_codes_iff code (codes pg.restrict_violation),
  same_codes_iff code (codes pg.not_null_violation),
  same_codes_iff code (codes pg.foreign_key_violation),
  same_codes_iff code (codes pg.unique_violation),
  same_codes_iff code (codes pg.check_violation),
  same_codes_iff code (codes pg.exclusion_violation),
)

module _ {F : Type 0} ⦃lib : ErrorsLib F⦄ (pg : PgLib) where
  identified :
      (err : GoError F) (message code : List ℕ)
      → codes (error_text err) ≡ message ++ sqlstate code
      → Without b'(' message
      → Without 10 code
      → let made = to_error (db_err_to_error pg err) in
        (is_error err_database_integrity_violation made ≡ is_integrity_code pg code)
        × (is_integrity_code pg code ≡ false
            → is_error err_database_no_rows made ≡ same_text (error_text err) pg.no_rows_text)
        × (is_integrity_code pg code ≡ false
            → same_text (error_text err) pg.no_rows_text ≡ false
            → is_error err_database_generic made ≡ true)
  unfolding db_err_to_error violates_integrity wrap_with_depth is_error new_error
  identified err message code printed clean one_line =
      let found = ap find_sqlstate printed ∙ find_sqlstate-append message code clean one_line in
      elim (Bool-cases (is_integrity_code pg code)) [
        | inl e ↦ rw (found, e) (refl, λ f. cc, λ f. cc)
        | inr e ↦ elim (Bool-cases (same_text (error_text err) pg.no_rows_text)) [
          | inl t ↦ rw (found, e, t) (refl, λ _. refl, λ _ f. cc)
          | inr t ↦ rw (found, e, t) (refl, λ _. refl, λ _ _. refl)
        ]
      ]

  -- An error of the server, whose text is a message without a parenthesis and its code in the form
  -- `(SQLSTATE code)`, is identified as an integrity violation exactly when the code is one of the seven
  -- of that class; with any other code, as no rows exactly when its text is that of `pgx.ErrNoRows`, and
  -- else as the generic error of the database.
  pub db_err_to_error_lem :
      (err : GoError F) (message code : List ℕ)
      → codes (error_text err) ≡ message ++ sqlstate code
      → Without b'(' message
      → Without 10 code
      → let made = to_error (db_err_to_error pg err) in
        ((is_error err_database_integrity_violation made ≡ true) ↔ IsIntegrity pg code)
        × (¬ IsIntegrity pg code
            → (is_error err_database_no_rows made ≡ true) ↔ (error_text err ≡ pg.no_rows_text))
        × (¬ IsIntegrity pg code
            → error_text err ≢ pg.no_rows_text
            → is_error err_database_generic made ≡ true)
  db_err_to_error_lem err message code printed clean one_line =
      let (integrity, no_rows, generic) = identified err message code printed clean one_line in
      let seven = is_integrity_code_iff pg code in
      let text = eq_iff (error_text err) pg.no_rows_text in ground arith
