-- ===== src/Errors/Value.antt =====
-- Go's `error` values as kit sees them, and the operations of github.com/cockroachdb/errors that
-- error.go, exception.go and kit.go call (`NewWithDepth`, `WrapWithDepth`, `CombineErrors`).
use kit_legacy.Base.{ℕ, ℤ, String, ◌&◌, ◌≡◌, ◌≢◌, ◌↔◌, Bool, true, false, Option, none, some}

-- A non-nil `error`: a `*Error`, a `*Exception`, or a value of a type that is not kit's, in `F`.
-- The fields are those of the two structs, in the order of error.go and exception.go.
pub data GoError (F : Type 0) : Type 0 where
  error : GoError F → String → String → GoError F
  exception : GoError F → String → String → String → ℤ → GoError F
  foreign : F → GoError F

-- `err.Error()`: kit's types delegate to the inner error.
abbrev pub text_with : {F : Type 0} → (F → String) → GoError F → String
text_with text (error inner _ _) = text_with text inner
text_with text (exception inner _ _ _ _) = text_with text inner
text_with text (foreign f) = text f

-- The errors library: the errors it makes, their texts, and Go's `==` on foreign errors. The laws
-- are the documented texts (a wrapped error reads "message: cause") and how errors are combined.
pub record ErrorsLib (F : Type 0) : Type 0 where
  pub text : F → String
  pub same : F → F → Bool
  pub same_iff : (a b : F) → (same a b ≡ true) ↔ (a ≡ b)
  pub new_with_depth : ℕ → String → F
  pub wrap_with_depth : ℕ → GoError F → String → F
  pub combine : Option (GoError F) → Option (GoError F) → Option (GoError F)
  pub text-new_with_depth :
      (depth : ℕ) (message : String) → text (new_with_depth depth message) ≡ message
  pub text-wrap_with_depth :
      (depth : ℕ) (err : GoError F) (message : String)
      → message ≢ ""
      → text (wrap_with_depth depth err message) ≡ message & ": " & text_with text err
  pub combine-none : (second : Option (GoError F)) → combine none second ≡ second
  pub combine-some :
      (first : GoError F) (second : Option (GoError F))
      → (both : GoError F) × (combine (some first) second ≡ some both)
        × (text_with text both ≡ text_with text first)

module _ {F : Type 0} ⦃lib : ErrorsLib F⦄ where
  -- `err.Error()`.
  abbrev pub error_text : GoError F → String
  error_text = text_with lib.text

  -- `Utils.CombineErrors`.
  abbrev pub combine_errors : Option (GoError F) → Option (GoError F) → Option (GoError F)
  combine_errors first second = lib.combine first second

  -- `err == f` for a sentinel `f` of another package.
  abbrev pub is_sentinel : F → GoError F → Bool
  is_sentinel f (foreign g) = lib.same f g
  is_sentinel f _ = false
