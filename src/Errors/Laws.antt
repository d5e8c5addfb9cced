-- ===== src/Errors/Laws.antt =====
-- Identity and text of the errors that error.go builds.
use kit_legacy.Base.{
  String, ◌&◌, ◌≡◌, refl, ◌≢◌, ◌↔◌, true, none, some, List, [], ◌∷◌, arith, eq_iff, arith, ◌∙◌,
}
use kit_legacy.Errors.Value.{GoError, foreign, is_sentinel, ErrorsLib, error_text}
use kit_legacy.Errors.Error.{Error, to_error, wrap, wrap_as, text_of, is_error}

module _ {F : Type 0} ⦃lib : ErrorsLib F⦄ where
  -- What an error is for `Is`, described without the code: kit's by identifier, others by text.
  abbrev pub identity : GoError F → String
  identity (GoError.error _ identifier _) = identifier
  identity err = error_text err

  pub is_error-to_error :
      (self other : Error F)
      → (is_error self (to_error other) ≡ true) ↔ (self.identifier ≡ other.identifier)
  unfolding is_error
  is_error-to_error self other = eq_iff self.identifier other.identifier

  pub is_error_self : (self : Error F) → is_error self (to_error self) ≡ true
  is_error_self self = (is_error-to_error self self).1 refl

  pub wrap_as-identifier :
      (self : Error F) (err : GoError F) → (wrap_as self (some err)).identifier ≡ identity err
  unfolding wrap_as
  wrap_as-identifier self (GoError.error _ _ _) = refl
  wrap_as-identifier self (GoError.exception _ _ _ _ _) = refl
  wrap_as-identifier self (GoError.foreign _) = refl

  -- `err == f` holds of the sentinel alone.
  pub is_sentinel_iff : (f : F) (err : GoError F) → (is_sentinel f err ≡ true) ↔ (err ≡ foreign f)
  is_sentinel_iff f (foreign g) = ground (arith, lib.same_iff f g)
  is_sentinel_iff f (GoError.error _ _ _) = ground arith
  is_sentinel_iff f (GoError.exception _ _ _ _ _) = ground arith

  -- Wrapping by each of a list of errors in turn, the innermost first.
  pub wrap_as_all : List (Error F) → GoError F → GoError F
  wrap_as_all [] err = err
  wrap_as_all (layer ∷ layers) err = wrap_as_all layers (to_error (wrap_as layer (some err)))

  -- However many errors wrap a `*Error` by `WrapAs`, `Is` matches the outermost exactly when it
  -- matches the innermost one.
  pub is_error-wrap_as_all :
      (self : Error F) (layers : List (Error F)) (cause : Error F)
      → is_error self (wrap_as_all layers (to_error cause)) ≡ is_error self (to_error cause)
  unfolding wrap_as_all
  is_error-wrap_as_all self [] cause = refl
  is_error-wrap_as_all self (layer ∷ layers) cause =
      is_error-wrap_as_all self layers (wrap_as layer (some (to_error cause)))
      ∙ (unfold is_error wrap_as in refl)

  -- Each layer of `Wrap` puts its message and a colon before the text of what it wraps, keeps its
  -- own identifier and message, and so is not recognised as the error inside.
  pub wrap_lem :
      (self : Error F) (err : GoError F)
      → self.message ≢ ""
      → (text_of (wrap self (some err)) ≡ self.message & ": " & error_text err)
        × ((wrap self (some err)).identifier ≡ self.identifier)
        × ((wrap self (some err)).message ≡ self.message)
        × (wrap self none ≡ self)
  unfolding wrap text_of
  wrap_lem self err h = (lib.text-wrap_with_depth 1 err self.message h, refl, refl, refl)
