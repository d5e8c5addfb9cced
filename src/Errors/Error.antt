-- ===== src/Errors/Error.antt =====
-- error.go: the type `Error` and its methods. Every `ErrX()` call makes a new object, so a method
-- that mutates its receiver and returns it is a function to the new value. What `Withf` formats is
-- an argument: its callers build the text that `fmt.Sprintf` gives.
use kit_legacy.Base.{ℕ, ◌+◌, String, ◌&◌, same_text, Bool, false, Option, none, some}
use kit_legacy.Errors.Value.{GoError, ErrorsLib, error_text}

pub record Error (F : Type 0) : Type 0 where
  pub inner : GoError F
  pub identifier : String
  pub message : String

module _ {F : Type 0} where
  -- A `*Error` as an `error`.
  abbrev pub to_error : Error F → GoError F
  to_error e = GoError.error e.inner e.identifier e.message

  -- `err.(*Error)`.
  abbrev pub as_error : GoError F → Option (Error F)
  as_error (GoError.error inner identifier message) =
      some (record { inner = inner; identifier = identifier; message = message })
  as_error _ = none

module _ {F : Type 0} ⦃lib : ErrorsLib F⦄ where
  unfoldable pub new_error : String → Error F
  new_error message = record {
    inner = GoError.foreign (lib.new_with_depth 1 message);
    identifier = message;
    message = message;
  }

  unfoldable pub wrap : Error F → Option (GoError F) → Error F
  wrap self none = self
  wrap self (some err) = record self {
    inner = GoError.foreign (lib.wrap_with_depth 1 err self.message);
  }

  unfoldable pub wrap_with_depth : Error F → ℕ → Option (GoError F) → Error F
  wrap_with_depth self depth none = self
  wrap_with_depth self depth (some err) = record self {
    inner = GoError.foreign (lib.wrap_with_depth (depth + 1) err self.message);
  }

  -- The identifier that `WrapAs` takes from an error: a `*Error`'s own, any other error's text.
  identifier_of : GoError F → String
  identifier_of (GoError.error _ identifier _) = identifier
  identifier_of err = error_text err

  unfoldable pub wrap_as : Error F → Option (GoError F) → Error F
  unfolding identifier_of
  wrap_as self none = self
  wrap_as self (some err) = record self {
    identifier = identifier_of err;
    inner = GoError.foreign (lib.wrap_with_depth 1 err self.message);
  }

  unfoldable pub wrap_as_with_depth : Error F → ℕ → Option (GoError F) → Error F
  unfolding identifier_of
  wrap_as_with_depth self depth none = self
  wrap_as_with_depth self depth (some err) = record self {
    identifier = identifier_of err;
    inner = GoError.foreign (lib.wrap_with_depth (depth + 1) err self.message);
  }

  unfoldable pub with_message : Error F → String → Error F
  with_message self message =
      let longer = self.message & ": " & message in
      record self { message = longer; inner = GoError.foreign (lib.new_with_depth 1 longer) }

  unfoldable pub withf : Error F → String → Error F
  withf self formatted =
      let longer = self.message & ": " & formatted in
      record self { message = longer; inner = GoError.foreign (lib.new_with_depth 1 longer) }

  unfoldable pub text_of : Error F → String
  text_of self = error_text self.inner

  unfoldable pub unwrap : Error F → GoError F
  unwrap self = self.inner

  unfoldable pub is_error : Error F → GoError F → Bool
  is_error self (GoError.error _ identifier _) = same_text self.identifier identifier
  is_error self _ = false
