-- ===== src/Errors/Exception.antt =====
-- exception.go: the type `Exception` and its methods, as error.go is modelled in `Errors.Error`.
use kit_legacy.Base.{ℤ, String, ◌&◌, same_text, Bool, false, Option, none, some, List, [], ◌∷◌}
use kit_legacy.Base.{if◌then◌else◌}
use kit_legacy.Errors.Value.{GoError, ErrorsLib, error_text}

pub record Exception (F : Type 0) : Type 0 where
  pub inner : GoError F
  pub identifier : String
  pub code : String
  pub message : String
  pub status : ℤ

module _ {F : Type 0} where
  abbrev pub to_error : Exception F → GoError F
  to_error e = GoError.exception e.inner e.identifier e.code e.message e.status

  -- `err.(*Exception)`.
  abbrev pub as_exception : GoError F → Option (Exception F)
  as_exception (GoError.exception inner identifier code message status) = some (record {
    inner = inner;
    identifier = identifier;
    code = code;
    message = message;
    status = status;
  })
  as_exception _ = none

  unfoldable pub redact : Exception F → Exception F
  redact self = record self { message = "" }

  -- The fields of the JSON object, in order: `message` is left out when it is empty.
  unfoldable pub marshal_json : Exception F → List (String × String)
  marshal_json self =
      ("code", self.code)
      ∷ (if same_text self.message "" then [] else ("message", self.message) ∷ [])

module _ {F : Type 0} ⦃lib : ErrorsLib F⦄ where
  unfoldable pub new_exception : ℤ → String → Exception F
  new_exception status code = record {
    inner = GoError.foreign (lib.new_with_depth 1 code);
    identifier = code;
    code = code;
    message = code;
    status = status;
  }

  unfoldable pub cause : Exception F → Option (GoError F) → Exception F
  cause self none = self
  cause self (some err) =
      let longer = self.message & ": " & error_text err in
      record self { message = longer; inner = GoError.foreign (lib.wrap_with_depth 1 err longer) }

  identifier_of : GoError F → String
  identifier_of (GoError.exception _ identifier _ _ _) = identifier
  identifier_of err = error_text err

  unfoldable pub cause_as : Exception F → Option (GoError F) → Exception F
  unfolding identifier_of
  cause_as self none = self
  cause_as self (some err) = record self {
    identifier = identifier_of err;
    inner = GoError.foreign (lib.wrap_with_depth 1 err self.message);
  }

  unfoldable pub with_message : Exception F → String → Exception F
  with_message self message =
      let longer = self.message & ": " & message in
      record self { message = longer; inner = GoError.foreign (lib.new_with_depth 1 longer) }

  unfoldable pub withf : Exception F → String → Exception F
  withf self formatted =
      let longer = self.message & ": " & formatted in
      record self { message = longer; inner = GoError.foreign (lib.new_with_depth 1 longer) }

  unfoldable pub text_of : Exception F → String
  text_of self = error_text self.inner

  unfoldable pub unwrap : Exception F → GoError F
  unwrap self = self.inner

  unfoldable pub is_exception : Exception F → GoError F → Bool
  is_exception self (GoError.exception _ identifier _ _ _) = same_text self.identifier identifier
  is_exception self _ = false
