-- ===== src/Codec.antt =====
-- serializer.go and binder.go: what they make of the errors of encoding/json and of echo's binder.
use kit_legacy.Base.{ℤ, String, ◌&◌, show_ℤ, ◌≡◌, true, Option, none, some, arith}
use kit_legacy.Errors.Value.{GoError, ErrorsLib}
use kit_legacy.Errors.Error.{Error, to_error, wrap, withf, is_error}
use kit_legacy.Errors.Laws.{is_error_self}
use kit_legacy.Errors.Builtin.{err_serializer_generic, err_binder_generic}

-- The dynamic type of an error of `Decode`: `*json.UnmarshalTypeError` with its fields, as they print,
-- `*json.SyntaxError` with its offset and its text, or another.
pub data DecodeKind : Type 0 where
  unmarshal_type : String → String → String → ℤ → DecodeKind
  syntax : ℤ → String → DecodeKind
  another : DecodeKind

module _ {F : Type 0} ⦃lib : ErrorsLib F⦄ where
  -- The error before `Wrap(err)`.
  unfoldable pub decode_failure : DecodeKind → Error F
  decode_failure (unmarshal_type expected got field offset) = withf err_serializer_generic (
      "Unmarshal type error: expected="
      & expected
      & ", got="
      & got
      & ", field="
      & field
      & ", offset="
      & show_ℤ offset)
  decode_failure (syntax offset text) =
      withf err_serializer_generic ("Syntax error: offset=" & show_ℤ offset & ", error=" & text)
  decode_failure another = err_serializer_generic

  -- `Deserialize`, by the reply of `Decode`
  unfoldable pub deserialize : Option (GoError F × DecodeKind) → Option (GoError F)
  deserialize none = none
  deserialize (some (err, kind)) = some (to_error (wrap (decode_failure kind) (some err)))

  -- `Serialize`, by the reply of `Encode`
  unfoldable pub serialize : Option (GoError F) → Option (GoError F)
  serialize none = none
  serialize (some err) = some (to_error (wrap err_serializer_generic (some err)))

  -- `Bind`, by the reply of echo's binder
  unfoldable pub bind : Option (GoError F) → Option (GoError F)
  bind none = none
  bind (some err) = some (to_error (wrap err_binder_generic (some err)))

  -- Each error of the serializer is identified as its generic one, whatever text it carries.
  deserialize_identified :
      (err : GoError F) (kind : DecodeKind) (reply : GoError F)
      → deserialize (some (err, kind)) ≡ some reply
      → is_error err_serializer_generic reply ≡ true
  unfolding deserialize decode_failure wrap withf is_error
  deserialize_identified err (unmarshal_type expected got field offset) reply e =
      ground (arith, is_error_self {F = F} err_serializer_generic)
  deserialize_identified err (syntax offset text) reply e =
      ground (arith, is_error_self {F = F} err_serializer_generic)
  deserialize_identified err another reply e =
      ground (arith, is_error_self {F = F} err_serializer_generic)
