-- ===== src/Renderer.antt =====
-- renderer.go: the walk that loads the templates, their names, and the methods that render.
pub mod Loading
pub mod Results
use kit_legacy.Base.{
  ℕ, zero, suc, String, codes, has_extension, length, ◌++◌, ◌≡◌, refl, Bool, Option, none, some,
  or_default, List, [], ◌∷◌, ◌⊎◌, inl, inr, if◌then◌else◌,
}
use kit_legacy.Errors.Value.{GoError, ErrorsLib}
use kit_legacy.Errors.Error.{to_error, wrap, wrap_as}
use kit_legacy.Errors.Builtin.{err_renderer_generic}

abbrev default_templates_path : String
default_templates_path = "./templates"

-- `s[n:]`; none is the panic of a slice out of range.
unfoldable pub slice_from : {A : Type 0} → ℕ → List A → Option (List A)
slice_from zero s = some s
slice_from (suc n) [] = none
slice_from (suc n) (c ∷ s) = slice_from n s

-- `path[len(*config.TemplatesPath)+1:]`
unfoldable pub template_name : List ℕ → List ℕ → Option (List ℕ)
template_name root path = slice_from (suc (length root)) path

-- A call of the function given to `filepath.WalkDir`, with what the packages reply about the entry: the
-- walk's error, whether it is a directory, its name, its path, what reading
-- it gives, and the error of parsing it.
pub record Entry (F : Type 0) : Type 0 where
  pub walk_error : Option (GoError F)
  pub is_dir : Bool
  pub name : List ℕ
  pub path : List ℕ
  pub read : GoError F ⊎ String
  pub parse_error : Option (GoError F)

abbrev pub default_template_extensions : List ℕ → Bool
default_template_extensions name = has_extension ("html" ∷ "txt" ∷ "md" ∷ []) name

-- A nil pointer is none; a regular expression is what it matches.
pub record RendererConfig : Type 0 where
  pub templates_path : Option String
  pub template_extensions : Option (List ℕ → Bool)

-- The templates by name, the newest first.
abbrev pub Templates : Type 0
Templates = List (List ℕ × String)

pub data Loaded (F : Type 0) : Type 0 where
  failed : GoError F → Loaded F
  crashed : Loaded F
  templates : Templates → Loaded F

module _ {F : Type 0} ⦃lib : ErrorsLib F⦄ where
  unfoldable pub failure : GoError F → GoError F
  failure err = to_error (wrap_as err_renderer_generic (some err))

  unfoldable pub parsed : Option (GoError F) → List ℕ → String → Templates → Loaded F
  parsed (some err) name text loaded = failed (failure err)
  parsed none name text loaded = templates ((name, text) ∷ loaded)

  unfoldable pub load : Entry F → Option (List ℕ) → Templates → Loaded F
  load entry none loaded = crashed
  load entry (some name) loaded = elim entry.read [
    | inl err ↦ failed (failure err)
    | inr text ↦ parsed entry.parse_error name text loaded
  ]

  -- the function given to `WalkDir`
  unfoldable pub visit : (List ℕ → Bool) → List ℕ → Entry F → Templates → Loaded F
  visit matches root entry loaded = elim entry.walk_error [
    | some err ↦ failed (failure err)
    | none ↦
        if entry.is_dir
        then templates loaded
        else if matches entry.name
        then load entry (template_name root entry.path) loaded
        else templates loaded
  ]

  -- An error, or a panic, ends the walk.
  unfoldable pub go_on : Loaded F → (Templates → Loaded F) → Loaded F
  go_on (failed err) rest = failed err
  go_on crashed rest = crashed
  go_on (templates loaded) rest = rest loaded

  unfoldable pub walk : (List ℕ → Bool) → List ℕ → List (Entry F) → Templates → Loaded F
  walk matches root [] loaded = templates loaded
  walk matches root (entry ∷ entries) loaded =
      go_on (visit matches root entry loaded) (walk matches root entries)

  unfoldable pub wrapped : Loaded F → Loaded F
  wrapped (failed err) = failed (to_error (wrap err_renderer_generic (some err)))
  wrapped loaded = loaded

  -- `NewRenderer`, over `filepath.Clean` and the entries that the walk of a path meets.
  unfoldable pub new_renderer :
      (String → String) → (String → List (Entry F)) → RendererConfig → Loaded F
  new_renderer clean entries config =
      let root = clean (or_default config.templates_path default_templates_path) in
      let matches = or_default config.template_extensions default_template_extensions in
      wrapped (walk matches (codes root) (entries root) [])

  -- `Render` and `RenderWriter`, each by the reply of `ExecuteTemplate`
  unfoldable pub render : Option (GoError F) → Option (GoError F)
  render none = none
  render (some err) = some (to_error (wrap err_renderer_generic (some err)))

  unfoldable pub render_writer : Option (GoError F) → Option (GoError F)
  render_writer none = none
  render_writer (some err) = some (to_error (wrap err_renderer_generic (some err)))

  -- `RenderBytes` and `RenderString`: the text, or the error around that of the method called.
  unfoldable pub render_bytes : Option (GoError F) → String → GoError F ⊎ String
  render_bytes reply text = elim (render_writer reply) [
    | none ↦ inr text
    | some err ↦ inl (to_error (wrap err_renderer_generic (some err)))
  ]

  unfoldable pub render_string : Option (GoError F) → String → GoError F ⊎ String
  render_string reply text = elim (render_bytes reply text) [
    | inr bytes ↦ inr bytes
    | inl err ↦ inl (to_error (wrap err_renderer_generic (some err)))
  ]
