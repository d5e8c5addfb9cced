-- ===== src/Renderer/Results.antt =====
-- What `NewRenderer` of renderer.go returns: the templates, or the error of an entry.
use kit_legacy.Base.{
  ℕ, String, codes, ◌++◌, ◌≡◌, refl, Bool, true, false, none, some, or_default, List, [], ◌∷◌, ◌⊎◌,
  inl, inr, All,
}
use kit_legacy.Errors.Value.{GoError, ErrorsLib}
use kit_legacy.Renderer.{
  Entry, wrapped, RendererConfig, default_templates_path, default_template_extensions, new_renderer,
}
use kit_legacy.Renderer.Loading.{Fine, Loads, walk-Loads}

module _ {F : Type 0} ⦃lib : ErrorsLib F⦄ (matches : List ℕ → Bool) (root : List ℕ) where
  -- The entry ends the walk with this error: that of the walk, of reading its file, or of parsing it.
  unfoldable pub Breaks : Entry F → GoError F → Type 0
  Breaks entry err =
      (entry.walk_error ≡ some err)
      ⊎ ((entry.walk_error ≡ none)
          × (entry.is_dir ≡ false)
          × (matches entry.name ≡ true)
          × ((name : List ℕ) × (entry.path ≡ root ++ (b'/' ∷ name)))
          × ((entry.read ≡ inl err)
              ⊎ ((text : String) × (entry.read ≡ inr text) × (entry.parse_error ≡ some err))))

module _ {F : Type 0} ⦃lib : ErrorsLib F⦄ (clean : String → String)
    (entries : String → List (Entry F)) (config : RendererConfig) where
  abbrev pub root_of : String
  root_of = clean (or_default config.templates_path default_templates_path)

  abbrev pub extensions_of : List ℕ → Bool
  extensions_of = or_default config.template_extensions default_template_extensions

  -- NewRenderer, where each entry of the walk comes without an error, and the files that match, with their
  -- paths below the root, can be read and parsed: it loads exactly these files, each with its text, under the rest
  -- of its path.
  pub new_renderer-Loads :
      All (Fine extensions_of (codes root_of)) (entries root_of)
      → Loads extensions_of (codes root_of) (entries root_of) [] (new_renderer clean entries config)
  unfolding new_renderer wrapped
  new_renderer-Loads fine =
      let (more, e, each) = walk-Loads extensions_of (codes root_of) (entries root_of) [] fine in
      (more, rw e refl, each)
