-- ===== src/Renderer/Loading.antt =====
-- Which templates `NewRenderer` of renderer.go loads.
use kit_legacy.Base.{
  ℕ, String, ◌++◌, ◌≡◌, refl, sym, ap, ◌∙◌, subst, ◌↔◌, Bool, true, false, not, ◌&&◌, Bool-cases,
  none, some, List, [], ◌∷◌, ◌⊎◌, inl, inr, All, arith,
}
use mathlib.Core.Option.{some-injective}
use mathlib.Core.Sum.{inr-injective}
use mathlib.Core.List.{Memᴰ}
use mathlib.Core.List.Memᴰ
use kit_legacy.Errors.Value.{ErrorsLib}
use kit_legacy.Renderer.{
  slice_from, template_name, Entry, Templates, Loaded, templates, parsed, load, visit, go_on, walk,
}

-- A file below a root that ends without a slash has the rest of its path for a name.
pub template_name-append :
    (root rest : List ℕ) (slash : ℕ) → template_name root (root ++ (slash ∷ rest)) ≡ some rest
unfolding template_name slice_from
template_name-append [] rest slash = refl
template_name-append (c ∷ root) rest slash = template_name-append root rest slash

-- The root itself, where it is a file that matches, has no name: the slice is out of range.
template_name-root : (root : List ℕ) → template_name root root ≡ none
unfolding template_name slice_from
template_name-root [] = refl
template_name-root (c ∷ root) = template_name-root root

module _ {F : Type 0} (matches : List ℕ → Bool) (root : List ℕ) where
  -- a regular file whose name matches
  abbrev pub chosen : Entry F → Bool
  chosen entry = not entry.is_dir && matches entry.name

  -- A file below the root, read and parsed without an error.
  abbrev pub Readable : Entry F → List ℕ → String → Type 0
  Readable entry name text =
      (entry.path ≡ root ++ (b'/' ∷ name)) × (entry.read ≡ inr text) × (entry.parse_error ≡ none)

  -- An entry that the walk passes without an error.
  unfoldable pub Fine : Entry F → Type 0
  Fine entry =
      (entry.walk_error ≡ none)
      × (chosen entry ≡ true → (name : List ℕ) × (text : String) × Readable entry name text)

  -- The entry is a template of this name and text.
  unfoldable pub Names : Entry F → List ℕ × String → Type 0
  Names entry (name, text) =
      (chosen entry ≡ true) × (entry.path ≡ root ++ (b'/' ∷ name)) × (entry.read ≡ inr text)

module _ {F : Type 0} ⦃lib : ErrorsLib F⦄ (matches : List ℕ → Bool) (root : List ℕ) where
  pub visit-Fine :
      (entry : Entry F) (loaded : Templates)
      → Fine matches root entry
      → ((chosen matches root entry ≡ false) × (visit matches root entry loaded ≡ templates loaded))
        ⊎ ((name : List ℕ) × (text : String) × Names matches root entry (name, text)
            × (visit matches root entry loaded ≡ templates ((name, text) ∷ loaded)))
  unfolding Fine Names visit load parsed
  visit-Fine entry loaded (walked, readable) = elim (Bool-cases entry.is_dir) [
    | inl dir ↦ inl (ground arith, ground arith)
    | inr no_dir ↦ elim (Bool-cases (matches entry.name)) [
      | inr other ↦ inl (ground arith, ground arith)
      | inl same ↦
          let is_chosen : chosen matches root entry ≡ true = ground arith in
          let (name, text, (path, read, parse)) = readable is_chosen in
          inr (
            name,
            text,
            (is_chosen, path, read),
            (rw (walked, no_dir, same, path, template_name-append root name b'/', read, parse)
                refl),
          )
    ]
  ]

  -- What a template of a fine entry is called is its name.
  Names-unique :
      (entry : Entry F) (t t' : List ℕ × String)
      → Names matches root entry t
      → Names matches root entry t'
      → t ≡ t'
  unfolding Names
  Names-unique entry (name, text) (name', text') (_, path, read) (_, path', read') =
      let found = template_name-append root name b'/' in
      let found' = template_name-append root name' b'/' in
      let same =
        some-injective _ _ (sym found ∙ ap (template_name root) (sym path ∙ path') ∙ found') in
      let same' = inr-injective _ _ (sym read ∙ read') in λ i. (same i, same' i)

  -- Some of the entries is the template.
  abbrev pub Listed : List (Entry F) → List ℕ × String → Type 0
  Listed entries t = (entry : Entry F) × Memᴰ entry entries × Names matches root entry t

  -- The templates behind a walk: those of before, and those of the entries.
  abbrev pub Loads : List (Entry F) → Templates → Loaded F → Type 0
  Loads entries loaded result =
      (more : Templates) × (result ≡ templates more)
      × ((t : List ℕ × String) → Memᴰ t more ↔ (Memᴰ t loaded ⊎ Listed entries t))

  passed_over :
      (entry : Entry F) (entries : List (Entry F)) (loaded : Templates) (result : Loaded F)
      → chosen matches root entry ≡ false
      → Loads entries loaded result
      → Loads (entry ∷ entries) loaded result
  unfolding Names
  passed_over entry entries loaded result other (more, e, each) = (
    more,
    e,
    λ t. (
      λ m. elim ((each t).0 m) [
        | inl before ↦ inl before
        | inr (file, at, names) ↦ inr (file, Memᴰ.tail at, names)
      ],
      λ o. elim o [
        | inl before ↦ (each t).1 (inl before)
        | inr (file, at, names) ↦ elim (Memᴰ.cases_cons at) [
          | inl same ↦ absurd (cc (ap (chosen matches root) same, names.0, other))
          | inr later ↦ (each t).1 (inr (file, later, names))
        ]
      ],
    ),
  )

  added :
      (entry : Entry F) (entries : List (Entry F)) (loaded : Templates) (result : Loaded F)
      (t : List ℕ × String)
      → Names matches root entry t
      → Loads entries (t ∷ loaded) result
      → Loads (entry ∷ entries) loaded result
  added entry entries loaded result t' named (more, e, each) = (
    more,
    e,
    λ t. (
      λ m. elim ((each t).0 m) [
        | inl here ↦ elim (Memᴰ.cases_cons here) [
          | inl same ↦
              inr (entry, Memᴰ.head refl, subst (Names matches root entry) (sym same) named)
          | inr before ↦ inl before
        ]
        | inr (file, at, names) ↦ inr (file, Memᴰ.tail at, names)
      ],
      λ o. elim o [
        | inl before ↦ (each t).1 (inl (Memᴰ.tail before))
        | inr (file, at, names) ↦ elim (Memᴰ.cases_cons at) [
          | inl same ↦ (each t).1 (
              inl (
                Memᴰ.head
                  (Names-unique entry t t' (subst (λ x. Names matches root x t) same names) named)))
          | inr later ↦ (each t).1 (inr (file, later, names))
        ]
      ],
    ),
  )

  pub walk-Loads :
      (entries : List (Entry F)) (loaded : Templates)
      → All (Fine matches root) entries
      → Loads entries loaded (walk matches root entries loaded)
  unfolding walk go_on
  walk-Loads [] loaded (all) = (
    loaded,
    refl,
    λ t. (λ m. inl m, λ o. elim o [ inl m ↦ m | inr (file, at, _) ↦ absurd (Memᴰ.not-nil at) ]),
  )
  walk-Loads (entry ∷ entries) loaded (fine, all) = elim (visit-Fine entry loaded fine) [
    | inl (other, e) ↦
        rw e (passed_over entry entries loaded _ other (walk-Loads entries loaded all))
    | inr (name, text, named, e) ↦ rw e (
        added entry entries loaded _ (name, text) named
          (walk-Loads entries ((name, text) ∷ loaded) all))
  ]
