-- ===== src/Localizer.antt =====
-- localizer.go: the copies by locale, and the choice of a copy. A locale is the text of its tag.
pub mod Laws
use kit_legacy.Base.{
  ℕ, suc, String, ◌&◌, show, same_text, length, Bool, true, false, ◌<◌, ltb, has_extension, Option,
  none, some, List, [], ◌∷◌, ◌⊎◌, inl, inr, if◌then◌else◌, or_default, map,
}
use kit_legacy.Errors.Value.{GoError, ErrorsLib}
use kit_legacy.Errors.Error.{to_error, wrap, wrap_as}
use kit_legacy.Errors.Builtin.{err_localizer_generic}
use kit_legacy.World.Event.{Any, a_string}
use kit_legacy.World.Action.{Action, pure, ◌>>=◌, ◌>>◌}
use kit_legacy.World.Context.{Context}
use kit_legacy.Observe.Observer.{Observer, info, infof}

abbrev default_locales_path : String
default_locales_path = "./locales"

-- Go's maps: the last entry that was set under a key stands first.
abbrev pub Copies : Type 0
Copies = List (String × String)

abbrev pub CopiesByLang : Type 0
CopiesByLang = List (String × Copies)

unfoldable pub lookup : {A : Type 0} → String → List (String × A) → Option A
lookup key [] = none
lookup key ((k, a) ∷ entries) =
    let rest = lookup key entries in if same_text k key then some a else rest

-- `m[key] = a`: the entry is replaced.
unfoldable pub set : {A : Type 0} → String → A → List (String × A) → List (String × A)
set key a [] = (key, a) ∷ []
set key a ((k, b) ∷ entries) =
    let rest = set key a entries in if same_text k key then (key, a) ∷ entries else (k, b) ∷ rest

-- A call of the function given to `filepath.WalkDir`, with what the packages reply about the entry: the
-- walk's error, whether it is a directory, its name, the tag that the name without its extension parses as,
-- and what reading and decoding it give.
pub record Entry (F : Type 0) : Type 0 where
  pub walk_error : Option (GoError F)
  pub is_dir : Bool
  pub name : List ℕ
  pub lang : Option String
  pub read_error : Option (GoError F)
  pub decode_error : Option (GoError F)
  pub copies : Copies

abbrev pub default_locale_extensions : List ℕ → Bool
default_locale_extensions name = has_extension ("yml" ∷ "yaml" ∷ []) name

-- Whether an entry matches: the extensions of a configuration are always the default ones.
unfoldable pub is_match : {F : Type 0} → Entry F → Bool
is_match entry = default_locale_extensions entry.name

-- A nil pointer is none; a regular expression is what it matches.
pub record LocalizerConfig : Type 0 where
  pub locales_path : Option String
  pub locale_extensions : Option (List ℕ → Bool)
  pub default_locale : String

pub record Localizer : Type 0 where
  pub observer : Observer
  pub default_locale : String
  pub copies : CopiesByLang

unfoldable pub joined : List String → String
joined [] = ""
joined (lang ∷ []) = lang
joined (lang ∷ more ∷ langs) = lang & ", " & joined (more ∷ langs)

module _ {F : Type 0} ⦃lib : ErrorsLib F⦄ where
  unfoldable pub walk_failed : GoError F → GoError F
  walk_failed err = to_error (wrap_as err_localizer_generic (some err))

  -- a file with a tag
  unfoldable pub load : Entry F → String → CopiesByLang → GoError F ⊎ CopiesByLang
  load entry lang loaded = elim entry.read_error [
    | some err ↦ inl (walk_failed err)
    | none ↦ elim entry.decode_error [
      | some err ↦ inl (walk_failed err)
      | none ↦ inr (set lang entry.copies loaded)
    ]
  ]

  -- the function given to `WalkDir`
  unfoldable pub visit : Entry F → CopiesByLang → GoError F ⊎ CopiesByLang
  visit entry loaded = elim entry.walk_error [
    | some err ↦ inl (walk_failed err)
    | none ↦
        if entry.is_dir
        then inr loaded
        else if is_match entry
        then elim entry.lang [ none ↦ inr loaded | some lang ↦ load entry lang loaded ]
        else inr loaded
  ]

  -- The walk stops at the first error.
  unfoldable pub walk : List (Entry F) → CopiesByLang → GoError F ⊎ CopiesByLang
  walk [] loaded = inr loaded
  walk (entry ∷ entries) loaded = elim (visit entry loaded) [
    | inl err ↦ inl err
    | inr more ↦ walk entries more
  ]

  unfoldable pub announce : Observer → CopiesByLang → Action F (Unit {0})
  announce observer loaded =
      if ltb (length loaded) 1
      then info observer (a_string "No locales loaded" ∷ [])
      else infof observer
          ("Loaded " & show (length loaded) & " locales: " & joined (map (λ e. e.0) loaded))

  unfoldable pub get_copies : Observer → List (Entry F) → Action F (GoError F ⊎ CopiesByLang)
  get_copies observer entries = elim (walk entries []) [
    | inl err ↦ pure (inl (to_error (wrap err_localizer_generic (some err))))
    | inr loaded ↦ announce observer loaded >> pure (inr loaded)
  ]

  -- `Refresh`, with the localizer that it leaves.
  unfoldable pub refreshed : Localizer → GoError F ⊎ CopiesByLang → Localizer × Option (GoError F)
  refreshed self (inl err) = (self, some (to_error (wrap err_localizer_generic (some err))))
  refreshed self (inr loaded) = (record self { copies = loaded }, none)

  unfoldable pub refresh : Localizer → List (Entry F) → Action F (Localizer × Option (GoError F))
  refresh self entries = do result ← get_copies self.observer entries; pure (refreshed self result)

module _ {F : Type 0} ⦃lib : ErrorsLib F⦄ where
  unfoldable pub localizer_of : Observer → String → GoError F ⊎ CopiesByLang → GoError F ⊎ Localizer
  localizer_of observer default_locale (inl err) =
      inl (to_error (wrap err_localizer_generic (some err)))
  localizer_of observer default_locale (inr loaded) =
      inr (record { observer = observer; default_locale = default_locale; copies = loaded })

  -- `NewLocalizer`, over `filepath.Clean` and the entries that the walk of a path meets. The extensions that
  -- the caller gives are overwritten by the default ones.
  unfoldable pub new_localizer :
      (String → String)
      → (String → List (Entry F))
      → Observer
      → LocalizerConfig
      → Action F (GoError F ⊎ Localizer)
  new_localizer clean entries observer config = do
    result ←
        get_copies observer (entries (clean (or_default config.locales_path default_locales_path)))
    pure (localizer_of observer config.default_locale result)

-- `copies[locale][copy]`, where a missing locale is an empty map
unfoldable pub copy_in : Localizer → String → String → Option String
copy_in self locale copy = elim (lookup locale self.copies) [
  | none ↦ none
  | some copies ↦ lookup copy copies
]

module _ {F : Type 0} where
  unfoldable pub set_locale : Context F → String → Context F
  set_locale ctx locale = record ctx { locale = some locale }

  unfoldable pub get_locale : Localizer → Context F → String
  get_locale self ctx = or_default ctx.locale self.default_locale

  -- `upper` is `strings.ToUpper`, `format` what `fmt.Sprintf` does with the values given.
  unfoldable pub localize :
      (upper format : String → String) → Localizer → Context F → String → String
  localize upper format self ctx copy = elim (copy_in self (get_locale self ctx) (upper copy)) [
    | some trans ↦ format trans
    | none ↦ elim (copy_in self self.default_locale (upper copy)) [
      | some trans ↦ format trans
      | none ↦ upper copy
    ]
  ]
