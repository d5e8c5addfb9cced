-- ===== src/Middleware/Chain/Localizing.antt =====
-- middleware/localizer.go together with localizer.go: the text that a handler gets.
use kit_legacy.Base.{String, ◌≡◌, refl, ◌∙◌, ap, Option, none, some, List, [], ◌∷◌, inr, or_default}
use kit_legacy.Errors.Value.{GoError, ErrorsLib}
use kit_legacy.World.Action.{Fallible, ◌>>◌}
use kit_legacy.World.Context.{Context}
use kit_legacy.Observe.Observer.{Observer}
use kit_legacy.Localizer.{CopiesByLang, Entry, Localizer, walk, localize, get_locale, set_locale}
use kit_legacy.Localizer.Laws.{in_last_file, localize_loaded}
use kit_legacy.Middleware.Chain.{with_first, log_parse_error, localizer_handle}

-- The first language of the header, or else the locale that the request came with or the default.
unfoldable pub preferred : List String → Option String → String → String
preferred [] given default_locale = or_default given default_locale
preferred (locale ∷ rest) given default_locale = locale

module _ {F : Type 0} ⦃lib : ErrorsLib F⦄ where
  with_first-localize :
      (upper format : String → String) (self : Localizer) (locales : List String) (ctx : Context F)
      (copy : String)
      → localize upper format self (with_first locales ctx) copy
        ≡ localize upper format self
            (set_locale ctx (preferred locales ctx.locale self.default_locale))
            copy
  unfolding localize get_locale set_locale with_first preferred
  with_first-localize upper format self [] ctx copy = refl
  with_first-localize upper format self (locale ∷ rest) ctx copy = refl

  -- A request that passes the localizer middleware, with a localizer whose copies a walk of the
  -- locales gave without an error: whatever the parser makes of the header, and behind the log of
  -- its error, the handler that asks for a copy gets it, formatted, from the last file of the first
  -- language of the header, or without one of the locale that the request came with, or else of the
  -- default locale; then from the last file of the default locale; and else the key in upper case.
  pub localizer_handle-Localizes :
      (observer : Observer) (parse : String → List String × Option (GoError F))
      (upper format : String → String) (self : Localizer) (entries : List (Entry F))
      (loaded : CopiesByLang) (header copy : String) (respond : String → Fallible F)
      (ctx : Context F)
      → walk entries [] ≡ inr loaded
      → let locale = preferred (parse header).0 ctx.locale self.default_locale in
        localizer_handle observer parse header
          (λ c. respond (localize upper format (record self { copies = loaded }) c copy))
          ctx
        ≡ (log_parse_error observer (parse header).1
            >> respond (elim (in_last_file entries locale (upper copy)) [
              | some trans ↦ format trans
              | none ↦ elim (in_last_file entries self.default_locale (upper copy)) [
                | some trans ↦ format trans
                | none ↦ upper copy
              ]
            ]))
  unfolding localizer_handle
  localizer_handle-Localizes observer parse upper format self entries loaded header copy respond ctx
        e =
      let locale = preferred (parse header).0 ctx.locale self.default_locale in
      ap (λ text. log_parse_error observer (parse header).1 >> respond text)
        (with_first-localize upper format (record self { copies = loaded }) (parse header).0 ctx
            copy
          ∙ localize_loaded upper format self entries loaded ctx locale copy e)
