-- ===== src/Localizer/Laws.antt =====
-- Which copies a walk of the locales loads, and which copy is chosen.
use kit_legacy.Base.{
  String, same_text, ◌≡◌, refl, ap, ◌∙◌, sym, true, false, Option, none, some, List, [], ◌∷◌, ◌⊎◌,
  inl, inr, if◌then◌else◌, arith, eq_iff, Bool-cases,
}
use kit_legacy.Errors.Value.{GoError, ErrorsLib}
use kit_legacy.Errors.Error.{to_error, wrap}
use kit_legacy.Errors.Builtin.{err_localizer_generic}
use kit_legacy.World.Event.{World}
use kit_legacy.World.Action.{returned}
use kit_legacy.World.Context.{Context}
use kit_legacy.Observe.Observer
use kit_legacy.Observe.Logger
use kit_legacy.Localizer.{
  is_match, announce, Copies, CopiesByLang, lookup, set, Entry, Localizer, load, visit, walk,
  get_copies, refreshed, refresh, set_locale, get_locale, copy_in, localize,
}

lookup-set :
    {A : Type 0} (key other : String) (a : A) (entries : List (String × A))
    → lookup other (set key a entries)
      ≡ (if same_text key other then some a else lookup other entries)
unfolding lookup set
lookup-set key other a [] = refl
lookup-set key other a ((k, b) ∷ entries) =
    let ih = lookup-set key other a entries in
    elim (Bool-cases (same_text k key)) [
      | inl yes' ↦
          ap (λ c. lookup other (if c then (key, a) ∷ entries else (k, b) ∷ set key a entries)) yes'
          ∙ ground (arith, ap (λ t. same_text t other) ((eq_iff k key).0 yes'))
      | inr no' ↦
          ap (λ c. lookup other (if c then (key, a) ∷ entries else (k, b) ∷ set key a entries)) no'
          ∙ ground (arith, ih, eq_iff k key, eq_iff k other, eq_iff key other)
    ]

module _ {F : Type 0} where
  -- The tag under which an entry is loaded: a file that matches and whose name is a tag.
  abbrev pub tag_of : Entry F → Option String
  tag_of entry = if entry.is_dir then none else if is_match entry then entry.lang else none

  abbrev pub found : String → Option String → Entry F → Option Copies → Option Copies
  found lang none entry before = before
  found lang (some tag) entry before = if same_text tag lang then some entry.copies else before

  -- The copies of the last file for a tag, or those of before.
  abbrev pub last_copies : String → List (Entry F) → Option Copies → Option Copies
  last_copies lang [] before = before
  last_copies lang (entry ∷ entries) before =
      last_copies lang entries (found lang (tag_of entry) entry before)

module _ {F : Type 0} ⦃lib : ErrorsLib F⦄ where
  load-lookup :
      (lang tag : String) (entry : Entry F) (loaded more : CopiesByLang)
      → load entry tag loaded ≡ inr more
      → lookup lang more ≡ found lang (some tag) entry (lookup lang loaded)
  unfolding load
  load-lookup lang tag entry loaded more h = ground (arith, lookup-set tag lang entry.copies loaded)

  visit_file :
      (lang tag : String) (entry : Entry F) (loaded more : CopiesByLang)
      → entry.is_dir ≡ false
      → is_match entry ≡ true
      → entry.lang ≡ some tag
      → visit entry loaded ≡ inr more
      → lookup lang more ≡ found lang (tag_of entry) entry (lookup lang loaded)
  unfolding visit
  visit_file lang tag entry loaded more is_file matches same h =
      let tagged : tag_of entry ≡ some tag = ground arith in
      load-lookup lang tag entry loaded more (ground arith)
      ∙ ap (λ t. found lang t entry (lookup lang loaded)) (sym tagged)

  visit-lookup :
      (lang : String) (tag : Option String) (entry : Entry F) (loaded more : CopiesByLang)
      → entry.lang ≡ tag
      → visit entry loaded ≡ inr more
      → lookup lang more ≡ found lang (tag_of entry) entry (lookup lang loaded)
  unfolding visit
  visit-lookup lang none entry loaded more same h = ground arith
  visit-lookup lang (some tag) entry loaded more same h = elim (Bool-cases entry.is_dir) [
    | inl yes' ↦ ground arith
    | inr no' ↦ elim (Bool-cases (is_match entry)) [
      | inl yes' ↦ visit_file lang tag entry loaded more no' yes' same h
      | inr no'' ↦ ground arith
    ]
  ]

  -- A walk without an error leaves under each tag the copies of the last file of the tag.
  pub walk-last_copies :
      (lang : String) (entries : List (Entry F)) (loaded more : CopiesByLang)
      → walk entries loaded ≡ inr more
      → lookup lang more ≡ last_copies lang entries (lookup lang loaded)
  unfolding walk
  walk-last_copies lang [] loaded more h = ground arith
  walk-last_copies lang (entry ∷ entries) loaded more h =
      elim (visit entry loaded)
          as (λ r.
            visit entry loaded ≡ r
            → lookup lang more ≡ last_copies lang (entry ∷ entries) (lookup lang loaded)) [
              | inl err ↦ λ e. absurd (ground arith)
              | inr next ↦ λ e.
                  let rest =
                    ap
                      (λ (r : GoError F ⊎ CopiesByLang). elim r as (λ x. GoError F ⊎ CopiesByLang) [
                        | inl err ↦ inl err
                        | inr m ↦ walk entries m
                      ])
                      (sym e)
                    ∙ h in
                  walk-last_copies lang entries next more rest
                  ∙ ap (last_copies lang entries)
                      (visit-lookup lang entry.lang entry loaded next refl e)
            ]
        refl

  -- A refresh, whatever the files are: when the walk fails the localizer keeps its copies and the error is
  -- the localizer's generic one; otherwise nil is returned and each tag has the copies of its last file.
  pub refreshed_lem :
      (self : Localizer) (entries : List (Entry F)) (w : World F)
      → ((err : GoError F)
          → walk entries [] ≡ inl err
          → (refresh self entries w).0
            ≡ returned (
              self,
              some (
                  to_error (
                    wrap err_localizer_generic
                      (some (to_error (wrap err_localizer_generic (some err)))))),
            ))
        × ((loaded : CopiesByLang)
            → walk entries [] ≡ inr loaded
            → ((refresh self entries w).0 ≡ returned (record self { copies = loaded }, none))
              × ((lang : String) → lookup lang loaded ≡ last_copies lang entries none))
  unfolding refresh get_copies refreshed announce Observer.info Observer.infof Observer.at_level
      Logger.info Logger.infof lookup
  refreshed_lem self entries w = (
    λ err e. ground arith,
    λ loaded e. (ground arith, λ lang. walk-last_copies lang entries [] loaded e),
  )

  -- The copy under a key in the last file of a locale.
  abbrev pub in_last_file : List (Entry F) → String → String → Option String
  in_last_file entries lang key = elim (last_copies lang entries none) [
    | none ↦ none
    | some copies ↦ lookup key copies
  ]

  -- With the copies of a walk without an error and the locale set in the context, `Localize` formats the
  -- copy in the last file of that locale; without one, the copy in the last file of the default locale;
  -- without either it gives the key in upper case.
  pub localize_loaded :
      (upper format : String → String) (self : Localizer) (entries : List (Entry F))
      (loaded : CopiesByLang) (ctx : Context F) (locale copy : String)
      → walk entries [] ≡ inr loaded
      → localize upper format (record self { copies = loaded }) (set_locale ctx locale) copy
        ≡ (elim (in_last_file entries locale (upper copy)) [
          | some trans ↦ format trans
          | none ↦ elim (in_last_file entries self.default_locale (upper copy)) [
            | some trans ↦ format trans
            | none ↦ upper copy
          ]
        ])
  unfolding localize set_locale get_locale copy_in lookup
  localize_loaded upper format self entries loaded ctx locale copy e =
      let first = walk-last_copies locale entries [] loaded e in
      let second = walk-last_copies self.default_locale entries [] loaded e in
      ground (arith, first, second)
