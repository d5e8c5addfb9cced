-- ===== src/Tests/Renderer.antt =====
-- A small tree of templates.
use kit_legacy.Base.{
  String, codes, ◌&◌, has_extension, refl, true, false, none, List, [], ◌∷◌, inl, inr, arith,
}
use kit_legacy.Errors.Value.{foreign}
use kit_legacy.Renderer.{Entry, RendererConfig, new_renderer}
use kit_legacy.Renderer.Loading.{Fine, Loads}
use kit_legacy.Renderer.Results.{root_of, extensions_of, new_renderer-Loads}
use kit_legacy.Tests.Libs.{plain_errors}

abbrev file : String → Entry String
file name = record {
  walk_error = none;
  is_dir = false;
  name = codes name;
  path = codes ("templates/" & name);
  read = inr "Hello";
  parse_error = none;
}

abbrev folder : Entry String
folder = record (file "templates") { is_dir = true; path = codes "templates" }

abbrev unreadable : Entry String
unreadable = record (file "mail.txt") { read = inl (foreign "permission denied") }

abbrev tree : String → List (Entry String)
tree root = folder ∷ file "welcome.html" ∷ file "logo.svg" ∷ []

abbrev guarded : String → List (Entry String)
guarded root = folder ∷ file "welcome.html" ∷ unreadable ∷ file "logo.svg" ∷ []

abbrev plain : RendererConfig
plain = record { templates_path = none; template_extensions = none }

abbrev cleaned : String → String
cleaned path = "templates"

folder-Fine : Fine (extensions_of cleaned tree plain) (codes (root_of cleaned tree plain)) folder
unfolding Fine
folder-Fine = (refl, λ h. absurd (ground (arith, h)))

page-Fine :
    Fine
      (extensions_of cleaned tree plain)
      (codes (root_of cleaned tree plain))
      (file "welcome.html")
unfolding Fine
page-Fine = (refl, λ _. (codes "welcome.html", "Hello", (refl, refl, refl)))

image-Fine :
    Fine (extensions_of cleaned tree plain) (codes (root_of cleaned tree plain)) (file "logo.svg")
unfolding Fine has_extension
image-Fine = (refl, λ h. absurd (ground (arith, h)))

new_renderer-Loads_example :
    Loads
      (extensions_of cleaned tree plain)
      (codes (root_of cleaned tree plain))
      (tree "templates")
      []
      (new_renderer cleaned tree plain)
new_renderer-Loads_example =
    new_renderer-Loads cleaned tree plain (folder-Fine, (page-Fine, (image-Fine, tt)))
