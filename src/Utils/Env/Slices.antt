-- ===== src/Utils/Env/Slices.antt =====
-- A list that is joined into a variable is read back by `GetEnvAsSlice`, whose default is not returned.
use Prim.Native.Char.{Char, code}
use text.Mathlib.TextLemmas.{nil-append, cons-append}
use kit_legacy.Base.{
  ℕ, ◌==◌, leb, ◌≡◌, refl, subst, ap, ◌∙◌, String, ◌&◌, true, false, none, some, or_default, List,
  [], ◌∷◌, length, All, arith,
}
use kit_legacy.Utils.Env.{Variables, get_env_as_string, in_front, split, get_env_as_slice}

abbrev pub Without : ℕ → String → Type 0
Without sep String.[] = Unit
Without sep (String.◌∷◌ c s) = ((code c == sep) ≡ false) × Without sep s

-- strings.Join with a separator of one character, of one string and the strings behind it.
pub join : Char → String → List String → String
join sep s [] = s
join sep s (t ∷ rest) = s & String.◌∷◌ sep (join sep t rest)

split-Without : (sep : ℕ) (s : String) → Without sep s → split sep s ≡ s ∷ []
unfolding split in_front
split-Without sep String.[] h = refl
split-Without sep (String.◌∷◌ c s) (other, h) = rw (other, split-Without sep s h) refl

split_first :
    (sep : Char) (s t : String)
    → Without (code sep) s
    → split (code sep) (s & String.◌∷◌ sep t) ≡ s ∷ split (code sep) t
unfolding split in_front
split_first sep String.[] t h = ap (split (code sep)) (nil-append (String.◌∷◌ sep t)) ∙ ground arith
split_first sep (String.◌∷◌ c s) t (other, h) =
    ap (split (code sep)) (cons-append c s (String.◌∷◌ sep t))
    ∙ rw (other, split_first sep s t h) refl

split-join :
    (sep : Char) (s : String) (rest : List String)
    → Without (code sep) s
    → All (Without (code sep)) rest
    → split (code sep) (join sep s rest) ≡ s ∷ rest
unfolding join
split-join sep s [] h _ = split-Without (code sep) s h
split-join sep s (t ∷ rest) h (g, gs) =
    split_first sep s (join sep t rest) h ∙ ap (◌∷◌ s) (split-join sep t rest g gs)

split_joined :
    (comma : Char) (s : String) (rest : List String)
    → code comma ≡ b','
    → Without b',' s
    → All (Without b',') rest
    → split b',' (join comma s rest) ≡ s ∷ rest
split_joined comma s rest is_comma h hs =
    subst {A = ℕ}
      (λ sep. Without sep s → All (Without sep) rest → split sep (join comma s rest) ≡ s ∷ rest)
      is_comma (split-join comma s rest) h hs

split_nonempty : (sep : ℕ) (s : String) → leb 1 (length (split sep s)) ≡ true
unfolding split in_front
split_nonempty sep String.[] = refl
split_nonempty sep (String.◌∷◌ c s) =
    ground (arith, in_front_nonempty c (split sep s) (split_nonempty sep s))
  where
    in_front_nonempty :
        (x : Char) (parts : List String)
        → leb 1 (length parts) ≡ true
        → leb 1 (length (in_front x parts)) ≡ true
    in_front_nonempty x [] h = h
    in_front_nonempty x (part ∷ parts) h = ground arith

-- GetEnvAsSlice never returns its default: a variable that holds one or more texts without commas,
-- joined by commas, gives these texts, and a variable that is not set gives one empty text.
pub get_env_as_slice_lem :
    (env : Variables) (key : String) (def : List String)
    → (get_env_as_slice env key def ≡ split b',' (get_env_as_string env key ""))
      × (env key ≡ none → get_env_as_slice env key def ≡ "" ∷ [])
      × ((comma : Char) (s : String) (rest : List String)
          → code comma ≡ b','
          → All (Without b',') (s ∷ rest)
          → env key ≡ some (join comma s rest)
          → get_env_as_slice env key def ≡ s ∷ rest)
unfolding get_env_as_slice get_env_as_string split
get_env_as_slice_lem env key def = (
  rw (split_nonempty b',' (or_default (env key) "")) refl,
  λ unset. rw unset refl,
  λ comma s rest is_comma (h, hs) held.
      rw held (rw (split_joined comma s rest is_comma h hs) (ground arith)),
)
