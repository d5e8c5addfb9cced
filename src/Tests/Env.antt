-- ===== src/Tests/Env.antt =====
-- Variables read back, and random texts.
use kit_legacy.Base.{
  String, List, All, show, pos, negsuc, ◌&◌, ◌≡◌, refl, none, some, [], ◌∷◌, arith, true, false,
  same_text, if◌then◌else◌,
}
use Prim.Native.Char.{Char, code}
use kit_legacy.Utils.Env.{
  Variables, get_env_as_int, get_env_as_bool, get_env_as_slice, get_env_as_string, split, in_front,
  atoi, digits_from, unsigned, in_range, parse_bool, one_of,
}
use kit_legacy.Utils.Env.Numbers.{get_env_as_int-show_ℤ}
use kit_legacy.Utils.Env.Slices.{Without, join, get_env_as_slice_lem}
use kit_legacy.Utils.RandomString.{}

abbrev variables : Variables
variables key =
    if same_text key "PORT"
    then some "-8080"
    else if same_text key "HOSTS"
    then some "a,b,"
    else none

int_test : get_env_as_int variables "HOSTS" (pos 7) ≡ pos 7
unfolding get_env_as_int atoi unsigned digits_from in_range get_env_as_string
int_test = refl

bool_test : get_env_as_bool (λ key. some "t") "DEBUG" false ≡ true
unfolding get_env_as_bool parse_bool one_of get_env_as_string
bool_test = refl

slice_test : get_env_as_slice variables "HOSTS" [] ≡ "a" ∷ "b" ∷ "" ∷ []
unfolding get_env_as_slice split in_front get_env_as_string
slice_test = refl

held_test : variables "PORT" ≡ some ("-" & show 8080)
unfolding show
held_test = refl

get_env_as_int-show_ℤ_example : get_env_as_int variables "PORT" (pos 80) ≡ negsuc 8079
get_env_as_int-show_ℤ_example =
    get_env_as_int-show_ℤ variables "PORT" (pos 80) (negsuc 8079) held_test (omega arith)
      (omega arith)

get_env_as_slice_lem_example :
    (get_env_as_slice variables "HOSTS" [] ≡ split b',' (get_env_as_string variables "HOSTS" ""))
    × (variables "HOSTS" ≡ none → get_env_as_slice variables "HOSTS" [] ≡ "" ∷ [])
    × ((comma : Char) (s : String) (rest : List String)
        → code comma ≡ b','
        → All (Without b',') (s ∷ rest)
        → variables "HOSTS" ≡ some (join comma s rest)
        → get_env_as_slice variables "HOSTS" [] ≡ s ∷ rest)
get_env_as_slice_lem_example = get_env_as_slice_lem variables "HOSTS" []
