-- ===== src/Middleware/Secure.antt =====
-- middleware/secure.go: the defaults of `NewSecure`, what echo's CORS and secure middlewares are given,
-- and `Handle`.
use kit_legacy.Base.{
  ℤ, pos, String, ◌&◌, Bool, true, false, Option, none, some, or_default, List, [], ◌∷◌, ◌≡◌, refl,
}

-- `SecureConfig`; a nil pointer is none. Two fields are written through their pointers.
pub record SecureConfig : Type 0 where
  pub cors_allow_origins : Option (List String)
  pub cors_allow_methods : Option (List String)
  pub cors_allow_headers : Option (List String)
  pub cors_max_age : Option ℤ
  pub xss_protection : Option String
  pub x_frame_options : Option String
  pub hsts_exclude_subdomains : Option Bool
  pub hsts_preload_enabled : Option Bool
  pub hsts_max_age : Option ℤ
  pub content_type_nosniff : Option String
  pub content_security_policy : Option String
  pub csp_report_only : Option Bool
  pub referrer_policy : Option String

-- echo's CORSConfig and SecureConfig, as far as they are set
pub record SecureSettings : Type 0 where
  pub allow_origins : List String
  pub allow_methods : List String
  pub allow_headers : List String
  pub max_age : ℤ
  pub xss_protection : String
  pub x_frame_options : String
  pub hsts_exclude_subdomains : Bool
  pub hsts_preload_enabled : Bool
  pub hsts_max_age : ℤ
  pub content_type_nosniff : String
  pub content_security_policy : String
  pub csp_report_only : Bool
  pub referrer_policy : String

-- `strings.Join(…, " ")`
unfoldable pub join_spaces : List String → String
join_spaces [] = ""
join_spaces (s ∷ []) = s
join_spaces (s ∷ t ∷ rest) = s & " " & join_spaces (t ∷ rest)

abbrev default_cors_allow_origins : List String
default_cors_allow_origins = "*" ∷ []

abbrev default_cors_allow_methods : List String
default_cors_allow_methods = "*" ∷ []

abbrev default_cors_allow_headers : List String
default_cors_allow_headers = "*" ∷ []

abbrev default_cors_max_age : ℤ
default_cors_max_age = pos 86400

abbrev default_xss_protection : String
default_xss_protection = "1; mode=block"

abbrev default_x_frame_options : String
default_x_frame_options = "SAMEORIGIN"

abbrev default_hsts_exclude_subdomains : Bool
default_hsts_exclude_subdomains = false

abbrev default_hsts_preload_enabled : Bool
default_hsts_preload_enabled = true

abbrev default_hsts_max_age : ℤ
default_hsts_max_age = pos 31536000

abbrev default_content_type_nosniff : String
default_content_type_nosniff = "nosniff"

abbrev default_content_security_policy : String
default_content_security_policy = "default-src"

abbrev default_csp_report_only : Bool
default_csp_report_only = false

abbrev default_referrer_policy : String
default_referrer_policy = "same-origin"

-- `distinct` is github.com/scylladb/go-set: the items of a list, once each, in some order.
module _ (distinct : List String → List String) where
  unfoldable pub origins : SecureConfig → List String
  origins config = distinct (or_default config.cors_allow_origins default_cors_allow_origins)

  unfoldable pub policy : SecureConfig → String
  policy config =
      or_default config.content_security_policy default_content_security_policy
      & " "
      & join_spaces (origins config)

  unfoldable pub new_secure : SecureConfig → SecureSettings
  new_secure config = record {
    allow_origins = origins config;
    allow_methods = or_default config.cors_allow_methods default_cors_allow_methods;
    allow_headers = or_default config.cors_allow_headers default_cors_allow_headers;
    max_age = or_default config.cors_max_age default_cors_max_age;
    xss_protection = or_default config.xss_protection default_xss_protection;
    x_frame_options = or_default config.x_frame_options default_x_frame_options;
    hsts_exclude_subdomains =
        or_default config.hsts_exclude_subdomains default_hsts_exclude_subdomains;
    hsts_preload_enabled = or_default config.hsts_preload_enabled default_hsts_preload_enabled;
    hsts_max_age = or_default config.hsts_max_age default_hsts_max_age;
    content_type_nosniff = or_default config.content_type_nosniff default_content_type_nosniff;
    content_security_policy = policy config;
    csp_report_only = or_default config.csp_report_only default_csp_report_only;
    referrer_policy = or_default config.referrer_policy default_referrer_policy;
  }

  -- A pointer of the caller holds what was written through it; a nil one stays nil.
  written : {A : Type 0} → Option A → A → Option A
  written none value = none
  written (some old) value = some value

  -- The configuration as the caller has it behind the call.
  unfoldable pub left_config : SecureConfig → SecureConfig
  unfolding written
  left_config config = record config {
    cors_allow_origins = written config.cors_allow_origins (origins config);
    content_security_policy = written config.content_security_policy (policy config);
  }

-- `Handle`, over the two middlewares that echo makes.
unfoldable pub handle : {H : Type 0} → (H → H) → (H → H) → H → H
handle secure cors next = secure (cors next)

-- A second construction from a configuration whose policy is set puts the origins behind the policy twice,
-- where the set library keeps a list that it has made.
second_policy :
    (distinct : List String → List String) (config : SecureConfig) (own : String)
    (listed : List String)
    → config.content_security_policy ≡ some own
    → config.cors_allow_origins ≡ some listed
    → distinct (distinct listed) ≡ distinct listed
    → policy distinct (left_config distinct config)
      ≡ (own & " " & join_spaces (distinct listed)) & " " & join_spaces (distinct listed)
unfolding policy left_config origins written
second_policy distinct config own listed set has kept = rw (set, has, kept) refl
