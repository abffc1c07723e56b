-- ===== src/Settings.antt =====
-- mcp/src/compliance_mcp/settings.py. The environment is a function from names to texts; what
-- `expanduser` and `resolve` make of a path is a parameter, which stands for the home and the current
-- directory.
pub mod Numbers
pub mod Guards
pub mod Headers
use regulatory_compliance_he.Prelude.{
  Text, String, lit, Option, none, some, Bool, true, false, ◌||◌, List, [], ◌∷◌, ◌++◌, lower, strip,
  ◌==◌, any, Result, ok, err, ◌>>=◌, if◌then◌else◌,
}
use regulatory_compliance_he.Prelude.Int.{ℤ, pos}
use regulatory_compliance_he.Store.FrontMatter.{comma_list}
use regulatory_compliance_he.Server.{IdentityMode, by_header, by_parameter, IdentitySettings}
use regulatory_compliance_he.Review.{ReviewIdentityMode, oidc, dev}
use regulatory_compliance_he.Settings.Numbers.{parse_int}

-- `ValueError`
pub data SettingsError : Type 0 where
  value_error : SettingsError

abbrev pub Env : Type 0
Env = Text → Option Text

abbrev pub or_default : Option Text → Text → Text
or_default none default = default
or_default (some t) default = t

-- `_env`
unfoldable pub env_text : Env → String → String → Text
env_text env name default = or_default (env (lit name)) (lit default)

abbrev pub truth_words : List Text
truth_words = lit "1" ∷ lit "true" ∷ lit "yes" ∷ lit "on" ∷ []

abbrev pub is_truth : Text → Bool
is_truth raw = any (λ w. w == lower (strip raw)) truth_words

unfoldable pub truth_or : Option Text → Bool → Bool
truth_or none default = default
truth_or (some raw) default = is_truth raw

-- `_env_bool`
unfoldable pub env_bool : Env → String → Bool → Bool
env_bool env name default = truth_or (env (lit name)) default

unfoldable pub number_or : Option Text → ℤ → Result SettingsError ℤ
number_or none default = ok default
number_or (some []) default = ok default
number_or (some (c ∷ s)) default = elim (parse_int (c ∷ s)) [
  | none ↦ err value_error
  | some n ↦ ok n
]

-- `_env_int`
unfoldable pub env_int : Env → String → ℤ → Result SettingsError ℤ
env_int env name default = number_or (env (lit name)) default

-- `_env_csv`
unfoldable pub env_csv : Env → String → String → List Text
env_csv env name default = comma_list (or_default (env (lit name)) (lit default))

unfoldable pub identity_mode_of : Text → Result SettingsError IdentityMode
identity_mode_of t =
    if t == lit "header"
    then ok by_header
    else if t == lit "parameter"
    then ok by_parameter
    else err value_error

unfoldable pub review_mode_of : Text → Result SettingsError ReviewIdentityMode
review_mode_of t =
    if t == lit "oidc" then ok oidc else if t == lit "dev" then ok dev else err value_error

pub record Settings : Type 0 where
  pub data_dir : Text
  pub state_dir : Text
  pub audit_log : Text
  pub audit_hmac_key : Text
  pub audit_rotate_bytes : ℤ
  pub audit_forward_url : Text
  pub audit_forward_token : Text
  pub audit_anchor_every : ℤ
  pub host : Text
  pub port : ℤ
  pub allowed_hosts : List Text
  pub bearer_token : Text
  pub identity_mode : IdentityMode
  pub identity_header : Text
  pub identity_header_strict : Bool
  pub session_header : Text
  pub directory_ttl_seconds : ℤ
  pub review_identity_mode : ReviewIdentityMode
  pub oidc_issuer : Text
  pub oidc_audience : Text
  pub oidc_jwks_url : Text
  pub oidc_username_claim : Text
  pub allow_clock_override : Bool
  pub rate_limit_per_minute : ℤ
  pub agent_id : Text
  pub log_json : Bool

-- The values that may be refused, in the order in which the fields are read.
pub record Checked : Type 0 where
  pub rotate_bytes : ℤ
  pub anchor_every : ℤ
  pub port : ℤ
  pub mode : IdentityMode
  pub ttl : ℤ
  pub review_mode : ReviewIdentityMode
  pub rate_limit : ℤ

unfoldable pub checked_values : Env → Result SettingsError Checked
checked_values env = do
  rotate_bytes ← env_int env "COMPLIANCE_AUDIT_ROTATE_BYTES" (pos 50_000_000)
  anchor_every ← env_int env "COMPLIANCE_AUDIT_ANCHOR_EVERY" (pos 100)
  port ← env_int env "COMPLIANCE_MCP_PORT" (pos 8765)
  mode ← identity_mode_of (env_text env "COMPLIANCE_IDENTITY_MODE" "parameter")
  ttl ← env_int env "COMPLIANCE_DIRECTORY_TTL_SECONDS" (pos 60)
  review_mode ← review_mode_of (env_text env "COMPLIANCE_REVIEW_IDENTITY_MODE" "dev")
  rate_limit ← env_int env "COMPLIANCE_RATE_LIMIT_PER_MINUTE" (pos 120)
  ok (record {
    rotate_bytes = rotate_bytes;
    anchor_every = anchor_every;
    port = port;
    mode = mode;
    ttl = ttl;
    review_mode = review_mode;
    rate_limit = rate_limit;
  })

module _ (resolve : Text → Text) where
  -- `_env_path`
  unfoldable pub env_path : Env → String → String → Text
  env_path env name default = resolve (env_text env name default)

  unfoldable pub settings_from : Env → Checked → Settings
  settings_from env c = record {
    data_dir = env_path env "COMPLIANCE_DATA_DIR" "./data";
    state_dir = env_path env "COMPLIANCE_STATE_DIR" "./state";
    audit_log = env_path env "COMPLIANCE_AUDIT_LOG" "./state/audit/audit.jsonl";
    audit_hmac_key = env_text env "COMPLIANCE_AUDIT_HMAC_KEY" "";
    audit_rotate_bytes = c.rotate_bytes;
    audit_forward_url = env_text env "COMPLIANCE_AUDIT_FORWARD_URL" "";
    audit_forward_token = env_text env "COMPLIANCE_AUDIT_FORWARD_TOKEN" "";
    audit_anchor_every = c.anchor_every;
    host = env_text env "COMPLIANCE_MCP_HOST" "127.0.0.1";
    port = c.port;
    allowed_hosts =
        env_csv env "COMPLIANCE_MCP_ALLOWED_HOSTS"
          "127.0.0.1:8765,localhost:8765,compliance-mcp:8765";
    bearer_token = env_text env "COMPLIANCE_MCP_TOKEN" "";
    identity_mode = c.mode;
    identity_header = lower (env_text env "COMPLIANCE_IDENTITY_HEADER" "x-requester");
    identity_header_strict = env_bool env "COMPLIANCE_IDENTITY_HEADER_STRICT" true;
    session_header = lower (env_text env "COMPLIANCE_SESSION_HEADER" "x-session-id");
    directory_ttl_seconds = c.ttl;
    review_identity_mode = c.review_mode;
    oidc_issuer = env_text env "COMPLIANCE_OIDC_ISSUER" "";
    oidc_audience = env_text env "COMPLIANCE_OIDC_AUDIENCE" "";
    oidc_jwks_url = env_text env "COMPLIANCE_OIDC_JWKS_URL" "";
    oidc_username_claim = env_text env "COMPLIANCE_OIDC_USERNAME_CLAIM" "preferred_username";
    allow_clock_override = env_bool env "COMPLIANCE_ALLOW_CLOCK_OVERRIDE" false;
    rate_limit_per_minute = c.rate_limit;
    agent_id = env_text env "COMPLIANCE_AGENT_ID" "hermes-regcomply";
    log_json = env_bool env "COMPLIANCE_LOG_JSON" true;
  }

  -- `Settings()`
  unfoldable pub from_env : Env → Result SettingsError Settings
  from_env env = checked_values env >>= λ c. ok (settings_from env c)

-- The settings by which the server tells a caller.
abbrev pub identity_settings : Settings → IdentitySettings
identity_settings s = record {
  identity_mode = s.identity_mode;
  identity_header = s.identity_header;
  identity_header_strict = s.identity_header_strict;
  session_header = s.session_header;
}
