-- ===== src/Config.antt =====
-- papago.h, papago_config_t; papago.c, papago_config_new and valid_config. A `char *` is an option.
mod Tests
use libpapago.Prelude.{
  ℕ, ◌*◌, Bool, true, false, not, ◌&&◌, ◌||◌, [], ◌∷◌, Option, none, some, ◌==◌, is_none,
  if◌then◌else◌,
}
use libpapago.Prelude.Text.{CString, codes}

-- `papago_config_t`
pub record Config : Type 0 where
  pub http_port : ℕ
  pub ws_port : ℕ
  pub host : Option CString
  pub connection_timeout : ℕ
  pub connection_limit : ℕ
  pub rate_limit_requests : ℕ
  pub rate_limit_window : ℕ
  pub cert_file : Option CString
  pub key_file : Option CString
  pub ca_cert_file : Option CString
  pub require_client_cert : Bool
  pub static_dir : Option CString
  pub thread_pool_size : ℕ
  pub max_body_size : ℕ
  pub enable_ssl : Bool
  pub enable_template_rendering : Bool
  pub enable_rate_limiting : Bool
  pub enable_compression : Bool
  pub enable_cors : Bool

unfoldable pub config_new : Config
config_new = record {
  http_port = 8080;
  ws_port = 8081;
  host = some (codes "0.0.0.0");
  connection_timeout = 30;
  connection_limit = 256;
  rate_limit_requests = 0;
  rate_limit_window = 0;
  cert_file = none;
  key_file = none;
  ca_cert_file = none;
  require_client_cert = false;
  static_dir = none;
  thread_pool_size = 1;
  max_body_size = 10 * 1024 * 1024;
  enable_ssl = false;
  enable_template_rendering = false;
  enable_rate_limiting = false;
  enable_compression = false;
  enable_cors = false;
}

-- `s == NULL || s[0] == '\0'`
abbrev pub is_blank : Option CString → Bool
is_blank none = true
is_blank (some []) = true
is_blank (some (c ∷ s)) = false

-- The three tests that make a configuration invalid; NULL is invalid too.
unfoldable pub valid_config : Option Config → Bool
valid_config none = false
valid_config (some config) =
    if config.enable_ssl && (is_none config.cert_file || is_none config.key_file)
    then false
    else if config.enable_rate_limiting
        && (config.rate_limit_requests == 0 || config.rate_limit_window == 0)
    then false
    else if config.require_client_cert && (not config.enable_ssl || is_blank config.ca_cert_file)
    then false
    else true
