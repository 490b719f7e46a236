-- ===== src/Startup.antt =====
-- main.go: the settings that the service starts with.
pub mod Protected
use boltcard.Prelude.{
  ℕ, ◌++◌, Bool, true, false, not, ◌||◌, leb, length, List, [], Option, none, some, String,
  if◌then◌else◌,
}
use boltcard.Prelude.Int.{ℤ, pos}
use boltcard.Text.{Text, codes, text_eq, trim_space}
use boltcard.Text.Numbers.{atoi}
use boltcard.Db.Schema.{Db, message}
use boltcard.Db.Monad.{M, ok, pure, ◌>>=◌, ◌>>◌}
use boltcard.Db.Settings.{
  get_setting, get_setting_now, set_setting_cache_seconds, default_setting_cache_sec,
}
use boltcard.Auth.{min_key_length, internal_api_key}
use boltcard.Lnurlw.Tap.{ensure}
use boltcard.Ratelimit.{Limiter, new}
use boltcard.Ratelimit.Concurrency.{max_in_flight}

abbrev default_internal_api_listen : Text
default_internal_api_listen = codes "127.0.0.1:9001"

abbrev pub internal_api_rate_limit : ℕ
internal_api_rate_limit = 60

abbrev pub internal_api_rate_burst : ℕ
internal_api_rate_burst = 20

abbrev pub default_external_rate_limit : ℕ
default_external_rate_limit = 120

abbrev pub default_external_rate_burst : ℕ
default_external_rate_burst = 40

abbrev pub default_external_max_concurrent : ℕ
default_external_max_concurrent = 32

unfoldable pub internal_api_listen_address : M Text
unfolding trim_space text_eq
internal_api_listen_address = do
  value ← get_setting "INTERNAL_API_LISTEN"
  let listen = trim_space value
  pure (if text_eq listen [] then default_internal_api_listen else listen)

or_default : ℤ → Option ℤ → ℤ
or_default default_value none = default_value
or_default default_value (some value) = value

-- A text that is not a number, the empty one among them, gives the default value.
unfoldable pub setting_int : String → ℕ → M ℤ
unfolding or_default trim_space atoi
setting_int setting_name default_value = do
  value ← get_setting setting_name
  pure (or_default (pos default_value) (atoi (trim_space value)))

-- The text of SETTING_CACHE_SEC, where it is a number.
unfoldable pub setting_cache_sec : M ℤ
unfolding or_default trim_space atoi
setting_cache_sec = do
  value ← get_setting_now "SETTING_CACHE_SEC"
  pure (or_default (pos default_setting_cache_sec) (atoi (trim_space value)))

-- `auth.Key_configured`
unfoldable pub key_configured : Text → M Bool
key_configured env = do key ← internal_api_key env; pure (leb min_key_length (length key))

-- The port of the internal API is opened where the function is enabled and a key is configured.
unfoldable pub internal_port : Text → Text → M (Option Text)
unfolding text_eq
internal_port env internal_listen = do
  function_internal_api ← get_setting "FUNCTION_INTERNAL_API"
  if not (text_eq function_internal_api (codes "ENABLE")) then pure none else (do
    configured ← key_configured env
    pure (if configured then some internal_listen else none))

-- What runs once the service has started.
pub record Running : Type 0 where
  pub trusted_proxy_count : ℤ
  pub external_limiter : Limiter
  pub external_concurrency : ℕ
  pub internal_limiter : Limiter
  pub external_addr : Text
  pub internal_addr : Option Text

unfoldable pub external_port : Text → Text
unfolding text_eq
external_port port = if text_eq port [] then codes ":9000" else codes ":" ++ port

abbrev pub running_of : ℤ → ℤ → ℤ → ℤ → Text → Option Text → Running
running_of proxies rate burst max_concurrent port internal_addr = record {
  trusted_proxy_count = proxies;
  external_limiter = new rate burst;
  external_concurrency = max_in_flight max_concurrent;
  internal_limiter = new (pos internal_api_rate_limit) (pos internal_api_rate_burst);
  external_addr = external_port port;
  internal_addr = internal_addr;
}

-- The settings that are read before the ports are opened.
pub record Prepared : Type 0 where
  pub proxies : ℤ
  pub rate : ℤ
  pub burst : ℤ
  pub max_concurrent : ℤ
  pub host_port : Text
  pub internal_listen : Text

-- `main`, up to the address of the internal API. With another LOG_LEVEL the process exits.
unfoldable pub prepare : M Prepared
unfolding text_eq
prepare = do
  cache_sec ← setting_cache_sec
  λ db. (ok tt, set_setting_cache_seconds cache_sec db)
  log_level ← get_setting "LOG_LEVEL"
  ensure (text_eq log_level (codes "DEBUG") || text_eq log_level (codes "PRODUCTION"))
      (message "error getting a valid LOG_LEVEL setting from the database")
  trusted_proxy_count ← setting_int "TRUSTED_PROXY_COUNT" 0
  rate ← setting_int "EXTERNAL_RATE_LIMIT_PER_MIN" default_external_rate_limit
  burst ← setting_int "EXTERNAL_RATE_BURST" default_external_rate_burst
  max_concurrent ← setting_int "EXTERNAL_MAX_CONCURRENT" default_external_max_concurrent
  port ← get_setting "HOST_PORT"
  listen ← internal_api_listen_address
  pure (record {
    proxies = trusted_proxy_count;
    rate = rate;
    burst = burst;
    max_concurrent = max_concurrent;
    host_port = port;
    internal_listen = listen;
  })

-- `main`, up to the listeners. `env` is INTERNAL_API_KEY in the environment.
unfoldable pub start : Text → M Running
unfolding external_port
start env = do
  p ← prepare
  internal_addr ← internal_port env p.internal_listen
  pure (running_of p.proxies p.rate p.burst p.max_concurrent p.host_port internal_addr)
