-- ===== src/Config/Load.antt =====
-- internal/config/load.go: the defaults and the environment of a configuration that was read. What is
-- read from the file and the texts of numbers, flags and durations are parsed by others: os.Getenv,
-- strconv and time.ParseDuration are parameters.
pub mod Effects
use sis.Base.{
  ℕ, ◌≡◌, refl, Bool, true, false, not, Option, none, some, List, [], ◌∷◌, Str, codes, eqs,
  if◌then◌else◌, arith, ap, Bool-cases, inl, inr,
}
use sis.Base.Int.{ℤ, pos, is_neg, is_pos}
use sis.Base.Strings.{split, trim_space}
use sis.Config.Types.{
  Settings, Server, DnsServer, HttpServer, CacheConfig, PrivacyConfig, LoggingConfig, BlockConfig,
  Auth,
}
use sis.Config.Checks.{Host, is_blank, is_nil}
use sis.Config.Validate.{validate}

abbrev or_text : Str → Str → Str
or_text v d = if is_blank v then d else v

abbrev is_zero : ℤ → Bool
is_zero v = if is_neg v then false else not (is_pos v)

abbrev or_number : ℤ → ℤ → ℤ
or_number v d = if is_zero v then d else v

unfoldable pub default_dns : DnsServer → DnsServer
default_dns d = record d {
  listen = if is_nil d.listen then codes "0.0.0.0:53" ∷ codes "[::]:53" ∷ [] else d.listen;
  udp_size = or_number d.udp_size (pos 1232);
  rate_limit_qps = or_number d.rate_limit_qps (pos 200);
  rate_limit_burst = or_number d.rate_limit_burst (pos 400);
}

unfoldable pub default_server : Server → Server
unfolding default_dns
default_server s =
    let http : HttpServer = record s.http {
      listen = or_text s.http.listen (codes "127.0.0.1:8080");
      rate_limit_per_minute = or_number s.http.rate_limit_per_minute (pos 600);
    } in
    record s {
      dns = default_dns s.dns;
      http = http;
      data_dir = or_text s.data_dir (codes "./data");
      store_backend = or_text s.store_backend (codes "json");
      tz = or_text s.tz (codes "Local");
    }

abbrev one_minute : ℤ
one_minute = pos 60000000000

abbrev one_hour : ℤ
one_hour = pos 3600000000000

abbrev one_day : ℤ
one_day = pos 86400000000000

unfoldable pub default_cache : CacheConfig → CacheConfig
default_cache c = record c {
  max_entries = or_number c.max_entries (pos 100000);
  min_ttl = or_number c.min_ttl one_minute;
  max_ttl = or_number c.max_ttl one_day;
  negative_ttl = or_number c.negative_ttl one_hour;
}

unfoldable pub default_block : BlockConfig → BlockConfig
default_block b = record b {
  response_a = or_text b.response_a (codes "0.0.0.0");
  response_aaaa = or_text b.response_aaaa (codes "::");
  response_ttl = or_number b.response_ttl one_minute;
}

unfoldable pub default_rest :
    PrivacyConfig × LoggingConfig × Auth → PrivacyConfig × LoggingConfig × Auth
default_rest (p, l, a) = (
  record p { log_mode = or_text p.log_mode (codes "full") },
  record l {
    rotate_size_mb = or_number l.rotate_size_mb (pos 100);
    retention_days = or_number l.retention_days (pos 7);
  },
  record a {
    session_ttl = or_number a.session_ttl one_day;
    cookie_name = or_text a.cookie_name (codes "sis_session");
  },
)

-- `applyDefaults`.
unfoldable pub apply_defaults : Settings → Settings
unfolding default_server default_cache default_block default_rest
apply_defaults c =
    let rest = default_rest (c.privacy, c.logging, c.auth) in
    record c {
      server = default_server c.server;
      cache = default_cache c.cache;
      privacy = rest.0;
      logging = rest.1;
      block = default_block c.block;
      auth = rest.2;
    }

-- The environment, and the parsers of its texts.
pub record Environment : Type 0 where
  pub getenv : Str → Str
  pub atoi : Str → Option ℤ
  pub parse_bool : Str → Option Bool
  pub parse_duration : Str → Option ℤ

-- `setString`, and the others, which keep the value if the text is empty or no value.
abbrev pub set_string : Str → Str → Str
set_string v target = if is_blank v then target else v

unfoldable pub set_parsed : {A : Type 0} → (Str → Option A) → Str → A → A
set_parsed parse v target =
    if is_blank v then target else elim (parse v) [ none ↦ target | some a ↦ a ]

-- `splitCSV`.
unfoldable pub keep_named : List Str → List Str
keep_named [] = []
keep_named (p ∷ ps) =
    let rest = keep_named ps in if is_blank (trim_space p) then rest else trim_space p ∷ rest

unfoldable pub split_csv : Str → List Str
unfolding keep_named
split_csv v = keep_named (split b',' v)

module _ (env : Environment) where
  abbrev text : Str → Str → Str
  text name target = set_string (env.getenv name) target

  abbrev number : Str → ℤ → ℤ
  number name target = set_parsed env.atoi (env.getenv name) target

  abbrev flag : Str → Bool → Bool
  flag name target = set_parsed env.parse_bool (env.getenv name) target

  abbrev duration : Str → ℤ → ℤ
  duration name target = set_parsed env.parse_duration (env.getenv name) target

  unfoldable pub override_dns : DnsServer → DnsServer
  override_dns d = record d {
    listen =
        if is_blank (env.getenv (codes "SIS_DNS_LISTEN"))
        then d.listen
        else split_csv (env.getenv (codes "SIS_DNS_LISTEN"));
    udp_workers = number (codes "SIS_DNS_UDP_WORKERS") d.udp_workers;
    tcp_workers = number (codes "SIS_DNS_TCP_WORKERS") d.tcp_workers;
    udp_size = number (codes "SIS_DNS_UDP_SIZE") d.udp_size;
    rate_limit_qps = number (codes "SIS_DNS_RATE_LIMIT_QPS") d.rate_limit_qps;
    rate_limit_burst = number (codes "SIS_DNS_RATE_LIMIT_BURST") d.rate_limit_burst;
  }

  unfoldable pub override_http : HttpServer → HttpServer
  override_http h = record h {
    listen = text (codes "SIS_SERVER_HTTP_LISTEN") (text (codes "SIS_HTTP_LISTEN") h.listen);
    cert_file = text (codes "SIS_HTTP_CERT_FILE") h.cert_file;
    key_file = text (codes "SIS_HTTP_KEY_FILE") h.key_file;
    tls = flag (codes "SIS_HTTP_TLS") h.tls;
    rate_limit_per_minute =
        number (codes "SIS_SERVER_HTTP_RATE_LIMIT_PER_MINUTE")
          (number (codes "SIS_HTTP_RATE_LIMIT_PER_MINUTE") h.rate_limit_per_minute);
  }

  unfoldable pub override_server : Server → Server
  unfolding override_dns override_http
  override_server s = record s {
    dns = override_dns s.dns;
    http = override_http s.http;
    data_dir = text (codes "SIS_SERVER_DATA_DIR") (text (codes "SIS_DATA_DIR") s.data_dir);
    store_backend =
        text (codes "SIS_SERVER_STORE_BACKEND") (text (codes "SIS_STORE_BACKEND") s.store_backend);
    tz = text (codes "SIS_TZ") s.tz;
  }

  unfoldable pub override_rest : Settings → Settings
  override_rest c =
      let cache : CacheConfig = record c.cache {
        max_entries = number (codes "SIS_CACHE_MAX_ENTRIES") c.cache.max_entries;
        min_ttl = duration (codes "SIS_CACHE_MIN_TTL") c.cache.min_ttl;
        max_ttl = duration (codes "SIS_CACHE_MAX_TTL") c.cache.max_ttl;
        negative_ttl = duration (codes "SIS_CACHE_NEGATIVE_TTL") c.cache.negative_ttl;
      } in
      let privacy : PrivacyConfig = record c.privacy {
        log_mode = text (codes "SIS_PRIVACY_LOG_MODE") c.privacy.log_mode;
        log_salt = text (codes "SIS_PRIVACY_LOG_SALT") c.privacy.log_salt;
        strip_ecs = flag (codes "SIS_PRIVACY_STRIP_ECS") c.privacy.strip_ecs;
        block_local_ptr = flag (codes "SIS_PRIVACY_BLOCK_LOCAL_PTR") c.privacy.block_local_ptr;
      } in
      let logging : LoggingConfig = record c.logging {
        query_log = flag (codes "SIS_LOGGING_QUERY_LOG") c.logging.query_log;
        audit_log = flag (codes "SIS_LOGGING_AUDIT_LOG") c.logging.audit_log;
        rotate_size_mb = number (codes "SIS_LOGGING_ROTATE_SIZE_MB") c.logging.rotate_size_mb;
        retention_days = number (codes "SIS_LOGGING_RETENTION_DAYS") c.logging.retention_days;
      } in
      let block : BlockConfig = record c.block {
        response_a = text (codes "SIS_BLOCK_RESPONSE_A") c.block.response_a;
        response_aaaa = text (codes "SIS_BLOCK_RESPONSE_AAAA") c.block.response_aaaa;
        response_ttl = duration (codes "SIS_BLOCK_RESPONSE_TTL") c.block.response_ttl;
        use_nxdomain = flag (codes "SIS_BLOCK_USE_NXDOMAIN") c.block.use_nxdomain;
      } in
      let auth : Auth = record c.auth {
        cookie_name = text (codes "SIS_AUTH_COOKIE_NAME") c.auth.cookie_name;
        secure_cookie = flag (codes "SIS_AUTH_SECURE_COOKIE") c.auth.secure_cookie;
        first_run = flag (codes "SIS_AUTH_FIRST_RUN") c.auth.first_run;
        session_ttl = duration (codes "SIS_AUTH_SESSION_TTL") c.auth.session_ttl;
      } in
      record c { cache = cache; privacy = privacy; logging = logging; block = block; auth = auth }

  -- `applyEnvOverrides`.
  unfoldable pub apply_env_overrides : Settings → Settings
  unfolding override_server override_rest
  apply_env_overrides c = override_rest (record c { server = override_server c.server })

-- `Load`, from what the file holds: `none` is an error of reading, of the YAML, or of Validate.
unfoldable pub load : Host → Environment → Option Settings → Option Settings
unfolding apply_defaults apply_env_overrides validate
load host env read = elim read [
  | none ↦ none
  | some c ↦
      let loaded = apply_env_overrides env (apply_defaults c) in
      if is_nil (validate host loaded) then some loaded else none
]
