-- ===== src/Tests/Configs.antt =====
-- Validation at a concrete configuration.
use sis.Base.{◌≡◌, refl, true, false, none, some, [], ◌∷◌, Str, codes, Option, ◌==◌, if◌then◌else◌}
use sis.Base.Int.{pos}
use sis.Base.Map.{is_some}
use sis.Base.Results.{ok}
use sis.Policy.Engine.{Engine, new_engine}
use sis.Policy.Names.{normalize_domain_pattern}
use sis.Dns.Message.{Ip}
use sis.Config.Types.{Settings, policy_config}
use sis.Config.Checks.{Host}
use sis.Config.Domain.{valid_domain_pattern, valid_domain_pattern-normalize}
use sis.Config.Validate.{validate}
use sis.Config.Accepted.{new_engine-validate}
use sis.Config.Load.{Environment, apply_defaults, apply_env_overrides, load}
use sis.Config.Load.Effects.{load-limiter}
use sis.Dns.Limiter.{RateLimiter, new_limiter}
use sis.Tests.Data.{plain, platform, ads}

-- One address of each family.
abbrev address : Str → Option Ip
address [] = none
address (c ∷ s) =
    if c == b':'
    then some (0 ∷ 0 ∷ 0 ∷ 0 ∷ 0 ∷ 0 ∷ 0 ∷ 0 ∷ 0 ∷ 0 ∷ 0 ∷ 0 ∷ 0 ∷ 0 ∷ 0 ∷ 0 ∷ [])
    else some (1 ∷ 1 ∷ 1 ∷ 1 ∷ [])

-- A host on which every address is good and every directory is there.
abbrev pub host : Host
host = record {
  platform = platform;
  parse_url = λ s. some (record { scheme = codes "https"; host = codes "dns" });
  parse_ip = address;
  is_mac = λ s. true;
  resolves_udp = λ s. true;
  resolves_tcp = λ s. true;
  clean = λ s. s;
  join = λ a b. a;
  mkdir_all = λ s. true;
}

unfoldable pub small : Settings
unfolding validate sis.Config.Sections.blocklists_issues sis.Config.Checks.key_issues sis.Base.eqs
    sis.Config.Checks.one_of sis.Config.Sections.groups_issues sis.Config.Checks.each
    sis.Config.Sections.blocklist_ids valid_domain_pattern sis.Base.Strings.valid_string
    sis.Base.Strings.has_prefix sis.Base.Strings.trim_suffix sis.Base.Strings.trim_space
    sis.Base.Strings.is_space sis.Base.Strings.has_suffix sis.Base.Strings.to_lower
    sis.Base.Strings.len sis.Base.Strings.lower sis.Base.Strings.width sis.Base.Strings.split
    sis.Base.Strings.cut_prefix sis.Base.Strings.trim_left sis.Config.Checks.schedule_issues
    sis.Config.Checks.schedule_parts sis.Config.Checks.valid_clock
    sis.Config.Checks.valid_cookie_name sis.Config.Domain.valid_ascii
    sis.Config.Domain.valid_domain_label sis.Config.Domain.valid_host sis.Config.Domain.valid_stable
    sis.Config.Sections.blocklist_url_issues sis.Config.Sections.clients_issues
    sis.Config.Sections.default_count sis.Config.Sections.group_issues
    sis.Config.Sections.group_names sis.Config.Sections.group_parts sis.Config.Sections.is_https
    sis.Config.Sections.listen_issues sis.Config.Sections.schedules_issues
    sis.Config.Sections.upstreams_issues sis.Config.Validate.auth_issues
    sis.Config.Validate.cache_issues sis.Config.Validate.data_dir_issues sis.Config.Validate.is_v4
    sis.Config.Validate.is_v6 sis.Config.Validate.limits_issues sis.Config.Validate.logging_issues
    sis.Config.Validate.privacy_issues sis.Config.Validate.response_issues
    sis.Config.Validate.users_issues sis.Config.Validate.validate_parts
    sis.Config.Validate.zone_issues sis.Dns.Synthetic.to4 sis.Policy.Names.label_char
    sis.Policy.Names.last_is sis.Policy.Schedule.getnum sis.Policy.Schedule.parse_clock
small = record {
  server = record {
    dns = record {
      listen = codes ":53" ∷ [];
      udp_workers = pos 2;
      tcp_workers = pos 2;
      udp_size = pos 1232;
      rate_limit_qps = pos 10;
      rate_limit_burst = pos 20;
      rate_limit_max_buckets = pos 0;
    };
    http = record {
      listen = codes ":80";
      tls = false;
      cert_file = [];
      key_file = [];
      rate_limit_per_minute = pos 60;
    };
    data_dir = codes "data";
    store_backend = codes "json";
    tz = codes "Local";
  };
  cache = record { max_entries = pos 10; min_ttl = pos 1; max_ttl = pos 10; negative_ttl = pos 5 };
  privacy = record {
    strip_ecs = true;
    block_local_ptr = true;
    log_mode = codes "full";
    log_salt = [];
  };
  logging = record {
    query_log = true;
    audit_log = true;
    rotate_size_mb = pos 1;
    retention_days = pos 7;
  };
  block = record {
    response_a = [];
    response_aaaa = [];
    response_ttl = pos 60;
    use_nxdomain = false;
  };
  upstreams =
      record {
        id = codes "one";
        url = codes "https://dns/";
        bootstrap = codes "1.1.1.1" ∷ [];
        timeout = pos 0;
      }
      ∷ [];
  blocklists =
      record {
        id = codes "ads";
        url = codes "https://ads/";
        enabled = true;
        refresh_interval = pos 0;
      }
      ∷ [];
  allow_domains = ads ∷ codes "ok.com" ∷ [];
  groups =
      record {
        name = codes "default";
        blocklists = codes "ads" ∷ [];
        allowlist = ads ∷ [];
        schedules =
            record {
              name = codes "night";
              days = codes "mon" ∷ [];
              from = codes "22:00";
              to = codes "06:00";
              block = codes "ads" ∷ [];
            }
            ∷ [];
      }
      ∷ [];
  clients = record { key = codes "1.1.1.1"; kind = codes "ip"; group = codes "default" } ∷ [];
  auth = record {
    users = record { username = codes "a"; password_hash = codes "x" } ∷ [];
    first_run = false;
    session_ttl = pos 0;
    cookie_name = codes "sis";
    secure_cookie = false;
  };
}

pub no_issues : validate host small ≡ []
unfolding validate sis.Config.Sections.blocklists_issues small
no_issues = refl

valid_domain_pattern-normalize_example :
    valid_domain_pattern plain (codes "*.Ads.com")
    ≡ is_some (normalize_domain_pattern plain (codes "*.Ads.com"))
valid_domain_pattern-normalize_example = valid_domain_pattern-normalize plain (codes "*.Ads.com")

new_engine-validate_example :
    (e : Engine) × (new_engine platform (some (policy_config small)) none ≡ ok e)
unfolding small sis.Policy.Domains.Laws.same_name sis.Policy.Names.labels_for
    normalize_domain_pattern sis.Policy.Names.normalize_host sis.Policy.Names.plausible
    sis.Policy.Names.check_ascii sis.Policy.Names.lower_host sis.Policy.Names.valid_label
    sis.Policy.Trie.Laws.same_path sis.Base.Strings.trim_prefix
new_engine-validate_example =
    new_engine-validate host small none no_issues ((refl, tt), (tt, tt)) ((tt, tt), tt)

-- An environment that says nothing, and the configuration with its rate turned off.
abbrev silent : Environment
silent = record {
  getenv = λ name. [];
  atoi = λ v. none;
  parse_bool = λ v. none;
  parse_duration = λ v. none;
}

unfoldable unlimited : Settings
unlimited = record small {
  server = record small.server {
    dns = record small.server.dns { rate_limit_qps = pos 0; rate_limit_burst = pos 0 };
  };
}

load_result :
    load host silent (some unlimited) ≡ some (apply_env_overrides silent (apply_defaults unlimited))
unfolding load sis.Config.Sections.blocklists_issues unlimited small sis.Config.Load.set_parsed
load_result = refl

load-limiter_example : (l : RateLimiter) × (new_limiter (pos 200) (pos 400) (pos 0) ≡ some l)
unfolding apply_env_overrides sis.Config.Load.set_parsed apply_defaults sis.Base.eqs unlimited small
load-limiter_example =
    load-limiter host silent unlimited (apply_env_overrides silent (apply_defaults unlimited))
      load_result refl
