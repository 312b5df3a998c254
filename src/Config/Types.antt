-- ===== src/Config/Types.antt =====
-- internal/config/types.go: the configuration, less the fields that nothing modelled reads. Durations
-- are in nanoseconds.
use sis.Base.{Bool, List, map, Str}
use sis.Base.Int.{ℤ}
use sis.Policy.Config.{GroupConfig, BlocklistConfig}
use sis.Policy.Config

pub record DnsServer : Type 0 where
  pub listen : List Str
  pub udp_workers : ℤ
  pub tcp_workers : ℤ
  pub udp_size : ℤ
  pub rate_limit_qps : ℤ
  pub rate_limit_burst : ℤ
  pub rate_limit_max_buckets : ℤ

pub record HttpServer : Type 0 where
  pub listen : Str
  pub tls : Bool
  pub cert_file : Str
  pub key_file : Str
  pub rate_limit_per_minute : ℤ

pub record Server : Type 0 where
  pub dns : DnsServer
  pub http : HttpServer
  pub data_dir : Str
  pub store_backend : Str
  pub tz : Str

pub record CacheConfig : Type 0 where
  pub max_entries : ℤ
  pub min_ttl : ℤ
  pub max_ttl : ℤ
  pub negative_ttl : ℤ

pub record PrivacyConfig : Type 0 where
  pub strip_ecs : Bool
  pub block_local_ptr : Bool
  pub log_mode : Str
  pub log_salt : Str

pub record LoggingConfig : Type 0 where
  pub query_log : Bool
  pub audit_log : Bool
  pub rotate_size_mb : ℤ
  pub retention_days : ℤ

pub record BlockConfig : Type 0 where
  pub response_a : Str
  pub response_aaaa : Str
  pub response_ttl : ℤ
  pub use_nxdomain : Bool

pub record UpstreamConfig : Type 0 where
  pub id : Str
  pub url : Str
  pub bootstrap : List Str
  pub timeout : ℤ

pub record Blocklist : Type 0 where
  pub id : Str
  pub url : Str
  pub enabled : Bool
  pub refresh_interval : ℤ

pub record ClientConfig : Type 0 where
  pub key : Str
  pub kind : Str
  pub group : Str

pub record User : Type 0 where
  pub username : Str
  pub password_hash : Str

pub record Auth : Type 0 where
  pub users : List User
  pub first_run : Bool
  pub session_ttl : ℤ
  pub cookie_name : Str
  pub secure_cookie : Bool

-- `Config`, the whole of it.
pub record Settings : Type 0 where
  pub server : Server
  pub cache : CacheConfig
  pub privacy : PrivacyConfig
  pub logging : LoggingConfig
  pub block : BlockConfig
  pub upstreams : List UpstreamConfig
  pub blocklists : List Blocklist
  pub allow_domains : List Str
  pub groups : List GroupConfig
  pub clients : List ClientConfig
  pub auth : Auth

abbrev blocklist_config : Blocklist → BlocklistConfig
blocklist_config b = record { id = b.id; enabled = b.enabled }

-- The part that policy is compiled from.
abbrev pub policy_config : Settings → Config.Config
policy_config c = record {
  tz = c.server.tz;
  blocklists = map blocklist_config c.blocklists;
  allow_domains = c.allow_domains;
  groups = c.groups;
}
