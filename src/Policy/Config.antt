-- ===== src/Policy/Config.antt =====
-- internal/config/types.go: the parts of the configuration that policy is compiled from.
use sis.Base.{Bool, List, Str}

pub record ScheduleConfig : Type 0 where
  pub name : Str
  pub days : List Str
  pub from : Str
  pub to : Str
  pub block : List Str

pub record GroupConfig : Type 0 where
  pub name : Str
  pub blocklists : List Str
  pub allowlist : List Str
  pub schedules : List ScheduleConfig

-- The fields of a blocklist that the engine reads.
pub record BlocklistConfig : Type 0 where
  pub id : Str
  pub enabled : Bool

-- `Server.TZ`, `Blocklists`, `Allowlist.Domains` and `Groups`.
pub record Config : Type 0 where
  pub tz : Str
  pub blocklists : List BlocklistConfig
  pub allow_domains : List Str
  pub groups : List GroupConfig
