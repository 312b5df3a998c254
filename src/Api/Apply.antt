-- ===== src/Api/Apply.antt =====
-- internal/api/config_mutation.go and internal/config/secrets.go: a changed configuration is checked,
-- written, and put to work. Whether the file, the history and the logs could be written is a parameter,
-- and so is the random salt. A configuration is a value, so that a clone of it is itself; the audit log
-- is left out but for its reopening.
pub mod Outcomes
use sis.Base.{
  ℕ, suc, ◌+◌, Bool, true, false, not, ◌&&◌, ◌||◌, Option, none, some, List, [], ◌∷◌, ◌++◌, map,
  Str, codes, str_eq, eqs, if◌then◌else◌,
}
use sis.Base.Int.{ℤ, pos, pos_part}
use sis.Base.Results.{Result, ok, err}
use sis.Config.Types.{
  Settings, PrivacyConfig, Auth, User, UpstreamConfig, CacheConfig, policy_config,
}
use sis.Config.Checks.{Host, is_blank, is_nil}
use sis.Config.Validate.{validate}
use sis.Policy.Engine.{Engine, reload_config}
use sis.Log.Query
use sis.Log.Query.{Query}
use sis.Dns.Cache
use sis.Dns.Cache.{Cache, CacheOptions}
use sis.Dns.Limiter.{RateLimiter, new_limiter}

-- What the outside answers to one change.
pub record Outside : Type 0 where
  pub salt : Option Str
  pub saves : Bool
  pub appends : Bool
  pub opens : Bool
  pub audit_opens : Bool

-- The fields of `Server` that a change touches: the configuration in use, the one in the file, the
-- history, the engine, the query log, the list the upstream pool was given, the cache, and the limiter
-- of the pipeline. What the server may lack is optional: no running configuration is a nil holder, and
-- the limiter is that of a pipeline that may be nil, and may itself be none.
pub record Admin : Type 0 where
  pub running : Option Settings
  pub config_path : Str
  pub file : Option Settings
  pub history : Option (List Settings)
  pub engine : Option Engine
  pub query_log : Option Query
  pub has_audit : Bool
  pub upstreams : Option (List UpstreamConfig)
  pub cache : Option Cache
  pub limiter : Option (Option RateLimiter)

pub data Answer : Type 0 where
  applied : Answer
  bad_config : Answer
  failed : Answer

-- `EnsureLogSalt`.
unfoldable pub ensure_log_salt : Option Str → Settings → Option Settings
ensure_log_salt random c =
    if not (eqs c.privacy.log_mode (codes "hashed")) || not (is_blank c.privacy.log_salt)
    then some c
    else elim random [
      | none ↦ none
      | some salt ↦ some (record c { privacy = record c.privacy { log_salt = salt } })
    ]

-- `RedactedCopy`.
abbrev redacted : Str → Str
redacted secret = if is_blank secret then secret else codes "redacted"

unfoldable pub redacted_users : List User → List User
redacted_users [] = []
redacted_users (u ∷ us) = record u { password_hash = redacted u.password_hash } ∷ redacted_users us

unfoldable pub redacted_copy : Settings → Settings
unfolding redacted_users
redacted_copy c =
    let auth : Auth = record c.auth { users = redacted_users c.auth.users } in
    let privacy : PrivacyConfig = record c.privacy { log_salt = redacted c.privacy.log_salt } in
    record c { auth = auth; privacy = privacy }

abbrev cache_options : CacheConfig → CacheOptions
cache_options c = record {
  max_entries = pos_part c.max_entries;
  min_ttl = pos_part c.min_ttl;
  max_ttl = pos_part c.max_ttl;
  negative_ttl = pos_part c.negative_ttl;
}

-- `appendConfigHistory`.
unfoldable pub append_history :
    Bool → Settings → Option (List Settings) → Option (Option (List Settings))
unfolding redacted_copy
append_history appends c none = some none
append_history appends c (some h) =
    if appends then some (some (h ++ redacted_copy c ∷ [])) else none

-- `Reconfigure` of a query log that may be nil.
unfoldable pub reconfigure_log : Outside → Settings → Option Query → Option (Option Query)
reconfigure_log o c none = some none
reconfigure_log o c (some q) = elim (Query.reconfigure o.salt o.opens q c.privacy c.logging) [
  | none ↦ none
  | some r ↦ some (some r)
]

-- A part of the server that takes a new value if it is there.
abbrev pub replaced : {A : Type 0} → A → Option A → Option A
replaced a none = none
replaced a (some b) = some a

-- The end of `applyConfig`, which does not fail.
unfoldable pub put_to_work : Settings → Admin → Admin
put_to_work c s = record s {
  upstreams = replaced c.upstreams s.upstreams;
  cache = elim s.cache [
    | none ↦ none
    | some cache ↦ Cache.reconfigure cache (cache_options c.cache)
  ];
  limiter =
      replaced
        (new_limiter c.server.dns.rate_limit_qps c.server.dns.rate_limit_burst
          c.server.dns.rate_limit_max_buckets)
        s.limiter;
  running = replaced c s.running;
}

-- `applyConfig` from the query log on.
unfoldable pub reopen_logs : Outside → Settings → Admin → Admin × Answer
unfolding reconfigure_log put_to_work
reopen_logs o c s = elim (reconfigure_log o c s.query_log) [
  | none ↦ (s, failed)
  | some q ↦
      let t : Admin = record s { query_log = q } in
      if s.has_audit && not o.audit_opens then (t, failed) else (put_to_work c t, applied)
]

-- `applyConfig` from the reload of the policy on.
unfoldable pub reload : Host → Outside → Settings → Admin → Admin × Answer
unfolding reopen_logs
reload host o c s = elim s.engine [
  | none ↦ reopen_logs o c s
  | some e ↦
      let (next, fault) = reload_config host.platform e (some (policy_config c)) in
      elim fault [
        | err m ↦ (s, bad_config)
        | ok u ↦ reopen_logs o c (record s { engine = some next })
      ]
]

-- `applyConfig` of a configuration that is not nil: the server behind it, and its answer.
unfoldable pub apply_config : Host → Outside → Settings → Admin → Admin × Answer
unfolding ensure_log_salt validate append_history reload
apply_config host o c s = elim (ensure_log_salt o.salt c) [
  | none ↦ (s, failed)
  | some next ↦
      if not (is_nil (validate host next))
      then (s, bad_config)
      else if not (is_blank s.config_path) && not o.saves
      then (s, failed)
      else (let saved : Admin = record s {
        file = if is_blank s.config_path then s.file else some next;
      } in
          elim (append_history o.appends next saved.history) [
            | none ↦ (saved, failed)
            | some h ↦ reload host o next (record saved { history = h })
          ])
]
