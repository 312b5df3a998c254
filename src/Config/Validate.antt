-- ===== src/Config/Validate.antt =====
-- internal/config/validate.go: Validate. The errors come in the order in which the code joins them.
use sis.Base.{
  concat, ℕ, suc, Bool, true, false, not, ◌&&◌, ◌||◌, none, some, List, [], ◌∷◌, ◌++◌, Str, eqs,
  if◌then◌else◌, codes, ◌==◌,
}
use sis.Base.Int.{pos, is_neg, is_pos, ltb_ℤ}
use sis.Base.Map.{is_some}
use sis.Dns.Synthetic.{to4}
use sis.Config.Types.{
  Settings, Server, CacheConfig, User, Auth, BlockConfig, LoggingConfig, PrivacyConfig,
}
use sis.Config.Issues.{Part, name, index, text, about, Issue, issue_if, required, not_negative}
use sis.Config.Checks.{Host, one_of, is_nil, is_blank, valid_cookie_name, key_issues, add_key}
use sis.Config.Sections.{
  at, below, blocklists_issues, blocklist_ids, pattern_issues, groups_issues, group_names,
  default_count, clients_issues, listen_issues, upstreams_issues,
}

abbrev dns_path : Str → List Part
dns_path field = below (codes "server") (codes "dns") field

-- The numbers of the servers.
unfoldable pub limits_issues : Server → List Issue
limits_issues s = concat (
    issue_if (is_neg s.dns.rate_limit_qps) (dns_path (codes "rate_limit_qps")) not_negative
    ∷ issue_if (is_neg s.dns.rate_limit_burst) (dns_path (codes "rate_limit_burst")) not_negative
    ∷ issue_if (is_pos s.dns.rate_limit_qps && ltb_ℤ s.dns.rate_limit_burst s.dns.rate_limit_qps)
        (dns_path (codes "rate_limit_burst")) (text (codes "must be >= rate_limit_qps"))
    ∷ issue_if (is_neg s.http.rate_limit_per_minute)
        (below (codes "server") (codes "http") (codes "rate_limit_per_minute")) not_negative
    ∷ issue_if (is_neg s.dns.udp_workers) (dns_path (codes "udp_workers")) not_negative
    ∷ issue_if (is_neg s.dns.tcp_workers) (dns_path (codes "tcp_workers")) not_negative
    ∷ (if is_neg s.dns.udp_size
        then issue_if true (dns_path (codes "udp_size")) not_negative
        else issue_if (ltb_ℤ (pos 65535) s.dns.udp_size) (dns_path (codes "udp_size"))
            (text (codes "must be <= 65535")))
    ∷ [])

unfoldable pub users_issues : List Str → ℕ → List User → List Issue
users_issues seen i [] = []
users_issues seen i (u ∷ us) =
    let path =
      λ (field : Str). name (codes "auth") ∷ name (codes "users") ∷ index i ∷ name field ∷ [] in
    concat (
      key_issues (path (codes "username")) u.username seen
      ∷ issue_if (is_blank u.password_hash) (path (codes "password_hash")) required
      ∷ users_issues (add_key u.username seen) (suc i) us
      ∷ [])

unfoldable pub cache_issues : CacheConfig → List Issue
cache_issues c =
    let cache = λ (field : Str). at (codes "cache") field in
    concat (
      issue_if (ltb_ℤ c.max_ttl c.min_ttl) (cache (codes "min_ttl"))
        (text (codes "must be <= cache.max_ttl"))
      ∷ issue_if (is_neg c.max_entries) (cache (codes "max_entries")) not_negative
      ∷ issue_if (is_neg c.min_ttl) (cache (codes "min_ttl")) not_negative
      ∷ issue_if (is_neg c.max_ttl) (cache (codes "max_ttl")) not_negative
      ∷ issue_if (is_neg c.negative_ttl) (cache (codes "negative_ttl")) not_negative
      ∷ issue_if (is_pos c.min_ttl && is_pos c.max_ttl && ltb_ℤ c.max_ttl c.negative_ttl)
          (cache (codes "negative_ttl")) (text (codes "must be <= cache.max_ttl"))
      ∷ issue_if (is_pos c.negative_ttl && is_pos c.min_ttl && ltb_ℤ c.negative_ttl c.min_ttl)
          (cache (codes "negative_ttl")) (text (codes "must be >= cache.min_ttl"))
      ∷ [])

unfoldable pub logging_issues : LoggingConfig → List Issue
logging_issues l =
    issue_if (is_neg l.rotate_size_mb) (at (codes "logging") (codes "rotate_size_mb")) not_negative
    ++ issue_if (is_neg l.retention_days) (at (codes "logging") (codes "retention_days"))
        not_negative

unfoldable pub auth_issues : Auth → List Issue
auth_issues a =
    issue_if (is_neg a.session_ttl) (at (codes "auth") (codes "session_ttl")) not_negative
    ++ issue_if (not (is_blank a.cookie_name) && not (valid_cookie_name a.cookie_name))
        (at (codes "auth") (codes "cookie_name")) (text (codes "must be a valid HTTP cookie name"))

module _ (host : Host) where
  -- `ip != nil && ip.To4() != nil`, and with `== nil`.
  unfoldable pub is_v4 : Str → Bool
  is_v4 s = elim (host.parse_ip s) [ none ↦ false | some ip ↦ not (is_nil (to4 ip)) ]

  unfoldable pub is_v6 : Str → Bool
  is_v6 s = elim (host.parse_ip s) [ none ↦ false | some ip ↦ is_nil (to4 ip) ]

  unfoldable pub response_issues : BlockConfig → List Issue
  unfolding is_v4 is_v6
  response_issues b =
      issue_if (not (is_blank b.response_a) && not (is_v4 b.response_a))
        (at (codes "block") (codes "response_a")) (text (codes "must be an IPv4 address"))
      ++ issue_if (not (is_blank b.response_aaaa) && not (is_v6 b.response_aaaa))
          (at (codes "block") (codes "response_aaaa")) (text (codes "must be an IPv6 address"))

  -- The time zone, and the log mode.
  unfoldable pub zone_issues : Str → List Issue
  zone_issues tz =
      issue_if
        (not (is_blank tz)
          && not (eqs tz (codes "Local"))
          && not (is_some (host.platform.load_location tz)))
        (at (codes "server") (codes "tz")) (about (codes "invalid IANA timezone") tz)

  unfoldable pub privacy_issues : PrivacyConfig → List Issue
  privacy_issues p =
      issue_if
        (not (is_blank p.log_mode)
          && not (one_of p.log_mode (codes "full" ∷ codes "hashed" ∷ codes "anonymous" ∷ [])))
        (at (codes "privacy") (codes "log_mode"))
        (text (codes "must be full, hashed, or anonymous"))

  unfoldable pub data_dir_issues : Str → LoggingConfig → List Issue
  data_dir_issues dir l =
      let path = at (codes "server") (codes "data_dir") in
      if is_blank dir
      then issue_if true path required
      else if not (host.mkdir_all (host.clean dir))
      then issue_if true path (text (codes "must exist or be creatable"))
      else issue_if
          ((l.query_log || l.audit_log)
            && not (host.mkdir_all (host.join (host.clean dir) (codes "logs"))))
          path (text (codes "logs directory must be creatable"))

  -- The errors, by section.
  unfoldable pub validate_parts : Settings → List (List Issue)
  unfolding limits_issues users_issues cache_issues response_issues zone_issues data_dir_issues
  validate_parts c =
      let ids = blocklist_ids host [] c.blocklists in
      blocklists_issues host 0 [] c.blocklists
      ∷ groups_issues host ids [] 0 c.groups
      ∷ issue_if (not (default_count host c.groups == 1)) (name (codes "groups") ∷ [])
          (text (codes "default group must exist exactly once"))
      ∷ clients_issues host (group_names host [] c.groups) [] 0 c.clients
      ∷ listen_issues host c.server
      ∷ pattern_issues host (at (codes "allowlist") (codes "domains")) c.allow_domains
      ∷ issue_if (is_nil c.upstreams) (name (codes "upstreams") ∷ [])
          (text (codes "at least one upstream is required"))
      ∷ upstreams_issues host [] 0 c.upstreams
      ∷ issue_if (is_nil c.auth.users && not c.auth.first_run) (at (codes "auth") (codes "users"))
          (text (codes "non-empty unless auth.first_run is true"))
      ∷ limits_issues c.server
      ∷ users_issues [] 0 c.auth.users
      ∷ cache_issues c.cache
      ∷ issue_if (is_neg c.block.response_ttl) (at (codes "block") (codes "response_ttl"))
          not_negative
      ∷ logging_issues c.logging
      ∷ auth_issues c.auth
      ∷ response_issues c.block
      ∷ zone_issues c.server.tz
      ∷ privacy_issues c.privacy
      ∷ data_dir_issues c.server.data_dir c.logging
      ∷ []

  -- `Validate` of a configuration that is not nil: no issue is the nil error.
  unfoldable pub validate : Settings → List Issue
  unfolding validate_parts
  validate c = concat (validate_parts c)
