-- ===== src/Config/Sections.antt =====
-- internal/config/validate.go: the loops of Validate over blocklists, groups, clients and upstreams, and
-- the addresses that are listened on.
use sis.Base.{
  concat, ℕ, suc, ◌+◌, Bool, true, false, not, ◌&&◌, none, some, List, [], ◌∷◌, ◌++◌, Str, eqs,
  if◌then◌else◌, codes,
}
use sis.Base.Int.{is_neg}
use sis.Base.Map.{is_some}
use sis.Policy.Config.{GroupConfig, ScheduleConfig}
use sis.Config.Types.{Server, Blocklist, ClientConfig, UpstreamConfig}
use sis.Config.Domain.{valid_domain_pattern}
use sis.Config.Issues.{Part, name, index, text, about, Issue, issue_if, required, not_negative}
use sis.Config.Checks.{Host, one_of, is_nil, is_blank, each, key_issues, add_key, schedule_issues}

-- A path that begins with these two names.
abbrev pub at : Str → Str → List Part
at section field = name section ∷ name field ∷ []

abbrev pub below : Str → Str → Str → List Part
below section part field = name section ∷ name part ∷ name field ∷ []

abbrev pub element : Str → ℕ → Str → List Part
element section i field = name section ∷ index i ∷ name field ∷ []

module _ (host : Host) where
  unfoldable pub blocklist_url_issues : ℕ → Blocklist → List Issue
  blocklist_url_issues i b =
      let path = element (codes "blocklists") i (codes "url") in
      issue_if (b.enabled && is_blank b.url) path (text (codes "required when enabled is true"))
      ++ (if is_blank b.url then [] else elim (host.parse_url b.url) [
        | none ↦ issue_if true path (text (codes "must be a valid URL"))
        | some u ↦
            if is_blank u.scheme
            then issue_if true path (text (codes "must be a valid URL"))
            else issue_if (not (one_of u.scheme (codes "http" ∷ codes "https" ∷ codes "file" ∷ [])))
                path (text (codes "must use http, https, or file scheme"))
      ])

  unfoldable pub blocklists_issues : ℕ → List Str → List Blocklist → List Issue
  unfolding blocklist_url_issues
  blocklists_issues i ids [] = []
  blocklists_issues i ids (b ∷ bs) = concat (
      key_issues (element (codes "blocklists") i (codes "id")) b.id ids
      ∷ blocklist_url_issues i b
      ∷ issue_if (is_neg b.refresh_interval)
          (element (codes "blocklists") i (codes "refresh_interval")) not_negative
      ∷ blocklists_issues (suc i) (add_key b.id ids) bs
      ∷ [])

  -- The ids that the loop collects.
  unfoldable pub blocklist_ids : List Str → List Blocklist → List Str
  blocklist_ids ids [] = ids
  blocklist_ids ids (b ∷ bs) = blocklist_ids (add_key b.id ids) bs

  unfoldable pub schedules_issues : List Str → List Part → ℕ → List ScheduleConfig → List Issue
  schedules_issues ids path j [] = []
  schedules_issues ids path j (s ∷ ss) =
      schedule_issues host.platform.unicode.fold (path ++ name (codes "schedules") ∷ index j ∷ [])
        ids s
      ++ schedules_issues ids path (suc j) ss

  abbrev pub pattern_issues : List Part → List Str → List Issue
  pattern_issues path domains =
      each (valid_domain_pattern host.platform.unicode) (about (codes "invalid domain pattern"))
        path 0 domains

  -- The errors of one round of the loop over the groups, by test.
  unfoldable pub group_parts : List Str → List Str → ℕ → GroupConfig → List (List Issue)
  unfolding schedules_issues
  group_parts ids names i g =
      let path = name (codes "groups") ∷ index i ∷ [] in
      issue_if (is_blank g.name) (element (codes "groups") i (codes "name")) required
      ∷ issue_if (not (is_blank g.name) && one_of g.name names)
          (element (codes "groups") i (codes "name")) (about (codes "duplicate") g.name)
      ∷ each (λ id. one_of id ids) (about (codes "unknown blocklist"))
          (element (codes "groups") i (codes "blocklists")) 0 g.blocklists
      ∷ pattern_issues (element (codes "groups") i (codes "allowlist")) g.allowlist
      ∷ schedules_issues ids path 0 g.schedules
      ∷ []

  unfoldable pub group_issues : List Str → List Str → ℕ → GroupConfig → List Issue
  unfolding group_parts
  group_issues ids names i g = concat (group_parts ids names i g)

  unfoldable pub groups_issues : List Str → List Str → ℕ → List GroupConfig → List Issue
  unfolding group_issues
  groups_issues ids names i [] = []
  groups_issues ids names i (g ∷ gs) =
      group_issues ids names i g ++ groups_issues ids (g.name ∷ names) (suc i) gs

  unfoldable pub group_names : List Str → List GroupConfig → List Str
  group_names names [] = names
  group_names names (g ∷ gs) = group_names (g.name ∷ names) gs

  unfoldable pub default_count : List GroupConfig → ℕ
  default_count [] = 0
  default_count (g ∷ gs) = (if eqs g.name (codes "default") then 1 else 0) + default_count gs

  unfoldable pub clients_issues : List Str → List Str → ℕ → List ClientConfig → List Issue
  clients_issues names keys i [] = []
  clients_issues names keys i (c ∷ cs) =
      let key_path = element (codes "clients") i (codes "key") in
      concat (
        key_issues key_path c.key keys
        ∷ issue_if (not (is_blank c.group) && not (one_of c.group names))
            (element (codes "clients") i (codes "group")) (about (codes "unknown group") c.group)
        ∷ issue_if (not (is_blank c.kind) && not (one_of c.kind (codes "ip" ∷ codes "mac" ∷ [])))
            (element (codes "clients") i (codes "type")) (text (codes "must be ip or mac"))
        ∷ issue_if
            (not (is_blank c.key) && eqs c.kind (codes "ip") && not (is_some (host.parse_ip c.key)))
            key_path (text (codes "must be an IP address when type is ip"))
        ∷ issue_if (not (is_blank c.key) && eqs c.kind (codes "mac") && not (host.is_mac c.key))
            key_path (text (codes "must be a MAC address when type is mac"))
        ∷ clients_issues names (add_key c.key keys) (suc i) cs
        ∷ [])

  -- The listeners and the store's backend.
  unfoldable pub listen_issues : Server → List Issue
  listen_issues s = concat (
      issue_if (s.http.tls && is_blank s.http.cert_file)
        (below (codes "server") (codes "http") (codes "cert_file"))
        (text (codes "required when tls is true"))
      ∷ issue_if (s.http.tls && is_blank s.http.key_file)
          (below (codes "server") (codes "http") (codes "key_file"))
          (text (codes "required when tls is true"))
      ∷ each host.resolves_udp (about (codes "invalid address"))
          (below (codes "server") (codes "dns") (codes "listen")) 0 s.dns.listen
      ∷ issue_if (not (is_blank s.http.listen) && not (host.resolves_tcp s.http.listen))
          (below (codes "server") (codes "http") (codes "listen"))
          (about (codes "invalid address") s.http.listen)
      ∷ issue_if
          (not (is_blank s.store_backend)
            && not (one_of s.store_backend (codes "json" ∷ codes "sqlite" ∷ [])))
          (at (codes "server") (codes "store_backend"))
          (about (codes "unsupported") s.store_backend)
      ∷ [])

  unfoldable pub is_https : Str → Bool
  is_https url = elim (host.parse_url url) [
    | none ↦ false
    | some u ↦ eqs u.scheme (codes "https") && not (is_blank u.host)
  ]

  unfoldable pub upstreams_issues : List Str → ℕ → List UpstreamConfig → List Issue
  unfolding is_https
  upstreams_issues ids i [] = []
  upstreams_issues ids i (u ∷ us) = concat (
      key_issues (element (codes "upstreams") i (codes "id")) u.id ids
      ∷ (if is_blank u.url
          then issue_if true (element (codes "upstreams") i (codes "url")) required
          else issue_if (not (is_https u.url)) (element (codes "upstreams") i (codes "url"))
              (text (codes "must be an https URL")))
      ∷ issue_if (is_nil u.bootstrap) (element (codes "upstreams") i (codes "bootstrap"))
          (text (codes "at least one bootstrap IP is required"))
      ∷ each (λ ip. is_some (host.parse_ip ip)) (about (codes "invalid IP"))
          (element (codes "upstreams") i (codes "bootstrap")) 0 u.bootstrap
      ∷ issue_if (is_neg u.timeout) (element (codes "upstreams") i (codes "timeout")) not_negative
      ∷ upstreams_issues (add_key u.id ids) (suc i) us
      ∷ [])
