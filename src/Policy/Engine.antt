-- ===== src/Policy/Engine.antt =====
-- internal/policy/engine.go: the engine's state, its snapshots and their evaluation. The mutex makes
-- each method one step. A compiled set is never changed in place once the engine holds it (the
-- custom lists are cloned before each change), so a pointer to it is kept as its value.
pub mod Decide
pub mod Update
pub mod Reload
use sis.Base.{
  ℕ, Bool, true, false, not, ◌&&◌, ◌||◌, Option, none, some, List, [], ◌∷◌, ◌++◌, Str, eqs,
  if◌then◌else◌, codes,
}
use sis.Base.Map.{lookup, insert, delete}
use sis.Base.Results.{Result, ok, err, ◌>>=◌}
use sis.Base.Strings.{str_eq}
use sis.Policy.Config.{BlocklistConfig, Config}
use sis.Policy.Domains
use sis.Policy.Domains.{Domains, new_domains}
use sis.Policy.Errors.{Error, config_required, invalid_domain, unknown_zone}
use sis.Policy.Group.{Group, Identity, add_all, compile_groups, static_group_of}
use sis.Policy.Names.{Unicode}
use sis.Policy.Schedule.{Zone, CompiledSchedule, active_at}

-- What the engine takes from its surroundings: the tables of names, time.Local and
-- time.LoadLocation, whose error is `none`.
pub record Platform : Type 0 where
  pub unicode : Unicode
  pub local_zone : Zone
  pub load_location : Str → Option Zone

-- `GroupOf` of the client resolver, which may be nil.
abbrev pub Resolver : Type 0
Resolver = Option (Str → Str)

pub record Engine : Type 0 where
  pub groups : List (Str × Group)
  pub lists : List (Str × Domains)
  pub custom : Option Domains
  pub allowlist : Option Domains
  pub custom_allow : Option Domains
  pub clients : Resolver
  pub tz : Option Zone

pub record Decision : Type 0 where
  pub blocked : Bool
  pub reason : Str
  pub list : Str

pub record Policy : Type 0 where
  pub group : Option Group
  pub lists : List (Str × Domains)
  pub custom : Option Domains
  pub allowlist : Option Domains
  pub custom_allow : Option Domains
  pub tz : Option Zone

-- `Decision{}`.
abbrev pub allowed : Decision
allowed = record { blocked = false; reason = []; list = [] }

abbrev pub block : Str → Str → Decision
block reason list = record { blocked = true; reason = reason; list = list }

-- The name of the client's group: the resolver's, if it gives one.
unfoldable pub group_name : Resolver → Str → Str
group_name none key = codes "default"
group_name (some group_of) key =
    if eqs (group_of key) (codes "") then codes "default" else group_of key

abbrev pub or_lookup : Option Group → Option Group → Option Group
or_lookup none g = g
or_lookup (some g) h = some g

-- `For`.
unfoldable pub policy_for : Engine → Identity → Policy
unfolding group_name
policy_for e id = record {
  group =
      or_lookup (lookup (group_name e.clients id.key) e.groups) (lookup (codes "default") e.groups);
  lists = e.lists;
  custom = e.custom;
  allowlist = e.allowlist;
  custom_allow = e.custom_allow;
  tz = e.tz;
}

module _ (pf : Platform) where
  -- `matchList`.
  unfoldable pub match_list : Policy → Str → Str → Bool
  match_list p id qname = Domains.match pf.unicode (lookup id p.lists) qname

  -- The first list of a loop that matches.
  unfoldable pub first_match : Policy → Str → List Str → Option Str
  unfolding match_list
  first_match p qname [] = none
  first_match p qname (id ∷ ids) =
      if match_list p id qname then some id else first_match p qname ids

  -- The loop over the schedules: the name of the schedule and the list.
  unfoldable pub first_schedule : Policy → Str → ℕ → List CompiledSchedule → Option (Str × Str)
  unfolding first_match
  first_schedule p qname now [] = none
  first_schedule p qname now (s ∷ ss) =
      let later = first_schedule p qname now ss in
      if active_at pf.local_zone s now p.tz
      then elim (first_match p qname s.block) [ none ↦ later | some id ↦ some (s.name, id) ]
      else later

  -- `Evaluate` behind its test of the allowlists.
  unfoldable pub evaluate_blocks : Policy → Group → Str → ℕ → Decision
  unfolding first_match first_schedule
  evaluate_blocks p g qname now = elim (first_match p qname g.base_lists) [
    | some id ↦ block (codes "blocklist:" ++ id) id
    | none ↦ elim (first_schedule p qname now g.schedules) [
      | some (name, id) ↦ block (codes "schedule:" ++ name) id
      | none ↦
          if Domains.match pf.unicode p.custom qname
          then block (codes "blocklist:custom") (codes "custom")
          else allowed
    ]
  ]

  -- Whether one of the three allowlists matches.
  unfoldable pub is_allowed : Policy → Group → Str → Bool
  is_allowed p g qname =
      Domains.match pf.unicode p.allowlist qname
      || Domains.match pf.unicode p.custom_allow qname
      || Domains.match pf.unicode g.allowlist_tree qname

  -- `Evaluate`; the query type is not read, and `none` is the nil policy.
  unfoldable pub evaluate : Option Policy → Str → ℕ → Decision
  unfolding evaluate_blocks is_allowed
  evaluate none qname now = allowed
  evaluate (some p) qname now = elim p.group [
    | none ↦ allowed
    | some g ↦ if is_allowed p g qname then allowed else evaluate_blocks p g qname now
  ]

  -- The allowlist and the time zone of a configuration, as NewEngine and ReloadConfig make them.
  unfoldable pub compile_allowlist : Config → Result Error (Option Domains)
  compile_allowlist c =
      add_all pf.unicode (invalid_domain (codes "allowlist.domains")) (some new_domains)
        c.allow_domains

  unfoldable pub compile_zone : Config → Result Error Zone
  compile_zone c =
      if not (eqs c.tz (codes "")) && not (eqs c.tz (codes "Local"))
      then elim (pf.load_location c.tz) [ none ↦ err (unknown_zone c.tz) | some zone ↦ ok zone ]
      else ok pf.local_zone

  -- `NewEngine`; a nil resolver is replaced by an empty static one.
  unfoldable pub new_engine : Option Config → Resolver → Result Error Engine
  unfolding compile_allowlist compile_zone
  new_engine none clients = err config_required
  new_engine (some c) clients = do
    groups ← compile_groups pf.unicode c.groups
    allowlist ← compile_allowlist c
    zone ← compile_zone c
    ok (record {
      groups = groups;
      lists = [];
      custom = some new_domains;
      allowlist = allowlist;
      custom_allow = some new_domains;
      clients = elim clients [ none ↦ some (static_group_of []) | some r ↦ some r ];
      tz = some zone;
    })

  -- `AddCustomBlock`, `RemoveCustomBlock`, `AddCustomAllow` and `RemoveCustomAllow`.
  unfoldable pub add_custom_block : Engine → Str → Engine × Bool
  add_custom_block e domain =
      let (custom, added) = Domains.add pf.unicode (some (Domains.clone e.custom)) domain in
      if not added then (e, false) else (record e { custom = custom }, true)

  unfoldable pub remove_custom_block : Engine → Str → Engine
  remove_custom_block e domain =
      let (custom, deleted) = Domains.delete pf.unicode (some (Domains.clone e.custom)) domain in
      if deleted then record e { custom = custom } else e

  unfoldable pub add_custom_allow : Engine → Str → Engine × Bool
  add_custom_allow e domain =
      let (custom_allow, added) =
        Domains.add pf.unicode (some (Domains.clone e.custom_allow)) domain in
      if not added then (e, false) else (record e { custom_allow = custom_allow }, true)

  unfoldable pub remove_custom_allow : Engine → Str → Engine
  remove_custom_allow e domain =
      let (custom_allow, deleted) =
        Domains.delete pf.unicode (some (Domains.clone e.custom_allow)) domain in
      if deleted then record e { custom_allow = custom_allow } else e

  -- `removeDisabledListsLocked`: the ids of the enabled lists, and the lists that stay.
  unfoldable pub enabled_ids : List BlocklistConfig → List (Str × Unit {0})
  enabled_ids [] = []
  enabled_ids (l ∷ ls) =
      let rest = enabled_ids ls in if l.enabled then insert l.id tt rest else rest

  unfoldable pub keep_enabled : List (Str × Unit {0}) → List (Str × Domains) → List (Str × Domains)
  keep_enabled enabled [] = []
  keep_enabled enabled ((id, d) ∷ lists) =
      let rest = keep_enabled enabled lists in
      elim (lookup id enabled) [ none ↦ rest | some _ ↦ (id, d) ∷ rest ]

  unfoldable pub remove_disabled_lists : Engine → Config → Engine
  unfolding enabled_ids keep_enabled
  remove_disabled_lists e c = record e { lists = keep_enabled (enabled_ids c.blocklists) e.lists }

  -- `ReloadConfig`: the engine after it, and its error.
  unfoldable pub reload_config : Engine → Option Config → Engine × Result Error (Unit {0})
  unfolding compile_allowlist compile_zone remove_disabled_lists
  reload_config e none = (e, err config_required)
  reload_config e (some c) = elim (compile_groups pf.unicode c.groups) [
    | err fault ↦ (e, err fault)
    | ok groups ↦ elim (compile_allowlist c) [
      | err fault ↦ (e, err fault)
      | ok allowlist ↦ elim (compile_zone c) [
        | err fault ↦ (e, err fault)
        | ok zone ↦ (
          remove_disabled_lists
              (record e { groups = groups; allowlist = allowlist; tz = some zone }) c,
          ok tt,
        )
      ]
    ]
  ]

-- `ReplaceList`; `none` is the nil set, which deletes the list.
unfoldable pub replace_list : Engine → Str → Option Domains → Engine
replace_list e id none = record e { lists = delete id e.lists }
replace_list e id (some domains) = record e { lists = insert id domains e.lists }

-- `ListEntries`.
unfoldable pub list_entries : Unicode → Engine → Str → Str → ℕ → Option (List Str)
list_entries u e id query limit = elim (lookup id e.lists) [
  | none ↦ none
  | some domains ↦ some (Domains.list_entries u (some domains) query limit)
]
