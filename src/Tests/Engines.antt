-- ===== src/Tests/Engines.antt =====
-- The policy engine at concrete inputs.
use sis.Base.{
  ℕ, ◌≡◌, ◌⊎◌, refl, Bool, true, false, not, ◌&&◌, ◌||◌, Option, none, some, List, [], ◌∷◌, Str,
  codes, arith, if◌then◌else◌,
}
use sis.Base.{str_eq}
use sis.Base.Map.{lookup}
use sis.Base.Results.{ok}
use sis.Policy.Domains.{Domains, new_domains, add}
use sis.Policy.Config.{Config}
use sis.Policy.Group.{Group, Identity}
use sis.Policy.Engine.{
  Engine, is_allowed, policy_for, evaluate, add_custom_block, add_custom_allow, reload_config,
}
use sis.Policy.Engine.Decide.{blocks, evaluate-blocked}
use sis.Policy.Domains.Laws.{covers}
use sis.Policy.Engine.Update.{evaluate-add_custom_block, evaluate-add_custom_allow}
use sis.Policy.Engine.Reload.{HasDefault, is_enabled, reload_config-ok}
use sis.Tests.Data.{minutes, platform, ads, night}

-- The default group blocks by the list "ads" at night.
abbrev pub everyone : Group
everyone = record {
  name = codes "default";
  base_lists = [];
  allowlist_tree = none;
  schedules = night ∷ [];
}

abbrev pub small_engine : Engine
small_engine = record {
  groups = (codes "default", everyone) ∷ [];
  lists = (codes "ads", new_domains) ∷ [];
  custom = some new_domains;
  allowlist = none;
  custom_allow = none;
  clients = none;
  tz = some minutes;
}

abbrev someone : Identity
someone = record { key = codes "a"; kind = codes "ip"; ip = codes "a" }

evaluate-blocked_example :
    (evaluate platform (some (policy_for small_engine someone)) ads 2940).blocked
    ≡ (elim (policy_for small_engine someone).group as (λ _. Bool) [
      | none ↦ false
      | some g ↦
          not (is_allowed platform (policy_for small_engine someone) g ads)
          && blocks platform (policy_for small_engine someone) ads 2940 g
    ])
evaluate-blocked_example = evaluate-blocked platform (policy_for small_engine someone) ads 2940

someone_in_group : (policy_for small_engine someone).group ≡ some everyone
unfolding policy_for lookup sis.Base.eqs
someone_in_group = refl

pub below_is_covered : covers platform.unicode ads (codes "x.ads.com") ≡ true
unfolding sis.Base.eqs covers sis.Policy.Names.labels_for sis.Policy.Names.normalize_domain_pattern
    sis.Policy.Names.normalize_host sis.Policy.Names.plausible sis.Base.Strings.valid_string
    sis.Base.Strings.has_prefix sis.Base.Strings.trim_suffix sis.Base.Strings.trim_space
    sis.Base.Strings.is_space sis.Base.Strings.has_suffix sis.Policy.Names.check_ascii
    sis.Policy.Names.lower_host sis.Base.Strings.to_lower sis.Base.Strings.len
    sis.Base.Strings.split sis.Base.Strings.lower sis.Base.Strings.width sis.Base.Strings.cut_prefix
    sis.Base.Strings.trim_left sis.Base.Strings.trim_prefix sis.Policy.Names.label_char
    sis.Policy.Names.last_is sis.Policy.Names.valid_label sis.Policy.Trie.Laws.extends
below_is_covered = refl

not_allowed :
    is_allowed platform (policy_for small_engine someone) everyone (codes "x.ads.com") ≡ false
unfolding is_allowed sis.Policy.Domains.match policy_for
not_allowed = refl

evaluate-add_custom_block_example :
    (evaluate platform
      (some (policy_for (add_custom_block platform small_engine ads).0 someone))
      (codes "x.ads.com")
      2940).blocked
    ≡ true
evaluate-add_custom_block_example =
    evaluate-add_custom_block platform small_engine ads (codes "x.ads.com") someone everyone 2940
      someone_in_group below_is_covered not_allowed

evaluate-add_custom_allow_example :
    (evaluate platform
      (some (policy_for (add_custom_allow platform small_engine ads).0 someone))
      (codes "x.ads.com")
      2940).blocked
    ≡ false
evaluate-add_custom_allow_example =
    evaluate-add_custom_allow platform small_engine ads (codes "x.ads.com") someone 2940
      below_is_covered

abbrev new_config : Config
new_config = record {
  tz = codes "Local";
  blocklists = record { id = codes "ads"; enabled = false } ∷ [];
  allow_domains = [];
  groups = record { name = codes "default"; blocklists = []; allowlist = []; schedules = [] } ∷ [];
}

new_config_ok : (reload_config platform small_engine (some new_config)).1 ≡ ok tt
unfolding reload_config sis.Policy.Group.compile_groups sis.Base.eqs lookup sis.Base.Map.insert
new_config_ok = refl

reload_config-ok_example :
    (let e' = (reload_config platform small_engine (some new_config)).0 in
      (lookup (codes "ads") e'.lists ≡ (
        if is_enabled platform new_config.blocklists (codes "ads")
        then lookup (codes "ads") small_engine.lists
        else none))
      × (e'.custom ≡ small_engine.custom)
      × (e'.custom_allow ≡ small_engine.custom_allow)
      × (e'.clients ≡ small_engine.clients)
      × HasDefault e')
reload_config-ok_example =
    reload_config-ok platform small_engine new_config (codes "ads") new_config_ok
