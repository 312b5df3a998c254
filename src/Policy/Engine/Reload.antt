-- ===== src/Policy/Engine/Reload.antt =====
-- Configuration and downloaded lists: the invariant of the engine, and what a reload keeps.
use sis.Base.{
  ◌≡◌, refl, inl, inr, Bool, ◌&&◌, Option, none, some, List, [], ◌∷◌, arith, Str, eqs, eqs_iff,
  if◌then◌else◌, codes, any, Bool-cases, Option-cases,
}
use sis.Base.Map.{is_some, lookup, lookup-insert, lookup-delete}
use sis.Base.Results.{ok, err, >>=-eq-ok, Result-cases}
use sis.Base.Strings.{str_eq}
use sis.Policy.Config.{BlocklistConfig, GroupConfig, Config}
use sis.Policy.Domains.{Domains}
use sis.Policy.Errors.{Error}
use sis.Policy.Group.{Group, Identity, compile_all, compile_groups}
use sis.Policy.Names.{Unicode}
use sis.Policy.Schedule.{Zone}
use sis.Policy.Engine.{
  Platform, Engine, policy_for, group_name, new_engine, compile_allowlist, compile_zone,
  enabled_ids, keep_enabled, remove_disabled_lists, reload_config, replace_list,
}

-- The groups hold one named default, which For falls back to.
abbrev pub HasDefault : Engine → Type 0
HasDefault e = (g : Group) × (lookup (codes "default") e.groups ≡ some g)

-- With a default group every client is given a group.
pub policy_for-group :
    (e : Engine) (id : Identity) → HasDefault e → (g : Group) × ((policy_for e id).group ≡ some g)
unfolding policy_for
policy_for-group e id (g, h) = elim (Option-cases (lookup (group_name e.clients id.key) e.groups)) [
  | inl f ↦ (g, ground (arith, f, h))
  | inr (k, f) ↦ (k, ground (arith, f))
]

compile_groups-default :
    (u : Unicode) (groups : List GroupConfig) {out : List (Str × Group)}
    → compile_groups u groups ≡ ok out
    → (g : Group) × (lookup (codes "default") out ≡ some g)
unfolding compile_groups
compile_groups-default u groups {out} h =
    let (m, e, f) = >>=-eq-ok (compile_all u [] groups) _ h in
    elim (Option-cases (lookup (codes "default") m)) [
      | inl k ↦ ground (arith, k)
      | inr (g, k) ↦ (g, ground (arith, k))
    ]

module _ (pf : Platform) where
  -- Compiling, and each method that changes the engine, keeps a default group.
  pub new_engine-HasDefault :
      (c : Config) (clients : Option (Str → Str)) {e : Engine}
      → new_engine pf (some c) clients ≡ ok e
      → HasDefault e
  unfolding new_engine
  new_engine-HasDefault c clients h =
      let (groups, e1, h1) = >>=-eq-ok (compile_groups pf.unicode c.groups) _ h in
      let (allow, e2, h2) = >>=-eq-ok (compile_allowlist pf c) _ h1 in
      let (zone, e3, h3) = >>=-eq-ok (compile_zone pf c) _ h2 in
      let (g, k) = compile_groups-default pf.unicode c.groups e1 in (g, ground (arith, h3, k))

  lookup-keep_enabled :
      (enabled : List (Str × Unit {0})) (lists : List (Str × Domains)) (id : Str)
      → lookup id (keep_enabled pf enabled lists)
        ≡ (elim (lookup id enabled) [ none ↦ none | some _ ↦ lookup id lists ])
  unfolding lookup keep_enabled
  lookup-keep_enabled enabled [] id = ground arith
  lookup-keep_enabled enabled ((k, d) ∷ lists) id = elim (Option-cases (lookup k enabled)) [
    | inl e ↦ elim (Bool-cases (eqs k id)) [
      | inl f ↦
          let same = (eqs_iff k id).0 f in
          ground (arith, e, f, same, lookup-keep_enabled enabled lists id)
      | inr f ↦ ground (arith, e, f, lookup-keep_enabled enabled lists id)
    ]
    | inr (v, e) ↦ elim (Bool-cases (eqs k id)) [
      | inl f ↦
          let same = (eqs_iff k id).0 f in
          ground (arith, e, f, same, lookup-keep_enabled enabled lists id)
      | inr f ↦ ground (arith, e, f, lookup-keep_enabled enabled lists id)
    ]
  ]

  -- A list of the configuration with this id is enabled.
  abbrev pub is_enabled : List BlocklistConfig → Str → Bool
  is_enabled ls id = any (λ l. l.enabled && eqs l.id id) ls

  lookup-enabled_ids :
      (ls : List BlocklistConfig) (id : Str)
      → is_some (lookup id (enabled_ids pf ls)) ≡ is_enabled ls id
  unfolding enabled_ids lookup
  lookup-enabled_ids [] id = refl
  lookup-enabled_ids (l ∷ ls) id =
      ground (arith, lookup-insert l.id id tt (enabled_ids pf ls), lookup-enabled_ids ls id)

  -- A reload that fails leaves the engine as it was.
  pub reload_config-err :
      (e : Engine) (c : Option Config) (fault : Error)
      → (reload_config pf e c).1 ≡ err fault
      → (reload_config pf e c).0 ≡ e
  unfolding reload_config
  reload_config-err e c fault h = ground arith

  lists-remove_disabled_lists :
      (e : Engine) (c : Config) (id : Str)
      → lookup id (remove_disabled_lists pf e c).lists
        ≡ (if is_enabled c.blocklists id then lookup id e.lists else none)
  unfolding remove_disabled_lists
  lists-remove_disabled_lists e c id = ground (
    arith,
    lookup-keep_enabled (enabled_ids pf c.blocklists) e.lists id,
    lookup-enabled_ids c.blocklists id,
  )

  abbrev recompiled : Engine → List (Str × Group) → Option Domains → Zone → Engine
  recompiled e groups allow zone = record e { groups = groups; allowlist = allow; tz = some zone }

  reload_config-inv :
      (e : Engine) (c : Config)
      → (reload_config pf e (some c)).1 ≡ ok tt
      → (groups : List (Str × Group)) × (allow : Option Domains) × (zone : Zone) × (compile_groups
            pf.unicode c.groups
          ≡ ok groups)
        × ((reload_config pf e (some c)).0
            ≡ remove_disabled_lists pf (recompiled e groups allow zone) c)
  unfolding reload_config
  reload_config-inv e c h = elim (Result-cases (compile_groups pf.unicode c.groups)) [
    | inr (k, f) ↦ ground (arith, f)
    | inl (groups, f) ↦ elim (Result-cases (compile_allowlist pf c)) [
      | inr (k, g) ↦ ground (arith, f, g)
      | inl (allow, g) ↦ elim (Result-cases (compile_zone pf c)) [
        | inr (k, z) ↦ ground (arith, f, g, z)
        | inl (zone, z) ↦ (groups, allow, zone, f, ground (arith, f, g, z))
      ]
    ]
  ]

  removed_keeps :
      (e : Engine) (c : Config)
      → ((remove_disabled_lists pf e c).custom ≡ e.custom)
        × ((remove_disabled_lists pf e c).custom_allow ≡ e.custom_allow)
        × ((remove_disabled_lists pf e c).clients ≡ e.clients)
        × ((remove_disabled_lists pf e c).groups ≡ e.groups)
  unfolding remove_disabled_lists
  removed_keeps e c = (refl, refl, refl, refl)

  -- A reload that succeeds drops exactly the lists that are not enabled, keeps the custom lists and
  -- the resolver, and has a default group.
  pub reload_config-ok :
      (e : Engine) (c : Config) (id : Str)
      → (reload_config pf e (some c)).1 ≡ ok tt
      → (let e' = (reload_config pf e (some c)).0 in
          (lookup id e'.lists ≡ (if is_enabled c.blocklists id then lookup id e.lists else none))
          × (e'.custom ≡ e.custom)
          × (e'.custom_allow ≡ e.custom_allow)
          × (e'.clients ≡ e.clients)
          × HasDefault e')
  reload_config-ok e c id h =
      let (groups, allow, zone, f, same) = reload_config-inv e c h in
      let r = recompiled e groups allow zone in
      let (k1, k2, k3, k4) = removed_keeps r c in
      let (g, d) = compile_groups-default pf.unicode c.groups f in
      rw same (lists-remove_disabled_lists r c id, k1, k2, k3, (g, rw k4 d))

  -- The lists after ReplaceList: the one that was given, and the others as before.
  pub lists-replace_list :
      (e : Engine) (id j : Str) (d : Option Domains)
      → lookup j (replace_list e id d).lists ≡ (if eqs id j then d else lookup j e.lists)
  unfolding replace_list
  lists-replace_list e id j none = lookup-delete id j e.lists
  lists-replace_list e id j (some d) = lookup-insert id j d e.lists
