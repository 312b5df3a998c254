-- ===== src/Config/Accepted.antt =====
-- What becomes of a configuration that Validate accepts: the engine that is made from it.
use sis.Base.{
  ℕ, suc, ◌≡◌, refl, inl, inr, Bool, true, false, not, ◌&&◌, Option, none, some, List, [], ◌∷◌, Str,
  arith, eqs, codes, All, concat-nil, nil-concat, Option-cases, ==_iff, Bool-cases,
}
use sis.Base.Map.{is_some, lookup}
use sis.Base.Results.{ok, err}
use sis.Base.Strings.{str_eq}
use sis.Policy.Config.{GroupConfig}
use sis.Policy.Names.{Unicode}
use sis.Policy.Domains
use sis.Policy.Domains.{Domains, new_domains}
use sis.Policy.Domains.Laws.{same_name, holds, holds-add, results}
use sis.Policy.Errors.{Error, invalid_domain}
use sis.Policy.Group.{Group, add_all, compile_all, compile_groups, static_group_of}
use sis.Policy.Trie.Laws.{same_path_refl}
use mathlib.Core.Path.{subst}
use sis.Policy.Engine.{Engine, new_engine, reload_config, compile_allowlist, compile_zone}
use sis.Policy.Schedule.{Zone}
use sis.Config.Types.{Settings, policy_config}
use sis.Config.Issues.{Part, Message}
use sis.Config.Checks.{Host, is_blank, each}
use sis.Config.Domain.{valid_domain_pattern}
use sis.Config.Sections.{at, blocklist_ids, default_count}
use sis.Config.Validate.{zone_issues, validate_parts, validate}
use sis.Config.Compiles.{
  Apart, AllApart, issue_if-nil, each-All, pattern_issues-ok, compile_all-ok, valid-labels,
  add-some, new_domains-Fresh,
}

All-each :
    (good : Str → Bool) (m : Str → Message) (path : List Part) (i : ℕ) (xs : List Str)
    → All (λ x. good x ≡ true) xs
    → each good m path i xs ≡ []
unfolding each
All-each good m path i [] h = refl
All-each good m path i (x ∷ xs) (p, h) = rw (p, All-each good m path (suc i) xs h) refl

compile_groups_found :
    (u : Unicode) (groups : List GroupConfig) (out : List (Str × Group))
    → compile_all u [] groups ≡ ok out
    → is_some (lookup (codes "default") out) ≡ true
    → compile_groups u groups ≡ ok out
unfolding compile_groups
compile_groups_found u groups out e k = elim (Option-cases (lookup (codes "default") out)) [
  | inl f ↦ ground (arith, f)
  | inr (g, f) ↦ ground (arith, e, f)
]

module _ (host : Host) where
  compile_groups-ok :
      (c : Settings)
      → validate host c ≡ []
      → AllApart host c.groups
      → (out : List (Str × Group)) × (compile_groups host.platform.unicode c.groups ≡ ok out)
  unfolding validate validate_parts
  compile_groups-ok c h a =
      let (_, (gr, (df, _))) = concat-nil (validate_parts host c) h in
      let one = issue_if-nil _ _ _ df in
      let (out, e, k) =
        compile_all-ok host (blocklist_ids host [] c.blocklists) [] 0 [] c.groups gr a
          (unfold lookup in ground (arith, ==_iff (default_count host c.groups) 1)) in
      (out, compile_groups_found host.platform.unicode c.groups out e k)

  zone_issues-ok :
      (c : Settings)
      → zone_issues host c.server.tz ≡ []
      → (zone : Zone) × (compile_zone host.platform (policy_config c) ≡ ok zone)
  unfolding zone_issues compile_zone
  zone_issues-ok c h =
      let fine = issue_if-nil _ _ _ h in
      elim (Option-cases (host.platform.load_location c.server.tz)) [
        | inl e ↦ (host.platform.local_zone, ground (arith, e, fine))
        | inr (zone, e) ↦
            elim (Bool-cases
              (not (is_blank c.server.tz) && not (eqs c.server.tz (codes "Local")))) [
                | inl f ↦ (zone, ground (arith, e, f))
                | inr f ↦ (host.platform.local_zone, ground (arith, e, f))
              ]
      ]

  -- A configuration without an issue, in which no allowlist repeats a name, makes an engine.
  pub new_engine-validate :
      (c : Settings) (clients : Option (Str → Str))
      → validate host c ≡ []
      → Apart host.platform.unicode c.allow_domains
      → AllApart host c.groups
      → (e : Engine) × (new_engine host.platform (some (policy_config c)) clients ≡ ok e)
  unfolding validate validate_parts new_engine compile_allowlist
  new_engine-validate c clients h a b =
      let (
        _,
        (_, (_, (_, (_, (allow, (_, (_, (_, (_, (_, (_, (_, (_, (_, (_, (tz, _)))))))))))))))),
      ) =
        concat-nil (validate_parts host c) h in
      let (groups, e) = compile_groups-ok c h b in
      let (tree, f) =
        pattern_issues-ok host (at (codes "allowlist") (codes "domains"))
          (invalid_domain (codes "allowlist.domains")) c.allow_domains allow a in
      let (zone, g) = zone_issues-ok c tz in
      (
        record {
          groups = groups;
          lists = [];
          custom = some new_domains;
          allowlist = tree;
          custom_allow = some new_domains;
          clients = elim clients [ none ↦ some (static_group_of []) | some r ↦ some r ];
          tz = some zone;
        },
        rw (e, f, g) refl,
      )

  same_name_refl :
      (d : Str)
      → valid_domain_pattern host.platform.unicode d ≡ true
      → same_name host.platform.unicode d d ≡ true
  unfolding same_name
  same_name_refl d v =
      let (ls, e) = valid-labels host.platform.unicode d v in ground (arith, e, same_path_refl ls)

  -- The second of two equal names is refused.
  add_all-repeat :
      (fault : Str → Error) (t : Domains) (d : Str) (ds : List Str)
      → valid_domain_pattern host.platform.unicode d ≡ true
      → holds host.platform.unicode (some t) d ≡ false
      → add_all host.platform.unicode fault (some t) (d ∷ d ∷ ds) ≡ err (fault d)
  unfolding add_all
  add_all-repeat fault t d ds v fresh =
      let u = host.platform.unicode in
      let (t', e) = add-some u t d in
      let first : (Domains.add u (some t) d).1 ≡ true =
        (results u t d).1.1 (fresh, valid-labels u d v) in
      let held : holds u (some t') d ≡ true =
        ground (arith, e, holds-add u t d d, same_name_refl d v) in
      let second : (Domains.add u (some t') d).1 ≡ false =
        elim (Bool-cases (Domains.add u (some t') d).1) [
          | inl f ↦ ground (arith, held, (results u t' d).1.0 f)
          | inr f ↦ f
        ] in
      rw (first, e, second) refl

  -- The configuration with the first domain of the allowlist repeated, which is accepted too.
  abbrev pub with_repeat : Settings → Str → List Str → Settings
  with_repeat c d ds = record c { allow_domains = d ∷ d ∷ ds }

  module _ (c : Settings) (d : Str) (ds : List Str) (h : validate host c ≡ [])
      (s : c.allow_domains ≡ d ∷ ds) where
    good_names : All (λ x. valid_domain_pattern host.platform.unicode x ≡ true) (d ∷ ds)
    unfolding validate validate_parts
    good_names =
        let u = host.platform.unicode in
        let (bl, (gr, (df, (cl, (li, (allow, more)))))) = concat-nil (validate_parts host c) h in
        subst (All (λ x. valid_domain_pattern u x ≡ true)) s (
          each-All (valid_domain_pattern u) _ (at (codes "allowlist") (codes "domains")) 0
            c.allow_domains allow)

    pub validate-with_repeat : validate host (with_repeat c d ds) ≡ []
    unfolding validate validate_parts
    validate-with_repeat =
        let (bl, (gr, (df, (cl, (li, (allow, more)))))) = concat-nil (validate_parts host c) h in
        let (v, vs) = good_names in
        nil-concat (validate_parts host (with_repeat c d ds)) (
          bl,
          (
            gr,
            (
              df,
              (
                cl,
                (
                  li,
                  (
                    All-each _ _ (at (codes "allowlist") (codes "domains")) 0 (d ∷ d ∷ ds)
                        (v, (v, vs)),
                    more,
                  ),
                ),
              ),
            ),
          ),
        )

    allowlist-with_repeat :
        compile_allowlist host.platform (policy_config (with_repeat c d ds))
        ≡ err (invalid_domain (codes "allowlist.domains") d)
    unfolding compile_allowlist
    allowlist-with_repeat =
        add_all-repeat (invalid_domain (codes "allowlist.domains")) new_domains d ds good_names.0
          (new_domains-Fresh host (d ∷ [])).0

    -- A configuration that is accepted is accepted with a domain of the allowlist repeated; but no
    -- engine is made from it then, for the domain is reported as invalid.
    pub new_engine-repeat :
        (clients : Option (Str → Str))
        → AllApart host c.groups
        → (validate host (with_repeat c d ds) ≡ [])
          × (new_engine host.platform (some (policy_config (with_repeat c d ds))) clients
              ≡ err (invalid_domain (codes "allowlist.domains") d))
    unfolding new_engine
    new_engine-repeat clients b =
        let (groups, e) = compile_groups-ok c h b in
        (validate-with_repeat, rw (e, allowlist-with_repeat) refl)

    -- An engine that is running does not take it up.
    pub reload_config-repeat :
        (e : Engine)
        → AllApart host c.groups
        → reload_config host.platform e (some (policy_config (with_repeat c d ds)))
          ≡ (e, err (invalid_domain (codes "allowlist.domains") d))
    unfolding reload_config
    reload_config-repeat e b =
        let (groups, f) = compile_groups-ok c h b in ground (arith, f, allowlist-with_repeat)
