-- ===== src/Config/Compiles.antt =====
-- What Validate accepts, policy can compile, but for a domain that an allowlist repeats.
use sis.Base.{
  concat-nil, reverse, ++-nil, ℕ, suc, ◌≡◌, refl, inl, inr, Bool, true, false, not, ◌||◌, Option,
  some, List, [], ◌∷◌, Str, arith, codes, All, All-map, Option-cases, leb,
}
use sis.Base.Map.{is_some, lookup, insert, lookup-insert}
use sis.Base.Results.{ok, Result-cases}
use sis.Base.Strings.{to_lower, str_eq, split, trim_prefix}
use sis.Policy.Names.{Unicode, labels_for, normalize_domain_pattern}
use sis.Policy.Domains
use sis.Policy.Domains.{Domains, new_domains}
use sis.Policy.Domains.Laws.{same_name, holds, holds-add, results}
use sis.Policy.Trie.Laws.{member-new}
use sis.Policy.Config.{GroupConfig, ScheduleConfig}
use sis.Policy.Errors.{Error, invalid_domain}
use sis.Policy.Group.{Group, add_all, compile_schedules, compile_group, compile_all}
use sis.Policy.Schedule.{CompiledSchedule, parse_clock, token_days, parse_days, compile_schedule}
use sis.Policy.Schedule.Compile.{parse_days_succeeds}
use sis.Config.Issues.{Part, name, index, Message, issue_if}
use sis.Config.Domain.{valid_domain_pattern, valid_domain_pattern-normalize}
use sis.Config.Checks.{
  Host, one_of, is_nil, is_blank, valid_clock, day_tokens, each, schedule_parts, schedule_issues,
}
use sis.Config.Sections.{
  element, pattern_issues, group_parts, schedules_issues, group_issues, groups_issues,
  default_count,
}

pub issue_if-nil : (b : Bool) (path : List Part) (m : Message) → issue_if b path m ≡ [] → b ≡ false
issue_if-nil true path m h = cc
issue_if-nil false path m h = refl

pub is_nil-nil : {A : Type 0} (xs : List A) → is_nil xs ≡ true → xs ≡ []
is_nil-nil [] h = refl
is_nil-nil (x ∷ xs) h = ground (arith, h)

pub each-All :
    (good : Str → Bool) (m : Str → Message) (path : List Part) (i : ℕ) (xs : List Str)
    → each good m path i xs ≡ []
    → All (λ x. good x ≡ true) xs
unfolding each
each-All good m path i [] h = tt
each-All good m path i (x ∷ xs) h =
    let (p, q) = ++-nil (issue_if (not (good x)) _ (m x)) _ h in
    let r = issue_if-nil (not (good x)) _ (m x) p in
    (ground arith, each-All good m path (suc i) xs q)

valid_clock-ok : (v : Str) → valid_clock v ≡ true → (m : ℕ) × (parse_clock v ≡ ok m)
unfolding valid_clock
valid_clock-ok v h = elim (Result-cases (parse_clock v)) [
  | inl r ↦ r
  | inr (e, f) ↦ ground (arith, f)
]

one_of-token_days : (t : Str) → one_of t day_tokens ≡ true → is_some (token_days t) ≡ true
unfolding one_of token_days
one_of-token_days t h = ground arith

days-ok :
    (fold : ℕ → ℕ) (days : List Str)
    → is_nil days ≡ false
    → All (λ d. one_of (to_lower fold d) day_tokens ≡ true) days
    → (d : ℕ) × (parse_days fold days ≡ ok d)
days-ok fold [] h a = cc
days-ok fold (d ∷ ds) h a = parse_days_succeeds fold d ds (
    All-map (λ t. one_of (to_lower fold t) day_tokens ≡ true)
      (λ t. is_some (token_days (to_lower fold t)) ≡ true) (d ∷ ds)
      (λ t p. one_of-token_days (to_lower fold t) p) a)

-- A schedule without an issue compiles.
schedule_issues-ok :
    (fold : ℕ → ℕ) (path : List Part) (ids : List Str) (s : ScheduleConfig)
    → schedule_issues fold path ids s ≡ []
    → (c : CompiledSchedule) × (compile_schedule fold s ≡ ok c)
unfolding schedule_issues schedule_parts compile_schedule
schedule_issues-ok fold path ids s h =
    let (_, (a, (b, (c, (d, _))))) = concat-nil (schedule_parts fold path ids s) h in
    let (from, e1) = valid_clock-ok s.from (ground (arith, issue_if-nil _ _ _ a)) in
    let (to, e2) = valid_clock-ok s.to (ground (arith, issue_if-nil _ _ _ b)) in
    let (days, e3) = days-ok fold s.days (issue_if-nil _ _ _ c) (each-All _ _ _ 0 s.days d) in
    (
      record { name = s.name; days = days; from = from; to = to; block = s.block },
      rw (e3, e1, e2) refl,
    )

-- No name repeats another: the names that are valid have different labels.
abbrev pub Apart : Unicode → List Str → Type 0
Apart u [] = Unit
Apart u (p ∷ ps) = All (λ q. same_name u p q ≡ false) ps × Apart u ps

module _ (u : Unicode) where
  abbrev pub Fresh : Domains → List Str → Type 0
  Fresh d ps = All (λ q. holds u (some d) q ≡ false) ps

  added-Fresh :
      (d d' : Domains) (p : Str) (ps : List Str)
      → (Domains.add u (some d) p).0 ≡ some d'
      → All (λ q. same_name u p q ≡ false) ps
      → Fresh d ps
      → Fresh d' ps
  added-Fresh d d' p [] e a f = tt
  added-Fresh d d' p (q ∷ ps) e (a, rest) (f, fs) =
      (ground (arith, e, holds-add u d p q), added-Fresh d d' p ps e rest fs)

  pub add-some : (d : Domains) (p : Str) → (d' : Domains) × ((Domains.add u (some d) p).0 ≡ some d')
  unfolding Domains.add
  add-some d p = elim (Option-cases (labels_for u p)) [
    | inl e ↦ (d, ground (arith, e))
    | inr (ls, e) ↦ ((Domains.add_labels ls d).0, ground (arith, e))
  ]

  pub valid-labels :
      (p : Str) → valid_domain_pattern u p ≡ true → (ls : List Str) × (labels_for u p ≡ some ls)
  unfolding labels_for
  valid-labels p h = elim (Option-cases (normalize_domain_pattern u p)) [
    | inl e ↦ ground (arith, e, valid_domain_pattern-normalize u p)
    | inr (n, e) ↦ (reverse (split b'.' (trim_prefix n (codes "*."))), ground (arith, e))
  ]

  -- Valid names that do not repeat are all added.
  add_all-ok :
      (fault : Str → Error) (d : Domains) (ps : List Str)
      → All (λ p. valid_domain_pattern u p ≡ true) ps
      → Apart u ps
      → Fresh d ps
      → (d' : Option Domains) × (add_all u fault (some d) ps ≡ ok d')
  unfolding add_all
  add_all-ok fault d [] v a f = (some d, refl)
  add_all-ok fault d (p ∷ ps) (v, vs) (a, rest) (f, fs) =
      let (d', e) = add-some d p in
      let added : (Domains.add u (some d) p).1 ≡ true = (results u d p).1.1 (f, valid-labels p v) in
      let (d'', g) = add_all-ok fault d' ps vs rest (added-Fresh d d' p ps e a fs) in
      (d'', rw (added, e) g)

  compile_schedules-ok :
      (host : Host) (group : Str) (ids : List Str) (path : List Part) (j : ℕ)
      (ss : List ScheduleConfig)
      → host.platform.unicode ≡ u
      → schedules_issues host ids path j ss ≡ []
      → (cs : List CompiledSchedule) × (compile_schedules u group ss ≡ ok cs)
  unfolding schedules_issues compile_schedules
  compile_schedules-ok host group ids path j [] e h = ([], refl)
  compile_schedules-ok host group ids path j (s ∷ ss) e h =
      let (p, q) = ++-nil (schedule_issues host.platform.unicode.fold _ ids s) _ h in
      let (c, f) = schedule_issues-ok host.platform.unicode.fold _ ids s p in
      let (cs, g) = compile_schedules-ok host group ids path (suc j) ss e q in
      (c ∷ cs, rw (rw e at f, g) refl)

module _ (host : Host) where
  abbrev pub u : Unicode
  u = host.platform.unicode

  pub new_domains-Fresh : (ps : List Str) → Fresh u new_domains ps
  new_domains-Fresh [] = tt
  new_domains-Fresh (p ∷ ps) = (
    elim (Option-cases (labels_for u p)) [
      | inl e ↦ unfold holds in ground (arith, e)
      | inr (ls, e) ↦ unfold holds in ground (arith, e, member-new ls)
    ],
    new_domains-Fresh ps,
  )

  -- An allowlist without an issue or a repeated name compiles.
  pub pattern_issues-ok :
      (path : List Part) (fault : Str → Error) (ps : List Str)
      → pattern_issues host path ps ≡ []
      → Apart u ps
      → (d : Option Domains) × (add_all u fault (some new_domains) ps ≡ ok d)
  pattern_issues-ok path fault ps h a =
      add_all-ok u fault new_domains ps (each-All (valid_domain_pattern u) _ path 0 ps h) a
        (new_domains-Fresh ps)

  group_issues-ok :
      (ids names : List Str) (i : ℕ) (g : GroupConfig)
      → group_issues host ids names i g ≡ []
      → Apart u g.allowlist
      → (out : Group) × (compile_group u g ≡ ok out) × (out.name ≡ g.name)
  unfolding group_issues group_parts compile_group
  group_issues-ok ids names i g h a =
      let (blank, (_, (_, (allow, (sched, _))))) = concat-nil (group_parts host ids names i g) h in
      let (tree, e) =
        pattern_issues-ok (element (codes "groups") i (codes "allowlist")) (invalid_domain g.name)
          g.allowlist allow a in
      let (cs, f) =
        compile_schedules-ok u host g.name ids (name (codes "groups") ∷ index i ∷ []) 0 g.schedules
          refl sched in
      let named = issue_if-nil (is_blank g.name) _ _ blank in
      (
        record { name = g.name; base_lists = g.blocklists; allowlist_tree = tree; schedules = cs },
        rw (named, e, f) refl,
        refl,
      )

  -- The allowlists of the groups have no repeated names.
  abbrev pub AllApart : List GroupConfig → Type 0
  AllApart gs = All (λ g. Apart u g.allowlist) gs

  pub compile_all-ok :
      (ids names : List Str) (i : ℕ) (out : List (Str × Group)) (gs : List GroupConfig)
      → groups_issues host ids names i gs ≡ []
      → AllApart gs
      → (is_some (lookup (codes "default") out) || leb 1 (default_count host gs)) ≡ true
      → (out' : List (Str × Group)) × (compile_all u out gs ≡ ok out')
        × (is_some (lookup (codes "default") out') ≡ true)
  unfolding groups_issues compile_all default_count
  compile_all-ok ids names i out [] h a d = (out, refl, ground arith)
  compile_all-ok ids names i out (g ∷ gs) h (a, rest) d =
      let (p, q) = ++-nil (group_issues host ids names i g) _ h in
      let (c, e, n) = group_issues-ok ids names i g p a in
      let step = lookup-insert c.name (codes "default") c out in
      let (out', f, k) =
        compile_all-ok ids (g.name ∷ names) (suc i) (insert c.name c out) gs q rest
          (ground (arith, step, n, d)) in
      (out', rw (e, f) refl, k)
