-- ===== src/Policy/Engine/Decide.antt =====
-- What Evaluate decides.
use sis.Base.{
  ℕ, ◌≡◌, refl, sym, ◌∙◌, ◌⊎◌, inl, inr, Bool, true, false, not, ◌&&◌, ◌||◌, none, some, List, [],
  ◌∷◌, ◌++◌, arith, Str, codes, any, Member, here, there, Bool-cases, Option-cases, any_complete,
}
use mathlib.Core.Path.{subst}
use sis.Policy.Domains
use sis.Policy.Domains.{Domains}
use sis.Policy.Group.{Group}
use sis.Policy.Schedule.{CompiledSchedule, active_at}
use sis.Policy.Engine.{
  Platform, Policy, Decision, allowed, block, match_list, first_match, first_schedule,
  evaluate_blocks, is_allowed, evaluate,
}

module _ (pf : Platform) (p : Policy) (qname : Str) where
  abbrev pub Matches : Str → Type 0
  Matches id = match_list pf p id qname ≡ true

  first_match_sound :
      (ids : List Str) {id : Str}
      → first_match pf p qname ids ≡ some id
      → Member id ids × Matches id
  unfolding first_match
  first_match_sound [] h = cc
  first_match_sound (k ∷ ks) {id} h = elim (Bool-cases (match_list pf p k qname)) [
    | inl e ↦
        let same : k ≡ id = ground arith in (subst (λ j. Member j (k ∷ ks)) same here, rw same at e)
    | inr e ↦ let (m, f) = first_match_sound ks (ground arith) in (there m, f)
  ]

  first_match-none :
      (ids : List Str)
      → first_match pf p qname ids ≡ none
      → any (λ id. match_list pf p id qname) ids ≡ false
  unfolding first_match
  first_match-none [] h = refl
  first_match-none (k ∷ ks) h = ground (arith, first_match-none ks)

  module _ (now : ℕ) where
    -- An active schedule one of whose lists matches.
    abbrev pub schedule_blocks : CompiledSchedule → Bool
    schedule_blocks s =
        active_at pf.local_zone s now p.tz && any (λ id. match_list pf p id qname) s.block

    -- Where a decision to block comes from, by its reason and its list.
    pub data Cause (g : Group) : Decision → Type 0 where
      by_base :
          {id : Str}
          → Member id g.base_lists
          → Matches id
          → Cause g (block (codes "blocklist:" ++ id) id)
      by_schedule :
          {s : CompiledSchedule} {id : Str}
          → Member s g.schedules
          → active_at pf.local_zone s now p.tz ≡ true
          → Member id s.block
          → Matches id
          → Cause g (block (codes "schedule:" ++ s.name) id)
      by_custom :
          Domains.match pf.unicode p.custom qname ≡ true
          → Cause g (block (codes "blocklist:custom") (codes "custom"))

    first_schedule_sound :
        (ss : List CompiledSchedule) {name id : Str}
        → first_schedule pf p qname now ss ≡ some (name, id)
        → (s : CompiledSchedule) × Member s ss
          × (active_at pf.local_zone s now p.tz ≡ true)
          × (s.name ≡ name)
          × Member id s.block
          × Matches id
    unfolding first_schedule
    first_schedule_sound [] h = cc
    first_schedule_sound (s ∷ ss) {name} {id} h =
        elim (Bool-cases (active_at pf.local_zone s now p.tz)) [
          | inl e ↦ elim (Option-cases (first_match pf p qname s.block)) [
            | inl f ↦
                let (t, m, a, n, l, q) = first_schedule_sound ss (ground (arith, e, f)) in
                (t, there m, a, n, l, q)
            | inr (k, f) ↦
                let (m, q) = first_match_sound s.block f in
                let same : k ≡ id = ground (arith, e, f) in
                (s, here, e, ground (arith, e, f), rw same at m, rw same at q)
          ]
          | inr e ↦
              let (t, m, a, n, l, q) = first_schedule_sound ss (ground (arith, e)) in
              (t, there m, a, n, l, q)
        ]

    first_schedule-none :
        (ss : List CompiledSchedule)
        → first_schedule pf p qname now ss ≡ none
        → any schedule_blocks ss ≡ false
    unfolding first_schedule
    first_schedule-none [] h = refl
    first_schedule-none (s ∷ ss) h = elim (Option-cases (first_match pf p qname s.block)) [
      | inl f ↦ ground (arith, f, first_match-none s.block f, first_schedule-none ss)
      | inr (k, f) ↦ ground (arith, f, first_schedule-none ss)
    ]

    evaluate_blocks-Cause :
        (g : Group)
        → (evaluate_blocks pf p g qname now ≡ allowed) ⊎ Cause g (evaluate_blocks pf p g qname now)
    unfolding evaluate_blocks
    evaluate_blocks-Cause g = elim (Option-cases (first_match pf p qname g.base_lists)) [
      | inr (id, e) ↦
          let (m, q) = first_match_sound g.base_lists e in
          inr (rw (e, evaluate_blocks) (by_base m q))
      | inl e ↦ elim (Option-cases (first_schedule pf p qname now g.schedules)) [
        | inr ((name, id), f) ↦
            let (s, m, a, n, l, q) = first_schedule_sound g.schedules f in
            inr (rw (e, evaluate_blocks) (rw (f, ← n) (by_schedule m a l q)))
        | inl f ↦ elim (Bool-cases (Domains.match pf.unicode p.custom qname)) [
          | inl c ↦ inr (rw (e, evaluate_blocks) (rw (f, c) (by_custom c)))
          | inr c ↦ inl (rw (e, evaluate_blocks) (rw (f, c)))
        ]
      ]
    ]

    -- The blocks of a group, without their order.
    abbrev pub blocks : Group → Bool
    blocks g =
        any (λ id. match_list pf p id qname) g.base_lists
        || any schedule_blocks g.schedules
        || Domains.match pf.unicode p.custom qname

    evaluate_blocks-blocked : (g : Group) → (evaluate_blocks pf p g qname now).blocked ≡ blocks g
    unfolding evaluate_blocks
    evaluate_blocks-blocked g = elim (Option-cases (first_match pf p qname g.base_lists)) [
      | inr (id, e) ↦
          let (m, q) = first_match_sound g.base_lists e in
          ground (arith, e, any_complete (λ (k : Str). match_list pf p k qname) m q)
      | inl e ↦ elim (Option-cases (first_schedule pf p qname now g.schedules)) [
        | inr ((name, id), f) ↦
            let (s, m, a, n, l, q) = first_schedule_sound g.schedules f in
            let inner = any_complete (λ (k : Str). match_list pf p k qname) l q in
            ground (
              arith,
              e,
              f,
              first_match-none g.base_lists e,
              any_complete schedule_blocks m (ground (arith, a, inner)),
            )
        | inl f ↦
            ground (arith, e, f, first_match-none g.base_lists e, first_schedule-none g.schedules f)
      ]
    ]

    -- A name is blocked exactly if the policy has a group, no allowlist matches the name, and a base
    -- list of the group, a list of an active schedule or the custom list matches it.
    pub evaluate-blocked :
        (evaluate pf (some p) qname now).blocked
        ≡ (elim p.group [ none ↦ false | some g ↦ not (is_allowed pf p g qname) && blocks g ])
    unfolding evaluate
    evaluate-blocked = elim (Option-cases p.group) [
      | inl e ↦ ground (arith, e)
      | inr (g, e) ↦ ground (arith, e, evaluate_blocks-blocked g)
    ]

    -- A policy with a group allows the name, or blocks it for a cause that the decision names, and
    -- then no allowlist matches: the cause is a base list of the group that matches, a matching list
    -- of an active schedule of the group, or the custom list.
    pub evaluate-Cause :
        (g : Group)
        → p.group ≡ some g
        → (evaluate pf (some p) qname now ≡ allowed)
          ⊎ ((is_allowed pf p g qname ≡ false) × Cause g (evaluate pf (some p) qname now))
    unfolding evaluate
    evaluate-Cause g e = elim (Bool-cases (is_allowed pf p g qname)) [
      | inl a ↦ inl (ground (arith, e, a))
      | inr a ↦
          let same : evaluate pf (some p) qname now ≡ evaluate_blocks pf p g qname now =
            ground (arith, e, a) in
          elim (evaluate_blocks-Cause g) [
            | inl f ↦ inl (same ∙ f)
            | inr c ↦ inr (a, subst (Cause g) (sym same) c)
          ]
    ]
