-- ===== src/Policy/Engine/Update.antt =====
-- The runtime lists: what a change to them does to every later decision.
use sis.Base.{
  ℕ, ◌≡◌, refl, inl, inr, true, false, not, ◌&&◌, ◌||◌, Option, some, arith, Str, if◌then◌else◌,
  Bool-cases,
}
use sis.Base.Strings.{str_eq}
use sis.Policy.Domains
use sis.Policy.Domains.{Domains, new_domains}
use sis.Policy.Domains.Laws.{
  covers, holds, same_name, match-add_lem, match-clone, match_of_refused, holds-delete, holds-clone,
  holds_of_absent,
}
use sis.Policy.Group.{Group, Identity}
use sis.Policy.Engine.{
  Platform, Engine, policy_for, is_allowed, evaluate, add_custom_block, remove_custom_block,
  add_custom_allow,
}
use sis.Policy.Engine.Decide.{evaluate-blocked}

module _ (pf : Platform) where
  -- A list with a name added, through a clone that is dropped if Add refuses.
  abbrev updated : Option Domains → Str → Option Domains
  updated d domain =
      let (d', added) = Domains.add pf.unicode (some (Domains.clone d)) domain in
      if not added then d else d'

  match-updated :
      (d : Option Domains) (domain q : Str)
      → Domains.match pf.unicode (updated d domain) q
        ≡ (covers pf.unicode domain q || Domains.match pf.unicode d q)
  match-updated d domain q =
      let c = Domains.clone d in
      elim (Bool-cases (Domains.add pf.unicode (some c) domain).1) [
        | inl e ↦ ground (arith, e, match-add_lem pf.unicode c domain q, match-clone pf.unicode d q)
        | inr e ↦ elim (Bool-cases (covers pf.unicode domain q)) [
          | inl k ↦
              ground (
                arith,
                e,
                k,
                match_of_refused pf.unicode c domain q e k,
                match-clone pf.unicode d q,
              )
          | inr k ↦ ground (arith, e, k)
        ]
      ]

  custom_updated :
      (e : Engine) (domain : Str)
      → (add_custom_block pf e domain).0.custom ≡ updated e.custom domain
  unfolding add_custom_block
  custom_updated e domain = ground arith

  allow_updated :
      (e : Engine) (domain : Str)
      → (add_custom_allow pf e domain).0.custom_allow ≡ updated e.custom_allow domain
  unfolding add_custom_allow
  allow_updated e domain = ground arith

  -- Whatever AddCustomBlock reports, the custom list then matches what it did before and all names
  -- under the new one.
  pub custom-add_custom_block :
      (e : Engine) (domain q : Str)
      → Domains.match pf.unicode (add_custom_block pf e domain).0.custom q
        ≡ (covers pf.unicode domain q || Domains.match pf.unicode e.custom q)
  custom-add_custom_block e domain q =
      rw (custom_updated e domain) (match-updated e.custom domain q)

  pub allow-add_custom_allow :
      (e : Engine) (domain q : Str)
      → Domains.match pf.unicode (add_custom_allow pf e domain).0.custom_allow q
        ≡ (covers pf.unicode domain q || Domains.match pf.unicode e.custom_allow q)
  allow-add_custom_allow e domain q =
      rw (allow_updated e domain) (match-updated e.custom_allow domain q)

  block_group :
      (e : Engine) (domain : Str) (id : Identity)
      → (policy_for (add_custom_block pf e domain).0 id).group ≡ (policy_for e id).group
  unfolding add_custom_block policy_for
  block_group e domain id = ground arith

  block_allowed :
      (e : Engine) (domain q : Str) (id : Identity) (g : Group)
      → is_allowed pf (policy_for (add_custom_block pf e domain).0 id) g q
        ≡ is_allowed pf (policy_for e id) g q
  unfolding add_custom_block policy_for is_allowed
  block_allowed e domain q id g = ground arith

  snapshot_custom : (e : Engine) (id : Identity) → (policy_for e id).custom ≡ e.custom
  unfolding policy_for
  snapshot_custom e id = refl

  -- After AddCustomBlock, a snapshot for any client with a group blocks every name under the new one
  -- that no allowlist of that snapshot matches.
  pub evaluate-add_custom_block :
      (e : Engine) (domain q : Str) (id : Identity) (g : Group) (now : ℕ)
      → (policy_for e id).group ≡ some g
      → covers pf.unicode domain q ≡ true
      → is_allowed pf (policy_for e id) g q ≡ false
      → (evaluate pf (some (policy_for (add_custom_block pf e domain).0 id)) q now).blocked ≡ true
  evaluate-add_custom_block e domain q id g now hg hc ha =
      let e' = (add_custom_block pf e domain).0 in
      ground (
        arith,
        evaluate-blocked pf (policy_for e' id) q now,
        block_group e domain id,
        block_allowed e domain q id g,
        snapshot_custom e' id,
        custom-add_custom_block e domain q,
      )

  -- After AddCustomAllow, no snapshot blocks a name under the new one.
  pub evaluate-add_custom_allow :
      (e : Engine) (domain q : Str) (id : Identity) (now : ℕ)
      → covers pf.unicode domain q ≡ true
      → (evaluate pf (some (policy_for (add_custom_allow pf e domain).0 id)) q now).blocked ≡ false
  unfolding policy_for is_allowed
  evaluate-add_custom_allow e domain q id now hc =
      let e' = (add_custom_allow pf e domain).0 in
      ground
        (arith, evaluate-blocked pf (policy_for e' id) q now, allow-add_custom_allow e domain q)

  -- RemoveCustomBlock takes exactly the name itself out of the custom list.
  pub holds-remove_custom_block :
      (e : Engine) (domain q : Str)
      → holds pf.unicode (remove_custom_block pf e domain).custom q
        ≡ (not (same_name pf.unicode domain q) && holds pf.unicode e.custom q)
  unfolding remove_custom_block
  holds-remove_custom_block e domain q =
      let c = Domains.clone e.custom in
      let same = holds-clone pf.unicode e.custom q in
      elim (Bool-cases (Domains.delete pf.unicode (some c) domain).1) [
        | inl k ↦ ground (arith, k, same, holds-delete pf.unicode c domain q)
        | inr k ↦ ground (arith, k, same, holds_of_absent pf.unicode c domain q k)
      ]
