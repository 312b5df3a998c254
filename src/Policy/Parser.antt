-- ===== src/Policy/Parser.antt =====
-- internal/policy/parser.go: hosts-style and domain-only blocklists.
pub mod Counts
use sis.Base.{
  ℕ, ◌+◌, ◌==◌, Bool, true, false, Option, none, some, List, [], ◌∷◌, Str, if◌then◌else◌,
}
use sis.Base.Strings.{trim_space, fields}
use sis.Policy.Names.{Unicode, labels_for}
use sis.Policy.Domains
use sis.Policy.Domains.{Domains, new_domains}

pub record ParseStats : Type 0 where
  pub lines : ℕ
  pub accepted : ℕ
  pub skipped : ℕ
  pub malformed : ℕ

-- `var stats ParseStats`.
abbrev pub no_stats : ParseStats
no_stats = record { lines = 0; accepted = 0; skipped = 0; malformed = 0 }

-- `line[:i]` for the first '#'.
unfoldable pub before_hash : Str → Str
before_hash [] = []
before_hash (c ∷ s) = let rest = c ∷ before_hash s in if c == b'#' then [] else rest

unfoldable pub strip_comment : Str → Str
unfolding before_hash
strip_comment line = trim_space (before_hash line)

abbrev pub is_some {ℓ} : {A : Type ℓ} → Option A → Bool
is_some none = false
is_some (some a) = true

abbrev pub is_blank : Str → Bool
is_blank [] = true
is_blank (c ∷ s) = false

-- `is_ip s` tells whether net.ParseIP(s) is not nil; that function of package net is a parameter.
module _ (u : Unicode) (is_ip : Str → Bool) where
  -- The loop over fields[1:].
  unfoldable pub first_domain : List Str → Option Str
  first_domain [] = none
  first_domain (field ∷ rest) =
      if is_ip field
      then first_domain rest
      else if is_some (labels_for u field)
      then some field
      else first_domain rest

  abbrev pub domain_from_fields : List Str → Option Str
  domain_from_fields [] = none
  domain_from_fields (field ∷ []) =
      if is_ip field then none else if is_some (labels_for u field) then some field else none
  domain_from_fields (field ∷ second ∷ rest) =
      if is_ip field then first_domain (second ∷ rest) else none

  unfoldable pub domain_from_line : Str → Option Str
  unfolding first_domain
  domain_from_line line = domain_from_fields (fields line)

  -- One round of the loop of ParseBlocklist.
  unfoldable pub parse_line : Option Domains × ParseStats → Str → Option Domains × ParseStats
  parse_line (domains, stats) text =
      let counted = record stats { lines = stats.lines + 1 } in
      let line = strip_comment text in
      if is_blank line
      then (domains, record counted { skipped = stats.skipped + 1 })
      else elim (domain_from_line line) [
        | none ↦ (domains, record counted { malformed = stats.malformed + 1 })
        | some domain ↦
            let (domains', added) = Domains.add u domains domain in
            if added
            then (domains', record counted { accepted = stats.accepted + 1 })
            else (domains', record counted { skipped = stats.skipped + 1 })
      ]

  unfoldable pub parse_lines : Option Domains × ParseStats → List Str → Option Domains × ParseStats
  unfolding parse_line
  parse_lines state [] = state
  parse_lines state (text ∷ rest) = parse_lines (parse_line state text) rest

  -- `ParseBlocklist`: the lines that the scanner yields, and whether it ends with an error.
  unfoldable pub parse_blocklist : List Str → Bool → Option Domains × ParseStats
  unfolding parse_lines
  parse_blocklist lines failed =
      let (domains, stats) = parse_lines (some new_domains, no_stats) lines in
      if failed then (none, stats) else (domains, stats)
