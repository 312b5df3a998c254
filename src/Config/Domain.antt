-- ===== src/Config/Domain.antt =====
-- internal/config/validate.go: the test of a domain pattern, and that it agrees with policy's.
use sis.Base.{
  ◌≡◌, inl, inr, Bool, false, not, ◌||◌, none, some, Str, arith, eqs, eqs_iff, ltb, if◌then◌else◌,
  codes, all, Option-cases,
}
use sis.Base.Map.{is_some}
use sis.Base.Strings.{
  len, valid_string, to_lower, trim_space, trim_suffix, has_prefix, has_suffix, contains_space,
  drop, split, trim_space_same,
}
use sis.Policy.Names.{
  Unicode, label_char, first_is, last_is, is_empty, valid_label, plausible, lower_host, check_ascii,
  normalize_host, normalize_domain_pattern,
}

-- `validDomainLabel`.
unfoldable pub valid_domain_label : Str → Bool
unfolding label_char last_is
valid_domain_label label =
    if is_empty label || ltb 63 (len label)
    then false
    else if first_is b'-' label || last_is b'-' label
    then false
    else all label_char label

module _ (u : Unicode) where
  -- strings.ToLower(strings.TrimSuffix(s, "."))
  abbrev lowered : Str → Str
  lowered s = to_lower u.fold (trim_suffix s (codes "."))

  -- validDomainPattern behind the second encoding.
  unfoldable pub valid_stable : Str → Str → Bool
  unfolding valid_domain_label
  valid_stable ascii stable =
      if not (eqs (lowered stable) ascii) then false else all valid_domain_label (split b'.' ascii)

  -- validDomainPattern behind the first encoding.
  unfoldable pub valid_ascii : Str → Bool
  unfolding valid_stable
  valid_ascii ascii =
      if is_empty ascii || ltb 253 (len ascii) || contains_space ascii
      then false
      else elim (u.to_ascii ascii) [ none ↦ false | some stable ↦ valid_stable ascii stable ]

  -- validDomainPattern behind the wildcard.
  unfoldable pub valid_host : Str → Bool
  unfolding valid_ascii
  valid_host v =
      if not (valid_string v) || is_empty v || has_suffix v (codes ".") || contains_space v
      then false
      else elim (u.to_ascii v) [ none ↦ false | some ascii ↦ valid_ascii (lowered ascii) ]

  -- `validDomainPattern`.
  unfoldable pub valid_domain_pattern : Str → Bool
  unfolding valid_host
  valid_domain_pattern raw =
      let v = trim_suffix (trim_space raw) (codes ".") in
      valid_host (if has_prefix v (codes "*.") then drop 2 v else v)

  check_ascii-valid_ascii : (ascii : Str) → is_some (check_ascii u ascii) ≡ valid_ascii ascii
  unfolding check_ascii valid_ascii valid_stable lower_host valid_label valid_domain_label
  check_ascii-valid_ascii ascii = elim (Option-cases (u.to_ascii ascii)) [
    | inl e ↦ ground (arith, e)
    | inr (stable, e) ↦ ground (arith, e)
  ]

  normalize_host-valid_host : (v : Str) → is_some (normalize_host u v) ≡ valid_host v
  unfolding normalize_host valid_host plausible lower_host
  normalize_host-valid_host v = elim (Option-cases (u.to_ascii v)) [
    | inl e ↦ ground (arith, e)
    | inr (a, e) ↦
        ground (
          arith,
          e,
          trim_space_same v,
          eqs_iff (trim_space v) v,
          check_ascii-valid_ascii (lowered a),
        )
  ]

  -- The configuration accepts exactly the patterns that policy can normalise.
  pub valid_domain_pattern-normalize :
      (raw : Str) → valid_domain_pattern raw ≡ is_some (normalize_domain_pattern u raw)
  unfolding valid_domain_pattern normalize_domain_pattern
  valid_domain_pattern-normalize raw =
      let v = trim_suffix (trim_space raw) (codes ".") in
      let host = if has_prefix v (codes "*.") then drop 2 v else v in
      elim (Option-cases (normalize_host u host)) [
        | inl e ↦ ground (arith, e, normalize_host-valid_host host)
        | inr (a, e) ↦ ground (arith, e, normalize_host-valid_host host)
      ]
