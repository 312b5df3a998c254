-- ===== src/Policy/Names.antt =====
-- internal/policy/domains.go: the canonical form of a domain or wildcard pattern.
pub mod Checked
pub mod Canonical
use sis.Base.{
  ℕ, ◌-◌, ◌≡◌, Bool, true, false, not, ◌&&◌, ◌||◌, Option, none, some, List, [], ◌∷◌, ◌++◌, reverse,
  Str, eqs, leb, ltb, ◌==◌, if◌then◌else◌, ◌>>=◌, ◌>>◌, ensure, codes, all,
}
use sis.Base.Strings.{
  len, valid_string, to_lower, trim_space, trim_suffix, trim_prefix, has_prefix, has_suffix,
  contains_space, drop, split, join,
}

-- What the code takes from golang.org/x/net/idna and from the tables of unicode.ToLower above ASCII.
pub record Unicode : Type 0 where
  -- idna.Lookup.ToASCII; `none` is its error.
  pub to_ascii : Str → Option Str
  pub fold : ℕ → ℕ

-- The bytes that validLabel accepts.
unfoldable pub label_char : ℕ → Bool
label_char c = (leb b'a' c && leb c b'z') || (leb b'0' c && leb c b'9') || c == b'-'

abbrev pub first_is : ℕ → Str → Bool
first_is c [] = false
first_is c (d ∷ s) = d == c

unfoldable pub last_is : ℕ → Str → Bool
last_is c [] = false
last_is c (d ∷ []) = d == c
last_is c (d ∷ e ∷ s) = last_is c (e ∷ s)

abbrev pub is_empty : Str → Bool
is_empty [] = true
is_empty (c ∷ s) = false

unfoldable pub valid_label : Str → Bool
unfolding label_char last_is
valid_label label =
    if is_empty label || ltb 63 (len label)
    then false
    else if first_is b'-' label || last_is b'-' label
    then false
    else all label_char label

-- The tests that a name passes before it is encoded.
unfoldable pub plausible : Str → Bool
plausible domain = not (
    not (valid_string domain)
    || not (eqs (trim_space domain) domain)
    || has_suffix domain (codes ".")
    || is_empty domain
    || contains_space domain)

module _ (u : Unicode) where
  -- strings.ToLower(strings.TrimSuffix(s, "."))
  unfoldable pub lower_host : Str → Str
  lower_host s = to_lower u.fold (trim_suffix s (codes "."))

  -- The tests on the encoded name: its size, its stability and its labels.
  unfoldable pub check_ascii : Str → Option Str
  check_ascii ascii = do
    ensure (not (is_empty ascii || ltb 253 (len ascii) || contains_space ascii))
    stable ← u.to_ascii ascii
    ensure (eqs (lower_host stable) ascii)
    ensure (all valid_label (split b'.' ascii))
    some ascii

  -- The part of NormalizeDomainPattern behind the wildcard.
  unfoldable pub normalize_host : Str → Option Str
  normalize_host domain = do
    ensure (plausible domain)
    ascii ← u.to_ascii domain
    check_ascii (lower_host ascii)

  unfoldable pub normalize_domain_pattern : Str → Option Str
  normalize_domain_pattern raw =
      let domain = trim_suffix (trim_space raw) (codes ".") in
      let wild = has_prefix domain (codes "*.") in
      normalize_host (if wild then drop 2 domain else domain) >>= λ ascii.
      some (if wild then codes "*." ++ ascii else ascii)

  -- The labels of a pattern, the top-level domain first.
  unfoldable pub labels_for : Str → Option (List Str)
  labels_for domain = normalize_domain_pattern domain >>= λ normalized.
      some (reverse (split b'.' (trim_prefix normalized (codes "*."))))

unfoldable pub domain_from_labels : List Str → Str
domain_from_labels labels = join b'.' (reverse labels)
