-- ===== src/Policy/Names/Checked.antt =====
-- What the tests of checkAscii leave true of a name, and that normalising it again keeps it.
use sis.Base.{
  ℕ, ◌≤◌, ◌≡◌, refl, ◌∙◌, ◌⊎◌, inl, inr, Bool, true, false, not, ◌||◌, Option, none, some, [], ◌∷◌,
  ◌++◌, arith, Str, eqs, eqs_iff, eqs_refl, ltb, ◌==◌, if◌then◌else◌, ◌>>=◌, codes, all,
  Option-cases, all-append, all_mono,
}
use sis.Base.Strings.{
  len, valid_string, is_space, trim_suffix, has_prefix, has_suffix, contains_space, cut_prefix,
  split, trim_space_same, trim_suffix-cases, cut_prefix_sound, split-snoc, split-all,
}
use sis.Policy.Names.{
  Unicode, label_char, is_empty, valid_label, lower_host, check_ascii, plausible, normalize_host,
  normalize_domain_pattern,
}

-- What checkAscii has seen of a name.
pub record Checked (u : Unicode) (s : Str) : Type 0 where
  pub nonempty : is_empty s ≡ false
  pub short : len s ≤ 253
  pub unspaced : contains_space s ≡ false
  pub labelled : all valid_label (split b'.' s) ≡ true
  pub stable : (t : Str) × (u.to_ascii s ≡ some t) × (lower_host u t ≡ s)

check_ascii-Checked : (u : Unicode) (a s : Str) → check_ascii u a ≡ some s → (a ≡ s) × Checked u a
unfolding check_ascii
check_ascii-Checked u a s h = elim (Option-cases (u.to_ascii a)) [
  | inl e ↦ ground arith
  | inr (t, e) ↦
      let f : eqs (lower_host u t) a ≡ true = ground arith in
      (
        ground arith,
        record {
          nonempty = ground arith;
          short = ground arith;
          unspaced = ground arith;
          labelled = ground arith;
          stable = (t, e, (eqs_iff _ _).0 f);
        },
      )
]

normalize_host-Checked :
    (u : Unicode) (domain s : Str) → normalize_host u domain ≡ some s → Checked u s
unfolding normalize_host
normalize_host-Checked u domain s h = elim (Option-cases (u.to_ascii domain)) [
  | inl e ↦ ground arith
  | inr (t, e) ↦
      let (same, host) = check_ascii-Checked u (lower_host u t) s (ground arith) in rw same at host
]

-- The characters of a canonical name.
pub host_char : ℕ → Bool
unfolding label_char
host_char c = label_char c || c == b'.'

valid_label-host : (l : Str) → valid_label l ≡ true → all host_char l ≡ true
unfolding valid_label host_char
valid_label-host l h = all_mono label_char host_char l (λ c k. ground arith) (ground arith)

host_char-valid : (c : ℕ) → host_char c ≡ true → ltb c 0x110000 ≡ true
unfolding host_char
host_char-valid c h = ground arith

valid_string-all : (s : Str) → valid_string s ≡ all (λ c. ltb c 0x110000) s
unfolding valid_string
valid_string-all [] = refl
valid_string-all (c ∷ s) = rw (valid_string-all s)

star_invalid : valid_label (codes "*") ≡ false
unfolding valid_label len
star_invalid = refl

nonempty_label : (l : Str) → valid_label l ≡ true → not (is_empty l) ≡ true
unfolding valid_label
nonempty_label l h = ground arith

-- No part of the text between dots is empty.
abbrev Dotted : Str → Type 0
Dotted s = all (λ l. not (is_empty l)) (split b'.' s) ≡ true

not_final_dot : (r s : Str) → Dotted s → ¬ (s ≡ r ++ codes ".")
not_final_dot r s h = λ e.
    let k = rw e at h in
    ground (
      arith,
      split-snoc b'.' r,
      all-append (λ (l : Str). not (is_empty l)) (split b'.' r) ([] ∷ []),
      k,
    )

no_final_dot : (s : Str) → Dotted s → has_suffix s (codes ".") ≡ false
no_final_dot s h = elim (trim_suffix-cases s (codes ".")) [
  | inl (e, _) ↦ e
  | inr e ↦ absurd (not_final_dot _ s h e)
]

trim_final_dot : (s : Str) → Dotted s → trim_suffix s (codes ".") ≡ s
trim_final_dot s h = elim (trim_suffix-cases s (codes ".")) [
  | inl (_, e) ↦ e
  | inr e ↦ absurd (not_final_dot _ s h e)
]

module _ {u : Unicode} {s : Str} (h : Checked u s) where
  -- Each character is a lower-case letter, a digit, a hyphen or a dot.
  host_chars : all host_char s ≡ true
  unfolding host_char
  host_chars =
      split-all b'.' host_char s refl
        (all_mono valid_label (all host_char) (split b'.' s) valid_label-host h.labelled)

  host-Dotted : Dotted s
  host-Dotted =
      all_mono valid_label (λ l. not (is_empty l)) (split b'.' s) nonempty_label h.labelled

  host_valid_string : valid_string s ≡ true
  host_valid_string =
      valid_string-all s ∙ all_mono host_char (λ c. ltb c 0x110000) s host_char-valid host_chars

  host-plausible : plausible s ≡ true
  unfolding plausible
  host-plausible = ground (
    arith,
    host_valid_string,
    trim_space_same s h.unspaced,
    eqs_refl s,
    no_final_dot s host-Dotted,
    h.nonempty,
    h.unspaced,
  )

  host-check_ascii : check_ascii u s ≡ some s
  unfolding check_ascii
  host-check_ascii =
      let (t, e, f) = h.stable in
      ground (arith, h.nonempty, lt_short, h.unspaced, e, f, eqs_refl s, h.labelled)
    where
      lt_short : ltb 253 (len s) ≡ false
      lt_short = ground (arith, h.short)

  host-normalize_host : normalize_host u s ≡ some s
  unfolding normalize_host
  host-normalize_host =
      let (t, e, f) = h.stable in ground (arith, host-plausible, e, f, host-check_ascii)

  host_not_wild : has_prefix s (codes "*.") ≡ false
  unfolding has_prefix
  host_not_wild = elim (Option-cases (cut_prefix (codes "*.") s)) [
    | inl e ↦ rw e
    | inr (r, e) ↦ absurd (not_star r (cut_prefix_sound (codes "*.") s r e))
  ]
    where
      not_star : (r : Str) → ¬ (s ≡ codes "*." ++ r)
      not_star r =
          λ e. let k = rw e at h.labelled in unfold split in ground (arith, k, star_invalid)

  host-normalize : normalize_domain_pattern u s ≡ some s
  unfolding normalize_domain_pattern
  host-normalize = ground (
    arith,
    trim_space_same s h.unspaced,
    trim_final_dot s host-Dotted,
    host_not_wild,
    host-normalize_host,
  )

  wild-Dotted : Dotted (codes "*." ++ s)
  unfolding split
  wild-Dotted = host-Dotted

  wild_unspaced : contains_space (codes "*." ++ s) ≡ false
  unfolding is_space
  wild_unspaced = h.unspaced

  wild-normalize : normalize_domain_pattern u (codes "*." ++ s) ≡ some (codes "*." ++ s)
  unfolding normalize_domain_pattern has_prefix
  wild-normalize =
      rw (trim_space_same (codes "*." ++ s) wild_unspaced)
        (rw (trim_final_dot (codes "*." ++ s) wild-Dotted) (rw host-normalize_host))

wrap-inv :
    (m : Option Str) (wild : Bool) {p : Str}
    → (m >>= λ ascii. some (if wild then codes "*." ++ ascii else ascii)) ≡ some p
    → (s : Str) × (m ≡ some s) × ((p ≡ s) ⊎ (p ≡ codes "*." ++ s))
wrap-inv none wild h = cc
wrap-inv (some s) true h = (s, refl, inr (ground arith))
wrap-inv (some s) false h = (s, refl, inl (ground arith))

pub normalize-Checked :
    (u : Unicode) (d p : Str)
    → normalize_domain_pattern u d ≡ some p
    → (s : Str) × Checked u s × ((p ≡ s) ⊎ (p ≡ codes "*." ++ s))
unfolding normalize_domain_pattern
normalize-Checked u d p h = let (s, e, f) = wrap-inv _ _ h in (s, normalize_host-Checked u _ s e, f)

-- Normalising a normalised pattern returns it as it is.
pub normalize_idempotent :
    (u : Unicode) (d p : Str)
    → normalize_domain_pattern u d ≡ some p
    → normalize_domain_pattern u p ≡ some p
normalize_idempotent u d p h =
    let (s, host, e) = normalize-Checked u d p h in
    elim e [ inl e ↦ rw e (host-normalize host) | inr e ↦ rw e (wild-normalize host) ]
