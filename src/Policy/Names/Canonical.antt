-- ===== src/Policy/Names/Canonical.antt =====
-- Canonical names: what normalisation promises of its result.
use sis.Base.{
  ℕ, ◌≤◌, ◌≡◌, ◌≢◌, ◌⊎◌, inl, inr, Bool, true, false, ◌&&◌, ◌||◌, some, List, [], ◌∷◌, ◌++◌, arith,
  Str, leb, ==_iff, Bool-cases, All, codes, all,
}
use sis.Base.Strings.{len, split}
use sis.Policy.Names.{
  Unicode, label_char, first_is, last_is, valid_label, lower_host, normalize_domain_pattern,
}
use sis.Policy.Names.Checked.{Checked, normalize-Checked, normalize_idempotent}

-- A lower-case letter, a digit or a hyphen.
abbrev pub HostChar : ℕ → Type 0
HostChar c = ((b'a' ≤ c) × (c ≤ b'z')) ⊎ ((b'0' ≤ c) × (c ≤ b'9')) ⊎ (c ≡ b'-')

-- What a label of a host name is.
pub record IsLabel (l : Str) : Type 0 where
  pub nonempty : l ≢ []
  pub short : len l ≤ 63
  pub chars : All HostChar l
  pub first : (t : Str) → l ≢ b'-' ∷ t
  pub last : (t : Str) → l ≢ t ++ b'-' ∷ []

-- What a canonical host name is.
pub record IsHost (u : Unicode) (s : Str) : Type 0 where
  pub nonempty : s ≢ []
  pub short : len s ≤ 253
  pub labels : All IsLabel (split b'.' s)
  pub stable : (t : Str) × (u.to_ascii s ≡ some t) × (lower_host u t ≡ s)

label_char-HostChar : (c : ℕ) → label_char c ≡ true → HostChar c
unfolding label_char
label_char-HostChar c h = elim (Bool-cases (leb b'a' c && leb c b'z')) [
  | inl e ↦ inl (ground arith, ground arith)
  | inr e ↦ elim (Bool-cases (leb b'0' c && leb c b'9')) [
    | inl f ↦ inr (inl (ground arith, ground arith))
    | inr f ↦ inr (inr (ground arith))
  ]
]

all-All {ℓ} :
    {A : Type 0} (p : A → Bool) (P : A → Type ℓ) (xs : List A)
    → ((x : A) → p x ≡ true → P x)
    → all p xs ≡ true
    → All P xs
all-All p P [] f h = tt
all-All p P (x ∷ xs) f h = (f x (ground arith), all-All p P xs f (ground arith))

last_is-snoc : (c : ℕ) (t : Str) → last_is c (t ++ c ∷ []) ≡ true
unfolding last_is
last_is-snoc c [] = ground (arith, ==_iff c c)
last_is-snoc c (x ∷ []) = ground (arith, ==_iff c c)
last_is-snoc c (x ∷ y ∷ t) = last_is-snoc c (y ∷ t)

valid_label-IsLabel : (l : Str) → valid_label l ≡ true → IsLabel l
unfolding valid_label
valid_label-IsLabel l h =
    let inner : (first_is b'-' l || last_is b'-' l) ≡ false = ground arith in
    record {
      nonempty = λ e. let k = rw e at h in ground (arith, k);
      short = ground arith;
      chars = all-All label_char HostChar l label_char-HostChar (ground arith);
      first = λ t e. let k = rw e at inner in ground (arith, k, ==_iff b'-' b'-');
      last = λ t e. let k = rw e at inner in ground (arith, k, last_is-snoc b'-' t);
    }

Checked-IsHost : (u : Unicode) (s : Str) → Checked u s → IsHost u s
Checked-IsHost u s h = record {
  nonempty = λ e. let k = rw e at h.nonempty in ground (arith, k);
  short = h.short;
  labels = all-All valid_label IsLabel (split b'.' s) valid_label-IsLabel h.labelled;
  stable = h.stable;
}

-- Whatever normalisation returns is a canonical host name, or one behind "*.": labels of 1 to 63
-- lower-case letters, digits and hyphens, with no hyphen at either end, at most 253 bytes in all, that
-- the encoder keeps. Normalising it again returns it as it is.
pub normalize-IsHost :
    (u : Unicode) (d p : Str)
    → normalize_domain_pattern u d ≡ some p
    → (normalize_domain_pattern u p ≡ some p)
      × ((s : Str) × IsHost u s × ((p ≡ s) ⊎ (p ≡ codes "*." ++ s)))
normalize-IsHost u d p h =
    let (s, host, e) = normalize-Checked u d p h in
    (normalize_idempotent u d p h, (s, Checked-IsHost u s host, e))
