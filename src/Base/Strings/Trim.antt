-- ===== src/Base/Strings/Trim.antt =====
-- strings.TrimSpace, TrimSuffix, TrimPrefix, HasPrefix, HasSuffix, Contains and ContainsFunc.
use Prim.Native.Nat.{ℕ}
use mathlib.Core.Path.{◌≡◌, refl, sym, ap, ◌∙◌}
use mathlib.Core.Bool.{Bool, true, false, ◌||◌}
use mathlib.Core.Option.{Option, none, some}
use mathlib.Core.List.{[], ◌∷◌, ◌++◌, reverse, reverse-cons, reverse-reverse, reverse-append}
use native.Mathlib.Omega.{arith}
use mathlib.Core.Logic.{◌⊎◌, inl, inr}
use sis.Base.Tests.{◌==◌, if◌then◌else◌, Option-cases}
use sis.Base.Lists.{any, any-append}
use sis.Base.Strings.Defs.{Str, is_space}

unfoldable pub trim_left : Str → Str
trim_left [] = []
trim_left (c ∷ s) = if is_space c then trim_left s else c ∷ s

-- `strings.TrimSpace`.
unfoldable pub trim_space : Str → Str
unfolding trim_left
trim_space s = reverse (trim_left (reverse (trim_left s)))

-- What is left of `s` behind the prefix `p`.
unfoldable pub cut_prefix : Str → Str → Option Str
cut_prefix [] s = some s
cut_prefix (a ∷ p) [] = none
cut_prefix (a ∷ p) (b ∷ s) = if a == b then cut_prefix p s else none

abbrev is_some : Option Str → Bool
is_some none = false
is_some (some s) = true

abbrev or_else : Option Str → Str → Str
or_else none s = s
or_else (some r) s = r

unfoldable pub has_prefix : Str → Str → Bool
unfolding cut_prefix
has_prefix s p = is_some (cut_prefix p s)

unfoldable pub trim_prefix : Str → Str → Str
unfolding cut_prefix
trim_prefix s p = or_else (cut_prefix p s) s

unfoldable pub has_suffix : Str → Str → Bool
unfolding cut_prefix
has_suffix s p = is_some (cut_prefix (reverse p) (reverse s))

-- `strings.TrimSuffix`.
unfoldable pub trim_suffix : Str → Str → Str
unfolding cut_prefix
trim_suffix s p = elim (cut_prefix (reverse p) (reverse s)) [ none ↦ s | some r ↦ reverse r ]

-- `strings.Contains`.
unfoldable pub contains : Str → Str → Bool
unfolding has_prefix
contains [] p = has_prefix [] p
contains (c ∷ s) p = has_prefix (c ∷ s) p || contains s p

-- `strings.ContainsFunc(s, unicode.IsSpace)`.
abbrev pub contains_space : Str → Bool
contains_space s = any is_space s

-- `s[n:]` where the first n units are ASCII.
abbrev pub drop : ℕ → Str → Str
drop Prim.Native.Nat.zero s = s
drop (Prim.Native.Nat.suc n) [] = []
drop (Prim.Native.Nat.suc n) (c ∷ s) = drop n s

any-reverse : (p : ℕ → Bool) (s : Str) → any p (reverse s) ≡ any p s
any-reverse p [] = refl
any-reverse p (c ∷ s) = rw (reverse-cons, any-append) (ground (arith, any-reverse p s))

trim_left_same : (s : Str) → contains_space s ≡ false → trim_left s ≡ s
unfolding trim_left
trim_left_same [] h = refl
trim_left_same (c ∷ s) h = ground arith

-- A text with no white space is not changed by TrimSpace.
pub trim_space_same : (s : Str) → contains_space s ≡ false → trim_space s ≡ s
unfolding trim_space
trim_space_same s h =
    rw (trim_left_same s h)
      (rw (trim_left_same (reverse s) (any-reverse is_space s ∙ h)) (reverse-reverse s))

pub cut_prefix_sound : (p s r : Str) → cut_prefix p s ≡ some r → s ≡ p ++ r
unfolding cut_prefix
cut_prefix_sound [] s r h = ground arith
cut_prefix_sound (a ∷ p) [] r h = cc
cut_prefix_sound (a ∷ p) (b ∷ s) r h = ground (arith, cut_prefix_sound p s r)

-- What TrimSuffix cuts off is the suffix.
pub trim_suffix-cases :
    (s p : Str) → ((has_suffix s p ≡ false) × (trim_suffix s p ≡ s)) ⊎ (s ≡ trim_suffix s p ++ p)
unfolding has_suffix trim_suffix
trim_suffix-cases s p = elim (Option-cases (cut_prefix (reverse p) (reverse s))) [
  | inl e ↦ inl (rw e refl, rw (e, trim_suffix) refl)
  | inr (r, e) ↦ inr (
      rw (e, trim_suffix)
        (sym (reverse-reverse s)
          ∙ ap reverse (cut_prefix_sound (reverse p) (reverse s) r e)
          ∙ reverse-append (reverse p) r
          ∙ ap (λ t. reverse r ++ t) (reverse-reverse p)))
]
