-- ===== src/Base/Strings/Split.antt =====
-- strings.Split and strings.Join at a separator of one character, and strings.Fields.
use Prim.Native.Nat.{ℕ}
use mathlib.Core.Path.{◌≡◌, refl}
use mathlib.Core.Logic.{◌≢◌}
use mathlib.Core.Bool.{Bool, true}
use mathlib.Core.List.{List, [], ◌∷◌, ◌++◌}
use native.Mathlib.Omega.{arith}
use sis.Base.Tests.{◌==◌, if◌then◌else◌}
use sis.Base.Lists.{all}
use sis.Base.Strings.Defs.{Str, is_space}

-- The character joins the first part.
abbrev push_head : ℕ → List Str → List Str
push_head c [] = (c ∷ []) ∷ []
push_head c (p ∷ ps) = (c ∷ p) ∷ ps

-- `strings.Split(s, sep)`.
unfoldable pub split : ℕ → Str → List Str
split sep [] = [] ∷ []
split sep (c ∷ s) = let ps = split sep s in if c == sep then [] ∷ ps else push_head c ps

-- `strings.Join(parts, sep)`.
unfoldable pub join : ℕ → List Str → Str
join sep [] = []
join sep (p ∷ []) = p
join sep (p ∷ q ∷ ps) = p ++ sep ∷ join sep (q ∷ ps)

abbrev flush : Str → List Str → List Str
flush [] out = out
flush (c ∷ cur) out = (c ∷ cur) ∷ out

-- `strings.Fields`; `cur` is the field being read.
unfoldable pub fields_from : Str → Str → List Str
fields_from cur [] = flush cur []
fields_from cur (c ∷ s) =
    let closed = flush cur (fields_from [] s) in
    let longer = fields_from (cur ++ c ∷ []) s in if is_space c then closed else longer

unfoldable pub fields : Str → List Str
unfolding fields_from
fields s = fields_from [] s

join-cons_nil : (sep : ℕ) (ps : List Str) → ps ≢ [] → join sep ([] ∷ ps) ≡ sep ∷ join sep ps
unfolding join
join-cons_nil sep [] h = absurd (h refl)
join-cons_nil sep (p ∷ ps) h = refl

join-push_head : (sep c : ℕ) (ps : List Str) → ps ≢ [] → join sep (push_head c ps) ≡ c ∷ join sep ps
unfolding join
join-push_head sep c [] h = absurd (h refl)
join-push_head sep c (p ∷ []) h = refl
join-push_head sep c (p ∷ q ∷ ps) h = refl

pub split-ne-nil : (sep : ℕ) (s : Str) → split sep s ≢ []
unfolding split
split-ne-nil sep [] = λ e. cc
split-ne-nil sep (c ∷ s) = ground (arith, split-ne-nil sep s)

-- Joining the parts gives the text back.
pub join-split : (sep : ℕ) (s : Str) → join sep (split sep s) ≡ s
unfolding split
join-split sep [] = unfold join in refl
join-split sep (c ∷ s) = ground (
  arith,
  join-split sep s,
  join-cons_nil sep (split sep s) (split-ne-nil sep s),
  join-push_head sep c (split sep s) (split-ne-nil sep s),
)

push_head-snoc :
    (c : ℕ) (ps qs : List Str) → ps ≢ [] → push_head c (ps ++ qs) ≡ push_head c ps ++ qs
push_head-snoc c [] qs h = absurd (h refl)
push_head-snoc c (p ∷ ps) qs h = refl

-- A text that ends in the separator has an empty last part.
pub split-snoc : (sep : ℕ) (s : Str) → split sep (s ++ sep ∷ []) ≡ split sep s ++ [] ∷ []
unfolding split
split-snoc sep [] = ground (arith)
split-snoc sep (c ∷ s) =
    ground (arith, split-snoc sep s, push_head-snoc c (split sep s) ([] ∷ []) (split-ne-nil sep s))

-- What holds of the separator and of each character of the parts holds of each character.
pub split-all :
    (sep : ℕ) (p : ℕ → Bool) (s : Str)
    → p sep ≡ true
    → all (all p) (split sep s) ≡ true
    → all p s ≡ true
unfolding split
split-all sep p [] k h = refl
split-all sep p (c ∷ s) k h = ground (arith, split-all sep p s k, split-ne-nil sep s)
