-- ===== src/Base/Strings/Defs.antt =====
-- Go strings as lists of code points: literals, equality, length, case and white space.
use Prim.Native.Char.{code}
use Prim.Native.String.{String}
use Prim.Native.Nat.{ℕ, ◌+◌}
use mathlib.Core.Path.{◌≡◌, refl}
use mathlib.Core.Logic.{◌↔◌}
use mathlib.Core.Bool.{Bool, true, false, ◌&&◌, ◌||◌}
use mathlib.Core.List.{List, [], ◌∷◌, map}
use native.Mathlib.Omega.{arith}
use sis.Base.Tests.{leb, ltb, ◌==◌, if◌then◌else◌, Eq}

abbrev pub Str : Type 0
Str = List ℕ

-- A literal of the source.
abbrev pub codes : String → Str
codes String.[] = []
codes (String.◌∷◌ c s) = code c ∷ codes s

-- `s == t`.
unfoldable pub eqs : Str → Str → Bool
eqs [] [] = true
eqs [] (b ∷ t) = false
eqs (a ∷ s) [] = false
eqs (a ∷ s) (b ∷ t) = (a == b) && eqs s t

pub eqs_iff : (s t : Str) → (eqs s t ≡ true) ↔ (s ≡ t)
unfolding eqs
eqs_iff [] [] = ground arith
eqs_iff [] (b ∷ t) = ground arith
eqs_iff (a ∷ s) [] = ground arith
eqs_iff (a ∷ s) (b ∷ t) = ground (arith, eqs_iff s t)

pub eqs_refl : (s : Str) → eqs s s ≡ true
eqs_refl s = (eqs_iff s s).1 refl

instance abbrev pub str_eq : Eq Str
str_eq = record { beq = eqs; beq_iff = eqs_iff }

-- The bytes that one unit takes in UTF-8; an invalid byte is one byte.
unfoldable pub width : ℕ → ℕ
width c =
    if ltb c 0x80
    then 1
    else if ltb c 0x800
    then 2
    else if ltb c 0x10000
    then 3
    else if ltb c 0x110000
    then 4
    else 1

-- `len(s)`.
unfoldable pub len : Str → ℕ
unfolding width
len [] = 0
len (c ∷ s) = width c + len s

-- `utf8.ValidString`.
unfoldable pub valid_string : Str → Bool
valid_string [] = true
valid_string (c ∷ s) = ltb c 0x110000 && valid_string s

-- `unicode.IsSpace`.
unfoldable pub is_space : ℕ → Bool
is_space c =
    (leb 9 c && leb c 13)
    || c == 0x20
    || c == 0x85
    || c == 0xa0
    || c == 0x1680
    || (leb 0x2000 c && leb c 0x200a)
    || c == 0x2028
    || c == 0x2029
    || c == 0x202f
    || c == 0x205f
    || c == 0x3000

-- `strings.ToLower` on one unit; `fold` is the table of unicode.ToLower above ASCII.
unfoldable pub lower : (ℕ → ℕ) → ℕ → ℕ
lower fold c = if ltb c 0x80 then (if leb b'A' c && leb c b'Z' then c + 32 else c) else fold c

unfoldable pub to_lower : (ℕ → ℕ) → Str → Str
unfolding lower
to_lower fold = map (lower fold)
