-- ===== src/Base/Sort.antt =====
-- sort.Strings and sort.Slice: a sort by a `less` test. The package leaves the algorithm open; where
-- `less` is a strict total order on the elements, there is one sorted order.
use sis.Base.Tests.{if◌then◌else◌, ltb, ◌==◌, Bool-cases}
use mathlib.Core.Logic.{◌⊎◌, inl, inr}
use sis.Base.Lists.{length, take, All, All-map, Member, here, there, Member-All}
use sis.Base.Strings.{Str}
use Prim.Native.Nat.{ℕ, zero, suc, ◌+◌, ◌/◌, ◌%◌}
use mathlib.Core.Path.{◌≡◌, refl, ap, ◌∙◌}
use mathlib.Core.Bool.{Bool, true, false, ◌&&◌, ◌||◌}
use mathlib.Core.List.{List, [], ◌∷◌, ◌++◌}
use native.Mathlib.Omega.{arith}

module _ {ℓ} {A : Type ℓ} (less : A → A → Bool) where
  unfoldable pub insert : A → List A → List A
  insert x [] = x ∷ []
  insert x (y ∷ ys) = if less y x then y ∷ insert x ys else x ∷ y ∷ ys

  unfoldable pub sort : List A → List A
  sort [] = []
  sort (x ∷ xs) = insert x (sort xs)

  -- No element is below the one before it.
  abbrev pub head_ok : A → List A → Bool
  head_ok x [] = true
  head_ok x (y ∷ ys) = if less y x then false else true

  unfoldable pub is_sorted : List A → Bool
  is_sorted [] = true
  is_sorted (x ∷ xs) = head_ok x xs && is_sorted xs

  length-insert : (x : A) (xs : List A) → length (insert x xs) ≡ suc (length xs)
  unfolding insert
  length-insert x [] = refl
  length-insert x (y ∷ ys) = ground (arith, length-insert x ys)

  pub length-sort : (xs : List A) → length (sort xs) ≡ length xs
  unfolding sort
  length-sort [] = refl
  length-sort (x ∷ xs) = length-insert x (sort xs) ∙ ap suc (length-sort xs)

  pub insert-All {κ} : (P : A → Type κ) (x : A) (xs : List A) → P x → All P xs → All P (insert x xs)
  unfolding insert
  insert-All P x [] p h = (p, tt)
  insert-All P x (y ∷ ys) p (q, h) = elim (Bool-cases (less y x)) [
    | inl e ↦ rw e (q, insert-All P x ys p h)
    | inr e ↦ rw e (p, (q, h))
  ]

  pub sort-All {κ} : (P : A → Type κ) (xs : List A) → All P xs → All P (sort xs)
  unfolding sort
  sort-All P [] h = tt
  sort-All P (x ∷ xs) (p, h) = insert-All P x (sort xs) p (sort-All P xs h)

  insert-head_ok :
      (x y : A) (xs : List A)
      → less x y ≡ false
      → head_ok y xs ≡ true
      → head_ok y (insert x xs) ≡ true
  unfolding insert
  insert-head_ok x y [] h k = rw h
  insert-head_ok x y (z ∷ zs) h k = ground arith

  insert-is_sorted :
      ((a b : A) → less a b ≡ true → less b a ≡ false)
      → (x : A) (xs : List A) → is_sorted xs ≡ true
      → is_sorted (insert x xs) ≡ true
  unfolding insert is_sorted
  insert-is_sorted asym x [] h = refl
  insert-is_sorted asym x (y ∷ ys) h =
      ground (arith, asym y x, insert-is_sorted asym x ys, insert-head_ok x y ys)

  -- Whatever the order of the input, the result is sorted.
  pub sort-is_sorted :
      ((a b : A) → less a b ≡ true → less b a ≡ false) → (xs : List A) → is_sorted (sort xs) ≡ true
  unfolding sort is_sorted
  sort-is_sorted asym [] = refl
  sort-is_sorted asym (x ∷ xs) = insert-is_sorted asym x (sort xs) (sort-is_sorted asym xs)

module _ {ℓ} {A : Type ℓ} (less : A → A → Bool) where
  insert-Member : {a : A} (x : A) (xs : List A) → Member a (x ∷ xs) → Member a (insert less x xs)
  unfolding insert
  insert-Member x [] h = h
  insert-Member x (y ∷ ys) here = elim (Bool-cases (less y x)) [
    | inl e ↦ rw e (there (insert-Member x ys here))
    | inr e ↦ rw e here
  ]
  insert-Member x (y ∷ ys) (there here) = elim (Bool-cases (less y x)) [
    | inl e ↦ rw e here
    | inr e ↦ rw e (there here)
  ]
  insert-Member x (y ∷ ys) (there (there h)) = elim (Bool-cases (less y x)) [
    | inl e ↦ rw e (there (insert-Member x ys (there h)))
    | inr e ↦ rw e (there (there h))
  ]

  -- The sort drops no element.
  pub Member-sort : {a : A} (xs : List A) → Member a xs → Member a (sort less xs)
  unfolding sort
  Member-sort [] m = elim m [ ]
  Member-sort (x ∷ xs) here = insert-Member x (sort less xs) here
  Member-sort (x ∷ xs) (there h) = insert-Member x (sort less xs) (there (Member-sort xs h))

  -- Where no element is below the one before it, none is below any before it.
  pub is_sorted-All :
      ((a b c : A) → less b a ≡ false → less c b ≡ false → less c a ≡ false)
      → (x : A) (xs : List A) → head_ok less x xs ≡ true
      → is_sorted less xs ≡ true
      → All (λ y. less y x ≡ false) xs
  unfolding is_sorted
  is_sorted-All trans x [] h k = tt
  is_sorted-All trans x (y ∷ ys) h k =
      let first : less y x ≡ false = ground arith in
      (
        first,
        All-map (λ z. less z y ≡ false) (λ z. less z x ≡ false) ys (λ z q. trans x y z first q)
            (is_sorted-All trans y ys (ground arith) (ground arith)),
      )

  -- An element of a sorted list is among the first n, or is below none of them.
  pub take-least :
      ((a b c : A) → less b a ≡ false → less c b ≡ false → less c a ≡ false)
      → (n : ℕ) (xs : List A) {a : A} → is_sorted less xs ≡ true
      → Member a xs
      → Member a (take n xs) ⊎ All (λ x. less a x ≡ false) (take n xs)
  unfolding is_sorted
  take-least trans zero xs h m = inr tt
  take-least trans (suc n) [] h m = elim m [ ]
  take-least trans (suc n) (x ∷ xs) h here = inl here
  take-least trans (suc n) (x ∷ xs) {a = a} h (there m) =
      elim (take-least trans n xs {a = a} (ground arith) m) [
        | inl q ↦ inl (there q)
        | inr q ↦ inr (
          Member-All (λ y. less y x ≡ false) m
              (is_sorted-All trans x xs (ground arith) (ground arith)),
          q,
        )
      ]

-- The UTF-8 bytes of a unit, and Go's `<` on strings, which compares bytes.
unfoldable pub utf8 : ℕ → List ℕ
utf8 c =
    if ltb c 0x80
    then c ∷ []
    else if ltb c 0x800
    then (0xc0 + c / 64) ∷ (0x80 + c % 64) ∷ []
    else if ltb c 0x10000
    then (0xe0 + c / 4096) ∷ (0x80 + c / 64 % 64) ∷ (0x80 + c % 64) ∷ []
    else if ltb c 0x110000
    then (0xf0 + c / 262144) ∷ (0x80 + c / 4096 % 64) ∷ (0x80 + c / 64 % 64) ∷ (0x80 + c % 64) ∷ []
    else c % 0x110000 ∷ []

unfoldable pub bytes : Str → List ℕ
unfolding utf8
bytes [] = []
bytes (c ∷ s) = utf8 c ++ bytes s

unfoldable pub bytes_lt : List ℕ → List ℕ → Bool
bytes_lt s [] = false
bytes_lt [] (b ∷ t) = true
bytes_lt (a ∷ s) (b ∷ t) = ltb a b || (a == b && bytes_lt s t)

unfoldable pub str_lt : Str → Str → Bool
unfolding bytes bytes_lt
str_lt s t = bytes_lt (bytes s) (bytes t)

bytes_lt-asym : (s t : List ℕ) → bytes_lt s t ≡ true → bytes_lt t s ≡ false
unfolding bytes_lt
bytes_lt-asym s [] h = cc
bytes_lt-asym [] (b ∷ t) h = refl
bytes_lt-asym (a ∷ s) (b ∷ t) h = ground (arith, bytes_lt-asym s t)

pub str_lt-asym : (s t : Str) → str_lt s t ≡ true → str_lt t s ≡ false
unfolding str_lt
str_lt-asym s t h = bytes_lt-asym (bytes s) (bytes t) h

-- A string that is not below a second, itself not below a third, is not below the third.
bytes_lt_trans :
    (s t u : List ℕ) → bytes_lt t s ≡ false → bytes_lt u t ≡ false → bytes_lt u s ≡ false
unfolding bytes_lt
bytes_lt_trans [] t u h k = cases_nil u
  where
    cases_nil : (u : List ℕ) → bytes_lt u [] ≡ false
    cases_nil [] = refl
    cases_nil (x ∷ xs) = refl
bytes_lt_trans (a ∷ s) [] u h k = cc
bytes_lt_trans (a ∷ s) (b ∷ t) [] h k = cc
bytes_lt_trans (a ∷ s) (b ∷ t) (c ∷ u) h k = ground (arith, bytes_lt_trans s t u)

pub str_lt_trans : (s t u : Str) → str_lt t s ≡ false → str_lt u t ≡ false → str_lt u s ≡ false
unfolding str_lt
str_lt_trans s t u h k = bytes_lt_trans (bytes s) (bytes t) (bytes u) h k
