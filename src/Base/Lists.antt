-- ===== src/Base/Lists.antt =====
-- Lists measured by native numbers, under the library's names, and predicates on lists.
use Prim.Native.Nat.{ℕ, zero, suc, ◌+◌, ◌-◌, ◌≤◌}
use mathlib.Core.Path.{◌≡◌, refl, sym, ap, ◌∙◌}
use mathlib.Core.Bool.{Bool, true, false, ◌&&◌, ◌||◌}
use mathlib.Core.Logic.{inl, inr}
use mathlib.Core.List.{List, [], ◌∷◌, ◌++◌}
use native.Mathlib.Omega.{arith}
use sis.Base.Tests.{Bool-cases}

module _ {ℓ} {A : Type ℓ} where
  abbrev pub length : List A → ℕ
  length [] = 0
  length (x ∷ xs) = suc (length xs)

  abbrev pub take : ℕ → List A → List A
  take zero xs = []
  take (suc n) [] = []
  take (suc n) (x ∷ xs) = x ∷ take n xs

  abbrev pub any : (A → Bool) → List A → Bool
  any p [] = false
  any p (x ∷ xs) = p x || any p xs

  abbrev pub all : (A → Bool) → List A → Bool
  all p [] = true
  all p (x ∷ xs) = p x && all p xs

  pub length-append : (xs ys : List A) → length (xs ++ ys) ≡ length xs + length ys
  length-append [] ys = omega arith
  length-append (x ∷ xs) ys = omega (arith, length-append xs ys)

  pub length-take-le : (n : ℕ) (xs : List A) → length (take n xs) ≤ n
  length-take-le zero xs = omega arith
  length-take-le (suc n) [] = omega arith
  length-take-le (suc n) (x ∷ xs) = omega (arith, length-take-le n xs)

module _ {ℓ κ} {A : Type ℓ} (P : A → Type κ) where
  abbrev pub All : List A → Type κ
  All [] = Unit
  All (x ∷ xs) = P x × All xs

  pub All-append : (xs ys : List A) → All xs → All ys → All (xs ++ ys)
  All-append [] ys h k = k
  All-append (x ∷ xs) ys (p, h) k = (p, All-append xs ys h k)

  pub All-append-left : (xs ys : List A) → All (xs ++ ys) → All xs
  All-append-left [] ys h = tt
  All-append-left (x ∷ xs) ys (p, h) = (p, All-append-left xs ys h)

  pub All-append-right : (xs ys : List A) → All (xs ++ ys) → All ys
  All-append-right [] ys h = h
  All-append-right (x ∷ xs) ys (p, h) = All-append-right xs ys h

pub All-map {ℓ κ μ} :
    {A : Type ℓ} (P : A → Type κ) (Q : A → Type μ) (xs : List A)
    → ((x : A) → P x → Q x)
    → All P xs
    → All Q xs
All-map P Q [] f h = tt
All-map P Q (x ∷ xs) f (p, h) = (f x p, All-map P Q xs f h)

module _ {ℓ} {A : Type ℓ} (p : A → Bool) where
  pub all-append : (xs ys : List A) → all p (xs ++ ys) ≡ (all p xs && all p ys)
  all-append [] ys = refl
  all-append (x ∷ xs) ys = ground (arith, all-append xs ys)

  -- A Boolean sweep and the predicate that it decides.
  pub all→All : (xs : List A) → all p xs ≡ true → All (λ x. p x ≡ true) xs
  all→All [] h = tt
  all→All (x ∷ xs) h = (ground arith, all→All xs (ground arith))

  pub All→all : (xs : List A) → All (λ x. p x ≡ true) xs → all p xs ≡ true
  All→all [] h = refl
  All→all (x ∷ xs) (px, h) = ground (arith, All→all xs h)

  pub any-append : (xs ys : List A) → any p (xs ++ ys) ≡ (any p xs || any p ys)
  any-append [] ys = refl
  any-append (x ∷ xs) ys = ground (arith, any-append xs ys)

pub all_mono {ℓ} :
    {A : Type ℓ} (p q : A → Bool) (xs : List A)
    → ((x : A) → p x ≡ true → q x ≡ true)
    → all p xs ≡ true
    → all q xs ≡ true
all_mono p q [] f h = refl
all_mono p q (x ∷ xs) f h = ground (arith, f x, all_mono p q xs f)

module _ {ℓ} {A : Type ℓ} where
  -- One element of a list, by its place.
  pub data Member (a : A) : List A → Type ℓ where
    here : {xs : List A} → Member a (a ∷ xs)
    there : {x : A} {xs : List A} → Member a xs → Member a (x ∷ xs)

  pub any_sound :
      (p : A → Bool) (xs : List A) → any p xs ≡ true → (a : A) × Member a xs × (p a ≡ true)
  any_sound p [] h = cc
  any_sound p (x ∷ xs) h = elim (Bool-cases (p x)) [
    | inl e ↦ (x, here, e)
    | inr e ↦ let (a, m, q) = any_sound p xs (ground arith) in (a, there m, q)
  ]

  pub any_complete :
      (p : A → Bool) {a : A} {xs : List A} → Member a xs → p a ≡ true → any p xs ≡ true
  any_complete p here h = rw h
  any_complete p (there {x} {xs} m) h = ground (arith, any_complete p m h)

pub Member-All {ℓ κ} :
    {A : Type ℓ} (P : A → Type κ) {a : A} {xs : List A} → Member a xs → All P xs → P a
Member-All P here (p, h) = p
Member-All P (there m) (p, h) = Member-All P m h

pub take-All {ℓ κ} :
    {A : Type ℓ} (P : A → Type κ) (n : ℕ) (xs : List A) → All P xs → All P (take n xs)
take-All P zero xs h = tt
take-All P (suc n) [] h = tt
take-All P (suc n) (x ∷ xs) (p, h) = (p, take-All P n xs h)

pub length-take {ℓ} : {A : Type ℓ} (n : ℕ) (xs : List A) → n ≤ length xs → length (take n xs) ≡ n
length-take zero xs h = refl
length-take (suc n) [] h = omega arith
length-take (suc n) (x ∷ xs) h = omega (arith, length-take n xs)

-- The lists one after another.
abbrev pub concat {ℓ} : {A : Type ℓ} → List (List A) → List A
concat [] = []
concat (xs ∷ xss) = xs ++ concat xss

pub ++-nil {ℓ} : {A : Type ℓ} (xs ys : List A) → xs ++ ys ≡ [] → (xs ≡ []) × (ys ≡ [])
++-nil [] ys h = (refl, h)
++-nil (x ∷ xs) ys h = cc

-- No element in the whole, none in any of the parts.
pub concat-nil {ℓ} : {A : Type ℓ} (xss : List (List A)) → concat xss ≡ [] → All (λ xs. xs ≡ []) xss
concat-nil [] h = tt
concat-nil (xs ∷ xss) h = let (p, q) = ++-nil xs (concat xss) h in (p, concat-nil xss q)

pub nil-concat {ℓ} : {A : Type ℓ} (xss : List (List A)) → All (λ xs. xs ≡ []) xss → concat xss ≡ []
nil-concat [] h = refl
nil-concat (xs ∷ xss) (p, q) = rw (p, nil-concat xss q) refl

module _ {ℓ} {A : Type ℓ} where
  abbrev pub drop_first : ℕ → List A → List A
  drop_first zero xs = xs
  drop_first (suc n) [] = []
  drop_first (suc n) (x ∷ xs) = drop_first n xs

  -- The last elements, at most so many.
  abbrev pub last_n : ℕ → List A → List A
  last_n n xs = drop_first (length xs - n) xs

  pub length-drop_first : (n : ℕ) (xs : List A) → length (drop_first n xs) ≡ length xs - n
  length-drop_first zero xs = omega arith
  length-drop_first (suc n) [] = omega arith
  length-drop_first (suc n) (x ∷ xs) = omega (arith, length-drop_first n xs)

  pub drop_first-append :
      (n : ℕ) (xs ys : List A) → n ≤ length xs → drop_first n (xs ++ ys) ≡ drop_first n xs ++ ys
  drop_first-append zero xs ys h = refl
  drop_first-append (suc n) [] ys h = ground arith
  drop_first-append (suc n) (x ∷ xs) ys h = drop_first-append n xs ys (omega arith)

  pub drop_first-nil : (n : ℕ) → drop_first n [] ≡ []
  drop_first-nil zero = refl
  drop_first-nil (suc n) = refl

  pub drop_first-drop_first :
      (m n : ℕ) (xs : List A) → drop_first m (drop_first n xs) ≡ drop_first (n + m) xs
  drop_first-drop_first m zero xs = ap (λ k. drop_first k xs) (omega arith)
  drop_first-drop_first m (suc n) [] = drop_first-nil m ∙ sym (drop_first-nil (suc n + m))
  drop_first-drop_first m (suc n) (x ∷ xs) =
      let more : suc (n + m) ≡ suc n + m = omega arith in
      drop_first-drop_first m n xs ∙ ap (λ k. drop_first k (x ∷ xs)) more

  pub length-last_n : (n : ℕ) (xs : List A) → length (last_n n xs) ≤ n
  length-last_n n xs = omega (arith, length-drop_first (length xs - n) xs)

  -- What is not among the last elements does not come back behind more of them.
  pub last_n-append : (n : ℕ) (xs ys : List A) → last_n n (last_n n xs ++ ys) ≡ last_n n (xs ++ ys)
  last_n-append n xs ys =
      let k = length xs - n in
      let kept = drop_first-append k xs ys (omega arith) in
      let total = length-append (drop_first k xs) ys in
      let whole = length-append xs ys in
      let left = length-drop_first k xs in
      let m = length (drop_first k xs ++ ys) - n in
      ap (drop_first m) (sym kept)
      ∙ drop_first-drop_first m k (xs ++ ys)
      ∙ ap (λ j. drop_first j (xs ++ ys)) (omega (arith, total, whole, left))
