-- ===== src/Stats/Counters/Tables/Best.antt =====
-- Which rows the tables list, and which they give up.
use sis.Base.{
  ℕ, zero, suc, ◌-◌, ◌<◌, ◌≡◌, min, ◌&&◌, if◌then◌else◌, ◌≢◌, refl, sym, ap, ◌∙◌, ◌⊎◌, inl, inr,
  Bool, true, false, none, some, List, [], ◌∷◌, Str, eqs, eqs_iff, str_eq, ltb, leb, length, take,
  arith, All, All-map, take-All, Bool-cases, Member, here, there, Member-All,
}
use mathlib.Core.Path.{subst}
use sis.Base.Map.{lookup, delete, Distinct, lookup-delete}
use sis.Base.Sort.{
  sort, is_sorted, sort-is_sorted, sort-All, length-sort, Member-sort, is_sorted-All, take-least,
  str_lt, str_lt-asym, str_lt_trans,
}
use sis.Stats.Counters.Tables.Size.{
  NoRepeat, sort-NoRepeat, take-NoRepeat, items-NoRepeat, length-items,
}
use sis.Stats.Counters.Tables.{
  TopItem, items, ranks_before, ranks_after, delete_items, prune_top_counters, row_limit, top_n,
}

ranks_before-asym : (a b : TopItem) → ranks_before a b ≡ true → ranks_before b a ≡ false
unfolding ranks_before
ranks_before-asym a b h = ground (arith, str_lt-asym a.key b.key)

ranks_before_trans :
    (a b c : TopItem)
    → ranks_before b a ≡ false
    → ranks_before c b ≡ false
    → ranks_before c a ≡ false
unfolding ranks_before
ranks_before_trans a b c h k = ground (arith, str_lt_trans a.key b.key c.key)

ranks_after-asym : (a b : TopItem) → ranks_after a b ≡ true → ranks_after b a ≡ false
unfolding ranks_after
ranks_after-asym a b h = ground (arith, str_lt-asym b.key a.key)

ranks_after_trans :
    (a b c : TopItem) → ranks_after b a ≡ false → ranks_after c b ≡ false → ranks_after c a ≡ false
unfolding ranks_after
ranks_after_trans a b c h k = ground (arith, str_lt_trans c.key b.key a.key)

abbrev pub item : Str → ℕ → TopItem
item k n = record { key = k; count = n }

Member-items :
    (k : Str) (n : ℕ) (m : List (Str × ℕ)) → lookup k m ≡ some n → Member (item k n) (items m)
unfolding lookup
Member-items k n [] h = cc
Member-items k n ((j, i) ∷ m) h = elim (Bool-cases (eqs j k)) [
  | inl e ↦
      subst (λ t. Member (item k n) (t ∷ items m))
        (ap (λ s. item s n) (sym ((eqs_iff j k).0 e)) ∙ ap (item j) (ground arith)) here
  | inr e ↦ there (Member-items k n m (ground arith))
]

take-is_sorted :
    (less : TopItem → TopItem → Bool) (n : ℕ) (ts : List TopItem)
    → is_sorted less ts ≡ true
    → is_sorted less (take n ts) ≡ true
unfolding is_sorted
take-is_sorted less zero ts h = refl
take-is_sorted less (suc n) [] h = refl
take-is_sorted less (suc zero) (t ∷ ts) h = refl
take-is_sorted less (suc (suc n)) (t ∷ []) h = refl
take-is_sorted less (suc (suc n)) (t ∷ s ∷ ts) h =
    ground (arith, take-is_sorted less (suc n) (s ∷ ts))

top_n-sorted : (m : List (Str × ℕ)) (n : ℕ) → is_sorted ranks_before (top_n m n) ≡ true
unfolding top_n
top_n-sorted m n =
    take-is_sorted ranks_before (row_limit n) (sort ranks_before (items m))
      (sort-is_sorted ranks_before ranks_before-asym (items m))

-- The items hold the counts of the map.
abbrev Counted : List (Str × ℕ) → List TopItem → Type 0
Counted m ts = All (λ t. lookup t.key m ≡ some t.count) ts

items-Counted : (m : List (Str × ℕ)) → Distinct m → Counted m (items m)
items-Counted [] d = tt
items-Counted ((k, n) ∷ m) (p, d) = (
  unfold lookup in ground (arith, eqs_iff k k),
  All-map (λ t. lookup t.key m ≡ some t.count) (λ t. lookup t.key ((k, n) ∷ m) ≡ some t.count)
      (items m) (λ t h. unfold lookup in ground (arith, eqs_iff k t.key)) (items-Counted m d),
)

-- No row with a lower count comes before one with a larger, nor on a tie a higher key before a lower.
abbrev pub NotBehind : TopItem → TopItem → Type 0
NotBehind a b = (b.count < a.count) ⊎ ((a.count ≡ b.count) × (str_lt b.key a.key ≡ false))

abbrev pub Ordered : List TopItem → Type 0
Ordered [] = Unit
Ordered (t ∷ ts) = All (NotBehind t) ts × Ordered ts

not_behind : (a b : TopItem) → ranks_before b a ≡ false → NotBehind a b
unfolding ranks_before
not_behind a b h = elim (Bool-cases (ltb b.count a.count)) [
  | inl e ↦ inl (ground arith)
  | inr e ↦ let same : a.count ≡ b.count = ground arith in inr (same, ground (arith, h, sym same))
]

sorted-Ordered : (ts : List TopItem) → is_sorted ranks_before ts ≡ true → Ordered ts
unfolding is_sorted
sorted-Ordered [] h = tt
sorted-Ordered (t ∷ ts) h = (
  All-map (λ s. ranks_before s t ≡ false) (NotBehind t) ts (not_behind t)
      (is_sorted-All ranks_before ranks_before_trans t ts (ground arith) (ground arith)),
  sorted-Ordered ts (ground arith),
)

length-take-min : (n : ℕ) (ts : List TopItem) → length (take n ts) ≡ min n (length ts)
length-take-min zero ts = ground arith
length-take-min (suc n) [] = ground arith
length-take-min (suc n) (t ∷ ts) = ground (arith, length-take-min n ts)

-- The table of the busiest keys has as many rows as were asked for, 10 where that is not from 1 to
-- 100, or as many as there are keys if these are fewer. Its rows have different keys, each with its
-- count, and stand in order: larger counts first, and on a tie the lower key first. A counted key
-- that is not listed comes before no listed one.
pub top_n-best :
    (m : List (Str × ℕ)) (n : ℕ)
    → Distinct m
    → (length (top_n m n) ≡ min (if leb 1 n && leb n 100 then n else 10) (length m))
      × NoRepeat (top_n m n)
      × All (λ t. lookup t.key m ≡ some t.count) (top_n m n)
      × Ordered (top_n m n)
      × ((key : Str) (count : ℕ)
          → lookup key m ≡ some count
          → Member (item key count) (top_n m n)
            ⊎ All (λ t. NotBehind t (item key count)) (top_n m n))
unfolding top_n
top_n-best m n d =
    let sorted = sort ranks_before (items m) in
    let order = sort-is_sorted ranks_before ranks_before-asym (items m) in
    let rows : length sorted ≡ length m = length-sort ranks_before (items m) ∙ length-items m in
    (
      ground (arith, length-take-min (row_limit n) sorted, rows),
      take-NoRepeat (row_limit n) sorted
          (sort-NoRepeat ranks_before (items m) (items-NoRepeat m d)),
      take-All (λ t. lookup t.key m ≡ some t.count) (row_limit n) sorted
          (sort-All ranks_before (λ t. lookup t.key m ≡ some t.count) (items m)
            (items-Counted m d)),
      sorted-Ordered (top_n m n) (top_n-sorted m n),
      λ key count h.
          elim (take-least ranks_before ranks_before_trans (row_limit n) sorted order
            (Member-sort ranks_before (items m) (Member-items key count m h))) [
              | inl a ↦ inl a
              | inr a ↦ inr (
                  All-map (λ t. ranks_before (item key count) t ≡ false)
                    (λ t. NotBehind t (item key count)) (top_n m n)
                    (λ t. not_behind t (item key count)) a)
            ],
    )

lookup-delete_items-none :
    (ts : List TopItem) (m : List (Str × ℕ)) (k : Str)
    → lookup k m ≡ none
    → lookup k (delete_items ts m) ≡ none
lookup-delete_items-none [] m k h = h
lookup-delete_items-none (t ∷ ts) m k h =
    lookup-delete_items-none ts (delete t.key m) k (ground (arith, lookup-delete t.key k m))

-- What is deleted is gone, and what is gone was deleted.
lookup-deleted :
    {t : TopItem} (ts : List TopItem) (m : List (Str × ℕ))
    → Member t ts
    → lookup t.key (delete_items ts m) ≡ none
lookup-deleted [] m h = elim h [ ]
lookup-deleted (t ∷ ts) m here =
    lookup-delete_items-none ts (delete t.key m) t.key
      (ground (arith, lookup-delete t.key t.key m, eqs_iff t.key t.key))
lookup-deleted (t ∷ ts) m (there h) = lookup-deleted ts (delete t.key m) h

deleted-Member :
    (ts : List TopItem) (m : List (Str × ℕ)) (k : Str) (n : ℕ)
    → lookup k m ≡ some n
    → lookup k (delete_items ts m) ≡ none
    → (t : TopItem) × Member t ts × (t.key ≡ k)
deleted-Member [] m k n h g = cc
deleted-Member (t ∷ ts) m k n h g = elim (Bool-cases (eqs t.key k)) [
  | inl e ↦ (t, here, (eqs_iff t.key k).0 e)
  | inr e ↦
      let (s, i, q) =
        deleted-Member ts (delete t.key m) k n (ground (arith, lookup-delete t.key k m)) g in
      (s, there i, q)
]

same_item : (k : Str) (n : ℕ) (t : TopItem) → t.key ≡ k → t.count ≡ n → t ≡ item k n
same_item k n t h e = ap (λ s. item s t.count) h ∙ ap (item k) e

-- Pruning gives up only rows that rank behind those it keeps: no kept row has a lower count than one
-- that is gone, nor on a tie a higher key.
pub prune_top_counters-keeps :
    (m : List (Str × ℕ)) (target : ℕ) (kept gone : Str) (count lost : ℕ)
    → Distinct m
    → lookup kept m ≡ some count
    → lookup gone m ≡ some lost
    → lookup kept (prune_top_counters m target) ≢ none
    → lookup gone (prune_top_counters m target) ≡ none
    → ranks_after (item kept count) (item gone lost) ≡ false
unfolding prune_top_counters
prune_top_counters-keeps m target kept gone count lost d h k stays goes =
    let sorted = sort ranks_after (items m) in
    let cut = take (length m - target) sorted in
    let many : leb (length m) target ≡ false = ground arith in
    let counted =
      take-All (λ t. lookup t.key m ≡ some t.count) (length m - target) sorted
        (sort-All ranks_after (λ t. lookup t.key m ≡ some t.count) (items m) (items-Counted m d)) in
    let (t, i, q) = deleted-Member cut m gone lost k (ground arith) in
    let same : t ≡ item gone lost =
      same_item gone lost t q
        (ground (arith, q, Member-All (λ r. lookup r.key m ≡ some r.count) i counted)) in
    elim (take-least ranks_after ranks_after_trans (length m - target) sorted
      (sort-is_sorted ranks_after ranks_after-asym (items m))
      (Member-sort ranks_after (items m) (Member-items kept count m h))) [
        | inl a ↦ absurd (stays (ground (arith, lookup-deleted cut m a)))
        | inr a ↦
            subst (λ r. ranks_after (item kept count) r ≡ false) same
              (Member-All (λ r. ranks_after (item kept count) r ≡ false) i a)
      ]
