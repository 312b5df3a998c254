-- ===== src/Stats/Counters/Tables/Size.antt =====
-- The size of the tables, and the counts in them.
use sis.Base.{
  ℕ, zero, suc, ◌+◌, ◌-◌, ◌%◌, ◌≤◌, ◌≡◌, ◌≢◌, refl, sym, ap, ◌∙◌, inl, inr, Bool, true, not, ◌&&◌,
  none, some, List, [], ◌∷◌, Str, eqs_iff, str_eq, leb, if◌then◌else◌, length, take, arith, All,
  All-map, take-All, length-take, Bool-cases,
}
use sis.Base.Map.{
  lookup, delete, is_some, Distinct, lookup-insert, lookup-delete, length-insert, length-delete,
  Distinct-insert, Distinct-delete,
}
use sis.Base.Sort.{sort, sort-All, length-sort}
use sis.Base.Sort
use sis.Stats.Histogram.{u64}
use sis.Stats.Counters.Tables.{
  TopItem, items, ranks_after, max_tracked_top_items, prune_top_items_to, delete_items,
  prune_top_counters, or_zero, make_room, increment_top_counter,
}

-- No two items have the same key.
abbrev pub NoRepeat : List TopItem → Type 0
NoRepeat [] = Unit
NoRepeat (t ∷ ts) = All (λ s. s.key ≢ t.key) ts × NoRepeat ts

abbrev Stored : List (Str × ℕ) → List TopItem → Type 0
Stored m ts = All (λ t. is_some (lookup t.key m) ≡ true) ts

insert-NoRepeat :
    (less : TopItem → TopItem → Bool) (t : TopItem) (ts : List TopItem)
    → All (λ s. s.key ≢ t.key) ts
    → NoRepeat ts
    → NoRepeat (Sort.insert less t ts)
unfolding Sort.insert
insert-NoRepeat less t [] h k = (tt, tt)
insert-NoRepeat less t (s ∷ ts) (p, h) (q, k) = elim (Bool-cases (less s t)) [
  | inl e ↦ rw e (
    Sort.insert-All less (λ r. r.key ≢ s.key) t ts (λ w. p (sym w)) q,
    insert-NoRepeat less t ts h k,
  )
  | inr e ↦ rw e ((p, h), (q, k))
]

pub sort-NoRepeat :
    (less : TopItem → TopItem → Bool) (ts : List TopItem) → NoRepeat ts → NoRepeat (sort less ts)
unfolding sort
sort-NoRepeat less [] h = tt
sort-NoRepeat less (t ∷ ts) (p, h) =
    insert-NoRepeat less t (sort less ts) (sort-All less (λ s. s.key ≢ t.key) ts p)
      (sort-NoRepeat less ts h)

pub take-NoRepeat : (n : ℕ) (ts : List TopItem) → NoRepeat ts → NoRepeat (take n ts)
take-NoRepeat zero ts h = tt
take-NoRepeat (suc n) [] h = tt
take-NoRepeat (suc n) (t ∷ ts) (p, h) = (take-All (λ s. s.key ≢ t.key) n ts p, take-NoRepeat n ts h)

items-absent : (k : Str) (m : List (Str × ℕ)) → lookup k m ≡ none → All (λ t. t.key ≢ k) (items m)
unfolding lookup
items-absent k [] h = tt
items-absent k ((j, n) ∷ m) h = (ground (arith, eqs_iff j k), items-absent k m (ground arith))

pub items-NoRepeat : (m : List (Str × ℕ)) → Distinct m → NoRepeat (items m)
items-NoRepeat [] h = tt
items-NoRepeat ((k, n) ∷ m) (p, h) = (items-absent k m p, items-NoRepeat m h)

items-Stored : (m : List (Str × ℕ)) → Stored m (items m)
items-Stored [] = tt
items-Stored ((k, n) ∷ m) = (
  unfold lookup in ground (arith, eqs_iff k k),
  All-map (λ t. is_some (lookup t.key m) ≡ true) (λ t. is_some (lookup t.key ((k, n) ∷ m)) ≡ true)
      (items m) (λ t h. unfold lookup in ground arith) (items-Stored m),
)

pub length-items : (m : List (Str × ℕ)) → length (items m) ≡ length m
length-items [] = refl
length-items ((k, n) ∷ m) = ap suc (length-items m)

Stored-delete :
    (k : Str) (m : List (Str × ℕ)) (ts : List TopItem)
    → All (λ s. s.key ≢ k) ts
    → Stored m ts
    → Stored (delete k m) ts
Stored-delete k m [] h s = tt
Stored-delete k m (t ∷ ts) (p, h) (q, s) =
    (ground (arith, lookup-delete k t.key m, eqs_iff k t.key), Stored-delete k m ts h s)

-- Stored items with different keys are deleted one by one.
length-delete_items :
    (ts : List TopItem) (m : List (Str × ℕ))
    → Distinct m
    → NoRepeat ts
    → Stored m ts
    → length (delete_items ts m) + length ts ≡ length m
length-delete_items [] m d h s = omega arith
length-delete_items (t ∷ ts) m d (p, h) (q, s) = ground (
  arith,
  length-delete t.key m d,
  length-delete_items ts (delete t.key m) (Distinct-delete t.key m d) h
      (Stored-delete t.key m ts p s),
)

Distinct-delete_items :
    (ts : List TopItem) (m : List (Str × ℕ)) → Distinct m → Distinct (delete_items ts m)
Distinct-delete_items [] m d = d
Distinct-delete_items (t ∷ ts) m d =
    Distinct-delete_items ts (delete t.key m) (Distinct-delete t.key m d)

pub lookup-delete_items :
    (ts : List TopItem) (m : List (Str × ℕ)) (k : Str)
    → lookup k m ≡ none
    → lookup k (delete_items ts m) ≡ none
lookup-delete_items [] m k h = h
lookup-delete_items (t ∷ ts) m k h =
    lookup-delete_items ts (delete t.key m) k (ground (arith, lookup-delete t.key k m))

-- A table with more than `target` rows is cut down to exactly that many; another is left alone.
pub length-prune_top_counters :
    (values : List (Str × ℕ)) (target : ℕ)
    → Distinct values
    → length (prune_top_counters values target)
      ≡ (if leb (length values) target then length values else target)
unfolding prune_top_counters
length-prune_top_counters values target d =
    let sorted = sort ranks_after (items values) in
    let n = length values - target in
    let same : length sorted ≡ length values =
      length-sort ranks_after (items values) ∙ length-items values in
    let cut = length-take n sorted (omega (arith, same)) in
    let removed =
      length-delete_items (take n sorted) values d
        (take-NoRepeat n sorted
          (sort-NoRepeat ranks_after (items values) (items-NoRepeat values d)))
        (take-All (λ t. is_some (lookup t.key values) ≡ true) n sorted
          (sort-All ranks_after (λ t. is_some (lookup t.key values) ≡ true) (items values)
            (items-Stored values))) in
    ground (arith, cut, removed)

prune_top_counters-Distinct :
    (values : List (Str × ℕ)) (target : ℕ)
    → Distinct values
    → Distinct (prune_top_counters values target)
unfolding prune_top_counters
prune_top_counters-Distinct values target d =
    let sorted = sort ranks_after (items values) in
    elim (Bool-cases (leb (length values) target)) [
      | inl e ↦ rw e d
      | inr e ↦ rw e (Distinct-delete_items (take (length values - target) sorted) values d)
    ]

make_room-Distinct :
    (values : List (Str × ℕ)) (key : Str) → Distinct values → Distinct (make_room values key)
unfolding make_room
make_room-Distinct values key d =
    elim (Bool-cases
      (not (is_some (lookup key values)) && leb max_tracked_top_items (length values))) [
        | inl e ↦ rw e (prune_top_counters-Distinct values prune_top_items_to d)
        | inr e ↦ rw e d
      ]

lookup-prune_top_counters :
    (values : List (Str × ℕ)) (target : ℕ) (key : Str)
    → lookup key values ≡ none
    → lookup key (prune_top_counters values target) ≡ none
unfolding prune_top_counters
lookup-prune_top_counters values target key h =
    let sorted = sort ranks_after (items values) in
    ground (arith, lookup-delete_items (take (length values - target) sorted) values key h)

lookup-make_room :
    (values : List (Str × ℕ)) (key : Str) → lookup key (make_room values key) ≡ lookup key values
unfolding make_room
lookup-make_room values key =
    ground (arith, lookup-prune_top_counters values prune_top_items_to key)

length-make_room :
    (values : List (Str × ℕ)) (key : Str)
    → Distinct values
    → length (make_room values key) ≡ (
        if not (is_some (lookup key values)) && leb max_tracked_top_items (length values)
        then prune_top_items_to
        else length values)
unfolding make_room
length-make_room values key d =
    ground (arith, length-prune_top_counters values prune_top_items_to d)

-- A table has no key twice and at most 10000 rows.
abbrev pub IsTable : List (Str × ℕ) → Type 0
IsTable m = Distinct m × (length m ≤ max_tracked_top_items)

-- Counting a key keeps the table within its bound.
pub increment_top_counter-IsTable :
    (values : List (Str × ℕ)) (key : Str)
    → IsTable values
    → IsTable (increment_top_counter values key)
unfolding increment_top_counter
increment_top_counter-IsTable values key (d, h) =
    let room = make_room values key in
    let v = (or_zero (lookup key room) + 1) % u64 in
    (
      Distinct-insert key v room (make_room-Distinct values key d),
      ground (
        arith,
        length-insert key v room,
        lookup-make_room values key,
        length-make_room values key d,
      ),
    )

-- The key's own count goes up by one, modulo 2^64, from 0 where it was missing.
pub lookup-increment_top_counter :
    (values : List (Str × ℕ)) (key : Str)
    → lookup key (increment_top_counter values key) ≡ some ((or_zero (lookup key values) + 1) % u64)
unfolding increment_top_counter
lookup-increment_top_counter values key =
    let room = make_room values key in
    let v = (or_zero (lookup key room) + 1) % u64 in
    ground (arith, lookup-insert key key v room, eqs_iff key key, lookup-make_room values key)
