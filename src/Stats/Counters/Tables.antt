-- ===== src/Stats/Counters/Tables.antt =====
-- internal/stats/counters.go: the bounded tables of the busiest domains and clients.
pub mod Size
pub mod Best
use sis.Base.{
  ℕ, ◌+◌, ◌-◌, ◌%◌, ◌^◌, Bool, true, false, not, ◌&&◌, ◌||◌, Option, none, some, List, [], ◌∷◌, Str,
  ltb, leb, ◌==◌, if◌then◌else◌, length, take, str_eq,
}
use sis.Base.Map.{lookup, insert, delete, is_some}
use sis.Base.Sort.{sort, str_lt}
use sis.Stats.Histogram.{u64}

abbrev pub max_tracked_top_items : ℕ
max_tracked_top_items = 10000

abbrev pub prune_top_items_to : ℕ
prune_top_items_to = 8000

pub record TopItem : Type 0 where
  pub key : Str
  pub count : ℕ

abbrev pub items : List (Str × ℕ) → List TopItem
items [] = []
items ((k, n) ∷ m) = record { key = k; count = n } ∷ items m

-- The tests of the two sorts: the larger count first, and on a tie the lower key; and the reverse.
unfoldable pub ranks_before : TopItem → TopItem → Bool
ranks_before a b = if a.count == b.count then str_lt a.key b.key else ltb b.count a.count

unfoldable pub ranks_after : TopItem → TopItem → Bool
ranks_after a b = if a.count == b.count then str_lt b.key a.key else ltb a.count b.count

-- How many rows are asked for; a negative number counts as 0.
abbrev pub row_limit : ℕ → ℕ
row_limit n = if leb n 0 || ltb 100 n then 10 else n

unfoldable pub top_n : List (Str × ℕ) → ℕ → List TopItem
top_n values n = take (row_limit n) (sort ranks_before (items values))

abbrev pub delete_items : List TopItem → List (Str × ℕ) → List (Str × ℕ)
delete_items [] m = m
delete_items (t ∷ ts) m = delete_items ts (delete t.key m)

unfoldable pub prune_top_counters : List (Str × ℕ) → ℕ → List (Str × ℕ)
prune_top_counters values target =
    if leb (length values) target
    then values
    else delete_items (take (length values - target) (sort ranks_after (items values))) values

-- `m[k]` of a map of numbers: 0 for a missing key.
abbrev pub or_zero : Option ℕ → ℕ
or_zero none = 0
or_zero (some n) = n

-- The table that the new count goes into.
unfoldable pub make_room : List (Str × ℕ) → Str → List (Str × ℕ)
make_room values key =
    if not (is_some (lookup key values)) && leb max_tracked_top_items (length values)
    then prune_top_counters values prune_top_items_to
    else values

unfoldable pub increment_top_counter : List (Str × ℕ) → Str → List (Str × ℕ)
increment_top_counter values key =
    let room = make_room values key in insert key ((or_zero (lookup key room) + 1) % u64) room
