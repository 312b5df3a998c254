-- ===== src/Tests/Statistics.antt =====
-- The tables and the histogram at concrete inputs.
use sis.Base.{
  ℕ, ◌+◌, ◌*◌, ◌%◌, ◌^◌, ◌≤◌, ◌<◌, ◌≡◌, ◌≢◌, ◌⊎◌, refl, Bool, true, false, Option, none, some, List,
  [], ◌∷◌, Str, codes, arith, length, All, Member, ◌==◌, ◌&&◌, leb, min, if◌then◌else◌, str_eq,
}
use sis.Base.Map.{lookup, Distinct}
use sis.Stats.Histogram.{quantile, second, histogram_bounds}
use sis.Stats.Histogram.Laws.{observed, le_count, quantile-least}
use sis.Stats.Counters.Tables.{
  increment_top_counter, top_n, ranks_before, ranks_after, prune_top_counters,
}
use sis.Stats.Counters.Tables.Size.{NoRepeat, IsTable, increment_top_counter-IsTable}
use sis.Stats.Counters.Tables.Best.{item, NotBehind, Ordered, top_n-best}

abbrev counts : List (Str × ℕ)
counts = (codes "a", 3) ∷ (codes "b", 5) ∷ []

counts-Distinct : Distinct counts
unfolding lookup sis.Base.eqs
counts-Distinct = (refl, (refl, tt))

increment_top_counter-IsTable_example : IsTable (increment_top_counter counts (codes "c"))
increment_top_counter-IsTable_example =
    increment_top_counter-IsTable counts (codes "c") (counts-Distinct, omega arith)

b_counted : lookup (codes "b") counts ≡ some 5
unfolding lookup sis.Base.eqs
b_counted = refl

a_counted : lookup (codes "a") counts ≡ some 3
unfolding lookup sis.Base.eqs
a_counted = refl

top_n-best_example :
    (length (top_n counts 1) ≡ min (if leb 1 1 && leb 1 100 then 1 else 10) (length counts))
    × NoRepeat (top_n counts 1)
    × All (λ t. lookup t.key counts ≡ some t.count) (top_n counts 1)
    × Ordered (top_n counts 1)
    × ((key : Str) (count : ℕ)
        → lookup key counts ≡ some count
        → Member (item key count) (top_n counts 1)
          ⊎ All (λ t. NotBehind t (item key count)) (top_n counts 1))
top_n-best_example = top_n-best counts 1 counts-Distinct

-- With one row, only the larger count is listed.
top_one : top_n counts 1 ≡ item (codes "b") 5 ∷ []
unfolding top_n sis.Base.Sort.sort sis.Base.Sort.insert ranks_before
top_one = refl

b_stays : lookup (codes "b") (prune_top_counters counts 1) ≡ some 5
unfolding lookup prune_top_counters sis.Base.Sort.sort sis.Base.Sort.insert ranks_after
    sis.Base.Map.delete sis.Base.eqs
b_stays = refl

b_is_kept : lookup (codes "b") (prune_top_counters counts 1) ≢ none
b_is_kept = λ h. ground (arith, h, b_stays)

a_goes : lookup (codes "a") (prune_top_counters counts 1) ≡ none
unfolding lookup prune_top_counters sis.Base.Sort.sort sis.Base.Sort.insert ranks_after
    sis.Base.Map.delete sis.Base.eqs
a_goes = refl

abbrev samples : List ℕ
samples = 500 ∷ 3000 ∷ 5000 ∷ []

quantile-least_example :
    (let q = quantile (observed samples) (observed samples).total 2 in
      let t : ℕ = if 2 == 0 then 1 else 2 in
      All (λ b. (q ≤ b) ⊎ (le_count b samples < t)) histogram_bounds
      × ((q ≡ 10 * second) ⊎ (t ≤ le_count q samples)))
quantile-least_example = quantile-least samples 2 (omega arith) (omega arith)
