-- ===== src/Policy/Domains/Listing.antt =====
-- Entries: how many, and where they come from.
use sis.Base.{
  ℕ, suc, ◌≤◌, Bool, ◌&&◌, Option, none, some, List, [], ◌∷◌, ◌++◌, arith, Str, leb, if◌then◌else◌,
  codes, length, length-append, All,
}
use sis.Base.Strings.{to_lower, trim_space, trim_suffix}
use sis.Base.Sort.{sort, sort-All}
use sis.Policy.Names.{Unicode, domain_from_labels}
use sis.Policy.Trie.{Node, Children, node, nil, cons}
use sis.Policy.Domains.{
  Domains, Visit, visit_all, key_lt, report, entries, visits, entry_limit, list_entries,
}

module _ (query : Str) (limit : ℕ) where
  -- A visit that starts within the limit ends within it.
  abbrev Within : Str × Visit → Type 0
  Within (key, visit) = (path out : List Str) → length out ≤ limit → length (visit path out) ≤ limit

  visit_all-Within :
      (vs : List (Str × Visit)) (path out : List Str)
      → All Within vs
      → length out ≤ limit
      → length (visit_all limit path vs out) ≤ limit
  unfolding visit_all
  visit_all-Within [] path out w h = h
  visit_all-Within ((k, v) ∷ vs) path out (w, ws) h =
      let here = w (path ++ k ∷ []) out h in
      let later = visit_all-Within vs path (v (path ++ k ∷ []) out) ws here in ground arith

  report-within :
      (path : List Str) (t : Bool) (out : List Str)
      → suc (length out) ≤ limit
      → length (report query path t out) ≤ limit
  unfolding report
  report-within path t out h = ground (arith, length-append out (domain_from_labels path ∷ []))

  mutual
    unfolding entries

    entries-within :
        (n : Node) (path out : List Str)
        → length out ≤ limit
        → length (entries query limit n path out) ≤ limit
    entries-within (node cs t) path out h =
        let ws = sort-All key_lt Within (visits query limit cs) (visits-Within cs) in
        let out' = report query path t out in
        ground (
          arith,
          report-within path t out,
          visit_all-Within (sort key_lt (visits query limit cs)) path out' ws,
        )

    visits-Within : (cs : Children) → All Within (visits query limit cs)
    visits-Within nil = tt
    visits-Within (cons k n cs) = (entries-within n, visits-Within cs)

  pub entries-limit :
      (n : Node) (path out : List Str)
      → length out ≤ limit
      → length (entries query limit n path out) ≤ limit
  entries-limit n path out h = entries-within n path out h

-- Entries returns at most the requested number, and at most 1000 if none or more is requested.
pub list_entries-limit :
    (u : Unicode) (d : Option Domains) (query : Str) (limit : ℕ)
    → length (list_entries u d query limit)
      ≤ (if leb 1 limit && leb limit 1000 then limit else 1000)
unfolding list_entries entry_limit
list_entries-limit u none query limit = omega arith
list_entries-limit u (some d) query limit = ground (
  arith,
  entries-limit (to_lower u.fold (trim_space (trim_suffix query (codes ".")))) (entry_limit limit)
      d.root [] [],
)
