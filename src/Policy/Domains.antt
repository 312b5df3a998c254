-- ===== src/Policy/Domains.antt =====
-- internal/policy/domains.go: Domains, a set of domain suffixes behind a pointer that may be nil.
pub mod Laws
pub mod Listing
use sis.Base.{
  ℕ, ◌+◌, ◌-◌, Bool, true, false, ◌||◌, Option, none, some, List, [], ◌∷◌, ◌++◌, Str, eqs, leb,
  if◌then◌else◌, codes, length,
}
use sis.Base.Strings.{to_lower, trim_space, trim_suffix, contains}
use sis.Base.Sort.{sort, str_lt}
use sis.Policy.Names.{Unicode, labels_for, domain_from_labels}
use sis.Policy.Trie
use sis.Policy.Trie.{Node, Children, node, nil, cons, new_node}

pub record Domains : Type 0 where
  pub root : Node
  pub size : ℕ

-- `NewDomains`.
abbrev pub new_domains : Domains
new_domains = record { root = new_node; size = 0 }

-- `Clone`; `none` is the nil receiver here and below.
unfoldable pub clone : Option Domains → Domains
clone none = new_domains
clone (some d) = record { root = Trie.clone d.root; size = d.size }

unfoldable pub len : Option Domains → ℕ
len none = 0
len (some d) = d.size

unfoldable pub add_labels : List Str → Domains → Domains × Bool
add_labels labels d =
    let (root', added) = Trie.add labels d.root in
    if added
    then (record { root = root'; size = d.size + 1 }, true)
    else (record d { root = root' }, false)

unfoldable pub delete_labels : List Str → Domains → Domains × Bool
delete_labels labels d =
    let (root', deleted) = Trie.delete labels d.root in
    if deleted
    then (record { root = root'; size = d.size - 1 }, true)
    else (record d { root = root' }, false)

module _ (u : Unicode) where
  unfoldable pub add : Option Domains → Str → Option Domains × Bool
  unfolding add_labels
  add none domain = (none, false)
  add (some d) domain = elim (labels_for u domain) [
    | none ↦ (some d, false)
    | some labels ↦ let (d', added) = add_labels labels d in (some d', added)
  ]

  unfoldable pub match : Option Domains → Str → Bool
  match none domain = false
  match (some d) domain = elim (labels_for u domain) [
    | none ↦ false
    | some labels ↦ Trie.match labels d.root
  ]

  unfoldable pub delete : Option Domains → Str → Option Domains × Bool
  unfolding delete_labels
  delete none domain = (none, false)
  delete (some d) domain = elim (labels_for u domain) [
    | none ↦ (some d, false)
    | some labels ↦ let (d', deleted) = delete_labels labels d in (some d', deleted)
  ]

-- One visit of a child: from the path of its parent and the entries so far to the entries after it.
abbrev pub Visit : Type 0
Visit = List Str → List Str → List Str

-- The loop over the sorted keys, with its early return.
unfoldable pub visit_all : ℕ → List Str → List (Str × Visit) → List Str → List Str
visit_all limit path [] out = out
visit_all limit path ((key, visit) ∷ rest) out =
    let out' = visit (path ++ key ∷ []) out in
    let after = visit_all limit path rest out' in if leb limit (length out') then out' else after

abbrev pub key_lt : Str × Visit → Str × Visit → Bool
key_lt a b = str_lt a.0 b.0

-- What a terminal node adds to the entries.
unfoldable pub report : Str → List Str → Bool → List Str → List Str
report query path t out =
    if t
    then (let domain = domain_from_labels path in
        if eqs query (codes "") || contains domain query then out ++ domain ∷ [] else out)
    else out

module _ (query : Str) (limit : ℕ) where
  -- `entries`. The second test repeats the one behind the append; where nothing was appended, it
  -- asks again what the first test has refused. A child is visited through the key that it stands
  -- at, which is unique among its siblings.
  unfoldable mutual
    unfolding visit_all report

    pub entries : Node → List Str → List Str → List Str
    entries (node cs t) path out =
        let out' = report query path t out in
        let after = visit_all limit path (sort key_lt (visits cs)) out' in
        if leb limit (length out) then out else if leb limit (length out') then out' else after

    pub visits : Children → List (Str × Visit)
    visits nil = []
    visits (cons k n cs) = (k, entries n) ∷ visits cs

-- The limit that Entries works with; a negative one is read as 0.
unfoldable pub entry_limit : ℕ → ℕ
entry_limit limit = if leb limit 0 || leb 1001 limit then 1000 else limit

-- `Entries`.
unfoldable pub list_entries : Unicode → Option Domains → Str → ℕ → List Str
list_entries u none query limit = []
list_entries u (some d) query limit =
    entries (to_lower u.fold (trim_space (trim_suffix query (codes ".")))) (entry_limit limit)
      d.root [] []
