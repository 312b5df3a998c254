-- ===== src/Policy/Domains/Laws.antt =====
-- A set of domains: what a name matches after an insertion, a deletion or a copy, and the size.
use sis.Base.{
  ◌+◌, ◌≡◌, refl, ◌↔◌, inl, inr, Bool, true, false, not, ◌&&◌, ◌||◌, Option, none, some, List,
  arith, Str, if◌then◌else◌, Option-cases, Bool-cases,
}
use sis.Policy.Names.{Unicode, labels_for}
use sis.Policy.Trie
use sis.Policy.Trie.{Node, node, nil}
use sis.Policy.Trie.Laws.{
  member, same_path, extends, member-add, match-add, member-delete, add-result, delete-result,
  match_iff, clone_lem, match-new, member-new, same_path-eq,
}
use sis.Policy.Trie.Count.{count, count-add, count-delete}
use sis.Policy.Domains.{
  Domains, new_domains, clone, len, add_labels, delete_labels, add, match, delete,
}

-- The size is the number of suffixes in the tree.
abbrev pub IsValid : Domains → Type 0
IsValid d = d.size ≡ count d.root

abbrev pub PtrIsValid : Option Domains → Type 0
PtrIsValid none = Unit
PtrIsValid (some d) = IsValid d

pub new_domains-IsValid : IsValid new_domains
unfolding count
new_domains-IsValid = refl

pub add_labels-IsValid : (ls : List Str) (d : Domains) → IsValid d → IsValid (add_labels ls d).0
unfolding add_labels
add_labels-IsValid ls d v = ground (arith, count-add ls d.root)

pub delete_labels-IsValid :
    (ls : List Str) (d : Domains) → IsValid d → IsValid (delete_labels ls d).0
unfolding delete_labels
delete_labels-IsValid ls d v = ground (arith, count-delete ls d.root)

-- A pointer that is not nil.
abbrev pub NonNil : Option Domains → Type 0
NonNil none = ⊥
NonNil (some d) = Unit

module _ (u : Unicode) where
  -- Both names are valid, and the labels of `q` end in those of `p`.
  unfoldable pub covers : Str → Str → Bool
  covers p q = elim (labels_for u p) [
    | none ↦ false
    | some ls ↦ elim (labels_for u q) [ none ↦ false | some ks ↦ extends ls ks ]
  ]

  -- Both names are valid and have the same labels.
  unfoldable pub same_name : Str → Str → Bool
  same_name p q = elim (labels_for u p) [
    | none ↦ false
    | some ls ↦ elim (labels_for u q) [ none ↦ false | some ks ↦ same_path ls ks ]
  ]

  -- The name is valid and stands in the set itself.
  unfoldable pub holds : Option Domains → Str → Bool
  holds none p = false
  holds (some d) p = elim (labels_for u p) [ none ↦ false | some ls ↦ member ls d.root ]

  -- Add keeps the recorded size equal to the number of suffixes in the trie.
  pub add-IsValid : (d : Option Domains) (p : Str) → PtrIsValid d → PtrIsValid (add u d p).0
  unfolding add
  add-IsValid none p v = tt
  add-IsValid (some d) p v = elim (Option-cases (labels_for u p)) [
    | inl e ↦ ground (arith, e)
    | inr (ls, e) ↦ ground (arith, e, add_labels-IsValid ls d v)
  ]

  pub delete-IsValid : (d : Option Domains) (p : Str) → PtrIsValid d → PtrIsValid (delete u d p).0
  unfolding delete
  delete-IsValid none p v = tt
  delete-IsValid (some d) p v = elim (Option-cases (labels_for u p)) [
    | inl e ↦ ground (arith, e)
    | inr (ls, e) ↦ ground (arith, e, delete_labels-IsValid ls d v)
  ]

  root-add : (ls : List Str) (d : Domains) → (add_labels ls d).0.root ≡ (Trie.add ls d.root).0
  unfolding add_labels
  root-add ls d = ground arith

  root-delete :
      (ls : List Str) (d : Domains) → (delete_labels ls d).0.root ≡ (Trie.delete ls d.root).0
  unfolding delete_labels
  root-delete ls d = ground arith

  -- After an insertion a name matches exactly if it did before or lies under the new name.
  pub match-add_lem :
      (d : Domains) (p q : Str)
      → match u (add u (some d) p).0 q ≡ (covers p q || match u (some d) q)
  unfolding match add covers
  match-add_lem d p q = elim (Option-cases (labels_for u p)) [
    | inl e ↦ ground (arith, e)
    | inr (ls, e) ↦ elim (Option-cases (labels_for u q)) [
      | inl f ↦ ground (arith, e, f)
      | inr (ks, f) ↦ ground (arith, e, f, root-add ls d, match-add ls ks d.root)
    ]
  ]

  -- A deletion takes exactly the name itself out of the set.
  pub holds-delete :
      (d : Domains) (p q : Str)
      → holds (delete u (some d) p).0 q ≡ (not (same_name p q) && holds (some d) q)
  unfolding holds delete same_name
  holds-delete d p q = elim (Option-cases (labels_for u p)) [
    | inl e ↦ ground (arith, e)
    | inr (ls, e) ↦ elim (Option-cases (labels_for u q)) [
      | inl f ↦ ground (arith, e, f)
      | inr (ks, f) ↦ ground (arith, e, f, root-delete ls d, member-delete ls ks d.root)
    ]
  ]

  pub holds-add :
      (d : Domains) (p q : Str) → holds (add u (some d) p).0 q ≡ (same_name p q || holds (some d) q)
  unfolding holds add same_name
  holds-add d p q = elim (Option-cases (labels_for u p)) [
    | inl e ↦ ground (arith, e)
    | inr (ls, e) ↦ elim (Option-cases (labels_for u q)) [
      | inl f ↦ ground (arith, e, f)
      | inr (ks, f) ↦ ground (arith, e, f, root-add ls d, member-add ls ks d.root)
    ]
  ]

  -- Add reports a change exactly for a valid name that was not in the set, and Delete for one that was.
  pub results :
      (d : Domains) (p : Str)
      → ((delete u (some d) p).1 ≡ holds (some d) p)
        × (((add u (some d) p).1 ≡ true)
            ↔ ((holds (some d) p ≡ false) × ((ls : List Str) × (labels_for u p ≡ some ls))))
  unfolding add delete holds
  results d p = elim (Option-cases (labels_for u p)) [
    | inl e ↦
        (ground (arith, e), ((λ h. ground (arith, e)), (λ (_, (ls, f)). ground (arith, e, f))))
    | inr (ls, e) ↦ (
      ground (arith, e, delete-result ls d.root),
      (
        (λ h. (ground (arith, e, add-result ls d.root), (ls, e))),
        (λ (h, _). ground (arith, e, h, add-result ls d.root)),
      ),
    )
  ]

  pub match-empty : (q : Str) → match u (some new_domains) q ≡ false
  unfolding match
  match-empty q = elim (Option-cases (labels_for u q)) [
    | inl e ↦ ground (arith, e)
    | inr (ls, e) ↦ ground (arith, e, match-new ls)
  ]

  -- A copy matches what the original matches.
  pub match-clone : (d : Option Domains) (q : Str) → match u (some (clone d)) q ≡ match u d q
  unfolding clone match
  match-clone none q = elim (Option-cases (labels_for u q)) [
    | inl e ↦ ground (arith, e)
    | inr (ls, e) ↦ ground (arith, e, match-new ls)
  ]
  match-clone (some d) q = rw (clone_lem d.root)

  -- The size grows exactly when Add reports a change, and shrinks exactly when Delete does.
  pub len-add :
      (d : Option Domains) (p : Str) → len (add u d p).0 ≡ len d + (if (add u d p).1 then 1 else 0)
  unfolding add len
  len-add none p = ground arith
  len-add (some d) p = ground arith

  pub NonNil-add : (d : Option Domains) (p : Str) → NonNil d → NonNil (add u d p).0
  unfolding add
  NonNil-add none p h = absurd h
  NonNil-add (some d) p h = elim (Option-cases (labels_for u p)) [
    | inl e ↦ rw (e, NonNil) tt
    | inr (ls, e) ↦ rw (e, NonNil) tt
  ]

  pub match-add_ptr :
      (d : Option Domains) (p q : Str)
      → NonNil d
      → match u (add u d p).0 q ≡ (covers p q || match u d q)
  match-add_ptr none p q h = absurd h
  match-add_ptr (some d) p q h = match-add_lem d p q

  covers-labels : (p q : Str) → covers p q ≡ true → (ls : List Str) × (labels_for u p ≡ some ls)
  unfolding covers
  covers-labels p q h = elim (Option-cases (labels_for u p)) [
    | inl e ↦ ground (arith, e)
    | inr (ls, e) ↦ (ls, e)
  ]

  -- What lies under a name of the set matches.
  pub match_of_holds :
      (d : Option Domains) (p q : Str) → holds d p ≡ true → covers p q ≡ true → match u d q ≡ true
  unfolding holds covers match
  match_of_holds none p q h c = cc
  match_of_holds (some d) p q h c = elim (Option-cases (labels_for u p)) [
    | inl e ↦ ground (arith, e)
    | inr (ls, e) ↦ elim (Option-cases (labels_for u q)) [
      | inl f ↦ ground (arith, e, f)
      | inr (ks, f) ↦
          let k = (match_iff ks d.root).1 (ls, ground (arith, e, f), ground (arith, e)) in
          ground (arith, f, k)
    ]
  ]

  -- An insertion that Add refuses adds nothing that would match.
  pub match_of_refused :
      (d : Domains) (p q : Str)
      → (add u (some d) p).1 ≡ false
      → covers p q ≡ true
      → match u (some d) q ≡ true
  match_of_refused d p q h c = elim (Bool-cases (holds (some d) p)) [
    | inl e ↦ match_of_holds (some d) p q e c
    | inr e ↦ let added = (results d p).1.1 (e, covers-labels p q c) in cc (added, h)
  ]

  pub holds-clone : (d : Option Domains) (q : Str) → holds (some (clone d)) q ≡ holds d q
  unfolding clone holds
  holds-clone none q = elim (Option-cases (labels_for u q)) [
    | inl e ↦ ground (arith, e)
    | inr (ls, e) ↦ ground (arith, e, member-new ls)
  ]
  holds-clone (some d) q = rw (clone_lem d.root)

  holds_by_labels :
      (d : Domains) (q : Str) (ls : List Str)
      → labels_for u q ≡ some ls
      → holds (some d) q ≡ member ls d.root
  unfolding holds
  holds_by_labels d q ls e = ground (arith, e)

  -- A name that Delete does not find leaves the set as it is.
  pub holds_of_absent :
      (d : Domains) (p q : Str)
      → (delete u (some d) p).1 ≡ false
      → (not (same_name p q) && holds (some d) q) ≡ holds (some d) q
  unfolding same_name
  holds_of_absent d p q h = elim (Option-cases (labels_for u p)) [
    | inl e ↦ ground (arith, e)
    | inr (ls, e) ↦ elim (Option-cases (labels_for u q)) [
      | inl f ↦ ground (arith, e, f)
      | inr (ks, f) ↦ ground (
        arith,
        e,
        f,
        same_path-eq ls ks,
        (results d p).0,
        holds_by_labels d p ls e,
        holds_by_labels d q ks f,
      )
    ]
  ]
