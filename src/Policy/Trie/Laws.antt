-- ===== src/Policy/Trie/Laws.antt =====
-- The trie as a set of label lists.
use sis.Base.{
  ◌≡◌, refl, ap, ◌↔◌, Bool, true, false, not, ◌&&◌, ◌||◌, none, some, List, [], ◌∷◌, arith, Str,
  eqs, eqs_iff, if◌then◌else◌, Option-cases, Bool-cases, inl, inr,
}
use sis.Policy.Trie.{
  Node, Children, node, nil, cons, new_node, children, terminal, child, put_child, or_new, clone,
  clone_children, add, match, delete,
}

-- The paths that are in the set: the ones that end in a terminal node.
unfoldable pub member : List Str → Node → Bool
member [] n = terminal n
member (l ∷ ls) n = elim (child l (children n)) [ none ↦ false | some next ↦ member ls next ]

-- `p` is a path and `q` extends it.
unfoldable pub same_path : List Str → List Str → Bool
same_path [] [] = true
same_path [] (k ∷ q) = false
same_path (l ∷ p) [] = false
same_path (l ∷ p) (k ∷ q) = eqs l k && same_path p q

unfoldable pub extends : List Str → List Str → Bool
extends [] q = true
extends (l ∷ p) [] = false
extends (l ∷ p) (k ∷ q) = eqs l k && extends p q

pub child-put_child :
    (l k : Str) (n : Node) (cs : Children)
    → child k (put_child l n cs) ≡ (if eqs l k then some n else child k cs)
unfolding child put_child
child-put_child l k n nil = refl
child-put_child l k n (cons j m cs) =
    ground (arith, eqs_iff l k, eqs_iff j l, eqs_iff j k, child-put_child l k n cs)

pub member-new : (q : List Str) → member q new_node ≡ false
unfolding member child
member-new [] = refl
member-new (k ∷ q) = refl

pub match-new : (q : List Str) → match q new_node ≡ false
unfolding match child
match-new [] = refl
match-new (k ∷ q) = refl

-- Adding a path adds exactly that path.
pub member-add : (p q : List Str) (n : Node) → member q (add p n).0 ≡ (same_path p q || member q n)
unfolding member add same_path
member-add [] [] (node cs t) = ground arith
member-add [] (k ∷ q) (node cs t) = ground arith
member-add (l ∷ p) [] (node cs t) = ground arith
member-add (l ∷ p) (k ∷ q) (node cs t) = ground (
  arith,
  child-put_child l k (add p (or_new (child l cs))).0 cs,
  eqs_iff l k,
  member-add p q (or_new (child l cs)),
  member-new q,
)

-- Adding a path makes exactly its extensions match, besides what matched before.
pub match-add : (p q : List Str) (n : Node) → match q (add p n).0 ≡ (extends p q || match q n)
unfolding match add extends
match-add [] [] (node cs t) = ground arith
match-add [] (k ∷ q) (node cs t) = ground arith
match-add (l ∷ p) [] (node cs t) = ground arith
match-add (l ∷ p) (k ∷ q) (node cs t) = ground (
  arith,
  child-put_child l k (add p (or_new (child l cs))).0 cs,
  eqs_iff l k,
  match-add p q (or_new (child l cs)),
  match-new q,
)

-- Deleting a path removes exactly that path.
pub member-delete :
    (p q : List Str) (n : Node) → member q (delete p n).0 ≡ (not (same_path p q) && member q n)
unfolding member delete same_path
member-delete [] [] (node cs t) = ground arith
member-delete [] (k ∷ q) (node cs t) = ground arith
member-delete (l ∷ p) [] (node cs t) = ground arith
member-delete (l ∷ p) (k ∷ q) (node cs t) = elim (Option-cases (child l cs)) [
  | inl e ↦ ground (arith, eqs_iff l k, e)
  | inr (m, e) ↦
      ground (arith, child-put_child l k (delete p m).0 cs, eqs_iff l k, member-delete p q m, e)
]

-- The results say what the walks found.
pub add-result : (p : List Str) (n : Node) → (add p n).1 ≡ not (member p n)
unfolding member add
add-result [] (node cs t) = ground arith
add-result (l ∷ p) (node cs t) = ground (arith, add-result p (or_new (child l cs)), member-new p)

pub delete-result : (p : List Str) (n : Node) → (delete p n).1 ≡ member p n
unfolding member delete
delete-result [] (node cs t) = ground arith
delete-result (l ∷ p) (node cs t) = elim (Option-cases (child l cs)) [
  | inl e ↦ ground (arith, e)
  | inr (m, e) ↦ ground (arith, e, delete-result p m)
]

-- A path matches exactly when one of its prefixes is in the set.
match→prefix :
    (q : List Str) (n : Node)
    → match q n ≡ true
    → (p : List Str) × (extends p q ≡ true) × (member p n ≡ true)
unfolding match member extends
match→prefix [] n h = ([], refl, h)
match→prefix (k ∷ q) n h = elim (Bool-cases (terminal n)) [
  | inl e ↦ ([], refl, e)
  | inr e ↦ elim (Option-cases (child k (children n))) [
    | inl f ↦ ground arith
    | inr (m, f) ↦
        let (p, x, y) = match→prefix q m (ground arith) in
        (k ∷ p, ground (arith, eqs_iff k k), ground arith)
  ]
]

prefix→match :
    (p q : List Str) (n : Node) → extends p q ≡ true → member p n ≡ true → match q n ≡ true
unfolding match member extends
prefix→match [] [] n x y = y
prefix→match [] (k ∷ q) n x y = ground arith
prefix→match (l ∷ p) [] n x y = cc
prefix→match (l ∷ p) (k ∷ q) n x y = elim (Option-cases (child l (children n))) [
  | inl f ↦ ground arith
  | inr (m, f) ↦ ground (arith, eqs_iff l k, prefix→match p q m)
]

-- A trie matches a path exactly if the path extends one that the trie holds.
pub match_iff :
    (q : List Str) (n : Node)
    → (match q n ≡ true) ↔ ((p : List Str) × (extends p q ≡ true) × (member p n ≡ true))
match_iff q n = (match→prefix q n, λ (p, x, y). prefix→match p q n x y)

-- A clone is an equal tree.
mutual
  unfolding clone

  clone-same : (n : Node) → clone n ≡ n
  clone-same (node cs t) = ap (λ c. node c t) (clone_children-same cs)

  clone_children-same : (cs : Children) → clone_children cs ≡ cs
  clone_children-same nil = refl
  clone_children-same (cons k n cs) = cc (clone-same n, clone_children-same cs)

pub clone_lem : (n : Node) → clone n ≡ n
clone_lem n = clone-same n

pub same_path-eq : (p q : List Str) → same_path p q ≡ true → p ≡ q
unfolding same_path
same_path-eq [] [] h = refl
same_path-eq [] (k ∷ q) h = cc
same_path-eq (l ∷ p) [] h = cc
same_path-eq (l ∷ p) (k ∷ q) h = ground (arith, eqs_iff l k, same_path-eq p q)

pub same_path_refl : (p : List Str) → same_path p p ≡ true
unfolding same_path
same_path_refl [] = refl
same_path_refl (l ∷ p) = ground (arith, eqs_iff l l, same_path_refl p)
