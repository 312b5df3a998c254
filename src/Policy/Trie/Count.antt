-- ===== src/Policy/Trie/Count.antt =====
-- The number of terminal nodes, which Domains.size keeps.
use sis.Base.{
  ℕ, ◌+◌, ◌≡◌, Bool, true, false, none, some, List, [], ◌∷◌, arith, Str, Option-cases, inl, inr,
}
use sis.Policy.Trie.{Node, Children, node, nil, cons, new_node, child, put_child, add, delete}

abbrev pub bit : Bool → ℕ
bit true = 1
bit false = 0

unfoldable mutual
  pub count : Node → ℕ
  count (node cs t) = bit t + count_children cs

  pub count_children : Children → ℕ
  count_children nil = 0
  count_children (cons k n cs) = count n + count_children cs

count_put_new :
    (l : Str) (m : Node) (cs : Children)
    → child l cs ≡ none
    → count_children (put_child l m cs) ≡ count m + count_children cs
unfolding child put_child count
count_put_new l m nil h = omega arith
count_put_new l m (cons k n cs) h = ground (arith, count_put_new l m cs)

count_put_old :
    (l : Str) (m n : Node) (cs : Children)
    → child l cs ≡ some n
    → count_children (put_child l m cs) + count n ≡ count m + count_children cs
unfolding child put_child count
count_put_old l m n nil h = cc
count_put_old l m n (cons k o cs) h = ground (arith, count_put_old l m n cs)

pub count-add : (p : List Str) (n : Node) → count (add p n).0 ≡ count n + bit (add p n).1
unfolding add count
count-add [] (node cs t) = ground arith
count-add (l ∷ p) (node cs t) = elim (Option-cases (child l cs)) [
  | inl e ↦ ground (arith, e, count_put_new l (add p new_node).0 cs, count-add p new_node)
  | inr (m, e) ↦ ground (arith, e, count_put_old l (add p m).0 m cs, count-add p m)
]

pub count-delete : (p : List Str) (n : Node) → count (delete p n).0 + bit (delete p n).1 ≡ count n
unfolding delete count
count-delete [] (node cs t) = ground arith
count-delete (l ∷ p) (node cs t) = elim (Option-cases (child l cs)) [
  | inl e ↦ ground (arith, e)
  | inr (m, e) ↦ ground (arith, e, count_put_old l (delete p m).0 m cs, count-delete p m)
]
