-- ===== src/Policy/Trie.antt =====
-- internal/policy/domains.go: the node of the suffix trie, and the walks of Add, Match, Delete and
-- clone. A nil map of children and an empty one behave alike and are both `nil`.
pub mod Laws
pub mod Count
use sis.Base.{ℕ, ◌+◌, Bool, true, false, Option, none, some, List, [], ◌∷◌, Str, eqs, if◌then◌else◌}

mutual
  pub data Node : Type 0 where
    node : Children → Bool → Node

  pub data Children : Type 0 where
    nil : Children
    cons : Str → Node → Children → Children

-- `&node{}`.
abbrev pub new_node : Node
new_node = node nil false

abbrev pub children : Node → Children
children (node cs t) = cs

abbrev pub terminal : Node → Bool
terminal (node cs t) = t

-- `cur.children[label]`.
unfoldable pub child : Str → Children → Option Node
child l nil = none
child l (cons k n cs) = if eqs k l then some n else child l cs

-- The child at a label after a change made through its pointer, or after `children[label] = next`.
unfoldable pub put_child : Str → Node → Children → Children
put_child l m nil = cons l m nil
put_child l m (cons k n cs) = if eqs k l then cons l m cs else cons k n (put_child l m cs)

abbrev pub or_new : Option Node → Node
or_new none = new_node
or_new (some n) = n

unfoldable mutual
  pub clone : Node → Node
  clone (node cs t) = node (clone_children cs) t

  pub clone_children : Children → Children
  clone_children nil = nil
  clone_children (cons k n cs) = cons k (clone n) (clone_children cs)

-- The walk of Add: the new trie, and whether the last node was not terminal before.
unfoldable pub add : List Str → Node → Node × Bool
add [] (node cs t) = if t then (node cs t, false) else (node cs true, true)
add (l ∷ ls) (node cs t) =
    let (next, added) = add ls (or_new (child l cs)) in (node (put_child l next cs) t, added)

-- The walk of Match.
unfoldable pub match : List Str → Node → Bool
match [] n = terminal n
match (l ∷ ls) n =
    if terminal n
    then true
    else elim (child l (children n)) [ none ↦ false | some next ↦ match ls next ]

-- The walk of Delete.
unfoldable pub delete : List Str → Node → Node × Bool
delete [] (node cs t) = if t then (node cs false, true) else (node cs t, false)
delete (l ∷ ls) (node cs t) = elim (child l cs) [
  | none ↦ (node cs t, false)
  | some next ↦ let (next', deleted) = delete ls next in (node (put_child l next' cs) t, deleted)
]
