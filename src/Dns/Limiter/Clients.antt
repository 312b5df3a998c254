-- ===== src/Dns/Limiter/Clients.antt =====
-- There are no more buckets than clients: where no key stands twice, a map whose keys are all in a list
-- is no longer than the list.
use sis.Base.{
  suc, ◌≤◌, ◌≡◌, true, false, none, List, [], ◌∷◌, Str, str_eq, if◌then◌else◌, length, arith, any,
  All, eqs, eqs_iff,
}
use sis.Base.Map.{lookup, Distinct}

remove : Str → List Str → List Str
remove k [] = []
remove k (c ∷ cs) = if eqs c k then cs else c ∷ remove k cs

length-remove :
    (k : Str) (cs : List Str)
    → any (λ c. eqs c k) cs ≡ true
    → suc (length (remove k cs)) ≡ length cs
unfolding remove
length-remove k [] h = cc
length-remove k (c ∷ cs) h = ground (arith, length-remove k cs)

any-remove :
    (k j : Str) (cs : List Str)
    → eqs j k ≡ false
    → any (λ c. eqs c j) cs ≡ true
    → any (λ c. eqs c j) (remove k cs) ≡ true
unfolding remove
any-remove k j [] n h = cc
any-remove k j (c ∷ cs) n h =
    ground (arith, eqs_iff c k, eqs_iff c j, eqs_iff j k, any-remove k j cs n)

module _ {V : Type 0} where
  remove-All :
      (k : Str) (cs : List Str) (m : List (Str × V))
      → lookup k m ≡ none
      → All (λ kv. any (λ c. eqs c kv.0) cs ≡ true) m
      → All (λ kv. any (λ c. eqs c kv.0) (remove k cs) ≡ true) m
  unfolding lookup
  remove-All k cs [] e h = tt
  remove-All k cs ((j, v) ∷ m) e (p, h) =
      (any-remove k j cs (ground arith) p, remove-All k cs m (ground arith) h)

  pub length-keys-le :
      (m : List (Str × V)) (cs : List Str)
      → Distinct m
      → All (λ kv. any (λ c. eqs c kv.0) cs ≡ true) m
      → length m ≤ length cs
  length-keys-le [] cs d h = omega arith
  length-keys-le ((k, v) ∷ m) cs (a, d) (p, h) =
      ground (arith, length-remove k cs p, length-keys-le m (remove k cs) d (remove-All k cs m a h))
