-- ===== src/Log/Query/Recent.antt =====
-- What Recent answers.
use mathlib.Core.List.{append-nil, reverse-cons, reverse-reverse}
use sis.Base.{
  ℕ, zero, suc, ◌-◌, ◌≡◌, refl, sym, ap, ◌∙◌, inl, inr, Bool, not, ◌||◌, List, [], ◌∷◌, ◌++◌, arith,
  Str, if◌then◌else◌, length, length-append, last_n, drop_first, drop_first-append, drop_first-nil,
  take, reverse, Bool-cases,
}
use sis.Base.Int.{pos}
use sis.Log.Entry.{Entry}
use sis.Log.Fanout.{new_fanout, snapshot, publish, publish_all}
use sis.Log.Fanout.Ring.{snapshot-publish_all}
use sis.Log.Query.{
  Query, Filter, prepared, write, write_all, effective_limit, matches, collect, recent,
}

-- The entries that pass a test, in their order.
unfoldable pub filter : (Entry → Bool) → List Entry → List Entry
filter p [] = []
filter p (e ∷ es) = let rest = filter p es in if p e then e ∷ rest else rest

collect-filter :
    (p : Entry → Bool) (n : ℕ) (es : List Entry) → collect p n es ≡ take n (filter p es)
unfolding collect filter
collect-filter p zero es = refl
collect-filter p (suc n) [] = refl
collect-filter p (suc n) (e ∷ es) = elim (Bool-cases (p e)) [
  | inl h ↦ rw (h, collect-filter p n es) refl
  | inr h ↦ rw (h, collect-filter p (suc n) es) refl
]

filter-append :
    (p : Entry → Bool) (xs ys : List Entry) → filter p (xs ++ ys) ≡ filter p xs ++ filter p ys
unfolding filter
filter-append p [] ys = refl
filter-append p (x ∷ xs) ys = elim (Bool-cases (p x)) [
  | inl h ↦ rw (h, filter-append p xs ys) refl
  | inr h ↦ rw (h, filter-append p xs ys) refl
]

filter-snoc :
    (p : Entry → Bool) (x : Entry) (xs : List Entry)
    → reverse (filter p xs) ++ filter p (x ∷ []) ≡ reverse (filter p (x ∷ xs))
unfolding filter
filter-snoc p x xs = elim (Bool-cases (p x)) [
  | inl h ↦ rw h (sym (reverse-cons x (filter p xs)))
  | inr h ↦ rw h (append-nil (reverse (filter p xs)))
]

filter-reverse :
    (p : Entry → Bool) (xs : List Entry) → filter p (reverse xs) ≡ reverse (filter p xs)
filter-reverse p [] = unfold filter in refl
filter-reverse p (x ∷ xs) =
    ap (filter p) (reverse-cons x xs)
    ∙ filter-append p (reverse xs) (x ∷ [])
    ∙ ap (λ l. l ++ filter p (x ∷ [])) (filter-reverse p xs)
    ∙ filter-snoc p x xs

length-reverse : (xs : List Entry) → length (reverse xs) ≡ length xs
length-reverse [] = refl
length-reverse (x ∷ xs) =
    ap length (reverse-cons x xs)
    ∙ omega (arith, length-append (reverse xs) (x ∷ []), length-reverse xs)

drop_all : (xs : List Entry) → drop_first (length xs) xs ≡ []
drop_all [] = refl
drop_all (x ∷ xs) = drop_all xs

reverse-take :
    (n : ℕ) (xs : List Entry) → reverse (take n xs) ≡ drop_first (length xs - n) (reverse xs)
reverse-take zero xs =
    let all : length xs - 0 ≡ length (reverse xs) = omega (arith, length-reverse xs) in
    sym (ap (λ k. drop_first k (reverse xs)) all ∙ drop_all (reverse xs))
reverse-take (suc n) [] = sym (drop_first-nil (0 - suc n))
reverse-take (suc n) (x ∷ xs) =
    let k : length (x ∷ xs) - suc n ≡ length xs - n = omega arith in
    reverse-cons x (take n xs)
    ∙ ap (λ l. l ++ x ∷ []) (reverse-take n xs)
    ∙ sym
        (drop_first-append (length xs - n) (reverse xs) (x ∷ []) (omega (arith, length-reverse xs)))
    ∙ ap (drop_first (length xs - n)) (sym (reverse-cons x xs))
    ∙ ap (λ j. drop_first j (reverse (x ∷ xs))) (sym k)

-- `Recent` finds the newest entries that match, as many as it may, in the order in which they came.
recent-snapshot :
    (fold : ℕ → ℕ) (q : Query) (f : Filter)
    → recent fold q f
      ≡ last_n (effective_limit f.limit) (filter (matches fold f) (snapshot q.fanout))
unfolding recent
recent-snapshot fold q f =
    let p = matches fold f in
    let n = effective_limit f.limit in
    let es = snapshot q.fanout in
    let found = filter p es in
    let back : collect p n (reverse es) ≡ take n (reverse found) =
      collect-filter p n (reverse es) ∙ ap (take n) (filter-reverse p es) in
    let k : length (reverse found) - n ≡ length found - n =
      ap (λ m. m - n) (length-reverse found) in
    ap reverse back
    ∙ reverse-take n (reverse found)
    ∙ ap (λ xs. drop_first (length (reverse found) - n) xs) (reverse-reverse found)
    ∙ ap (λ m. drop_first m found) k

-- The entries as they are published.
unfoldable pub prepared_all : (Str → Str → Str) → Query → List (ℕ × Entry) → List Entry
prepared_all hash q [] = []
prepared_all hash q ((now, e) ∷ es) = prepared hash now q e ∷ prepared_all hash q es

prepared_cong :
    (hash : Str → Str → Str) (q r : Query) (es : List (ℕ × Entry))
    → r.mode ≡ q.mode
    → r.salt ≡ q.salt
    → prepared_all hash r es ≡ prepared_all hash q es
unfolding prepared_all prepared
prepared_cong hash q r [] m s = refl
prepared_cong hash q r ((now, e) ∷ es) m s = rw (prepared_cong hash q r es m s, m, s) refl

write-fields :
    (hash : Str → Str → Str) (now : ℕ) (q : Query) (e : Entry)
    → ((write hash now q e).fanout ≡ publish q.fanout (prepared hash now q e))
      × ((write hash now q e).mode ≡ q.mode)
      × ((write hash now q e).salt ≡ q.salt)
unfolding write
write-fields hash now q e = elim (Bool-cases (not q.enabled || not q.has_file)) [
  | inl h ↦ (ground (arith, h), ground (arith, h), ground (arith, h))
  | inr h ↦ (ground (arith, h), ground (arith, h), ground (arith, h))
]

write_all-fanout :
    (hash : Str → Str → Str) (q : Query) (es : List (ℕ × Entry))
    → (write_all hash q es).fanout ≡ publish_all q.fanout (prepared_all hash q es)
unfolding write_all publish_all prepared_all
write_all-fanout hash q [] = refl
write_all-fanout hash q ((now, e) ∷ es) =
    let (f, m, s) = write-fields hash now q e in
    let r = write hash now q e in
    write_all-fanout hash r es
    ∙ ap (publish_all r.fanout) (prepared_cong hash q r es m s)
    ∙ ap (λ g. publish_all g (prepared_all hash q es)) f

-- Of all entries written to a log whose ring is new, Recent finds the newest that match, as many as
-- the filter asks for, in the order in which they came; the ring remembers the last n.
pub recent-write_all :
    (hash : Str → Str → Str) (fold : ℕ → ℕ) (blank : Entry) (n : ℕ) (q : Query)
    (es : List (ℕ × Entry)) (f : Filter)
    → q.fanout ≡ new_fanout blank (pos n)
    → recent fold (write_all hash q es) f
      ≡ last_n
          (effective_limit f.limit)
          (filter (matches fold f) (last_n n (prepared_all hash q es)))
recent-write_all hash fold blank n q es f new =
    let sent = prepared_all hash q es in
    let held =
      ap snapshot (write_all-fanout hash q es ∙ ap (λ g. publish_all g sent) new)
      ∙ snapshot-publish_all blank n sent in
    recent-snapshot fold (write_all hash q es) f
    ∙ ap (λ w. last_n (effective_limit f.limit) (filter (matches fold f) w)) held
