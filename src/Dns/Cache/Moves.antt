-- ===== src/Dns/Cache/Moves.antt =====
-- The two ways in which an element comes to the front of the list.
use sis.Base.{
  ℕ, ◌+◌, ◌<◌, ◌≡◌, refl, inl, inr, none, some, ◌∷◌, arith, ◌==◌, ==_iff, if◌then◌else◌, length,
  Bool-cases, Option-cases,
}
use sis.Base.Map.{
  lookup, insert, lookup-insert, lookup-delete, length-insert, length-delete, Distinct-insert,
  Distinct-delete,
}
use sis.Dns.Cache.{Cache, CacheKey, CacheEntry, key_eq, key_eqb, key_eqb_iff, ref_eq, to_front}
use sis.Dns.Cache.Invariant.{IsSynced}

-- Moving an element to the front, with a new value under the same key, keeps the cache synced.
module _ (c : Cache) (r : ℕ) (e e' : CacheEntry) (s : IsSynced c) (h : lookup r c.lru ≡ some e)
    (same : e'.key ≡ e.key) where
  pub lookup-to_front :
      (q : ℕ) → lookup q (to_front r e' c.lru) ≡ (if r == q then some e' else lookup q c.lru)
  unfolding lookup
  lookup-to_front q = ground (arith, lookup-delete r q c.lru)

  front-live :
      (k : CacheKey) (q : ℕ)
      → lookup k c.items ≡ some q
      → (d : CacheEntry) × (lookup q (to_front r e' c.lru) ≡ some d) × (d.key ≡ k)
  front-live k q f =
      let (d, g, k') = s.live k q f in
      elim (Bool-cases (r == q)) [
        | inl x ↦
            let rq = (==_iff r q).0 x in
            (e', ground (arith, lookup-to_front q), ground (arith, g, h, rq, same, k'))
        | inr x ↦ (d, ground (arith, lookup-to_front q), k')
      ]

  front-owned :
      (q : ℕ) (d : CacheEntry)
      → lookup q (to_front r e' c.lru) ≡ some d
      → lookup d.key c.items ≡ some q
  front-owned q d f = elim (Bool-cases (r == q)) [
    | inl x ↦
        let rq = (==_iff r q).0 x in ground (arith, lookup-to_front q, s.owned r e h, rq, same)
    | inr x ↦ s.owned q d (ground (arith, lookup-to_front q))
  ]

  front-fresh : (q : ℕ) (d : CacheEntry) → lookup q (to_front r e' c.lru) ≡ some d → q < c.next_ref
  front-fresh q d f = elim (Bool-cases (r == q)) [
    | inl x ↦ let rq = (==_iff r q).0 x in rw (← rq) (s.fresh r e h)
    | inr x ↦ s.fresh q d (ground (arith, lookup-to_front q))
  ]

  pub front-counted : length c.items ≡ length (to_front r e' c.lru)
  front-counted = ground (arith, s.counted, length-delete r c.lru s.refs, h)

  pub front-IsSynced : IsSynced (record c { lru = to_front r e' c.lru })
  front-IsSynced = record {
    refs = (ground (arith, lookup-delete r r c.lru, ==_iff r r), Distinct-delete r c.lru s.refs);
    keys = s.keys;
    live = front-live;
    owned = front-owned;
    fresh = front-fresh;
    counted = front-counted;
  }

abbrev pub pushed : Cache → CacheEntry → Cache
pushed c e = record c {
  items = insert e.key c.next_ref c.items;
  lru = (c.next_ref, e) ∷ c.lru;
  next_ref = c.next_ref + 1;
}

-- Pushing a new element to the front keeps the cache synced.
module _ (c : Cache) (e : CacheEntry) (s : IsSynced c) (absent : lookup e.key c.items ≡ none) where
  pub unused : lookup c.next_ref c.lru ≡ none
  unused = elim (Option-cases (lookup c.next_ref c.lru)) [
    | inl f ↦ f
    | inr (d, f) ↦ absurd (omega (arith, s.fresh c.next_ref d f))
  ]

  pub lookup-pushed :
      (q : ℕ) → lookup q (pushed c e).lru ≡ (if c.next_ref == q then some e else lookup q c.lru)
  unfolding lookup
  lookup-pushed q = refl

  pushed-live :
      (k : CacheKey) (q : ℕ)
      → lookup k (pushed c e).items ≡ some q
      → (d : CacheEntry) × (lookup q (pushed c e).lru ≡ some d) × (d.key ≡ k)
  pushed-live k q f = elim (Bool-cases (key_eqb e.key k)) [
    | inl x ↦
        let ek = (key_eqb_iff e.key k).0 x in
        (
          e,
          ground (
            arith,
            lookup-insert e.key k c.next_ref c.items,
            lookup-pushed q,
            ==_iff c.next_ref q,
          ),
          ek,
        )
    | inr x ↦
        let orig : lookup k c.items ≡ some q =
          ground (arith, lookup-insert e.key k c.next_ref c.items) in
        let (d, g, dk) = s.live k q orig in (d, ground (arith, lookup-pushed q, s.fresh q d g), dk)
  ]

  pushed-owned :
      (q : ℕ) (d : CacheEntry)
      → lookup q (pushed c e).lru ≡ some d
      → lookup d.key (pushed c e).items ≡ some q
  pushed-owned q d f = elim (Bool-cases (c.next_ref == q)) [
    | inl x ↦ ground (
      arith,
      lookup-pushed q,
      lookup-insert e.key d.key c.next_ref c.items,
      key_eqb_iff e.key d.key,
    )
    | inr x ↦
        let orig : lookup q c.lru ≡ some d = ground (arith, lookup-pushed q) in
        ground (
          arith,
          lookup-insert e.key d.key c.next_ref c.items,
          key_eqb_iff e.key d.key,
          s.owned q d orig,
        )
  ]

  pushed-fresh : (q : ℕ) (d : CacheEntry) → lookup q (pushed c e).lru ≡ some d → q < c.next_ref + 1
  pushed-fresh q d f = elim (Bool-cases (c.next_ref == q)) [
    | inl x ↦ ground arith
    | inr x ↦ let b = s.fresh q d (ground (arith, lookup-pushed q)) in omega arith
  ]

  pub pushed-IsSynced : IsSynced (pushed c e)
  pushed-IsSynced = record {
    refs = (unused, s.refs);
    keys = Distinct-insert e.key c.next_ref c.items s.keys;
    live = pushed-live;
    owned = pushed-owned;
    fresh = pushed-fresh;
    counted = ground (arith, length-insert e.key c.next_ref c.items, absent, s.counted);
  }
