-- ===== src/Dns/Cache/Invariant.antt =====
-- The map and the list of the cache agree, and every method keeps them so, ends and finds no dangling
-- element.
use sis.Base.{
  ℕ, zero, suc, ◌+◌, ◌≤◌, ◌<◌, ◌≡◌, ◌≢◌, refl, inl, inr, false, some, List, [], ◌∷◌, arith, ltb,
  ◌==◌, ==_iff, length, Bool-cases,
}
use sis.Base.Map.{lookup, delete, Distinct, lookup-delete, length-delete, Distinct-delete}
use sis.Dns.Cache.{
  Cache, CacheKey, CacheEntry, key_eq, key_eqb, key_eqb_iff, ref_eq, remove, back, remove_back,
  evict, trim,
}

pub record IsSynced (c : Cache) : Type 0 where
  pub refs : Distinct c.lru
  pub keys : Distinct c.items
  -- An item's element is in the list, under the item's key.
  pub live :
      (k : CacheKey) (r : ℕ)
      → lookup k c.items ≡ some r
      → (e : CacheEntry) × (lookup r c.lru ≡ some e) × (e.key ≡ k)
  -- An element of the list is the item of its key.
  pub owned : (r : ℕ) (e : CacheEntry) → lookup r c.lru ≡ some e → lookup e.key c.items ≡ some r
  pub fresh : (r : ℕ) (e : CacheEntry) → lookup r c.lru ≡ some e → r < c.next_ref
  pub counted : length c.items ≡ length c.lru

-- The cache without one element and its item.
abbrev pub dropped : Cache → ℕ → CacheEntry → Cache
dropped c r e = record c { items = delete e.key c.items; lru = delete r c.lru }

module _ (c : Cache) (r : ℕ) (e : CacheEntry) (s : IsSynced c) (h : lookup r c.lru ≡ some e) where
  item_elsewhere :
      (k : CacheKey) (q : ℕ)
      → lookup k (delete e.key c.items) ≡ some q
      → (key_eqb e.key k ≡ false) × (lookup k c.items ≡ some q)
  item_elsewhere k q f = ground (arith, lookup-delete e.key k c.items)

  element_elsewhere :
      (q : ℕ) (d : CacheEntry)
      → lookup q (delete r c.lru) ≡ some d
      → ((r == q) ≡ false) × (lookup q c.lru ≡ some d)
  element_elsewhere q d f = ground (arith, lookup-delete r q c.lru)

  dropped-live :
      (k : CacheKey) (q : ℕ)
      → lookup k (delete e.key c.items) ≡ some q
      → (d : CacheEntry) × (lookup q (delete r c.lru) ≡ some d) × (d.key ≡ k)
  dropped-live k q f =
      let (other, orig) = item_elsewhere k q f in
      let (d, g, same) = s.live k q orig in
      (d, ground (arith, lookup-delete r q c.lru, key_eqb_iff e.key k), same)

  dropped-owned :
      (q : ℕ) (d : CacheEntry)
      → lookup q (delete r c.lru) ≡ some d
      → lookup d.key (delete e.key c.items) ≡ some q
  dropped-owned q d f =
      let (other, orig) = element_elsewhere q d f in
      ground (
        arith,
        lookup-delete e.key d.key c.items,
        key_eqb_iff e.key d.key,
        s.owned q d orig,
        s.owned r e h,
        ==_iff r q,
      )

  dropped-counted : length (delete e.key c.items) ≡ length (delete r c.lru)
  dropped-counted = ground (
    arith,
    length-delete e.key c.items s.keys,
    length-delete r c.lru s.refs,
    s.owned r e h,
    h,
    s.counted,
  )

  pub dropped-length : length (delete e.key c.items) + 1 ≡ length c.items
  dropped-length = ground (arith, length-delete e.key c.items s.keys, s.owned r e h)

  pub dropped-IsSynced : IsSynced (dropped c r e)
  dropped-IsSynced = record {
    refs = Distinct-delete r c.lru s.refs;
    keys = Distinct-delete e.key c.items s.keys;
    live = dropped-live;
    owned = dropped-owned;
    fresh = λ q d f. s.fresh q d (element_elsewhere q d f).1;
    counted = dropped-counted;
  }

  pub remove_lem : remove r c ≡ some (dropped c r e)
  unfolding remove
  remove_lem = ground (arith, h)

-- The last element of a list that is not empty is found under its own reference.
pub back-lookup :
    (l : List (ℕ × CacheEntry))
    → Distinct l
    → length l ≢ 0
    → (r : ℕ) × (e : CacheEntry) × (back l ≡ some (r, e)) × (lookup r l ≡ some e)
unfolding back lookup
back-lookup [] d h = absurd (h refl)
back-lookup ((r, e) ∷ []) d h = (r, e, refl, ground (arith, ==_iff r r))
back-lookup ((q, f) ∷ x ∷ l) (absent, d) h =
    let (r, e, b, g) = back-lookup (x ∷ l) d (omega arith) in (r, e, b, ground (arith, ==_iff q r))

-- What trimming leaves: a synced cache within its limit, with the same limits.
pub record IsTrimmed (c c' : Cache) : Type 0 where
  pub synced : IsSynced c'
  pub within : length c'.items ≤ c'.max_entries
  pub same_max : c'.max_entries ≡ c.max_entries

pub removed :
    (c : Cache) (r : ℕ) (e : CacheEntry)
    → IsSynced c
    → back c.lru ≡ some (r, e)
    → lookup r c.lru ≡ some e
    → remove_back c ≡ some (dropped c r e)
unfolding remove_back
removed c r e s b g = ground (arith, b, remove_lem c r e s g)

evict-IsTrimmed :
    (fuel : ℕ) (c : Cache)
    → IsSynced c
    → length c.items < fuel
    → (c' : Cache) × (evict fuel c ≡ some c') × IsTrimmed c c'
unfolding evict
evict-IsTrimmed zero c s h = elim h [ ]
evict-IsTrimmed (suc fuel) c s h = elim (Bool-cases (ltb c.max_entries (length c.items))) [
  | inr e ↦ (c, rw (e, evict), record { synced = s; within = ground arith; same_max = refl })
  | inl e ↦
      let (r, d, b, g) = back-lookup c.lru s.refs (ground (arith, s.counted)) in
      let n = dropped-length c r d s g in
      let (c', f, t) =
        evict-IsTrimmed fuel (dropped c r d) (dropped-IsSynced c r d s g) (omega (arith, n)) in
      (
        c',
        rw (e, evict) (rw (removed c r d s b g) f),
        record { synced = t.synced; within = t.within; same_max = t.same_max },
      )
]

pub trim-IsTrimmed : (c : Cache) → IsSynced c → (c' : Cache) × (trim c ≡ some c') × IsTrimmed c c'
unfolding trim
trim-IsTrimmed c s = evict-IsTrimmed (suc (length c.items)) c s (omega arith)
