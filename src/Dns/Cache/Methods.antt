-- ===== src/Dns/Cache/Methods.antt =====
-- Every method keeps the invariant and the limit, ends, and finds no dangling element.
use sis.Base.{
  ℕ, ◌+◌, ◌≤◌, ◌≡◌, refl, inl, inr, ◌||◌, Option, none, some, [], arith, Str, leb, length,
  Bool-cases, Option-cases,
}
use sis.Base.Map.{lookup}
use sis.Dns.Message.{Msg, Codec}
use sis.Dns.Cache.{
  Cache, CacheKey, CacheEntry, CacheOptions, key_eq, ref_eq, new_cache, ensure_locked, trim,
  to_front, get, store, put, ttl_for, flush, reconfigure, rewrite, remaining_ttl,
}
use sis.Dns.Cache.Invariant.{
  IsSynced, dropped, dropped-IsSynced, dropped-length, remove_lem, trim-IsTrimmed,
}
use sis.Dns.Cache.Moves.{front-IsSynced, pushed, pushed-IsSynced}

pub record IsValid (c : Cache) : Type 0 where
  pub synced : IsSynced c
  pub within : length c.items ≤ c.max_entries

-- The cache is valid, and this is what the method returns.
abbrev pub Keeps : Option Cache → Type 0
Keeps r = (c : Cache) × (r ≡ some c) × IsValid c

no_entries : (c : Cache) → IsSynced (record c { items = []; lru = [] })
unfolding lookup
no_entries c = record {
  refs = tt;
  keys = tt;
  live = λ k r f. ground arith;
  owned = λ r e f. ground arith;
  fresh = λ r e f. ground arith;
  counted = refl;
}

pub new_cache-IsValid : (o : CacheOptions) → IsValid (new_cache o) × (1 ≤ (new_cache o).max_entries)
unfolding new_cache
new_cache-IsValid o =
    (record { synced = no_entries (new_cache o); within = omega arith }, ground arith)

pub ensure_locked-IsValid : (c : Cache) → IsValid c → IsValid (ensure_locked c)
unfolding ensure_locked
ensure_locked-IsValid c v = record {
  synced = record {
    refs = v.synced.refs;
    keys = v.synced.keys;
    live = v.synced.live;
    owned = v.synced.owned;
    fresh = v.synced.fresh;
    counted = v.synced.counted;
  };
  within = ground (arith, v.within);
}

trimmed : (c : Cache) → IsSynced c → Keeps (trim c)
trimmed c s =
    let (c', e, t) = trim-IsTrimmed c s in (c', e, record { synced = t.synced; within = t.within })

dropped-Keeps :
    (c : Cache) (r : ℕ) (e : CacheEntry)
    → IsValid c
    → lookup r c.lru ≡ some e
    → IsValid (dropped c r e)
dropped-Keeps c r e v h =
    let n = dropped-length c r e v.synced h in
    record { synced = dropped-IsSynced c r e v.synced h; within = omega (arith, n, v.within) }

module _ (codec : Codec) where
  -- Get of a valid cache never faults, and keeps it valid.
  pub get-IsValid :
      (c : Cache) (key : CacheKey) (req : Option Msg) (now : ℕ)
      → IsValid c
      → (c' : Cache) × (r : Option Msg) × (get codec c key req now ≡ some (c', r)) × IsValid c'
  unfolding get
  get-IsValid c0 key req now v0 =
      let c = ensure_locked c0 in
      let v = ensure_locked-IsValid c0 v0 in
      elim (Option-cases (lookup key c.items)) [
        | inl e ↦ (c, none, rw (e, get), v)
        | inr (r, e) ↦
            let (d, f, k) = v.synced.live key r e in
            elim (Bool-cases (leb d.expires now)) [
              | inl x ↦ (
                dropped c r d,
                none,
                ground (arith, e, f, x, remove_lem c r d v.synced f),
                dropped-Keeps c r d v f,
              )
              | inr x ↦ elim (Option-cases (codec.unpack d.wire)) [
                | inl w ↦ (
                  dropped c r d,
                  none,
                  ground (arith, e, f, x, w, remove_lem c r d v.synced f),
                  dropped-Keeps c r d v f,
                )
                | inr (m, w) ↦ (
                  record c { lru = to_front r d c.lru },
                  some (rewrite codec req (remaining_ttl d.expires now) m),
                  ground (arith, e, f, x, w),
                  record { synced = front-IsSynced c r d d v.synced f refl; within = v.within },
                )
              ]
            ]
      ]

  store-Keeps :
      (c : Cache) (key : CacheKey) (wire : Str) (expires : ℕ)
      → IsValid c
      → Keeps (store codec c key wire expires)
  unfolding store
  store-Keeps c key wire expires v = elim (Option-cases (lookup key c.items)) [
    | inr (r, e) ↦
        let (d, f, k) = v.synced.live key r e in
        let d' : CacheEntry = record d { wire = wire; expires = expires } in
        (
          record c { lru = to_front r d' c.lru },
          ground (arith, e, f),
          record { synced = front-IsSynced c r d d' v.synced f refl; within = v.within },
        )
    | inl e ↦
        let d : CacheEntry = record { key = key; wire = wire; expires = expires } in
        let (c', f, w) = trimmed (pushed c d) (pushed-IsSynced c d v.synced e) in
        (c', rw (e, store) f, w)
  ]

  -- Put into a valid cache ends, never faults, and leaves it valid, with at most as many entries as
  -- the limit.
  pub put-IsValid :
      (c : Cache) (key : CacheKey) (msg : Msg) (now : ℕ)
      → IsValid c
      → Keeps (put codec c key msg now)
  unfolding put
  put-IsValid c0 key msg now v0 =
      let c = ensure_locked c0 in
      let v = ensure_locked-IsValid c0 v0 in
      elim (Bool-cases (leb c.max_entries 0 || leb (ttl_for c msg) 0)) [
        | inl x ↦ (c, ground (arith, x), v)
        | inr x ↦ elim (Option-cases (codec.pack msg)) [
          | inl e ↦ (c, ground (arith, x, e), v)
          | inr (w, e) ↦
              let (c', f, k) = store-Keeps c key w (now + ttl_for c msg) v in
              (c', ground (arith, x, e, f), k)
        ]
      ]

-- Flush empties the cache.
pub flush-IsValid : (c : Cache) → IsValid (flush c) × (length (flush c).items ≡ 0)
unfolding flush
flush-IsValid c = (record { synced = no_entries (ensure_locked c); within = omega arith }, refl)

-- Reconfigure ends, never faults, and brings a valid cache within the new limit.
pub reconfigure-IsValid : (c : Cache) (o : CacheOptions) → IsValid c → Keeps (reconfigure c o)
unfolding reconfigure
reconfigure-IsValid c o v =
    let s = (ensure_locked-IsValid c v).synced in
    trimmed _ (record {
      refs = s.refs;
      keys = s.keys;
      live = s.live;
      owned = s.owned;
      fresh = s.fresh;
      counted = s.counted;
    })
