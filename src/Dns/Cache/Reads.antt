-- ===== src/Dns/Cache/Reads.antt =====
-- What Get returns: never an expired entry, and what Put has just stored.
use sis.Base.{
  ℕ, zero, suc, ◌+◌, ◌≤◌, ◌<◌, ◌≡◌, refl, ap, ◌∙◌, inl, inr, false, Option, some, List, [], ◌∷◌,
  arith, Str, leb, ltb, ◌==◌, ==_iff, length, Bool-cases, Option-cases,
}
use mathlib.Core.Path.{subst}
use sis.Base.Map.{lookup, delete}
use sis.Dns.Message.{Msg, Codec}
use sis.Dns.Cache.{
  Cache, CacheKey, CacheEntry, key_eq, ref_eq, ensure_locked, remove, back, evict, trim, to_front,
  get, store, put, ttl_for, rewrite, remaining_ttl,
}
use sis.Dns.Cache.Ttl.{Answers, rewrite-Answers, seconds_left, remaining_ttl-seconds_left}
use sis.Dns.Cache.Invariant.{IsSynced, dropped, dropped-IsSynced, removed, back-lookup}
use sis.Dns.Cache.Moves.{pushed, pushed-IsSynced, lookup-to_front}
use sis.Dns.Cache.Methods.{IsValid, ensure_locked-IsValid}

-- An entry that the cache holds under the key.
abbrev pub Holds : Cache → CacheKey → CacheEntry → Type 0
Holds c key e = (r : ℕ) × (lookup key c.items ≡ some r) × (lookup r c.lru ≡ some e)

module _ (codec : Codec) where
  -- A hit is an entry of the cache that has not expired, unpacked and rewritten for the request.
  pub get-hit :
      (c c' : Cache) (key : CacheKey) (req : Option Msg) (now : ℕ) (m : Msg)
      → get codec c key req now ≡ some (c', some m)
      → (e : CacheEntry) × (w : Msg) × Holds c key e
        × (now < e.expires)
        × (codec.unpack e.wire ≡ some w)
        × (m ≡ rewrite codec req (remaining_ttl e.expires now) w)
  unfolding get
  get-hit c0 c' key req now m h =
      let c = ensure_locked c0 in
      elim (Option-cases (lookup key c.items)) [
        | inl e ↦ ground (arith, e)
        | inr (r, e) ↦ elim (Option-cases (lookup r c.lru)) [
          | inl f ↦ ground (arith, e, f)
          | inr (d, f) ↦ elim (Bool-cases (leb d.expires now)) [
            | inl x ↦ elim (Option-cases (remove r c)) [
              | inl k ↦ ground (arith, e, f, x, k)
              | inr (c2, k) ↦ ground (arith, e, f, x, k)
            ]
            | inr x ↦ elim (Option-cases (codec.unpack d.wire)) [
              | inl w ↦ elim (Option-cases (remove r c)) [
                | inl k ↦ ground (arith, e, f, x, w, k)
                | inr (c2, k) ↦ ground (arith, e, f, x, w, k)
              ]
              | inr (w, g) ↦ (d, w, (r, e, f), ground arith, g, ground (arith, e, f, x, g))
            ]
          ]
        ]
      ]

  -- An entry that is held, not expired and can be unpacked is returned.
  pub get_of_Holds :
      (c : Cache) (key : CacheKey) (req : Option Msg) (now : ℕ) (e : CacheEntry) (w : Msg)
      → Holds c key e
      → now < e.expires
      → codec.unpack e.wire ≡ some w
      → (c' : Cache) × (get codec c key req now
          ≡ some (c', some (rewrite codec req (remaining_ttl e.expires now) w)))
  unfolding get
  get_of_Holds c0 key req now e w (r, f, g) live u =
      let c = ensure_locked c0 in (record c { lru = to_front r e c.lru }, ground (arith, f, g, u))

-- The element at the front.
abbrev Front : Cache → ℕ → CacheEntry → Type 0
Front c r e = (rest : List (ℕ × CacheEntry)) × (c.lru ≡ (r, e) ∷ rest)

-- Removing the last of two elements or more leaves the front one.
dropped-Front :
    (c : Cache) (r q : ℕ) (e d : CacheEntry)
    → IsSynced c
    → Front c r e
    → 2 ≤ length c.lru
    → back c.lru ≡ some (q, d)
    → Front (dropped c q d) r e
unfolding back delete lookup
dropped-Front c r q e d s ([], f) n b = absurd (omega (arith, ap length f))
dropped-Front c r q e d s (x ∷ rest, f) n b =
    let distinct = rw f at s.refs in
    let b1 = rw f at b in
    let (q', d', b', g) = back-lookup (x ∷ rest) distinct.1 (omega arith) in
    let other : (r == q) ≡ false = elim (Bool-cases (r == q)) [
      | inr k ↦ k
      | inl k ↦
          let rq = (==_iff r q).0 k in
          let qq : q' ≡ q = ground arith in ground (arith, distinct.0, g, rq, qq)
    ] in
    (delete q (x ∷ rest), ap (delete q) f ∙ ground (arith, other))

evict-Front :
    (fuel : ℕ) (c c' : Cache) (r : ℕ) (e : CacheEntry)
    → IsSynced c
    → 1 ≤ c.max_entries
    → Front c r e
    → evict fuel c ≡ some c'
    → Front c' r e × IsSynced c'
unfolding evict
evict-Front zero c c' r e s m f h = cc
evict-Front (suc fuel) c c' r e s m f h = elim (Bool-cases (ltb c.max_entries (length c.items))) [
  | inr x ↦
      let same : c ≡ c' = ground (arith, x) in
      (subst (λ k. Front k r e) same f, subst IsSynced same s)
  | inl x ↦
      let (q, d, b, g) = back-lookup c.lru s.refs (ground (arith, s.counted)) in
      let f' = dropped-Front c r q e d s f (ground (arith, s.counted)) b in
      evict-Front fuel (dropped c q d) c' r e (dropped-IsSynced c q d s g) m f'
        (rw (removed c q d s b g) at (rw (x, evict) at h))
]

-- A cache in which the key's entry is at the front holds it.
Front-Holds : (c : Cache) (r : ℕ) (e : CacheEntry) → IsSynced c → Front c r e → Holds c e.key e
Front-Holds c r e s (rest, f) =
    let g : lookup r c.lru ≡ some e = rw f (unfold lookup in ground (arith, ==_iff r r)) in
    (r, s.owned r e g, g)

module _ (codec : Codec) where
  store-Holds :
      (c c' : Cache) (key : CacheKey) (wire : Str) (expires : ℕ)
      → IsSynced c
      → 1 ≤ c.max_entries
      → store codec c key wire expires ≡ some c'
      → (e : CacheEntry) × Holds c' key e × (e.wire ≡ wire) × (e.expires ≡ expires)
  unfolding store trim
  store-Holds c c' key wire expires s m h = elim (Option-cases (lookup key c.items)) [
    | inr (r, e) ↦
        let (d, f, k) = s.live key r e in
        let d' : CacheEntry = record d { wire = wire; expires = expires } in
        let same : record c { lru = to_front r d' c.lru } ≡ c' = ground (arith, e, f) in
        (
          d',
          subst (λ x. Holds x key d') same
              (r, e, lookup-to_front c r d d' s f refl r ∙ ground (arith, ==_iff r r)),
          refl,
          refl,
        )
    | inl e ↦
        let d : CacheEntry = record { key = key; wire = wire; expires = expires } in
        let (f, s') =
          evict-Front (suc (length (pushed c d).items)) (pushed c d) c' c.next_ref d
            (pushed-IsSynced c d s e) m (c.lru, refl) (rw (e, store) at h) in
        (d, Front-Holds c' c.next_ref d s' f, refl, refl)
  ]

  get-put_rewritten :
      (c c' : Cache) (key : CacheKey) (msg : Msg) (wire : Str) (req : Option Msg) (now later : ℕ)
      → IsValid c
      → codec.pack msg ≡ some wire
      → codec.unpack wire ≡ some msg
      → later < now + ttl_for (ensure_locked c) msg
      → now ≤ later
      → put codec c key msg now ≡ some c'
      → (c'' : Cache) × (get codec c' key req later
          ≡ some (
            c'',
            some
                (rewrite codec req (remaining_ttl (now + ttl_for (ensure_locked c) msg) later) msg),
          ))
  unfolding put
  get-put_rewritten c0 c' key msg wire req now later v0 hp hu hl hn h =
      let c = ensure_locked c0 in
      let v = ensure_locked-IsValid c0 v0 in
      let m : 1 ≤ c.max_entries = unfold ensure_locked in ground arith in
      let t : 1 ≤ ttl_for c msg = omega arith in
      let stored : store codec c key wire (now + ttl_for c msg) ≡ some c' = ground (arith, m, t) in
      let (e, holds, ew, ex) = store-Holds c c' key wire (now + ttl_for c msg) v.synced m stored in
      rw (← ex)
        (get_of_Holds codec c' key req later e msg holds (omega (arith, ex)) (ground (arith, ew)))

  -- A response that the codec packs and unpacks again, put into a valid cache, is until it expires
  -- returned by the next Get of its key: under the number and the question of the request, if there is
  -- one, each record with its own time to live or the whole seconds that are left of the entry's, the
  -- less of the two, and otherwise as it was. The seconds are counted modulo 2^32, none counts as one,
  -- and OPT records keep the field.
  pub get-put :
      (c c' : Cache) (key : CacheKey) (msg : Msg) (wire : Str) (req : Option Msg) (now later : ℕ)
      → IsValid c
      → codec.pack msg ≡ some wire
      → codec.unpack wire ≡ some msg
      → later < now + ttl_for (ensure_locked c) msg
      → now ≤ later
      → put codec c key msg now ≡ some c'
      → (c'' : Cache) × (m : Msg) × (get codec c' key req later ≡ some (c'', some m))
        × Answers req (seconds_left later (now + ttl_for (ensure_locked c) msg)) msg m
  get-put c c' key msg wire req now later v hp hu hl hn h =
      let expires = now + ttl_for (ensure_locked c) msg in
      let (c'', e) = get-put_rewritten c c' key msg wire req now later v hp hu hl hn h in
      (
        c'',
        rewrite codec req (remaining_ttl expires later) msg,
        e,
        subst (λ n. Answers req n msg (rewrite codec req (remaining_ttl expires later) msg))
            (remaining_ttl-seconds_left expires later)
            (rewrite-Answers codec req (remaining_ttl expires later) msg),
      )
