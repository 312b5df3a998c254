-- ===== src/Dns/Limiter/Step.antt =====
-- One call of Allow, and the credits of all clients.
use mathlib.Core.Path.{subst}
use sis.Base.{
  ℕ, ◌+◌, ◌≤◌, ◌≡◌, ◌⊎◌, refl, sym, ◌∙◌, inl, inr, Bool, true, false, not, ◌||◌, none, some, List,
  [], Str, str_eq, if◌then◌else◌, ltb, leb, length, arith, any, All, Bool-cases, Option-cases, eqs,
  eqs_iff,
}
use sis.Base.Map.{lookup, insert, lookup-insert, Distinct, Distinct-insert}
use sis.Dns.Limiter.{
  Float64, Float, Bucket, RateLimiter, one_minute, is_idle, without_idle, trim_locked, prune_locked,
  pruned, with_bucket, refilled, spend, allow,
}
use sis.Dns.Limiter.Clients.{length-keys-le}
use sis.Dns.Limiter.Credit.{
  NonNegative, Ieee, level, Sound, credit, refilled-level, idle-level, fresh-level,
  level-NonNegative, lookup-without_idle, without_idle-All, Distinct-without_idle, lookup-All,
  insert-All,
}

-- The limiter is on, its tokens behave as IEEE 754 promises, the buckets are sound and of known clients,
-- and there is room for all of those.
pub record Fit (float : Float) (known : List Str) (now : ℕ) (l : RateLimiter) : Type 0 where
  pub on : (1 ≤ l.qps) × (1 ≤ l.burst)
  pub laws : Ieee float l.qps l.burst
  pub room : length known ≤ l.max_buckets
  pub distinct : Distinct l.buckets
  pub sound : All (λ kb. Sound float now kb.1) l.buckets
  pub of : All (λ kb. any (λ c. eqs c kb.0) known ≡ true) l.buckets

trim_locked_room :
    (exempt : Str) (l : RateLimiter) → length l.buckets ≤ l.max_buckets → trim_locked exempt l ≡ l
unfolding trim_locked
trim_locked_room exempt l h = ground arith

module _ (float : Float) (known : List Str) (now : ℕ) where
  -- The limiter differs in nothing that a credit depends on.
  abbrev Kept : RateLimiter → RateLimiter → Type 0
  Kept l m =
      Fit float known now m
      × (m.qps ≡ l.qps)
      × (m.burst ≡ l.burst)
      × ((k : Str) (t : ℕ) → now ≤ t → credit float m k t ≡ credit float l k t)

  abbrev swept : RateLimiter → RateLimiter
  swept l = record l { buckets = without_idle now l.buckets; next_prune = some (now + one_minute) }

  swept-credit :
      (l : RateLimiter)
      → Fit float known now l
      → (k : Str) (t : ℕ) → now ≤ t
      → credit float (swept l) k t ≡ credit float l k t
  unfolding credit
  swept-credit l f k t h = elim (Option-cases (lookup k l.buckets)) [
    | inl e ↦ ground (arith, e, lookup-without_idle now k l.buckets f.distinct)
    | inr (b, e) ↦ elim (Bool-cases (is_idle now b)) [
      | inl i ↦ ground (
        arith,
        e,
        i,
        lookup-without_idle now k l.buckets f.distinct,
        idle-level float l now t b f.laws (lookup-All (Sound float now) k l.buckets b f.sound e) i
            h,
      )
      | inr i ↦ ground (arith, e, i, lookup-without_idle now k l.buckets f.distinct)
    ]
  ]

  swept-Kept : (l : RateLimiter) → Fit float known now l → Kept l (swept l)
  swept-Kept l f = (
    record {
      on = f.on;
      laws = f.laws;
      room = f.room;
      distinct = Distinct-without_idle now l.buckets f.distinct;
      sound = without_idle-All (λ kb. Sound float now kb.1) now l.buckets f.sound;
      of = without_idle-All _ now l.buckets f.of;
    },
    refl,
    refl,
    swept-credit l f,
  )

  length-buckets-le : (l : RateLimiter) → Fit float known now l → length l.buckets ≤ l.max_buckets
  length-buckets-le l f = omega (arith, length-keys-le l.buckets known f.distinct f.of, f.room)

  pruned-swept :
      (l : RateLimiter) → Fit float known now l → (pruned now l ≡ l) ⊎ (pruned now l ≡ swept l)
  unfolding pruned prune_locked
  pruned-swept l f =
      let (g, q, b, c) = swept-Kept l f in
      let same =
        trim_locked_room [] (record l { buckets = without_idle now l.buckets })
          (length-buckets-le (swept l) g) in
      elim (Option-cases l.next_prune) [
        | inl e ↦ inr (ground (arith, e, same))
        | inr (t, e) ↦ elim (Bool-cases (ltb t now)) [
          | inl g ↦ inr (ground (arith, e, g, same))
          | inr g ↦ inl (ground (arith, e, g))
        ]
      ]

  pruned-Kept : (l : RateLimiter) → Fit float known now l → Kept l (pruned now l)
  pruned-Kept l f = elim (pruned-swept l f) [
    | inl e ↦ subst (Kept l) (sym e) (f, refl, refl, λ k t h. refl)
    | inr e ↦ subst (Kept l) (sym e) (swept-Kept l f)
  ]

  module _ (key : Str) (is_known : any (λ c. eqs c key) known ≡ true) where
    -- A limiter with one bucket set.
    abbrev put : RateLimiter → Bucket → RateLimiter
    put l b = record l { buckets = insert key b l.buckets }

    put-Fit :
        (l : RateLimiter) (b : Bucket)
        → Fit float known now l
        → Sound float now b
        → Fit float known now (put l b)
    put-Fit l b f s = record {
      on = f.on;
      laws = f.laws;
      room = f.room;
      distinct = Distinct-insert key b l.buckets f.distinct;
      sound = insert-All (λ kb. Sound float now kb.1) key b l.buckets s f.sound;
      of = insert-All (λ kb. any (λ c. eqs c kb.0) known ≡ true) key b l.buckets is_known f.of;
    }

    put-credit :
        (l : RateLimiter) (b : Bucket) (k : Str) (t : ℕ)
        → credit float (put l b) k t
          ≡ (if eqs key k then level float l.qps l.burst (some b) t else credit float l k t)
    unfolding credit
    put-credit l b k t = ground (arith, lookup-insert key k b l.buckets)

    full : RateLimiter → Bucket
    full l = record { tokens = float.of_nat l.burst; seen = now }

    full-credit :
        (l : RateLimiter)
        → Ieee float l.qps l.burst
        → lookup key l.buckets ≡ none
        → (k : Str) → credit float (put l (full l)) k now ≡ credit float l k now
    unfolding credit full
    full-credit l laws e k = elim (Bool-cases (eqs key k)) [
      | inr q ↦ ground (arith, lookup-insert key k (full l) l.buckets, q)
      | inl q ↦
          let missing = subst (λ x. lookup x l.buckets ≡ none) ((eqs_iff key k).0 q) e in
          ground (
            arith,
            lookup-insert key k (full l) l.buckets,
            q,
            missing,
            fresh-level float l.qps l.burst now laws,
          )
    ]

    full-others :
        (l : RateLimiter) (k : Str) (t : ℕ)
        → eqs key k ≡ false
        → credit float (put l (full l)) k t ≡ credit float l k t
    unfolding credit
    full-others l k t q = ground (arith, lookup-insert key k (full l) l.buckets, q)

    -- The limiter differs in nothing that this call and the credits of the others depend on.
    abbrev Near : RateLimiter → RateLimiter → Type 0
    Near l m =
        Fit float known now m
        × (m.qps ≡ l.qps)
        × (m.burst ≡ l.burst)
        × (credit float m key now ≡ credit float l key now)
        × ((k : Str) (t : ℕ)
            → now ≤ t
            → eqs key k ≡ false
            → credit float m k t ≡ credit float l k t)

    -- The bucket that a call works on is the client's in what the call works on.
    abbrev Ready : RateLimiter → RateLimiter × Bucket → Type 0
    Ready l r = Near l r.0 × (lookup key r.0.buckets ≡ some r.1)

    with_bucket-cases :
        (l : RateLimiter)
        → Fit float known now l
        → ((lookup key l.buckets ≡ none) × (with_bucket float key now l ≡ (put l (full l), full l)))
          ⊎ ((b : Bucket) × (lookup key l.buckets ≡ some b)
              × (with_bucket float key now l ≡ (l, b)))
    unfolding with_bucket full
    with_bucket-cases l f = elim (Option-cases (lookup key l.buckets)) [
      | inr (b, e) ↦ inr (b, e, ground (arith, e))
      | inl e ↦
          let g = put-Fit l (full l) f (f.laws.full, omega arith) in
          let same = trim_locked_room key (put l (full l)) (length-buckets-le (put l (full l)) g) in
          inl (e, ground (arith, e, same))
    ]

    with_bucket-Ready :
        (l : RateLimiter) → Fit float known now l → Ready l (with_bucket float key now l)
    unfolding full
    with_bucket-Ready l f = elim (with_bucket-cases l f) [
      | inr (b, e, w) ↦ subst (Ready l) (sym w) ((f, refl, refl, refl, λ k t h n. refl), e)
      | inl (e, w) ↦ subst (Ready l) (sym w) (
        (
          put-Fit l (full l) f (f.laws.full, omega arith),
          refl,
          refl,
          full-credit l f.laws e key,
          λ k t h n. full-others l k t n,
        ),
        ground (arith, lookup-insert key key (full l) l.buckets, eqs_iff key key),
      )
    ]

    -- What a call leaves of the client's tokens.
    abbrev pub left_over : Float64 → Float64
    left_over c = if float.lt c (float.of_nat 1) then c else float.decrement c

    abbrev pub left_bucket : RateLimiter → Bucket
    left_bucket l = record { tokens = left_over (credit float l key now); seen = now }

    spend-put :
        (m : RateLimiter) (b : Bucket)
        → Sound float now b
        → lookup key m.buckets ≡ some b
        → spend float key now (m, b)
          ≡ (put m (left_bucket m), not (float.lt (credit float m key now) (float.of_nat 1)))
    unfolding spend credit
    spend-put m b (n, s) e =
        let filled = refilled-level float m now b s in
        elim (Bool-cases (float.lt (refilled float m now b) (float.of_nat 1))) [
          | inl c ↦ ground (arith, e, filled, c)
          | inr c ↦ ground (arith, e, filled, c)
        ]

    -- What a call does to the limiter, and what it answers.
    abbrev pub Outcome : RateLimiter → RateLimiter × Bool → Type 0
    Outcome l r =
        Fit float known now r.0
        × (r.0.qps ≡ l.qps)
        × (r.0.burst ≡ l.burst)
        × (r.1 ≡ not (float.lt (credit float l key now) (float.of_nat 1)))
        × ((k : Str) (t : ℕ)
            → now ≤ t
            → credit float r.0 k t ≡ (
                if eqs key k
                then level float l.qps l.burst (some (left_bucket l)) t
                else credit float l k t))

    left_over-NonNegative :
        (qps burst : ℕ) (c : Float64)
        → Ieee float qps burst
        → NonNegative float c
        → NonNegative float (left_over c)
    left_over-NonNegative qps burst c laws h = elim (Bool-cases (float.lt c (float.of_nat 1))) [
      | inl e ↦ rw e h
      | inr e ↦ rw e (laws.spends c h e)
    ]

    spend-Outcome :
        (m : RateLimiter) (b : Bucket)
        → Fit float known now m
        → lookup key m.buckets ≡ some b
        → Outcome m (spend float key now (m, b))
    spend-Outcome m b f e =
        let sound = lookup-All (Sound float now) key m.buckets b f.sound e in
        let is : credit float m key now ≡ level float m.qps m.burst (some b) now =
          unfold credit in ground (arith, e) in
        let whole =
          subst (NonNegative float) (sym is)
            (level-NonNegative float m.qps m.burst now b f.laws sound.0) in
        subst (Outcome m) (sym (spend-put m b sound e)) (
          put-Fit m (left_bucket m) f (
            left_over-NonNegative m.qps m.burst (credit float m key now) f.laws whole,
            omega arith,
          ),
          refl,
          refl,
          refl,
          λ k t h. put-credit m (left_bucket m) k t,
        )

    from_Near : (l m : RateLimiter) (r : RateLimiter × Bool) → Near l m → Outcome m r → Outcome l r
    from_Near l m r (f, q, b, c, o) (g, q', b', ok, d) = (
      g,
      q' ∙ q,
      b' ∙ b,
      ground (arith, ok, c),
      λ k t h. elim (Bool-cases (eqs key k)) [
        | inl e ↦ ground (arith, d k t h, e, c, q, b)
        | inr e ↦ ground (arith, d k t h, e, o k t h e)
      ],
    )

    pub allow-Outcome :
        (l : RateLimiter) → Fit float known now l → Outcome l (allow float l key now)
    unfolding allow
    allow-Outcome l f =
        let (q, b) = f.on in
        let (fit, same_qps, same_burst, same) = pruned-Kept l f in
        let near : Near l (pruned now l) =
          (fit, same_qps, same_burst, same key now (omega arith), λ k t h n. same k t h) in
        let r = with_bucket float key now (pruned now l) in
        let (ready, e) = with_bucket-Ready (pruned now l) fit in
        let on : (leb l.qps 0 || leb l.burst 0) ≡ false = ground arith in
        rw on (
          from_Near l (pruned now l) _ near
            (from_Near (pruned now l) r.0 _ ready (spend-Outcome r.0 r.1 ready.0 e)))
