-- ===== src/Dns/Limiter/Credit.antt =====
-- What a client may still take, where the calls come in the order of their times and no bucket has to
-- make room for another.
use mathlib.Core.Path.{subst}
use sis.Base.{
  ℕ, ◌-◌, ◌≤◌, ◌<◌, ◌≡◌, ◌⊎◌, refl, inl, inr, Bool, true, false, Option, none, some, List, [], ◌∷◌,
  Str, str_eq, if◌then◌else◌, length, arith, All, Bool-cases, eqs_iff,
}
use sis.Base.Int.{pos}
use sis.Base.Map.{lookup, insert, Distinct}
use sis.Dns.Limiter.{
  Float64, Float, Bucket, RateLimiter, five_minutes, is_idle, without_idle, refilled,
}

-- The float64 is a number that is not negative.
abbrev pub NonNegative : Float → Float64 → Type 0
NonNegative float t = (float.lt (float.of_nat 0) t ≡ true) ⊎ (t ≡ float.of_nat 0)

-- What IEEE 754 promises of the tokens at a rate and a burst: the burst is not negative and the same
-- after no time, tokens stay so as they grow and as one is taken of one or more, and what flows in
-- within more than five minutes goes beyond the burst, however little there was. (It does where the
-- burst is less than 300 times the rate.)
pub record Ieee (float : Float) (qps burst : ℕ) : Type 0 where
  pub full : NonNegative float (float.of_nat burst)
  pub rests :
      float.add_product (float.of_nat burst) (float.seconds (pos 0)) (float.of_nat qps)
      ≡ float.of_nat burst
  pub grows :
      (t : Float64) (elapsed : ℕ)
      → NonNegative float t
      → NonNegative float (float.add_product t (float.seconds (pos elapsed)) (float.of_nat qps))
  pub spends :
      (t : Float64)
      → NonNegative float t
      → float.lt t (float.of_nat 1) ≡ false
      → NonNegative float (float.decrement t)
  pub fills :
      (t : Float64) (elapsed : ℕ)
      → NonNegative float t
      → five_minutes < elapsed
      → float.lt
          (float.of_nat burst)
          (float.add_product t (float.seconds (pos elapsed)) (float.of_nat qps))
        ≡ true

module _ (float : Float) where
  abbrev pub capped : ℕ → Float64 → Float64
  capped burst t = if float.lt (float.of_nat burst) t then float.of_nat burst else t

  -- The tokens of a client at a time: the burst where it has no bucket.
  abbrev pub level : ℕ → ℕ → Option Bucket → ℕ → Float64
  level qps burst none now = float.of_nat burst
  level qps burst (some b) now =
      capped burst
        (float.add_product b.tokens (float.seconds (pos (now - b.seen))) (float.of_nat qps))

  unfoldable pub credit : RateLimiter → Str → ℕ → Float64
  credit l key now = level l.qps l.burst (lookup key l.buckets) now

  -- The bucket is not in debt, and of the past.
  abbrev pub Sound : ℕ → Bucket → Type 0
  Sound now b = NonNegative float b.tokens × (b.seen ≤ now)

  pub refilled-level :
      (l : RateLimiter) (now : ℕ) (b : Bucket)
      → b.seen ≤ now
      → refilled float l now b ≡ level l.qps l.burst (some b) now
  unfolding refilled
  refilled-level l now b h = ground arith

  -- A bucket that is idle for five minutes is full.
  pub idle-level :
      (l : RateLimiter) (now t : ℕ) (b : Bucket)
      → Ieee float l.qps l.burst
      → Sound now b
      → is_idle now b ≡ true
      → now ≤ t
      → level l.qps l.burst (some b) t ≡ float.of_nat l.burst
  idle-level l now t b laws (n, s) i k =
      let over = laws.fills b.tokens (t - b.seen) n (ground arith) in rw over refl

  -- So is a new one.
  pub fresh-level :
      (qps burst now : ℕ)
      → Ieee float qps burst
      → level qps burst (some (record { tokens = float.of_nat burst; seen = now })) now
        ≡ float.of_nat burst
  fresh-level qps burst now laws =
      let none_passed : now - now ≡ 0 = omega arith in
      rw none_passed (rw laws.rests (same (float.lt (float.of_nat burst) (float.of_nat burst))))
    where
      same :
          (c : Bool) → (if c then float.of_nat burst else float.of_nat burst) ≡ float.of_nat burst
      same true = refl
      same false = refl

  capped-NonNegative :
      (burst : ℕ) (t : Float64)
      → NonNegative float (float.of_nat burst)
      → NonNegative float t
      → NonNegative float (capped burst t)
  capped-NonNegative burst t f h = elim (Bool-cases (float.lt (float.of_nat burst) t)) [
    | inl e ↦ rw e f
    | inr e ↦ rw e h
  ]

  pub level-NonNegative :
      (qps burst now : ℕ) (b : Bucket)
      → Ieee float qps burst
      → NonNegative float b.tokens
      → NonNegative float (level qps burst (some b) now)
  level-NonNegative qps burst now b laws h =
      capped-NonNegative burst _ laws.full (laws.grows b.tokens (now - b.seen) h)

pub lookup-without_idle :
    (now : ℕ) (key : Str) (m : List (Str × Bucket))
    → Distinct m
    → lookup key (without_idle now m)
      ≡ elim (lookup key m) [ none ↦ none | some b ↦ if is_idle now b then none else some b ]
unfolding lookup without_idle
lookup-without_idle now key [] d = refl
lookup-without_idle now key ((k, b) ∷ m) (a, d) =
    ground (arith, a, eqs_iff k key, lookup-without_idle now key m d)

pub length-without_idle-le :
    (now : ℕ) (m : List (Str × Bucket)) → length (without_idle now m) ≤ length m
unfolding without_idle
length-without_idle-le now [] = omega arith
length-without_idle-le now ((k, b) ∷ m) = ground (arith, length-without_idle-le now m)

pub without_idle-All {κ} :
    (P : Str × Bucket → Type κ) (now : ℕ) (m : List (Str × Bucket))
    → All P m
    → All P (without_idle now m)
unfolding without_idle
without_idle-All P now [] h = tt
without_idle-All P now ((k, b) ∷ m) (p, h) = elim (Bool-cases (is_idle now b)) [
  | inl e ↦ rw e (without_idle-All P now m h)
  | inr e ↦ rw e (p, without_idle-All P now m h)
]

pub Distinct-without_idle :
    (now : ℕ) (m : List (Str × Bucket)) → Distinct m → Distinct (without_idle now m)
unfolding without_idle
Distinct-without_idle now [] d = tt
Distinct-without_idle now ((k, b) ∷ m) (a, d) =
    let rest = Distinct-without_idle now m d in
    ground (arith, a, rest, lookup-without_idle now k m d)

pub lookup-All {κ} :
    (P : Bucket → Type κ) (key : Str) (m : List (Str × Bucket)) (b : Bucket)
    → All (λ kb. P kb.1) m
    → lookup key m ≡ some b
    → P b
unfolding lookup
lookup-All P key [] b h e = cc
lookup-All P key ((k, a) ∷ m) b (p, h) e = elim (Bool-cases (str_eq.beq k key)) [
  | inl f ↦ subst P (ground (arith, f)) p
  | inr f ↦ lookup-All P key m b h (ground (arith, f))
]

pub insert-All {κ} :
    (P : Str × Bucket → Type κ) (key : Str) (b : Bucket) (m : List (Str × Bucket))
    → P (key, b)
    → All P m
    → All P (insert key b m)
unfolding insert
insert-All P key b [] p h = (p, tt)
insert-All P key b ((k, a) ∷ m) p (q, h) = elim (Bool-cases (str_eq.beq k key)) [
  | inl f ↦ rw f (p, h)
  | inr f ↦ rw f (q, insert-All P key b m p h)
]
