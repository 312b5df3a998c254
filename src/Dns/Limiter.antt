-- ===== src/Dns/Limiter.antt =====
-- internal/dns/ratelimit.go: the token buckets of the clients. Times are in nanoseconds. A client is
-- the text of its address. The arithmetic of float64 is a parameter.
pub mod Credit
pub mod Clients
pub mod Step
pub mod Bound
use sis.Base.{
  ℕ, suc, ◌+◌, ◌-◌, ◌*◌, ◌^◌, Bool, true, false, not, ◌&&◌, ◌||◌, Option, none, some, List, [], ◌∷◌,
  Str, codes, str_eq, if◌then◌else◌, ltb, leb, length, eqs,
}
use sis.Base.Int.{ℤ, pos, negsuc, ◌+ℤ◌, sub_ℕ, ltb_ℤ}
use sis.Base.Map.{lookup, insert, delete}
use sis.Base.Sort.{sort}

-- A float64 is known by its 64 bits.
abbrev pub Float64 : Type 0
Float64 = ℕ

-- What the code uses of float64 and of time.Duration.
pub record Float : Type 0 where
  -- float64(v) of an int that is not negative.
  pub of_nat : ℕ → Float64
  -- Duration.Seconds.
  pub seconds : ℤ → Float64
  -- a + b * c, which a platform may round once or twice.
  pub add_product : Float64 → Float64 → Float64 → Float64
  -- a - 1.
  pub decrement : Float64 → Float64
  -- a < b.
  pub lt : Float64 → Float64 → Bool

-- `rateBucket`.
pub record Bucket : Type 0 where
  pub tokens : Float64
  pub seen : ℕ

-- `qps` and `burst` are the ints that the code converts when it makes the limiter; here they are
-- converted where they are used.
pub record RateLimiter : Type 0 where
  pub qps : ℕ
  pub burst : ℕ
  pub max_buckets : ℕ
  pub buckets : List (Str × Bucket)
  pub next_prune : Option ℕ

abbrev pub one_minute : ℕ
one_minute = 60000000000

abbrev pub five_minutes : ℕ
five_minutes = 300000000000

-- `NewRateLimiterWithMaxBuckets`: no limiter when it is turned off.
unfoldable pub new_limiter : ℤ → ℤ → ℤ → Option RateLimiter
new_limiter (pos (suc q)) (pos (suc b)) (pos (suc m)) =
    some
      (record { qps = suc q; burst = suc b; max_buckets = suc m; buckets = []; next_prune = none })
new_limiter (pos (suc q)) (pos (suc b)) m =
    some
      (record { qps = suc q; burst = suc b; max_buckets = 10000; buckets = []; next_prune = none })
new_limiter qps burst m = none

unfoldable pub older : Str × Bucket → Str × Bucket → Bool
older (j, a) (k, b) = ltb a.seen b.seen

-- The buckets that `trimLocked` may drop, and the loop that drops the ones seen longest ago.
unfoldable pub others : Str → List (Str × Bucket) → List (Str × Bucket)
others exempt [] = []
others exempt ((k, b) ∷ bs) = if eqs k exempt then others exempt bs else (k, b) ∷ others exempt bs

unfoldable pub drop_oldest : ℕ → List (Str × Bucket) → List (Str × Bucket) → List (Str × Bucket)
drop_oldest max [] bs = bs
drop_oldest max ((k, b) ∷ order) bs =
    if leb (length bs) max then bs else drop_oldest max order (delete k bs)

unfoldable pub trim_locked : Str → RateLimiter → RateLimiter
unfolding others older
trim_locked exempt l =
    if leb l.max_buckets 0 || leb (length l.buckets) l.max_buckets then l else record l {
      buckets = drop_oldest l.max_buckets (sort older (others exempt l.buckets)) l.buckets;
    }

-- `now.Sub(bucket.seen) > 5*time.Minute`.
abbrev pub is_idle : ℕ → Bucket → Bool
is_idle now b = ltb five_minutes (now - b.seen)

unfoldable pub without_idle : ℕ → List (Str × Bucket) → List (Str × Bucket)
without_idle now [] = []
without_idle now ((k, b) ∷ bs) =
    let rest = without_idle now bs in if is_idle now b then rest else (k, b) ∷ rest

unfoldable pub prune_locked : ℕ → RateLimiter → RateLimiter
prune_locked now l = trim_locked [] (record l { buckets = without_idle now l.buckets })

-- The pruning that is due once a minute.
unfoldable pub pruned : ℕ → RateLimiter → RateLimiter
pruned now l =
    let due : RateLimiter = record (prune_locked now l) { next_prune = some (now + one_minute) } in
    elim l.next_prune [ none ↦ due | some t ↦ if ltb t now then due else l ]

module _ (float : Float) where
  -- The client's bucket, which is full when it is new.
  unfoldable pub with_bucket : Str → ℕ → RateLimiter → RateLimiter × Bucket
  with_bucket key now l =
      let fresh : Bucket = record { tokens = float.of_nat l.burst; seen = now } in
      elim (lookup key l.buckets) [
        | none ↦ (trim_locked key (record l { buckets = insert key fresh l.buckets }), fresh)
        | some b ↦ (l, b)
      ]

  -- The tokens with what has flowed into the bucket since, up to the burst. The clock may have been
  -- read before another call's.
  unfoldable pub refilled : RateLimiter → ℕ → Bucket → Float64
  refilled l now b =
      let elapsed = float.seconds (sub_ℕ now b.seen) in
      let tokens = float.add_product b.tokens elapsed (float.of_nat l.qps) in
      if float.lt (float.of_nat l.burst) tokens then float.of_nat l.burst else tokens

  -- The bucket filled up, and a token taken from it if there is one.
  unfoldable pub spend : Str → ℕ → RateLimiter × Bucket → RateLimiter × Bool
  unfolding refilled
  spend key now (l, b) =
      let tokens = refilled l now b in
      let put = λ (t : Float64). record l {
        buckets = insert key (record { tokens = t; seen = now }) l.buckets;
      } in
      if float.lt tokens (float.of_nat 1)
      then (put tokens, false)
      else (put (float.decrement tokens), true)

  -- `Allow` of a limiter that is not nil: the limiter behind the call, and its answer.
  unfoldable pub allow : RateLimiter → Str → ℕ → RateLimiter × Bool
  unfolding pruned with_bucket spend
  allow l key now =
      if leb l.qps 0 || leb l.burst 0
      then (l, true)
      else spend key now (with_bucket key now (pruned now l))

  -- Calls at their times, one after another, and the answers.
  unfoldable pub allow_all : RateLimiter → List (Str × ℕ) → List (Str × Bool)
  unfolding allow
  allow_all l [] = []
  allow_all l ((key, now) ∷ calls) = let (m, ok) = allow l key now in (key, ok) ∷ allow_all m calls

  -- An address that is nil is one client, "unknown"; a limiter that is nil allows everything.
  unfoldable pub allow_ip : Option RateLimiter → Option Str → ℕ → Option RateLimiter × Bool
  unfolding allow
  allow_ip none ip now = (none, true)
  allow_ip (some l) ip now =
      let (m, ok) = allow l (elim ip [ none ↦ codes "unknown" | some text ↦ text ]) now in
      (some m, ok)
