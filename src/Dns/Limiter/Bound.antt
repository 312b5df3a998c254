-- ===== src/Dns/Limiter/Bound.antt =====
-- Allow as one token bucket for each client.
use sis.Base.{
  ℕ, suc, ◌-◌, ◌≤◌, ◌≡◌, refl, ap, ◌∙◌, inl, inr, Bool, true, false, Option, none, some, List, [],
  ◌∷◌, Str, str_eq, if◌then◌else◌, length, arith, any, All-map, Bool-cases, eqs, eqs_iff,
}
use sis.Base.Int.{pos}
use sis.Base.Map.{lookup}
use sis.Dns.Limiter.{Float64, Float, RateLimiter, new_limiter, allow, allow_all}
use sis.Dns.Limiter.Credit.{Ieee, Sound, credit}
use sis.Dns.Limiter.Step.{Fit, allow-Outcome}

-- The abstract bucket of one client: tokens as of a time, which grow up to the burst; none before the
-- first call, when it is full.
pub record Account : Type 0 where
  pub tokens : Float64
  pub since : ℕ

module _ (float : Float) (qps burst : ℕ) where
  abbrev pub grown : Option Account → ℕ → Float64
  grown none now = float.of_nat burst
  grown (some a) now =
      let elapsed = float.seconds (pos (now - a.since)) in
      let t = float.add_product a.tokens elapsed (float.of_nat qps) in
      if float.lt (float.of_nat burst) t then float.of_nat burst else t

  -- A call takes a token where there is one.
  abbrev pub take_token : Option Account → ℕ → Account × Bool
  take_token a now =
      let c = grown a now in
      if float.lt c (float.of_nat 1)
      then (record { tokens = c; since = now }, false)
      else (record { tokens = float.decrement c; since = now }, true)

  unfoldable pub take_all : Option Account → List ℕ → List Bool
  take_all a [] = []
  take_all a (now ∷ times) = let (b, ok) = take_token a now in ok ∷ take_all (some b) times

-- The times of one client's calls, and its answers.
unfoldable pub times_of : Str → List (Str × ℕ) → List ℕ
times_of key [] = []
times_of key ((k, now) ∷ calls) = if eqs k key then now ∷ times_of key calls else times_of key calls

unfoldable pub answers_of : Str → List (Str × Bool) → List Bool
answers_of key [] = []
answers_of key ((k, ok) ∷ rest) =
    if eqs k key then ok ∷ answers_of key rest else answers_of key rest

-- No call is before the one in front of it, or of a client that is not known.
abbrev pub Timely : List Str → ℕ → List (Str × ℕ) → Type 0
Timely known start [] = Unit
Timely known start ((key, now) ∷ calls) =
    (start ≤ now) × (any (λ c. eqs c key) known ≡ true) × Timely known now calls

later :
    (float : Float) (known : List Str) (now t : ℕ) (l : RateLimiter)
    → now ≤ t
    → Fit float known now l
    → Fit float known t l
later float known now t l h f = record {
  on = f.on;
  laws = f.laws;
  room = f.room;
  distinct = f.distinct;
  sound =
      All-map (λ kb. Sound float now kb.1) (λ kb. Sound float t kb.1) l.buckets
        (λ kb s. (s.0, omega (arith, s.1, h))) f.sound;
  of = f.of;
}

module _ (float : Float) (known : List Str) (key : Str) where
  -- The account is what the limiter holds of the client.
  abbrev Represents : ℕ → RateLimiter → Option Account → Type 0
  Represents now l a = (t : ℕ) → now ≤ t → credit float l key t ≡ grown float l.qps l.burst a t

  answers-take_all :
      (calls : List (Str × ℕ)) (start : ℕ) (l : RateLimiter) (a : Option Account)
      → Fit float known start l
      → Represents start l a
      → Timely known start calls
      → answers_of key (allow_all float l calls)
        ≡ take_all float l.qps l.burst a (times_of key calls)
  unfolding answers_of allow_all take_all times_of
  answers-take_all [] start l a f r t = refl
  answers-take_all ((k, now) ∷ calls) start l a f r (h, is_known, t) =
      let (g, q, b, ok, after) =
        allow-Outcome float known now k is_known l (later float known start now l h f) in
      let l' = (allow float l k now).0 in
      elim (Bool-cases (eqs k key)) [
        | inr e ↦
            let rest =
              answers-take_all calls now l' a g
                (λ t' h'. ground (arith, after key t' h', r t' (omega arith), e, q, b)) t in
            ground (arith, e, rest, q, b)
        | inl e ↦
            let c = ap (λ x. credit float l x now) ((eqs_iff k key).0 e) ∙ r now h in
            let a' = (take_token float l.qps l.burst a now).0 in
            elim (Bool-cases (float.lt (grown float l.qps l.burst a now) (float.of_nat 1))) [
              | inl o ↦
                  let rest =
                    answers-take_all calls now l' (some a') g
                      (λ t' h'. ground (arith, after key t' h', c, e, q, b, o)) t in
                  ground (arith, e, rest, ok, c, q, b, o)
              | inr o ↦
                  let rest =
                    answers-take_all calls now l' (some a') g
                      (λ t' h'. ground (arith, after key t' h', c, e, q, b, o)) t in
                  ground (arith, e, rest, ok, c, q, b, o)
            ]
      ]

-- A new limiter, as the code makes it of positive numbers.
abbrev pub limiter : ℕ → ℕ → ℕ → RateLimiter
limiter q b m = record {
  qps = suc q;
  burst = suc b;
  max_buckets = suc m;
  buckets = [];
  next_prune = none;
}

-- From a new limiter, the calls being in the order of their times and the clients no more than the
-- buckets, each client is answered as by a token bucket of its own, on the same float64 arithmetic:
-- neither the other clients nor the pruning are to be seen. Of the arithmetic this asks what IEEE 754
-- promises of tokens at this rate and burst, more than five minutes' inflow being more than the burst.
pub allow_all-take_all :
    (float : Float) (q b m start : ℕ) (known : List Str) (calls : List (Str × ℕ)) (key : Str)
    → Ieee float (suc q) (suc b)
    → length known ≤ suc m
    → Timely known start calls
    → (new_limiter (pos (suc q)) (pos (suc b)) (pos (suc m)) ≡ some (limiter q b m))
      × (answers_of key (allow_all float (limiter q b m) calls)
          ≡ take_all float (suc q) (suc b) none (times_of key calls))
unfolding new_limiter
allow_all-take_all float q b m start known calls key laws k t = (
  refl,
  answers-take_all float known key calls start (limiter q b m) none
      (record {
        on = (omega arith, omega arith);
        laws = laws;
        room = k;
        distinct = tt;
        sound = tt;
        of = tt;
      })
      (unfold credit lookup in λ t' h'. refl) t,
)
