-- ===== src/Tests/Limits.antt =====
-- The limiters at concrete calls.
use sis.Base.{
  ℕ, ◌+◌, ◌-◌, ◌*◌, ◌/◌, ◌≤◌, ◌≡◌, ◌⊎◌, inl, refl, Bool, true, ltb, none, some, [], ◌∷◌, List, Str,
  codes, arith,
}
use sis.Base.Int.{pos, negsuc}
use sis.Dns.Limiter.{Float, new_limiter, allow_all}
use sis.Dns.Limiter.Credit.{Ieee}
use sis.Dns.Limiter.Bound.{limiter, answers_of, times_of, take_all, allow_all-take_all}
use sis.Api.Limiter.{new_request_limiter, allow_requests}
use sis.Api.Limiter.Windows.{answers_to, quota, requests_of, allow_requests-quota}

abbrev a : Str
a = codes "10.0.0.1"

abbrev b : Str
b = codes "10.0.0.2"

-- Two calls at once, one of another client, and one a second later.
abbrev calls : List (Str × ℕ)
calls = (a, 5) ∷ (a, 5) ∷ (b, 6) ∷ (a, 1000000005) ∷ []

-- Numbers of billionths in place of float64.
abbrev billionths : Float
billionths = record {
  of_nat = λ n. n * 1000000000;
  seconds = λ d. elim d [ pos n ↦ n | negsuc n ↦ 0 ];
  add_product = λ a b c. a + b * c / 1000000000;
  decrement = λ a. a - 1000000000;
  lt = ltb;
}

billionths-Ieee : Ieee billionths 1 1
billionths-Ieee = record {
  full = inl refl;
  rests = refl;
  grows = λ t elapsed h. positive (t + elapsed * 1000000000 / 1000000000);
  spends = λ t h k. positive (t - 1000000000);
  fills = λ t elapsed h k. ground arith;
}
  where
    positive : (n : ℕ) → (ltb 0 n ≡ true) ⊎ (n ≡ 0)
    positive n = ground arith

allow_all-take_all_example :
    (new_limiter (pos 1) (pos 1) (pos 10) ≡ some (limiter 0 0 9))
    × (answers_of a (allow_all billionths (limiter 0 0 9) calls)
        ≡ take_all billionths 1 1 none (times_of a calls))
unfolding sis.Base.eqs
allow_all-take_all_example =
    allow_all-take_all billionths 0 0 9 5 (a ∷ b ∷ []) calls a billionths-Ieee (omega arith)
      (omega arith, refl, (omega arith, refl, (omega arith, refl, (omega arith, refl, tt))))

allow_requests-quota_example :
    answers_to a (
      allow_requests
        (λ x. none)
        (some (new_request_limiter (pos 1) (pos 60)))
        ((a, 1) ∷ (b, 2) ∷ (a, 3) ∷ []))
    ≡ quota 1 0 (requests_of (λ x. none) a ((a, 1) ∷ (b, 2) ∷ (a, 3) ∷ []))
allow_requests-quota_example =
    allow_requests-quota (λ x. none) 0 59 a ((a, 1) ∷ (b, 2) ∷ (a, 3) ∷ []) 1
      (omega arith, omega arith, (omega arith, omega arith, (omega arith, omega arith, tt)))
