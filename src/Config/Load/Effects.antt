-- ===== src/Config/Load/Effects.antt =====
-- What the defaults make of a configuration that turns something off with a zero.
use mathlib.Core.Path.{subst}
use sis.Base.{
  ℕ, zero, suc, ◌≡◌, refl, ap, ◌∙◌, inl, inr, true, false, ◌&&◌, some, [], codes, eqs, arith,
  Bool-cases, concat-nil, ++-nil,
}
use sis.Base.Int.{ℤ, pos, negsuc, is_neg, is_pos, ltb_ℤ}
use sis.Config.Types.{Settings, Server}
use sis.Config.Checks.{Host, is_nil}
use sis.Config.Compiles.{issue_if-nil, is_nil-nil}
use sis.Config.Issues.{issue_if}
use sis.Config.Validate.{limits_issues, validate, validate_parts}
use sis.Config.Load.{
  Environment, is_zero, or_number, set_parsed, default_dns, default_server, apply_defaults,
  override_dns, override_server, override_rest, apply_env_overrides, load,
}
use sis.Dns.Limiter.{RateLimiter, new_limiter}

or_number-is_zero : (v : ℤ) (d : ℕ) → is_zero (or_number v (pos (suc d))) ≡ false
or_number-is_zero v d = ground arith

positive :
    (q b m : ℤ)
    → is_pos q ≡ true
    → is_pos b ≡ true
    → (l : RateLimiter) × (new_limiter q b m ≡ some l)
unfolding new_limiter
positive (pos zero) b m h k = ground (arith, h)
positive (negsuc q) b m h k = ground (arith, h)
positive (pos (suc q)) (pos zero) m h k = ground (arith, k)
positive (pos (suc q)) (negsuc b) m h k = ground (arith, k)
positive (pos (suc q)) (pos (suc b)) (pos zero) h k = (_, refl)
positive (pos (suc q)) (pos (suc b)) (pos (suc m)) h k = (_, refl)
positive (pos (suc q)) (pos (suc b)) (negsuc m) h k = (_, refl)

-- A rate that is not zero and passes Validate makes a limiter.
limits-limiter :
    (s : Server)
    → limits_issues s ≡ []
    → is_zero s.dns.rate_limit_qps ≡ false
    → (l : RateLimiter) × (new_limiter s.dns.rate_limit_qps s.dns.rate_limit_burst
          s.dns.rate_limit_max_buckets
        ≡ some l)
unfolding limits_issues
limits-limiter s h z =
    let d = s.dns in
    let (qps, r) = ++-nil (issue_if (is_neg d.rate_limit_qps) _ _) _ h in
    let (burst, r') = ++-nil (issue_if (is_neg d.rate_limit_burst) _ _) _ r in
    let (rate, more) =
      ++-nil (issue_if (is_pos d.rate_limit_qps && ltb_ℤ d.rate_limit_burst d.rate_limit_qps) _ _) _
        r' in
    let a = issue_if-nil _ _ _ qps in
    let c = issue_if-nil _ _ _ rate in
    let on : is_pos d.rate_limit_qps ≡ true = ground (arith, a, z) in
    positive d.rate_limit_qps d.rate_limit_burst d.rate_limit_max_buckets on (ground (arith, c, on))

valid-limiter :
    (host : Host) (c : Settings)
    → validate host c ≡ []
    → is_zero c.server.dns.rate_limit_qps ≡ false
    → (l : RateLimiter) × (new_limiter c.server.dns.rate_limit_qps c.server.dns.rate_limit_burst
          c.server.dns.rate_limit_max_buckets
        ≡ some l)
unfolding validate validate_parts
valid-limiter host c v z =
    let (_, (_, (_, (_, (_, (_, (_, (_, (_, (limits, _)))))))))) =
      concat-nil (validate_parts host c) v in
    limits-limiter c.server limits z

loaded-qps :
    (env : Environment) (c : Settings)
    → env.getenv (codes "SIS_DNS_RATE_LIMIT_QPS") ≡ []
    → is_zero (apply_env_overrides env (apply_defaults c)).server.dns.rate_limit_qps ≡ false
unfolding apply_env_overrides override_server override_rest override_dns apply_defaults
    default_server default_dns set_parsed eqs
loaded-qps env c e =
    ap (λ v. is_zero (set_parsed env.atoi v (or_number c.server.dns.rate_limit_qps (pos 200)))) e
    ∙ or_number-is_zero c.server.dns.rate_limit_qps 199

-- Where the environment does not name the rate, a configuration that is loaded has a rate limiter: a
-- rate of 0 in the file does not turn it off.
pub load-limiter :
    (host : Host) (env : Environment) (c r : Settings)
    → load host env (some c) ≡ some r
    → env.getenv (codes "SIS_DNS_RATE_LIMIT_QPS") ≡ []
    → (l : RateLimiter) × (new_limiter r.server.dns.rate_limit_qps r.server.dns.rate_limit_burst
          r.server.dns.rate_limit_max_buckets
        ≡ some l)
unfolding load
load-limiter host env c r h e =
    let loaded = apply_env_overrides env (apply_defaults c) in
    elim (Bool-cases (is_nil (validate host loaded))) [
      | inr v ↦ ground (arith, v, h)
      | inl v ↦
          let same : loaded ≡ r = ground (arith, v, h) in
          subst
            (λ x.
              (l : RateLimiter) × (new_limiter x.server.dns.rate_limit_qps
                  x.server.dns.rate_limit_burst x.server.dns.rate_limit_max_buckets
                ≡ some l))
            same
            (valid-limiter host loaded (is_nil-nil (validate host loaded) v) (loaded-qps env c e))
    ]
