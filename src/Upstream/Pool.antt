-- ===== src/Upstream/Pool.antt =====
-- internal/upstream/pool.go: the pool, its circuit breaker, and forwarding with retries. Each method
-- runs alone here: what other goroutines do to the pool between two calls is not modelled.
pub mod Health
pub mod Forwarding
use sis.Base.{
  ℕ, zero, suc, ◌+◌, ◌*◌, ◌^◌, Bool, true, false, not, ◌&&◌, Option, none, some, List, [], ◌∷◌,
  ◌++◌, map, Str, eqs, leb, ltb, if◌then◌else◌,
}
use sis.Base.Results.{Result, ok, err}

-- The fields of config.Upstream that the pool reads; a negative number is read as 0, which the tests
-- `> 0` treat alike. A DoHClient is known by the configuration that it is made from.
pub record Upstream : Type 0 where
  pub id : Str
  pub circuit_breaker_threshold : ℕ
  pub health_probe_timeout : ℕ
  pub health_probe_interval : ℕ

pub record PooledClient : Type 0 where
  pub client : Upstream
  pub healthy : Bool
  pub errors : ℕ
  pub threshold : ℕ
  pub probe_timeout : ℕ

pub record Pool : Type 0 where
  pub clients : List PooledClient
  pub probe_interval : ℕ

pub record Attempt : Type 0 where
  pub id : Str
  pub success : Bool
  pub healthy : Bool

-- Durations are in nanoseconds.
abbrev pub second : ℕ
second = 1_000_000_000

abbrev pub minute : ℕ
minute = 60 * second

abbrev pub empty_pool : Pool
empty_pool = record { clients = []; probe_interval = 0 }

abbrev pub positive_or : ℕ → ℕ → ℕ
positive_or n d = if ltb 0 n then n else d

abbrev pub new_client : Upstream → PooledClient
new_client u = record {
  client = u;
  healthy = true;
  errors = 0;
  threshold = positive_or u.circuit_breaker_threshold 3;
  probe_timeout = positive_or u.health_probe_timeout (10 * second);
}

-- The loop of Replace.
abbrev pub add_client : Pool → Upstream → Pool
add_client p u = record {
  clients = p.clients ++ new_client u ∷ [];
  probe_interval =
      if ltb 0 u.health_probe_interval && leb p.probe_interval 0
      then u.health_probe_interval
      else p.probe_interval;
}

unfoldable pub add_clients : Pool → List Upstream → Pool
add_clients p [] = p
add_clients p (u ∷ us) = add_clients (add_client p u) us

-- `Replace`; what the pool held before is dropped.
unfoldable pub replace : Pool → List Upstream → Pool
unfolding add_clients
replace p upstreams = add_clients (record { clients = []; probe_interval = minute }) upstreams

-- `NewPool`.
unfoldable pub new_pool : List Upstream → Pool
unfolding replace
new_pool = replace empty_pool

-- The loops of markSuccess and markFailure, which stop at the first client with the id.
unfoldable pub mark_success : Str → List PooledClient → List PooledClient
mark_success id [] = []
mark_success id (c ∷ cs) =
    if eqs c.client.id id
    then record c { errors = 0; healthy = true } ∷ cs
    else c ∷ mark_success id cs

abbrev pub failed : PooledClient → PooledClient
failed c = record c {
  errors = c.errors + 1;
  healthy = if leb c.threshold (c.errors + 1) then false else c.healthy;
}

unfoldable pub mark_failure : Str → List PooledClient → List PooledClient
mark_failure id [] = []
mark_failure id (c ∷ cs) = if eqs c.client.id id then failed c ∷ cs else c ∷ mark_failure id cs

unfoldable pub is_healthy : Str → List PooledClient → Bool
is_healthy id [] = false
is_healthy id (c ∷ cs) = if eqs c.client.id id then c.healthy else is_healthy id cs

-- The candidates that Forward collects under the read lock.
unfoldable pub candidates : List PooledClient → List Upstream
candidates [] = []
candidates (c ∷ cs) = let rest = candidates cs in if c.healthy then c.client ∷ rest else rest

unfoldable pub healthy_ids : List PooledClient → List Str
unfolding candidates
healthy_ids cs = map (λ u. u.id) (candidates cs)

unfoldable pub all_ids : List PooledClient → List Str
all_ids cs = map (λ c. c.client.id) cs

-- `ProbeInterval`; `none` is the nil pool here and below.
unfoldable pub probe_interval : Option Pool → ℕ
probe_interval none = minute
probe_interval (some p) = if leb p.probe_interval 0 then minute else p.probe_interval

-- The loop of Test that looks for the client.
unfoldable pub find_client : Str → List PooledClient → Option Upstream
find_client id [] = none
find_client id (c ∷ cs) = if eqs c.client.id id then some c.client else find_client id cs

-- The clients that ProbeUnhealthy collects.
unfoldable pub unhealthy : List PooledClient → List Upstream
unhealthy [] = []
unhealthy (c ∷ cs) = let rest = unhealthy cs in if c.healthy then rest else c.client ∷ rest

pub data Fault (E : Type 0) : Type 0 where
  not_configured : Fault E
  message_required : Fault E
  no_healthy_upstreams : Fault E
  not_found : Str → Fault E
  caused : E → Fault E

-- The resolvers and the context: the reply to the n-th call of DoHClient.Forward, and whether the
-- context is done, with its error, at the wait behind a round.
pub record Network (Msg E : Type 0) : Type 0 where
  pub reply : ℕ → Upstream → Msg → Result E Msg
  pub done : ℕ → Option E

-- The variables of Forward's loops: the pool, the calls made, the attempts and the last error.
pub record Progress (E : Type 0) : Type 0 where
  pub clients : List PooledClient
  pub calls : ℕ
  pub attempts : List Attempt
  pub last_err : Option E

module _ {E : Type 0} where
  abbrev pub succeeded : Upstream → Progress E → Progress E
  succeeded c s = record s {
    clients = mark_success c.id s.clients;
    calls = s.calls + 1;
    attempts = s.attempts ++ record { id = c.id; success = true; healthy = true } ∷ [];
  }

  abbrev pub missed : Upstream → E → Progress E → Progress E
  missed c e s = record {
    clients = mark_failure c.id s.clients;
    calls = s.calls + 1;
    attempts =
        s.attempts
        ++ record {
          id = c.id;
          success = false;
          healthy = is_healthy c.id (mark_failure c.id s.clients);
        }
          ∷ [];
    last_err = some e;
  }

  abbrev pub last_fault : Option E → Fault E
  last_fault none = no_healthy_upstreams
  last_fault (some e) = caused e

  abbrev pub start : List PooledClient → Progress E
  start cs = record { clients = cs; calls = 0; attempts = []; last_err = none }

-- Retries of each upstream, and the rounds left after the first.
abbrev pub max_retries : ℕ
max_retries = 2

module _ {Msg E : Type 0} (net : Network Msg E) where
  -- One round over the candidates: the progress, and the reply with the id that gave it.
  unfoldable pub try_round : Msg → List Upstream → Progress E → Progress E × Option (Msg × Str)
  try_round msg [] s = (s, none)
  try_round msg (c ∷ cs) s = elim (net.reply s.calls c msg) [
    | ok resp ↦ (succeeded c s, some (resp, c.id))
    | err e ↦ try_round msg cs (missed c e s)
  ]

  -- The rounds: `left` more after this one, `attempt` before it. The wait of 50 ms << attempt ends by
  -- its timer or by the context.
  unfoldable pub try_rounds :
      ℕ → ℕ → Msg → List Upstream → Progress E → Progress E × Result (Fault E) (Msg × Str)
  unfolding try_round
  try_rounds zero attempt msg cs s =
      let (s', found) = try_round msg cs s in
      (s', elim found [ none ↦ err (last_fault s'.last_err) | some r ↦ ok r ])
  try_rounds (suc left) attempt msg cs s =
      let (s', found) = try_round msg cs s in
      let more = try_rounds left (attempt + 1) msg cs s' in
      elim found [
        | some r ↦ (s', ok r)
        | none ↦ elim (net.done attempt) [ some e ↦ (s', err (caused e)) | none ↦ more ]
      ]

  -- `Forward` on a pool and a message that are not nil.
  unfoldable pub forward_on : Pool → Msg → Progress E × Result (Fault E) (Msg × Str)
  unfolding try_rounds candidates
  forward_on p msg = try_rounds max_retries 0 msg (candidates p.clients) (start p.clients)

  -- `Forward`: the pool after it, the attempts, and the reply or the error.
  unfoldable pub forward :
      Option Pool → Option Msg → Option Pool × List Attempt × Result (Fault E) (Msg × Str)
  unfolding forward_on
  forward none msg = (none, [], err not_configured)
  forward (some p) none = (some p, [], err message_required)
  forward (some p) (some msg) =
      let (s, r) = forward_on p msg in (some (record p { clients = s.clients }), s.attempts, r)

  -- `Test`, the probe being call 0.
  unfoldable pub test : Option Pool → Str → Msg → Option Pool × Result (Fault E) Msg
  test none id probe = (none, err not_configured)
  test (some p) id probe = elim (find_client id p.clients) [
    | none ↦ (some p, err (not_found id))
    | some c ↦ elim (net.reply 0 c probe) [
      | err e ↦ (some (record p { clients = mark_failure id p.clients }), err (caused e))
      | ok resp ↦ (some (record p { clients = mark_success id p.clients }), ok resp)
    ]
  ]

  unfoldable pub probe_each : ℕ → Msg → List Upstream → List PooledClient → List PooledClient
  probe_each n probe [] cs = cs
  probe_each n probe (u ∷ us) cs = elim (net.reply n u probe) [
    | ok resp ↦ probe_each (n + 1) probe us (mark_success u.id cs)
    | err e ↦ probe_each (n + 1) probe us cs
  ]

  unfoldable pub probe_unhealthy : Pool → Msg → Pool
  unfolding unhealthy probe_each
  probe_unhealthy p probe = record p {
    clients = probe_each 0 probe (unhealthy p.clients) p.clients;
  }
