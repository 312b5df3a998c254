-- ===== src/Upstream/Pool/Health.antt =====
-- The circuit breaker.
use sis.Base.{
  ℕ, zero, suc, ◌<◌, ◌≡◌, refl, Bool, true, false, ◌&&◌, ◌||◌, Option, none, some, List, [], ◌∷◌,
  arith, Str, eqs, eqs_iff, eqs_refl, ltb, if◌then◌else◌, All, All-append,
}
use sis.Base.Map.{is_some}
use sis.Upstream.Pool.{
  Upstream, PooledClient, Pool, minute, new_client, add_client, add_clients, replace, mark_success,
  mark_failure, failed, is_healthy, probe_interval,
}

-- A client is healthy exactly as long as its consecutive errors are below its threshold.
pub record ClientIsValid (c : PooledClient) : Type 0 where
  pub armed : 0 < c.threshold
  pub breaker : c.healthy ≡ ltb c.errors c.threshold

abbrev pub IsValid : List PooledClient → Type 0
IsValid = All ClientIsValid

pub mark_success-IsValid :
    (id : Str) (cs : List PooledClient) → IsValid cs → IsValid (mark_success id cs)
unfolding mark_success
mark_success-IsValid id [] v = tt
mark_success-IsValid id (c ∷ cs) (v, vs) = ground (arith, mark_success-IsValid id cs vs)

pub mark_failure-IsValid :
    (id : Str) (cs : List PooledClient) → IsValid cs → IsValid (mark_failure id cs)
unfolding mark_failure
mark_failure-IsValid id [] v = tt
mark_failure-IsValid id (c ∷ cs) (v, vs) = ground (arith, mark_failure-IsValid id cs vs)

add_clients-IsValid :
    (p : Pool) (us : List Upstream) → IsValid p.clients → IsValid (add_clients p us).clients
unfolding add_clients
add_clients-IsValid p [] v = v
add_clients-IsValid p (u ∷ us) v = add_clients-IsValid (add_client p u) us (
    All-append ClientIsValid p.clients (new_client u ∷ []) v
      (record { armed = ground arith; breaker = ground arith }, tt))

-- A new configuration starts every client healthy, below its threshold.
pub replace-IsValid : (p : Pool) (us : List Upstream) → IsValid (replace p us).clients
unfolding replace
replace-IsValid p us = add_clients-IsValid _ us tt

add_clients-interval :
    (p : Pool) (us : List Upstream)
    → p.probe_interval ≡ minute
    → (add_clients p us).probe_interval ≡ minute
unfolding add_clients
add_clients-interval p [] h = h
add_clients-interval p (u ∷ us) h = add_clients-interval (add_client p u) us (ground arith)

-- The probe interval is one minute whatever the upstreams configure.
pub probe_interval-replace :
    (p : Pool) (us : List Upstream) → probe_interval (some (replace p us)) ≡ minute
unfolding replace probe_interval
probe_interval-replace p us =
    ground (arith, add_clients-interval (record { clients = []; probe_interval = minute }) us refl)

-- The client that an id names: the first one.
unfoldable pub client_at : Str → List PooledClient → Option PooledClient
client_at id [] = none
client_at id (c ∷ cs) = if eqs c.client.id id then some c else client_at id cs

abbrev pub reset : PooledClient → PooledClient
reset c = record c { errors = 0; healthy = true }

abbrev pub at : Bool → (PooledClient → PooledClient) → Option PooledClient → Option PooledClient
at b f none = none
at b f (some c) = some (if b then f c else c)

client_at-mark_failure :
    (id j : Str) (cs : List PooledClient)
    → client_at j (mark_failure id cs) ≡ at (eqs id j) failed (client_at j cs)
unfolding client_at mark_failure
client_at-mark_failure id j [] = refl
client_at-mark_failure id j (c ∷ cs) = ground (
  arith,
  eqs_iff c.client.id id,
  eqs_iff c.client.id j,
  eqs_iff id j,
  client_at-mark_failure id j cs,
)

client_at-mark_success :
    (id j : Str) (cs : List PooledClient)
    → client_at j (mark_success id cs) ≡ at (eqs id j) reset (client_at j cs)
unfolding client_at mark_success
client_at-mark_success id j [] = refl
client_at-mark_success id j (c ∷ cs) = ground (
  arith,
  eqs_iff c.client.id id,
  eqs_iff c.client.id j,
  eqs_iff id j,
  client_at-mark_success id j cs,
)

is_healthy-client_at :
    (id : Str) (cs : List PooledClient)
    → is_healthy id cs ≡ (elim (client_at id cs) [ none ↦ false | some c ↦ c.healthy ])
unfolding client_at is_healthy
is_healthy-client_at id [] = refl
is_healthy-client_at id (c ∷ cs) = ground (arith, is_healthy-client_at id cs)

-- A reply resets the client that gave it, and no other.
pub is_healthy-mark_success :
    (id j : Str) (cs : List PooledClient)
    → is_healthy j (mark_success id cs)
      ≡ ((eqs id j && is_some (client_at j cs)) || is_healthy j cs)
is_healthy-mark_success id j cs = ground (
  arith,
  is_healthy-client_at j (mark_success id cs),
  is_healthy-client_at j cs,
  client_at-mark_success id j cs,
)

-- `n` failures of one client in a row.
unfoldable pub failures : ℕ → Str → List PooledClient → List PooledClient
failures zero id cs = cs
failures (suc n) id cs = mark_failure id (failures n id cs)

failures_lem :
    (n : ℕ) (id : Str) (cs : List PooledClient) (c : PooledClient)
    → client_at id cs ≡ some c
    → 0 < c.threshold
    → (d : PooledClient) × (client_at id (failures n id (mark_success id cs)) ≡ some d)
      × (d.errors ≡ n)
      × (d.threshold ≡ c.threshold)
      × (d.healthy ≡ ltb n c.threshold)
unfolding failures
failures_lem zero id cs c h t = (
  reset c,
  ground (arith, client_at-mark_success id id cs, eqs_refl id),
  refl,
  refl,
  ground arith,
)
failures_lem (suc n) id cs c h t =
    let (d, e1, e2, e3, e4) = failures_lem n id cs c h t in
    (
      failed d,
      ground (
        arith,
        client_at-mark_failure id id (failures n id (mark_success id cs)),
        eqs_refl id,
        e1,
      ),
      ground (arith, e2),
      e3,
      ground (arith, e2, e3, e4),
    )

-- After a success, `n` failures in a row leave a client healthy exactly if `n` is below its threshold.
pub is_healthy-failures :
    (n : ℕ) (id : Str) (cs : List PooledClient) (c : PooledClient)
    → client_at id cs ≡ some c
    → 0 < c.threshold
    → is_healthy id (failures n id (mark_success id cs)) ≡ ltb n c.threshold
is_healthy-failures n id cs c h t =
    let (d, e1, e2, e3, e4) = failures_lem n id cs c h t in
    ground (arith, is_healthy-client_at id (failures n id (mark_success id cs)), e1, e4)
