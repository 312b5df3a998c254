-- ===== src/Tests/Upstreams.antt =====
-- The pool at concrete inputs.
use sis.Base.{
  ℕ, ◌*◌, ◌≤◌, ◌<◌, ◌≡◌, refl, Bool, true, false, Option, none, some, List, [], ◌∷◌, Str, codes,
  arith, length, ltb, Member, here,
}
use sis.Base.Results.{ok, err}
use sis.Upstream.Pool.{
  Upstream, Pool, PooledClient, Network, caused, replace, empty_pool, new_client, candidates,
  forward_on, probe_interval, minute, mark_success, is_healthy,
}
use sis.Upstream.Pool.Health
use sis.Upstream.Pool.Health.{
  failures, client_at, replace-IsValid, is_healthy-failures, probe_interval-replace,
}
use sis.Upstream.Pool.Forwarding.{attempts_at, named, forward-bounds, forward-answered}

abbrev pub quad : Upstream
quad = record {
  id = codes "quad";
  circuit_breaker_threshold = 3;
  health_probe_timeout = 0;
  health_probe_interval = 5;
}

abbrev pub quad_client : PooledClient
quad_client = new_client quad

abbrev pub one_client : Pool
one_client = record { clients = quad_client ∷ []; probe_interval = minute }

-- A network that answers every call with 7, and one that answers none; neither context is done.
abbrev answering : Network ℕ ℕ
answering = record { reply = λ n u m. ok 7; done = λ n. none }

abbrev silent : Network ℕ ℕ
silent = record { reply = λ n u m. err 1; done = λ n. none }

pub one_client-IsValid : Health.IsValid one_client.clients
one_client-IsValid = (record { armed = omega arith; breaker = refl }, tt)

forward-bounds_example :
    ((id : Str)
      → attempts_at id (forward_on silent one_client 0).0.attempts
        ≤ 3 * named id (candidates one_client.clients))
    × (length (forward_on silent one_client 0).0.attempts
        ≤ 3 * length (candidates one_client.clients))
    × Health.IsValid (forward_on silent one_client 0).0.clients
forward-bounds_example = forward-bounds silent 0 one_client one_client-IsValid

quad_is_candidate : Member quad (candidates one_client.clients)
unfolding candidates
quad_is_candidate = here

forward-answered_example : (r : ℕ × Str) × ((forward_on answering one_client 0).1 ≡ ok r)
forward-answered_example =
    forward-answered answering 0 one_client quad quad_is_candidate (λ n. (7, refl))

silent_fails : (forward_on silent one_client 0).1 ≡ err (caused 1)
unfolding forward_on
silent_fails = refl

quad_found : client_at (codes "quad") one_client.clients ≡ some quad_client
unfolding client_at sis.Base.eqs
quad_found = refl

is_healthy-failures_example :
    is_healthy
      (codes "quad")
      (failures 3 (codes "quad") (mark_success (codes "quad") one_client.clients))
    ≡ ltb 3 3
is_healthy-failures_example =
    is_healthy-failures 3 (codes "quad") one_client.clients quad_client quad_found (omega arith)

probe_interval-replace_example : probe_interval (some (replace empty_pool (quad ∷ []))) ≡ minute
probe_interval-replace_example = probe_interval-replace empty_pool (quad ∷ [])
