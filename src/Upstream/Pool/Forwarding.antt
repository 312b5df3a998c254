-- ===== src/Upstream/Pool/Forwarding.antt =====
-- Forward: how many attempts it makes, when it answers, and what it leaves of the pool.
use sis.Base.{
  ℕ, zero, suc, ◌+◌, ◌*◌, ◌≤◌, ◌≡◌, inl, inr, true, false, Option, none, some, List, [], ◌∷◌, ◌++◌,
  eqs, if◌then◌else◌, arith, Str, Option-cases, length, length-append, Member, here, there,
}
use sis.Base.Results.{ok, err, Result-cases}
use sis.Upstream.Pool.{
  Upstream, Pool, Attempt, mark_failure, is_healthy, candidates, Fault, Network, Progress, missed,
  try_round, try_rounds, start, forward_on,
}
use sis.Upstream.Pool.Health.{IsValid, mark_success-IsValid, mark_failure-IsValid}

-- How many of the attempts were made at the upstream with the id, and how many upstreams have it.
abbrev pub attempts_at : Str → List Attempt → ℕ
attempts_at id [] = 0
attempts_at id (a ∷ rest) = (if eqs a.id id then 1 else 0) + attempts_at id rest

abbrev pub named : Str → List Upstream → ℕ
named id [] = 0
named id (c ∷ cs) = (if eqs c.id id then 1 else 0) + named id cs

attempts_at-snoc :
    (id : Str) (made : List Attempt) (a : Attempt)
    → attempts_at id (made ++ a ∷ []) ≡ attempts_at id made + (if eqs a.id id then 1 else 0)
attempts_at-snoc id [] a = omega arith
attempts_at-snoc id (b ∷ made) a = omega (arith, attempts_at-snoc id made a)

module _ {Msg E : Type 0} (net : Network Msg E) (msg : Msg) where
  -- The attempts of a round, and what they leave of the breakers.
  record Round (cs : List Upstream) (s : Progress E) (r : Progress E × Option (Msg × Str))
      : Type 0 where
    valid : IsValid s.clients → IsValid r.0.clients
    bound : length r.0.attempts ≤ length s.attempts + length cs
    each : (id : Str) → attempts_at id r.0.attempts ≤ attempts_at id s.attempts + named id cs
    all_tried : r.1 ≡ none → length r.0.attempts ≡ length s.attempts + length cs

  try_round-Round : (cs : List Upstream) (s : Progress E) → Round cs s (try_round net msg cs s)
  unfolding try_round
  try_round-Round [] s = record {
    valid = λ v. v;
    bound = omega arith;
    each = λ id. omega arith;
    all_tried = λ h. omega arith;
  }
  try_round-Round (c ∷ cs) s = elim (Result-cases (net.reply s.calls c msg)) [
    | inl (r, e) ↦
        let n =
          length-append s.attempts (record { id = c.id; success = true; healthy = true } ∷ []) in
        rw (e, try_round)
          (record {
            valid = mark_success-IsValid c.id s.clients;
            bound = omega (arith, n);
            each = λ id. omega (
              arith,
              attempts_at-snoc id s.attempts (record { id = c.id; success = true; healthy = true }),
            );
            all_tried = λ h. cc;
          })
    | inr (k, e) ↦
        let h = is_healthy c.id (mark_failure c.id s.clients) in
        let n =
          length-append s.attempts (record { id = c.id; success = false; healthy = h } ∷ []) in
        let ih = try_round-Round cs (missed c k s) in
        rw (e, try_round)
          (record {
            valid = λ v. ih.valid (mark_failure-IsValid c.id s.clients v);
            bound = omega (arith, n, ih.bound);
            each = λ id. omega (
              arith,
              attempts_at-snoc id s.attempts (record { id = c.id; success = false; healthy = h }),
              ih.each id,
            );
            all_tried = λ f. omega (arith, n, ih.all_tried f);
          })
  ]

  -- An upstream that answers every call.
  abbrev pub Answers : Upstream → Type 0
  Answers c = (n : ℕ) → (resp : Msg) × (net.reply n c msg ≡ ok resp)

  try_round-answered :
      (cs : List Upstream) (s : Progress E) (c : Upstream)
      → Member c cs
      → Answers c
      → (r : Msg × Str) × ((try_round net msg cs s).1 ≡ some r)
  unfolding try_round
  try_round-answered [] s c m a = elim m [ ]
  try_round-answered (c ∷ cs) s _ here a =
      let (resp, e) = a s.calls in ((resp, c.id), rw (e, try_round))
  try_round-answered (c ∷ cs) s d (there m) a = elim (Result-cases (net.reply s.calls c msg)) [
    | inl (r, e) ↦ ((r, c.id), rw (e, try_round))
    | inr (k, e) ↦
        let (r, f) = try_round-answered cs (missed c k s) d m a in (r, rw (e, try_round) f)
  ]

  try_rounds-IsValid :
      (left attempt : ℕ) (cs : List Upstream) (s : Progress E)
      → IsValid s.clients
      → IsValid (try_rounds net left attempt msg cs s).0.clients
  unfolding try_rounds
  try_rounds-IsValid zero attempt cs s v = (try_round-Round cs s).valid v
  try_rounds-IsValid (suc left) attempt cs s v =
      let s' = (try_round net msg cs s).0 in
      let v' = (try_round-Round cs s).valid v in
      elim (Option-cases (try_round net msg cs s).1) [
        | inr (r, e) ↦ rw (e, try_rounds) v'
        | inl e ↦ elim (Option-cases (net.done attempt)) [
          | inr (k, f) ↦ rw (e, try_rounds) (rw f v')
          | inl f ↦ rw (e, try_rounds) (rw f (try_rounds-IsValid left (attempt + 1) cs s' v'))
        ]
      ]

  try_rounds-bound :
      (left attempt : ℕ) (cs : List Upstream) (s : Progress E)
      → length (try_rounds net left attempt msg cs s).0.attempts
        ≤ length s.attempts + suc left * length cs
  unfolding try_rounds
  try_rounds-bound zero attempt cs s = omega (arith, (try_round-Round cs s).bound)
  try_rounds-bound (suc left) attempt cs s =
      let s' = (try_round net msg cs s).0 in
      let b = (try_round-Round cs s).bound in
      let b' = try_rounds-bound left (attempt + 1) cs s' in
      elim (Option-cases (try_round net msg cs s).1) [
        | inr (r, e) ↦ rw (e, try_rounds) (omega (arith, b))
        | inl e ↦ elim (Option-cases (net.done attempt)) [
          | inr (k, f) ↦ rw (e, try_rounds) (rw f (omega (arith, b)))
          | inl f ↦ rw (e, try_rounds) (rw f (omega (arith, b, b')))
        ]
      ]

  try_rounds-each :
      (left attempt : ℕ) (cs : List Upstream) (s : Progress E) (id : Str)
      → attempts_at id (try_rounds net left attempt msg cs s).0.attempts
        ≤ attempts_at id s.attempts + suc left * named id cs
  unfolding try_rounds
  try_rounds-each zero attempt cs s id = omega (arith, (try_round-Round cs s).each id)
  try_rounds-each (suc left) attempt cs s id =
      let s' = (try_round net msg cs s).0 in
      let b = (try_round-Round cs s).each id in
      let b' = try_rounds-each left (attempt + 1) cs s' id in
      elim (Option-cases (try_round net msg cs s).1) [
        | inr (r, e) ↦ rw (e, try_rounds) (omega (arith, b))
        | inl e ↦ elim (Option-cases (net.done attempt)) [
          | inr (k, f) ↦ rw (e, try_rounds) (rw f (omega (arith, b)))
          | inl f ↦ rw (e, try_rounds) (rw f (omega (arith, b, b')))
        ]
      ]

  -- Where the context is never done, a failure comes only behind every round.
  try_rounds-exhausted :
      ((n : ℕ) → net.done n ≡ none)
      → (left attempt : ℕ) (cs : List Upstream) (s : Progress E) (fault : Fault E)
      → (try_rounds net left attempt msg cs s).1 ≡ err fault
      → length (try_rounds net left attempt msg cs s).0.attempts
        ≡ length s.attempts + suc left * length cs
  unfolding try_rounds
  try_rounds-exhausted open_ctx zero attempt cs s fault h =
      elim (Option-cases (try_round net msg cs s).1) [
        | inr (r, e) ↦ ground (arith, e)
        | inl e ↦ omega (arith, (try_round-Round cs s).all_tried e)
      ]
  try_rounds-exhausted open_ctx (suc left) attempt cs s fault h =
      let s' = (try_round net msg cs s).0 in
      elim (Option-cases (try_round net msg cs s).1) [
        | inr (r, e) ↦ ground (arith, e)
        | inl e ↦
            let f = open_ctx attempt in
            let b = (try_round-Round cs s).all_tried e in
            let ih =
              try_rounds-exhausted open_ctx left (attempt + 1) cs s' fault (ground (arith, e, f)) in
            rw (e, try_rounds) (rw f (omega (arith, b, ih)))
      ]

  try_rounds-answered :
      (left attempt : ℕ) (cs : List Upstream) (s : Progress E) (c : Upstream)
      → Member c cs
      → Answers c
      → (r : Msg × Str) × ((try_rounds net left attempt msg cs s).1 ≡ ok r)
  unfolding try_rounds
  try_rounds-answered zero attempt cs s c m a =
      let (r, e) = try_round-answered cs s c m a in (r, rw (e, try_rounds))
  try_rounds-answered (suc left) attempt cs s c m a =
      let (r, e) = try_round-answered cs s c m a in (r, rw (e, try_rounds))

  -- A reply was given by a candidate, under its id, to some call.
  abbrev Given : List Upstream → Msg × Str → Type 0
  Given cs r = (c : Upstream) × Member c cs × (n : ℕ) × (net.reply n c msg ≡ ok r.0) × (c.id ≡ r.1)

  try_round-Given :
      (cs : List Upstream) (s : Progress E) (r : Msg × Str)
      → (try_round net msg cs s).1 ≡ some r
      → Given cs r
  unfolding try_round
  try_round-Given [] s r h = cc
  try_round-Given (c ∷ cs) s r h = elim (Result-cases (net.reply s.calls c msg)) [
    | inl (m, e) ↦ (c, here, s.calls, ground (arith, e), ground (arith, e))
    | inr (k, e) ↦
        let (d, m, n, f, g) = try_round-Given cs (missed c k s) r (ground (arith, e)) in
        (d, there m, n, f, g)
  ]

  try_rounds-Given :
      (left attempt : ℕ) (cs : List Upstream) (s : Progress E) (r : Msg × Str)
      → (try_rounds net left attempt msg cs s).1 ≡ ok r
      → Given cs r
  unfolding try_rounds
  try_rounds-Given zero attempt cs s r h = elim (Option-cases (try_round net msg cs s).1) [
    | inr (q, e) ↦ try_round-Given cs s r (ground (arith, e))
    | inl e ↦ ground (arith, e)
  ]
  try_rounds-Given (suc left) attempt cs s r h = elim (Option-cases (try_round net msg cs s).1) [
    | inr (q, e) ↦ try_round-Given cs s r (ground (arith, e))
    | inl e ↦ elim (Option-cases (net.done attempt)) [
      | inr (k, f) ↦ ground (arith, e, f)
      | inl f ↦
          try_rounds-Given left (attempt + 1) cs (try_round net msg cs s).0 r (ground (arith, e, f))
    ]
  ]

  -- Forward makes at most three attempts at each upstream that is healthy when it starts, and none at
  -- another: three times as many under an id as such upstreams have it, and three times as many
  -- together as there are such upstreams. It keeps every breaker consistent, if it was at the start.
  pub forward-bounds :
      (p : Pool)
      → IsValid p.clients
      → ((id : Str)
          → attempts_at id (forward_on net p msg).0.attempts ≤ 3 * named id (candidates p.clients))
        × (length (forward_on net p msg).0.attempts ≤ 3 * length (candidates p.clients))
        × IsValid (forward_on net p msg).0.clients
  unfolding forward_on
  forward-bounds p v =
      let cs = candidates p.clients in
      (
        λ id. omega (arith, try_rounds-each 2 0 cs (start p.clients) id),
        omega (arith, try_rounds-bound 2 0 cs (start p.clients)),
        try_rounds-IsValid 2 0 cs (start p.clients) v,
      )

  -- Where an upstream that is healthy at the start answers every call, Forward returns a reply.
  pub forward-answered :
      (p : Pool) (c : Upstream)
      → Member c (candidates p.clients)
      → Answers c
      → (r : Msg × Str) × ((forward_on net p msg).1 ≡ ok r)
  unfolding forward_on
  forward-answered p c m a = try_rounds-answered 2 0 (candidates p.clients) (start p.clients) c m a

  -- What Forward returns is the reply of an upstream that was healthy at the start, under its id.
  pub forward-given :
      (p : Pool) (resp : Msg) (id : Str)
      → (forward_on net p msg).1 ≡ ok (resp, id)
      → (c : Upstream) × Member c (candidates p.clients)
        × (n : ℕ) × (net.reply n c msg ≡ ok resp)
        × (c.id ≡ id)
  unfolding forward_on
  forward-given p resp id h =
      try_rounds-Given 2 0 (candidates p.clients) (start p.clients) (resp, id) h

  -- Where the context is never done, Forward fails only after three attempts at each candidate.
  pub forward-exhausted :
      (p : Pool) (fault : Fault E)
      → ((n : ℕ) → net.done n ≡ none)
      → (forward_on net p msg).1 ≡ err fault
      → length (forward_on net p msg).0.attempts ≡ 3 * length (candidates p.clients)
  unfolding forward_on
  forward-exhausted p fault open_ctx h =
      let b = try_rounds-exhausted open_ctx 2 0 (candidates p.clients) (start p.clients) fault h in
      omega (arith, b)
