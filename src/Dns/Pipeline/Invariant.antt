-- ===== src/Dns/Pipeline/Invariant.antt =====
-- Handle answers every query and keeps the cache, the tables and the upstreams in order.
use sis.Base.{
  ℕ, ◌≡◌, refl, inl, inr, Bool, true, false, Option, none, some, List, [], ◌∷◌, Str, eqs, ◌==◌,
  if◌then◌else◌, Bool-cases, Option-cases, ◌>>=◌, codes,
}
use sis.Base.Results.{Result-cases}
use sis.Upstream.Pool.{Pool, Attempt, forward}
use sis.Upstream.Pool.Health
use sis.Upstream.Pool.Forwarding.{forward-bounds}
use sis.Stats.Counters.{Counters, add_domain, add_client, with_upstream}
use sis.Stats.Counters.Tables.Size.{IsTable, increment_top_counter-IsTable}
use sis.Dns.Message.{
  Msg, Question, rcode_server_failure, rcode_not_implemented, rcode_format_error, rcode_refused,
  opcode_query, class_inet,
}
use sis.Dns.Synthetic.{synth_rcode, synth_block}
use sis.Dns.Special.{strip_ecs}
use sis.Dns.Cache.{CacheKey, put}
use sis.Dns.Cache.Methods
use sis.Dns.Cache.Methods.{get-IsValid, put-IsValid}
use sis.Dns.Pipeline.{
  Pipeline, Environment, Clock, Client, Request, Response, Outcome, Source, synthetic, local,
  cached, from_upstream, record_upstream_attempts, finish, after_forward, give_up, relay, ask_pool,
  settle, handle_msg, admit, named, look_up, apply_policy, answer_question, check_message,
  limit_rate, handle, wants_strip_ecs, decide, canonical_name, first_question, block_options,
}

-- The three tables have no key twice and at most 10000 rows each.
pub record HasTables (c : Counters) : Type 0 where
  pub domains_ok : IsTable c.domains
  pub blocked_ok : IsTable c.blocked_domains
  pub clients_ok : IsTable c.clients

abbrev pub PoolIsValid : Option Pool → Type 0
PoolIsValid none = Unit
PoolIsValid (some p) = Health.IsValid p.clients

pub record IsSound {L : Type 0} (p : Pipeline L) : Type 0 where
  pub cache_ok : Methods.IsValid p.cache
  pub stats_ok : HasTables p.stats
  pub pool_ok : PoolIsValid p.upstream

add_domain-HasTables :
    (d : Str) (blocked : Bool) (c : Counters) → HasTables c → HasTables (add_domain d blocked c)
unfolding add_domain
add_domain-HasTables d blocked c h =
    let x = increment_top_counter-IsTable c.domains d h.domains_ok in
    let y = increment_top_counter-IsTable c.blocked_domains d h.blocked_ok in
    elim (Bool-cases (eqs d [])) [
      | inl e ↦ rw e h
      | inr e ↦ elim (Bool-cases blocked) [
        | inl f ↦ rw (e, f) (record { domains_ok = x; blocked_ok = y; clients_ok = h.clients_ok })
        | inr f ↦
            rw (e, f)
              (record { domains_ok = x; blocked_ok = h.blocked_ok; clients_ok = h.clients_ok })
      ]
    ]

add_client-HasTables : (k : Str) (c : Counters) → HasTables c → HasTables (add_client k c)
unfolding add_client
add_client-HasTables k c h = elim (Bool-cases (eqs k [])) [
  | inl e ↦ rw e h
  | inr e ↦ rw e (record {
    domains_ok = h.domains_ok;
    blocked_ok = h.blocked_ok;
    clients_ok = increment_top_counter-IsTable c.clients k h.clients_ok;
  })
]

-- Two counters with the same tables.
same_tables :
    (c d : Counters)
    → HasTables c
    → d.domains ≡ c.domains
    → d.blocked_domains ≡ c.blocked_domains
    → d.clients ≡ c.clients
    → HasTables d
same_tables c d h x y z = record {
  domains_ok = rw x h.domains_ok;
  blocked_ok = rw y h.blocked_ok;
  clients_ok = rw z h.clients_ok;
}

record_upstream_attempts-HasTables :
    (elapsed : ℕ) (attempts : List Attempt) (c : Counters)
    → HasTables c
    → HasTables (record_upstream_attempts elapsed attempts c)
unfolding record_upstream_attempts with_upstream
record_upstream_attempts-HasTables elapsed [] c h = h
record_upstream_attempts-HasTables elapsed (a ∷ rest) c h =
    record_upstream_attempts-HasTables elapsed rest _ (elim (Bool-cases (eqs a.id [])) [
      | inl e ↦ rw e h
      | inr e ↦ rw e (same_tables c _ h refl refl refl)
    ])

module _ {L E : Type 0} (env : Environment L E) (clock : Clock) where
  -- The outcome is a response and a sound pipeline.
  abbrev pub Answers : Outcome L → Type 0
  Answers o = (p : Pipeline L) × (r : Response) × (o ≡ some (p, r)) × IsSound p

  finish-IsSound :
      (p : Pipeline L) (r : Request) (id : Client) (questions : List Question) (msg : Msg)
      (source : Source) (blocked : Bool) (reason list : Str)
      → IsSound p
      → IsSound (finish env clock p r id questions msg source blocked reason list).0
  unfolding finish
  finish-IsSound p r id [] msg source blocked reason list s = record {
    cache_ok = s.cache_ok;
    stats_ok = same_tables p.stats _ s.stats_ok refl refl refl;
    pool_ok = s.pool_ok;
  }
  finish-IsSound p r id (q ∷ qs) msg source blocked reason list s = record {
    cache_ok = s.cache_ok;
    stats_ok =
        add_client-HasTables id.key _
          (add_domain-HasTables _ blocked _ (same_tables p.stats _ s.stats_ok refl refl refl));
    pool_ok = s.pool_ok;
  }

  -- A pipeline whose statistics differ in no table.
  recounted :
      (p : Pipeline L) (c : Counters) → HasTables c → IsSound p → IsSound (record p { stats = c })
  recounted p c h s = record { cache_ok = s.cache_ok; stats_ok = h; pool_ok = s.pool_ok }

  -- A response from finish.
  finished :
      (p : Pipeline L) (r : Request) (id : Client) (questions : List Question) (msg : Msg)
      (source : Source) (blocked : Bool) (reason list : Str)
      → IsSound p
      → Answers (some (finish env clock p r id questions msg source blocked reason list))
  finished p r id questions msg source blocked reason list s =
      let o = finish env clock p r id questions msg source blocked reason list in
      (o.0, o.1, refl, finish-IsSound p r id questions msg source blocked reason list s)

  -- A response from finish behind a Put.
  stored :
      (p : Pipeline L) (r : Request) (id : Client) (questions : List Question) (key : CacheKey)
      (msg : Msg) (source : Source) (blocked : Bool) (reason list : Str)
      → IsSound p
      → Answers (
          put env.codec p.cache key msg clock.at_put >>= λ c.
          some (
            finish env clock
              (record p { cache = c })
              r
              id
              questions
              msg
              source
              blocked
              reason
              list))
  stored p r id questions key msg source blocked reason list s =
      let (c, e, v) = put-IsValid env.codec p.cache key msg clock.at_put s.cache_ok in
      rw e (
        finished (record p { cache = c }) r id questions msg source blocked reason list
          (record { cache_ok = v; stats_ok = s.stats_ok; pool_ok = s.pool_ok }))

  -- The pipeline behind a call of Forward.
  forwarded :
      (p : Pipeline L) (pool : Pool) (msg : Msg)
      → IsSound p
      → PoolIsValid (some pool)
      → IsSound (after_forward env clock p (forward env.network (some pool) (some msg)))
  unfolding forward
  forwarded p pool msg s v = record {
    cache_ok = s.cache_ok;
    stats_ok = record_upstream_attempts-HasTables clock.at_attempts _ p.stats s.stats_ok;
    pool_ok = (forward-bounds env.network msg pool v).2;
  }

  give_up-Answers :
      (p : Pipeline L) (r : Request) (req : Msg) (id : Client) (key : CacheKey)
      → IsSound p
      → Answers (give_up env clock p r req id key)
  unfolding give_up
  give_up-Answers p r req id key s =
      stored p r id req.question key (synth_rcode env.names (some req) rcode_server_failure)
        synthetic false (codes "upstream-error") [] s

  ask_pool-Answers :
      (u : Option Pool) (p : Pipeline L) (r : Request) (req : Msg) (id : Client) (key : CacheKey)
      → PoolIsValid u
      → IsSound p
      → Answers (ask_pool env clock u p r req id key)
  unfolding ask_pool relay
  ask_pool-Answers none p r req id key v s = give_up-Answers p r req id key s
  ask_pool-Answers (some pool) p r req id key v s =
      let out = if wants_strip_ecs p.cfg then strip_ecs req else req in
      let s' = forwarded p pool out s v in
      let o = forward env.network (some pool) (some out) in
      elim (Result-cases o.2) [
        | inl ((resp, src), f) ↦
            rw f (stored _ r id req.question key resp (from_upstream src) false [] [] s')
        | inr (fault, f) ↦ rw f (give_up-Answers _ r req id key s')
      ]

  look_up-Answers :
      (p : Pipeline L) (r : Request) (req : Msg) (id : Client) (key : CacheKey)
      → IsSound p
      → Answers (look_up env clock p r req id key)
  unfolding look_up
  look_up-Answers p r req id key s =
      let (c, found, e, v) = get-IsValid env.codec p.cache key (some req) clock.at_get s.cache_ok in
      let counted : (d : Counters) → HasTables d → IsSound (record p { cache = c; stats = d }) =
        λ d h. record { cache_ok = v; stats_ok = h; pool_ok = s.pool_ok } in
      elim (Option-cases found) [
        | inl f ↦
            rw (e, f)
              (ask_pool-Answers p.upstream _ r req id key s.pool_ok
                (counted _ (same_tables p.stats _ s.stats_ok refl refl refl)))
        | inr (msg, f) ↦
            rw (e, f)
              (finished _ r id req.question msg cached false [] []
                (counted _ (same_tables p.stats _ s.stats_ok refl refl refl)))
      ]

  apply_policy-Answers :
      (p : Pipeline L) (r : Request) (req : Msg) (id : Client) (q : Question)
      → IsSound p
      → Answers (apply_policy env clock p r req id q)
  unfolding apply_policy
  apply_policy-Answers p r req id q s =
      let d = decide env clock p.policy id (canonical_name env clock q.name) in
      elim (Bool-cases d.blocked) [
        | inl f ↦ rw f (
            finished _ r id req.question
              (synth_block env.names req q.qtype (block_options env.parse_ip p.cfg)) synthetic true
              d.reason d.list (recounted p _ (same_tables p.stats _ s.stats_ok refl refl refl) s))
        | inr f ↦ rw f (look_up-Answers p r req id _ s)
      ]

  settle-Answers :
      (special : Option Msg) (p : Pipeline L) (r : Request) (req : Msg) (id : Client) (q : Question)
      → IsSound p
      → Answers (settle env clock special p r req id q)
  unfolding settle
  settle-Answers none p r req id q s = apply_policy-Answers p r req id q s
  settle-Answers (some resp) p r req id q s = finished p r id req.question resp local false [] [] s

  answer_question-Answers :
      (p : Pipeline L) (r : Request) (req : Msg) (id : Client) (q : Question)
      → IsSound p
      → Answers (answer_question env clock p r req id q)
  unfolding answer_question
  answer_question-Answers p r req id q s =
      settle-Answers _ _ r req id q
        (record { cache_ok = s.cache_ok; stats_ok = s.stats_ok; pool_ok = s.pool_ok })

  check_message-Answers :
      (p : Pipeline L) (r : Request) (req : Msg) (id : Client)
      → IsSound p
      → Answers (check_message env clock p r req id)
  unfolding check_message
  check_message-Answers p r req id s =
      let synth : ℕ → Msg = λ n. synth_rcode env.names (some req) n in
      elim (Bool-cases (req.opcode == opcode_query)) [
        | inr e ↦ rw e (
            finished p r id req.question (synth rcode_not_implemented) synthetic false
              (codes "unsupported-opcode") [] s)
        | inl e ↦ elim (Option-cases (first_question req.question)) [
          | inl f ↦
              rw (e, f)
                (finished p r id req.question (synth rcode_format_error) synthetic false [] [] s)
          | inr (q, f) ↦ elim (Bool-cases (q.qclass == class_inet)) [
            | inr g ↦
                rw (e, f, g)
                  (finished p r id req.question (synth rcode_refused) synthetic false
                    (codes "unsupported-class") [] s)
            | inl g ↦ rw (e, f, g) (answer_question-Answers p r req id q s)
          ]
        ]
      ]

  -- Handle on a request with the message.
  admitted :
      (p : Pipeline L) (r : Request) (req : Msg) → IsSound p → Answers (admit env clock p r req)
  unfolding admit limit_rate
  admitted p r req s =
      let o = limit_rate env clock p r.src_ip in
      let kept : (d : Counters) → HasTables d → IsSound (record o.0 { stats = d }) =
        λ d h. record { cache_ok = s.cache_ok; stats_ok = h; pool_ok = s.pool_ok } in
      elim (Bool-cases o.1) [
        | inl e ↦ rw e (
            check_message-Answers _ r req _
              (kept _ (same_tables p.stats _ s.stats_ok refl refl refl)))
        | inr e ↦ rw e (_, _, refl, kept _ (same_tables p.stats _ s.stats_ok refl refl refl))
      ]

  handle_msg-Answers :
      (m : Option Msg) (p : Pipeline L) (r : Request)
      → IsSound p
      → Answers (handle_msg env clock m p r)
  unfolding handle_msg
  handle_msg-Answers none p r s = (p, _, refl, s)
  handle_msg-Answers (some req) p r s = admitted p (named env clock r) req s

  -- Handle of a sound pipeline returns a response to every request, and keeps it sound: the cache within its
  -- limit and without a dangling element, the tables within theirs, every upstream's breaker in step.
  pub handle-IsSound :
      (p : Pipeline L) (r : Request)
      → IsSound p
      → (p' : Pipeline L) × (resp : Response) × (handle env clock p r ≡ some (p', resp))
        × IsSound p'
  unfolding handle
  handle-IsSound p r s = handle_msg-Answers r.msg p r s
