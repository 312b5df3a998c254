-- ===== src/Dns/Pipeline.antt =====
-- internal/dns/pipeline.go: a query on its way through the rate limiter, the policy, the cache and
-- the upstreams. Handle runs alone here, from its first line to its last.
pub mod Invariant
pub mod Answers
use sis.Base.{
  ℕ, ◌/◌, Bool, true, false, not, ◌&&◌, ◌||◌, Option, none, some, List, [], ◌∷◌, ◌++◌, Str, codes,
  eqs, ◌==◌, if◌then◌else◌, ◌>>=◌,
}
use sis.Base.Results.{Result, ok, err}
use sis.Policy.Engine.{Engine, Platform, Decision, allowed, policy_for, evaluate}
use sis.Policy.Group
use sis.Upstream.Pool.{Pool, Attempt, Network, Fault, forward}
use sis.Stats.Counters.{
  Counters, inc_query, inc_cache_hit, inc_cache_miss, inc_blocked, inc_rate_limited,
  observe_latency, add_domain, add_client, with_upstream,
}
use sis.Stats.Counters.Upstreams.{
  UpstreamCounters, inc_request, inc_error, clear_errors, mark_unhealthy, observe_upstream,
}
use sis.Dns.Message.{
  Ip, Rr, Question, Msg, Codec, opcode_query, class_inet, rcode_refused, rcode_not_implemented,
  rcode_format_error, rcode_server_failure,
}
use sis.Dns.Cache.{Cache, CacheKey, get, put}
use sis.Dns.Synthetic.{Names, BlockOptions, ipv4_zero, ipv6_zero, synth_rcode, synth_block}
use sis.Dns.Special.{handle_special, strip_ecs}

-- `Identity` of the client; the nil address is `none`.
pub record Client : Type 0 where
  pub key : Str
  pub kind : Str
  pub ip : Option Ip

-- The time that the request started at is the clock's (below), which tells what has passed since.
pub record Request : Type 0 where
  pub msg : Option Msg
  pub src_ip : Option Ip
  pub proto : Str
  pub request_id : Str

-- Latencies are in nanoseconds.
pub record Response : Type 0 where
  pub msg : Option Msg
  pub source : Str
  pub latency : ℕ

-- The settings of the configuration that the pipeline reads.
pub record Settings : Type 0 where
  pub block_local_ptr : Bool
  pub strip_ecs : Bool
  pub response_a : Str
  pub response_aaaa : Str
  pub response_ttl : ℕ
  pub use_nxdomain : Bool

-- A row of the query log, less its time stamp; the answers stand as the records they are printed from.
pub record Entry : Type 0 where
  pub request_id : Str
  pub client_key : Str
  pub client_ip : Str
  pub client_name : Str
  pub client_group : Str
  pub qname : Str
  pub qtype : ℕ
  pub qclass : ℕ
  pub rcode : ℕ
  pub answers : List Rr
  pub blocked : Bool
  pub block_reason : Str
  pub block_list : Str
  pub upstream : Str
  pub cache_hit : Bool
  pub latency_us : ℕ
  pub proto : Str

-- The calls that leave the pipeline: `Touch` of the client table and `Write` of the query log.
pub data Effect : Type 0 where
  touched : Client → Effect
  logged : Entry → Effect

-- `Resolve` and `Metadata` of the client table.
pub record ClientTable : Type 0 where
  pub resolve : Option Ip → Client
  pub metadata : Str → Str × Str

-- What the pipeline runs on: the limiter's `Allow`, the package of messages, the network, the
-- policy's platform, net.ParseIP and IP.String, and the id in the request's context.
pub record Environment (L E : Type 0) : Type 0 where
  pub allow : L → Option Ip → L × Bool
  pub codec : Codec
  pub names : Names
  pub network : Network Msg E
  pub platform : Platform
  pub parse_ip : Str → Option Ip
  pub ip_string : Option Ip → Str
  pub context_id : Str

-- What the clock tells at the calls that read it.
pub record Clock : Type 0 where
  pub at_policy : ℕ
  pub at_get : ℕ
  pub at_put : ℕ
  pub since_start : ℕ
  pub at_attempts : ℕ

-- The pipeline's parts, with the calls made; `log` tells whether there is a query log.
pub record Pipeline (L : Type 0) : Type 0 where
  pub cfg : Option Settings
  pub cache : Cache
  pub policy : Option Engine
  pub upstream : Option Pool
  pub log : Bool
  pub stats : Counters
  pub client_id : Option ClientTable
  pub limiter : Option L
  pub effects : List Effect

-- The pipeline and the response, unless the cache faulted.
abbrev pub Outcome : Type 0 → Type 0
Outcome L = Option (Pipeline L × Response)

abbrev pub first_question : List Question → Option Question
first_question [] = none
first_question (q ∷ qs) = some q

-- The source of a response: `upstream:` and the id for an upstream's.
pub data Source : Type 0 where
  synthetic : Source
  local : Source
  cached : Source
  from_upstream : Str → Source

abbrev pub source_text : Source → Str
source_text synthetic = codes "synthetic"
source_text local = codes "local"
source_text cached = codes "cache"
source_text (from_upstream id) = codes "upstream:" ++ id

-- `upstreamSource(source)` and `source == "cache"`.
abbrev pub source_upstream : Source → Str
source_upstream synthetic = []
source_upstream local = []
source_upstream cached = []
source_upstream (from_upstream id) = id

abbrev pub source_is_cache : Source → Bool
source_is_cache synthetic = false
source_is_cache local = false
source_is_cache cached = true
source_is_cache (from_upstream id) = false

-- `blockLocalPTR`, `stripECS` and `blockOptions`; `none` is the missing configuration.
unfoldable pub block_local_ptr : Option Settings → Bool
block_local_ptr none = true
block_local_ptr (some c) = c.block_local_ptr

unfoldable pub wants_strip_ecs : Option Settings → Bool
wants_strip_ecs none = true
wants_strip_ecs (some c) = c.strip_ecs

abbrev pub or_default : Option Ip → Ip → Option Ip
or_default none ip = some ip
or_default (some a) ip = some a

unfoldable pub block_options : (Str → Option Ip) → Option Settings → BlockOptions
block_options parse_ip none = record {
  response_a = some ipv4_zero;
  response_aaaa = some ipv6_zero;
  ttl = 60_000_000_000;
  use_nxdomain = false;
}
block_options parse_ip (some c) = record {
  response_a = or_default (parse_ip c.response_a) ipv4_zero;
  response_aaaa = or_default (parse_ip c.response_aaaa) ipv6_zero;
  ttl = c.response_ttl;
  use_nxdomain = c.use_nxdomain;
}

-- What recordUpstreamAttempts does to the counters of one attempt.
unfoldable pub record_attempt : ℕ → Attempt → UpstreamCounters → UpstreamCounters
record_attempt elapsed a u =
    if a.success
    then observe_upstream elapsed (clear_errors (inc_request u))
    else if a.healthy
    then inc_error (inc_request u)
    else mark_unhealthy (inc_error (inc_request u))

-- `recordUpstreamAttempts`; the latency since the start is the same for all attempts here.
unfoldable pub record_upstream_attempts : ℕ → List Attempt → Counters → Counters
unfolding record_attempt
record_upstream_attempts elapsed [] c = c
record_upstream_attempts elapsed (a ∷ rest) c =
    record_upstream_attempts elapsed rest (with_upstream a.id (record_attempt elapsed a) c)

abbrev pub table_metadata : Option ClientTable → Str → Str × Str
table_metadata none key = ([], [])
table_metadata (some t) key = t.metadata key

-- `Touch` where there is a client table.
abbrev pub touch : Option ClientTable → Client → List Effect → List Effect
touch none id effects = effects
touch (some t) id effects = effects ++ touched id ∷ []

module _ {L E : Type 0} (env : Environment L E) (clock : Clock) where
  -- `canonicalName`.
  abbrev pub canonical_name : Str → Str
  canonical_name name = env.names.fqdn (env.names.canonical_name name)

  -- `clientKey` and `identityFor`.
  unfoldable pub identity_for : Option ClientTable → Option Ip → Client
  identity_for none none = record { key = []; kind = codes "ip"; ip = none }
  identity_for none (some ip) = record {
    key = env.ip_string (some ip);
    kind = codes "ip";
    ip = some ip;
  }
  identity_for (some t) ip = t.resolve ip

  -- The row that finish writes.
  abbrev pub new_entry :
      Pipeline L → Request → Client → Question → Msg → Source → Bool → Str → Str → Entry
  new_entry p r id q msg source blocked reason list = record {
    request_id = r.request_id;
    client_key = id.key;
    client_ip = env.ip_string id.ip;
    client_name = (table_metadata p.client_id id.key).0;
    client_group = (table_metadata p.client_id id.key).1;
    qname = q.name;
    qtype = q.qtype;
    qclass = q.qclass;
    rcode = msg.rcode;
    answers = msg.answer;
    blocked = blocked;
    block_reason = reason;
    block_list = list;
    upstream = source_upstream source;
    cache_hit = source_is_cache source;
    latency_us = clock.since_start / 1000;
    proto = r.proto;
  }

  -- `finish`, for a message that is not nil.
  unfoldable pub finish :
      Pipeline L
      → Request
      → Client
      → List Question
      → Msg
      → Source
      → Bool
      → Str
      → Str
      → Pipeline L × Response
  finish p r id questions msg0 source blocked reason list =
      let msg : Msg = record msg0 { recursion_available = true } in
      let timed = observe_latency clock.since_start p.stats in
      let response : Response = record {
        msg = some msg;
        source = source_text source;
        latency = clock.since_start;
      } in
      (
        elim questions as (λ _. Pipeline L) [
          | [] ↦ record p { stats = timed }
          | q ∷ qs ↦ record p {
            stats = add_client id.key (add_domain (canonical_name q.name) blocked timed);
            effects =
                if p.log
                then p.effects ++ logged (new_entry p r id q msg source blocked reason list) ∷ []
                else p.effects;
          }
        ],
        response,
      )

  -- Handle behind the cache: the upstreams, and SERVFAIL where there is none or they fail.
  unfoldable pub give_up : Pipeline L → Request → Msg → Client → CacheKey → Outcome L
  unfolding finish
  give_up p r req id key =
      let failure = synth_rcode env.names (some req) rcode_server_failure in
      put env.codec p.cache key failure clock.at_put >>= λ c. some (
        finish (record p { cache = c }) r id req.question failure synthetic false
          (codes "upstream-error") [])

  -- The pipeline behind Forward, and the response or the error.
  abbrev pub after_forward :
      Pipeline L → Option Pool × List Attempt × Result (Fault E) (Msg × Str) → Pipeline L
  after_forward p o = record p {
    upstream = o.0;
    stats = record_upstream_attempts clock.at_attempts o.1 p.stats;
  }

  unfoldable pub relay :
      Pipeline L → Request → Msg → Client → CacheKey → Result (Fault E) (Msg × Str) → Outcome L
  unfolding give_up
  relay p r req id key (err fault) = give_up p r req id key
  relay p r req id key (ok (resp, src)) = put env.codec p.cache key resp clock.at_put >>= λ c.
      some (finish (record p { cache = c }) r id req.question resp (from_upstream src) false [] [])

  unfoldable pub ask_pool : Option Pool → Pipeline L → Request → Msg → Client → CacheKey → Outcome L
  unfolding relay
  ask_pool none p r req id key = give_up p r req id key
  ask_pool (some pool) p r req id key =
      let out = if wants_strip_ecs p.cfg then strip_ecs req else req in
      let o = forward env.network (some pool) (some out) in
      relay (after_forward p o) r req id key o.2

  -- Handle behind the policy: the cache, then the upstreams.
  unfoldable pub look_up : Pipeline L → Request → Msg → Client → CacheKey → Outcome L
  unfolding ask_pool
  look_up p r req id key = get env.codec p.cache key (some req) clock.at_get >>= λ (c, found).
      let p' : Pipeline L = record p { cache = c } in
      elim found [
        | some msg ↦ some (
            finish (record p' { stats = inc_cache_hit p'.stats }) r id req.question msg cached false
              [] [])
        | none ↦ ask_pool p'.upstream (record p' { stats = inc_cache_miss p'.stats }) r req id key
      ]

  -- The engine's decision on a name; the policy's identity is the client's, its address printed.
  -- Without an engine nothing is blocked.
  unfoldable pub decide : Option Engine → Client → Str → Decision
  decide none id qname = allowed
  decide (some engine) id qname =
      evaluate env.platform
        (some
          (policy_for engine (record { key = id.key; kind = id.kind; ip = env.ip_string id.ip })))
        qname clock.at_policy

  -- Handle behind the special names: the policy, then the cache.
  unfoldable pub apply_policy : Pipeline L → Request → Msg → Client → Question → Outcome L
  unfolding decide look_up
  apply_policy p r req id q =
      let qname = canonical_name q.name in
      let key : CacheKey = record { qname = qname; qtype = q.qtype; qclass = q.qclass } in
      let d = decide p.policy id qname in
      if d.blocked
      then some (
          finish (record p { stats = inc_blocked p.stats }) r id req.question
            (synth_block env.names req q.qtype (block_options env.parse_ip p.cfg)) synthetic true
            d.reason d.list)
      else look_up p r req id key

  -- The special names' answer, or the policy's.
  unfoldable pub settle : Option Msg → Pipeline L → Request → Msg → Client → Question → Outcome L
  unfolding apply_policy
  settle none p r req id q = apply_policy p r req id q
  settle (some resp) p r req id q = some (finish p r id req.question resp local false [] [])

  -- Handle behind the checks of the message: Touch, the special names, then the policy.
  unfoldable pub answer_question : Pipeline L → Request → Msg → Client → Question → Outcome L
  unfolding settle
  answer_question p r req id q =
      let special =
        handle_special env.names env.platform.unicode.fold req (canonical_name q.name) q.qtype
          (block_local_ptr p.cfg) in
      settle special (record p { effects = touch p.client_id id p.effects }) r req id q

  -- Handle behind the rate limiter: the checks of the message.
  unfoldable pub check_message : Pipeline L → Request → Msg → Client → Outcome L
  unfolding answer_question
  check_message p r req id =
      if not (req.opcode == opcode_query)
      then some (
          finish p r id req.question (synth_rcode env.names (some req) rcode_not_implemented)
            synthetic false (codes "unsupported-opcode") [])
      else elim (first_question req.question) [
        | none ↦ some (
            finish p r id req.question (synth_rcode env.names (some req) rcode_format_error)
              synthetic false [] [])
        | some q ↦
            if not (q.qclass == class_inet)
            then some (
                finish p r id req.question (synth_rcode env.names (some req) rcode_refused)
                  synthetic false (codes "unsupported-class") [])
            else answer_question p r req id q
      ]

  -- `Allow` of a limiter that may be nil.
  unfoldable pub allow_on : Option L → Option Ip → Option L × Bool
  allow_on none ip = (none, true)
  allow_on (some l) ip = let (l', passed) = env.allow l ip in (some l', passed)

  -- `rateLimiter` and `Allow`: the pipeline after it, and whether the query passes.
  unfoldable pub limit_rate : Pipeline L → Option Ip → Pipeline L × Bool
  limit_rate p ip =
      let (limiter, passed) = allow_on p.limiter ip in (record p { limiter = limiter }, passed)

  -- The refusal of a query over the limit: an answer over TCP, none over UDP.
  abbrev pub refuse : Request → Msg → Response
  refuse r req = record {
    msg =
        if eqs r.proto (codes "tcp")
        then some (synth_rcode env.names (some req) rcode_refused)
        else none;
    source = codes "rate-limit";
    latency = 0;
  }

  -- The request with its id, taken from the context if it has none.
  abbrev pub named : Request → Request
  named r = record r { request_id = if eqs r.request_id [] then env.context_id else r.request_id }

  -- `Handle` on a request with the message.
  unfoldable pub admit : Pipeline L → Request → Msg → Outcome L
  unfolding check_message limit_rate
  admit p r req =
      let o = limit_rate p r.src_ip in
      if o.1
      then check_message (record o.0 { stats = inc_query o.0.stats }) r req
          (identity_for o.0.client_id r.src_ip)
      else some (record o.0 { stats = inc_rate_limited o.0.stats }, refuse r req)

  -- `Handle` on the request and its message.
  unfoldable pub handle_msg : Option Msg → Pipeline L → Request → Outcome L
  unfolding admit
  handle_msg (some req) p r = admit p (named r) req
  handle_msg none p r = some (
    p,
    record {
      msg = some (synth_rcode env.names none rcode_server_failure);
      source = codes "synthetic";
      latency = 0;
    },
  )

  -- `Handle`; a request without message stands for a nil request too.
  unfoldable pub handle : Pipeline L → Request → Outcome L
  unfolding handle_msg
  handle p r = handle_msg r.msg p r
