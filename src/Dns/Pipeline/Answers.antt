-- ===== src/Dns/Pipeline/Answers.antt =====
-- What Handle answers before the cache and the upstreams are asked.
use sis.Base.{
  ◌≡◌, refl, sym, Bool, true, false, Option, none, some, List, [], ◌∷◌, Str, eqs, codes, ◌==◌,
  if◌then◌else◌,
}
use mathlib.Core.Path.{subst}
use sis.Dns.Message.{Msg, Question, opcode_query, class_inet, rcode_refused}
use sis.Dns.Synthetic.{synth_rcode, synth_block}
use sis.Dns.Special.{handle_special}
use sis.Stats.Counters.{inc_query, inc_rate_limited}
use sis.Dns.Pipeline.{
  Pipeline, Environment, Clock, Client, Request, Response, Outcome, Source, synthetic, local,
  source_text, finish, apply_policy, settle, answer_question, check_message, allow_on, limit_rate,
  admit, named, handle_msg, handle, decide, canonical_name, first_question, block_local_ptr,
  block_options, identity_for, touch,
}

module _ {L E : Type 0} (env : Environment L E) (clock : Clock) where
  -- The request carries a query of class IN for q, and the rate limiter lets it pass.
  pub record IsAccepted (p : Pipeline L) (r : Request) (req : Msg) (q : Question) : Type 0 where
    pub carried : r.msg ≡ some req
    pub passed : (allow_on env clock p.limiter r.src_ip).1 ≡ true
    pub is_query : (req.opcode == opcode_query) ≡ true
    pub asked : first_question req.question ≡ some q
    pub is_inet : (q.qclass == class_inet) ≡ true

  -- The special answer that the question gets, if it gets one.
  abbrev pub special_answer : Pipeline L → Msg → Question → Option Msg
  special_answer p req q =
      handle_special env.names env.platform.unicode.fold req (canonical_name env clock q.name)
        q.qtype (block_local_ptr p.cfg)

  -- A response with this message, made without cache, upstreams or policy being changed.
  abbrev pub AnswersAlone : Pipeline L → Msg → Source → Outcome L → Type 0
  AnswersAlone p msg source o =
      (p' : Pipeline L) × (resp : Response) × (o ≡ some (p', resp))
      × (p'.cache ≡ p.cache)
      × (p'.upstream ≡ p.upstream)
      × (p'.policy ≡ p.policy)
      × (resp.msg ≡ some (record msg { recursion_available = true }))
      × (resp.source ≡ source_text source)

  finish-AnswersAlone :
      (p : Pipeline L) (r : Request) (id : Client) (questions : List Question) (msg : Msg)
      (source : Source) (blocked : Bool) (reason list : Str)
      → AnswersAlone p msg source
          (some (finish env clock p r id questions msg source blocked reason list))
  unfolding finish
  finish-AnswersAlone p r id [] msg source blocked reason list =
      (_, _, refl, refl, refl, refl, refl, refl)
  finish-AnswersAlone p r id (q ∷ qs) msg source blocked reason list =
      (_, _, refl, refl, refl, refl, refl, refl)

  apply_policy-blocked :
      (p : Pipeline L) (r : Request) (req : Msg) (id : Client) (q : Question)
      → (decide env clock p.policy id (canonical_name env clock q.name)).blocked ≡ true
      → AnswersAlone p
          (synth_block env.names req q.qtype (block_options env.parse_ip p.cfg))
          synthetic
          (apply_policy env clock p r req id q)
  unfolding apply_policy
  apply_policy-blocked p r req id q h = rw h (
      finish-AnswersAlone _ r id req.question
        (synth_block env.names req q.qtype (block_options env.parse_ip p.cfg)) synthetic true
        (decide env clock p.policy id (canonical_name env clock q.name)).reason
        (decide env clock p.policy id (canonical_name env clock q.name)).list)

  check_message-accepted :
      (p : Pipeline L) (r : Request) (req : Msg) (id : Client) (q : Question)
      → (req.opcode == opcode_query) ≡ true
      → first_question req.question ≡ some q
      → (q.qclass == class_inet) ≡ true
      → check_message env clock p r req id ≡ answer_question env clock p r req id q
  unfolding check_message
  check_message-accepted p r req id q h k l = rw (h, k, l) refl

  -- The pipeline that the policy meets.
  abbrev at_policy : Pipeline L → Request → Client → Pipeline L
  at_policy p r id = record p {
    limiter = (allow_on env clock p.limiter r.src_ip).0;
    stats = inc_query p.stats;
    effects = touch p.client_id id p.effects;
  }

  -- The client that the request is attributed to.
  abbrev pub client_of : Pipeline L → Request → Client
  client_of p r = identity_for env clock p.client_id r.src_ip

  admit-accepted :
      (p : Pipeline L) (r : Request) (req : Msg) (q : Question)
      → IsAccepted p r req q
      → admit env clock p (named env clock r) req
        ≡ settle env clock
            (special_answer p req q)
            (at_policy p r (client_of p r))
            (named env clock r)
            req
            (client_of p r)
            q
  unfolding admit limit_rate answer_question
  admit-accepted p r req q a =
      let o = limit_rate env clock p r.src_ip in
      rw a.passed (check_message-accepted _ _ req _ q a.is_query a.asked a.is_inet)

  handle-accepted :
      (p : Pipeline L) (r : Request) (req : Msg) (q : Question)
      → IsAccepted p r req q
      → handle env clock p r
        ≡ settle env clock
            (special_answer p req q)
            (at_policy p r (client_of p r))
            (named env clock r)
            req
            (client_of p r)
            q
  unfolding handle handle_msg
  handle-accepted p r req q a =
      subst
        (λ m.
          handle_msg env clock m p r
          ≡ settle env clock (special_answer p req q) (at_policy p r (client_of p r))
              (named env clock r) req (client_of p r) q)
        (sym a.carried) (admit-accepted p r req q a)

  -- An accepted query for a special name gets that answer, and changes neither the cache, nor the
  -- upstreams, nor the policy.
  pub handle-special :
      (p : Pipeline L) (r : Request) (req : Msg) (q : Question) (resp : Msg)
      → IsAccepted p r req q
      → special_answer p req q ≡ some resp
      → AnswersAlone p resp local (handle env clock p r)
  handle-special p r req q resp a s =
      subst (AnswersAlone p resp local) (sym (handle-accepted p r req q a)) (
        subst
          (λ m. AnswersAlone p resp local (
            settle env clock m (at_policy p r (client_of p r)) (named env clock r) req
              (client_of p r) q))
          (sym s)
          (unfold settle in
            finish-AnswersAlone (at_policy p r (client_of p r)) (named env clock r) (client_of p r)
              req.question resp local false [] []))

  -- An accepted query that is not for a special name and that the policy blocks gets the block answer,
  -- and changes neither the cache, nor the upstreams, nor the policy.
  pub handle-blocked :
      (p : Pipeline L) (r : Request) (req : Msg) (q : Question)
      → IsAccepted p r req q
      → special_answer p req q ≡ none
      → (decide env clock p.policy (client_of p r) (canonical_name env clock q.name)).blocked ≡ true
      → AnswersAlone p
          (synth_block env.names req q.qtype (block_options env.parse_ip p.cfg))
          synthetic
          (handle env clock p r)
  handle-blocked p r req q a s b =
      let msg = synth_block env.names req q.qtype (block_options env.parse_ip p.cfg) in
      subst (AnswersAlone p msg synthetic) (sym (handle-accepted p r req q a)) (
        subst
          (λ m. AnswersAlone p msg synthetic (
            settle env clock m (at_policy p r (client_of p r)) (named env clock r) req
              (client_of p r) q))
          (sym s)
          (unfold settle in
            apply_policy-blocked (at_policy p r (client_of p r)) (named env clock r) req
              (client_of p r) q b))

  -- The pipeline and the response of a query over the rate: it is refused over TCP and dropped
  -- otherwise.
  abbrev pub limited : Pipeline L → Request → Msg → Pipeline L × Response
  limited p r req = (
    record p {
      limiter = (allow_on env clock p.limiter r.src_ip).0;
      stats = inc_rate_limited p.stats;
    },
    record {
      msg =
          if eqs r.proto (codes "tcp")
          then some (synth_rcode env.names (some req) rcode_refused)
          else none;
      source = codes "rate-limit";
      latency = 0;
    },
  )

  admit-limited :
      (p : Pipeline L) (r : Request) (req : Msg)
      → (allow_on env clock p.limiter r.src_ip).1 ≡ false
      → admit env clock p (named env clock r) req ≡ some (limited p r req)
  unfolding admit limit_rate
  admit-limited p r req h = rw h refl

  -- A query over the rate is refused over TCP and dropped otherwise; only the limiter and the counter of
  -- such queries change.
  pub handle-limited :
      (p : Pipeline L) (r : Request) (req : Msg)
      → r.msg ≡ some req
      → (allow_on env clock p.limiter r.src_ip).1 ≡ false
      → handle env clock p r ≡ some (limited p r req)
  unfolding handle handle_msg
  handle-limited p r req c h =
      subst (λ m. handle_msg env clock m p r ≡ some (limited p r req)) (sym c)
        (admit-limited p r req h)
