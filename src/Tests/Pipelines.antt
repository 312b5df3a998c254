-- ===== src/Tests/Pipelines.antt =====
-- The pipeline at concrete inputs.
use sis.Base.{
  ℕ, ◌-◌, ◌≡◌, refl, Bool, true, false, Option, none, some, List, [], ◌∷◌, Str, codes, arith, ltb,
}
use sis.Base.Results.{ok}
use sis.Policy.Engine.{policy_for, is_allowed, add_custom_block}
use sis.Policy.Engine.Update.{evaluate-add_custom_block}
use sis.Policy.Group.{Identity}
use sis.Stats.Counters.{new_counters}
use sis.Dns.Message.{Msg, Question, empty_msg, rcode_name_error}
use sis.Dns.Cache.Methods.{new_cache-IsValid}
use sis.Dns.Synthetic.{synth_block, synth_rcode}
use sis.Dns.Pipeline.{
  Pipeline, Environment, Clock, Request, Response, Outcome, synthetic, local, handle, decide,
  allow_on, block_options, identity_for,
}
use sis.Dns.Pipeline.Invariant.{IsSound, handle-IsSound}
use sis.Dns.Pipeline.Answers.{AnswersAlone, IsAccepted, client_of, special_answer, handle-blocked}
use sis.Tests.Data.{platform, ads}
use sis.Tests.Caches.{one_message, small_options, empty_cache, reply}
use sis.Tests.Upstreams.{one_client, one_client-IsValid}
use sis.Tests.Engines.{small_engine, everyone, below_is_covered}

-- The limiter counts down.
abbrev env : Environment ℕ ℕ
env = record {
  allow = λ l ip. (l - 1, ltb 0 l);
  codec = one_message;
  names = record {
    set_reply = λ m. record m { response = true };
    fqdn = λ s. s;
    canonical_name = λ s. s;
  };
  network = record { reply = λ n u m. ok reply; done = λ n. none };
  platform = platform;
  parse_ip = λ s. none;
  ip_string = λ ip. codes "10.0.0.9";
  context_id = codes "id";
}

abbrev clock : Clock
clock = record { at_policy = 2940; at_get = 0; at_put = 0; since_start = 1000; at_attempts = 900 }

abbrev pipeline : ℕ → Pipeline ℕ
pipeline tokens = record {
  cfg = none;
  cache = empty_cache;
  policy = some small_engine;
  upstream = some one_client;
  log = true;
  stats = new_counters;
  client_id = none;
  limiter = some tokens;
  effects = [];
}

abbrev query : Str → Msg
query name = record empty_msg { question = record { name = name; qtype = 1; qclass = 1 } ∷ [] }

abbrev request : Str → Request
request name = record {
  msg = some (query name);
  src_ip = some (10 ∷ 0 ∷ 0 ∷ 9 ∷ []);
  proto = codes "udp";
  request_id = [];
}

abbrev question : Str → Question
question name = record { name = name; qtype = 1; qclass = 1 }

pipeline-IsSound : IsSound (pipeline 1)
pipeline-IsSound = record {
  cache_ok = (new_cache-IsValid small_options).0;
  stats_ok = record {
    domains_ok = (tt, omega arith);
    blocked_ok = (tt, omega arith);
    clients_ok = (tt, omega arith);
  };
  pool_ok = one_client-IsValid;
}

handle-IsSound_example :
    (p' : Pipeline ℕ) × (resp : Response) × (handle env clock (pipeline 1) (request (codes "a."))
      ≡ some (p', resp))
    × IsSound p'
handle-IsSound_example =
    handle-IsSound env clock (pipeline 1) (request (codes "a.")) pipeline-IsSound

accepted :
    (name : Str) → IsAccepted env clock (pipeline 1) (request name) (query name) (question name)
unfolding allow_on
accepted name = record {
  carried = refl;
  passed = refl;
  is_query = refl;
  asked = refl;
  is_inet = refl;
}

abbrev firefox : Str
firefox = codes "use-application-dns.net."

firefox_special :
    special_answer env clock (pipeline 1) (query firefox) (question firefox)
    ≡ some (synth_rcode env.names (some (query firefox)) rcode_name_error)
unfolding sis.Dns.Special.handle_special sis.Base.eqs sis.Base.Strings.has_suffix
firefox_special = refl

-- The pipeline with "ads.com" on the custom list.
abbrev blocking : Pipeline ℕ
blocking = record (pipeline 1) { policy = some (add_custom_block platform small_engine ads).0 }

abbrev below_ads : Str
below_ads = codes "x.ads.com"

abbrev nine : Identity
nine = record { key = codes "10.0.0.9"; kind = codes "ip"; ip = codes "10.0.0.9" }

nine_in_group : (policy_for small_engine nine).group ≡ some everyone
unfolding policy_for sis.Base.Map.lookup sis.Base.eqs
nine_in_group = refl

nine_not_allowed : is_allowed platform (policy_for small_engine nine) everyone below_ads ≡ false
unfolding is_allowed sis.Policy.Domains.match policy_for
nine_not_allowed = refl

below_blocked :
    (decide env clock blocking.policy
      (client_of env clock blocking (request below_ads))
      below_ads).blocked
    ≡ true
unfolding decide identity_for
below_blocked =
    evaluate-add_custom_block platform small_engine ads below_ads nine everyone 2940 nine_in_group
      below_is_covered nine_not_allowed

below_not_special : special_answer env clock blocking (query below_ads) (question below_ads) ≡ none
unfolding sis.Dns.Special.handle_special sis.Base.eqs sis.Base.Strings.has_suffix
    sis.Dns.Pipeline.block_local_ptr
below_not_special = refl

blocking_accepts :
    IsAccepted env clock blocking (request below_ads) (query below_ads) (question below_ads)
unfolding allow_on
blocking_accepts = record {
  carried = refl;
  passed = refl;
  is_query = refl;
  asked = refl;
  is_inet = refl;
}

handle-blocked_example :
    AnswersAlone env clock blocking
      (synth_block env.names (query below_ads) 1 (block_options env.parse_ip none))
      synthetic
      (handle env clock blocking (request below_ads))
handle-blocked_example =
    handle-blocked env clock blocking (request below_ads) (query below_ads) (question below_ads)
      blocking_accepts below_not_special below_blocked
