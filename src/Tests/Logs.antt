-- ===== src/Tests/Logs.antt =====
-- The query log at concrete entries.
use sis.Base.{ℕ, ◌≡◌, refl, true, false, none, [], ◌∷◌, ◌++◌, List, Str, codes, last_n}
use sis.Base.Int.{pos}
use sis.Log.Entry.{Entry}
use sis.Log.Fanout.{
  number_eq, Fanout, new_fanout, snapshot, publish_all, register, send_backlog, subscribe,
}
use sis.Log.Fanout.Ring.{snapshot-publish_all}
use sis.Log.Fanout.Channels.{Receives, subscribe-publish_all, register-publish_all}
use sis.Log.Query.{Query, Filter, write, write_all, effective_limit, matches, recent}
use sis.Log.Query.Recent.{filter, prepared_all, recent-write_all}
use sis.Log.Query.Privacy.{with_client, write-anonymous}

abbrev blank : Entry
blank = record {
  ts = 0;
  request_id = [];
  client_key = [];
  client_name = [];
  client_group = [];
  client_ip = [];
  qname = [];
  qtype = [];
  qclass = [];
  rcode = [];
  answers = [];
  blocked = false;
  block_reason = [];
  block_list = [];
  upstream = [];
  cache_hit = false;
  latency_us = 0;
  proto = [];
}

abbrev entry : Entry
entry = record blank {
  client_key = codes "aa";
  client_ip = codes "10.0.0.1";
  qname = codes "ads.com";
}

abbrev log : Str → Query
log mode = record {
  enabled = true;
  mode = mode;
  salt = codes "salt";
  has_file = true;
  fanout = new_fanout blank (pos 2);
  encoded = [];
}

abbrev any : Filter
any = record { client = []; qname = codes "ads"; blocked = none; limit = pos 1 }

abbrev start : Fanout ℕ
start = new_fanout 0 (pos 2)

abbrev sent : List ℕ
sent = 1 ∷ 2 ∷ 3 ∷ []

snapshot-publish_all_example : snapshot (publish_all start sent) ≡ last_n 2 sent
snapshot-publish_all_example = snapshot-publish_all 0 2 sent

subscribe-publish_all_example :
    Receives {A = ℕ} 7 1
      (last_n 2 sent ++ 4 ∷ [])
      (publish_all (subscribe (publish_all start sent) 7 (pos 2) true) (4 ∷ []))
subscribe-publish_all_example = subscribe-publish_all 0 2 7 1 sent (4 ∷ []) true

register-publish_all_example :
    let r : Fanout ℕ × List ℕ = register (publish_all start sent) 7 (pos 4) true in
    Receives {A = ℕ} 7 3
      ((9 ∷ [] ++ last_n 2 sent) ++ 4 ∷ [])
      (publish_all (send_backlog 7 r.1 (publish_all r.0 (9 ∷ []))) (4 ∷ []))
register-publish_all_example = register-publish_all 0 2 7 3 sent (9 ∷ []) (4 ∷ [])

recent-write_all_example :
    recent (λ c. c) (write_all (λ s v. v) (log (codes "full")) ((5, entry) ∷ (6, blank) ∷ [])) any
    ≡ last_n (effective_limit (pos 1)) (
        filter
          (matches (λ c. c) any)
          (last_n 2 (prepared_all (λ s v. v) (log (codes "full")) ((5, entry) ∷ (6, blank) ∷ []))))
recent-write_all_example =
    recent-write_all (λ s v. v) (λ c. c) blank 2 (log (codes "full")) ((5, entry) ∷ (6, blank) ∷ [])
      any refl

write-anonymous_example :
    write
      (λ s v. v)
      5
      (log (codes "anonymous"))
      (with_client entry (codes "bb") (codes "n") (codes "g") (codes "10.0.0.2"))
    ≡ write (λ s v. v) 5 (log (codes "anonymous")) entry
write-anonymous_example =
    write-anonymous (λ s v. v) 5 (log (codes "anonymous")) entry (codes "bb") (codes "n")
      (codes "g") (codes "10.0.0.2") refl
