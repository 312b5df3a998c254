-- ===== src/Tests/Caches.antt =====
-- The cache at concrete inputs.
use sis.Base.{
  ℕ, ◌+◌, ◌*◌, ◌-◌, ◌≤◌, ◌<◌, ◌≡◌, ◌≢◌, ◌⊎◌, refl, Bool, true, false, Option, none, some, List, [],
  ◌∷◌, Str, codes, arith, length,
}
use sis.Dns.Message.{Msg, Codec, empty_msg, other}
use sis.Dns.Cache.{
  Cache, CacheKey, CacheEntry, CacheOptions, new_cache, ensure_locked, get, put, ttl_for, second,
}
use sis.Dns.Cache.Methods.{Keeps, new_cache-IsValid, put-IsValid}
use sis.Dns.Cache.Ttl.{Answers, seconds_left}
use sis.Dns.Cache.Reads.{get-put}

abbrev pub reply : Msg
reply = record empty_msg {
  question = record { name = codes "a."; qtype = 1; qclass = 1 } ∷ [];
  answer = record { name = codes "a."; rrtype = 1; class = 1; ttl = 100; rdata = other [] } ∷ [];
}

-- A codec for that one message.
abbrev pub one_message : Codec
one_message = record { pack = λ m. some (codes "reply"); unpack = λ s. some reply }

abbrev pub key : CacheKey
key = record { qname = codes "a."; qtype = 1; qclass = 1 }

abbrev pub small_options : CacheOptions
small_options = record { max_entries = 1; min_ttl = 0; max_ttl = 0; negative_ttl = 0 }

abbrev pub empty_cache : Cache
empty_cache = new_cache small_options

abbrev request : Msg
request = record reply { id = 77; answer = [] }

-- The cache behind the first Put.
abbrev entry : CacheEntry
entry = record { key = key; wire = codes "reply"; expires = 100 * second }

abbrev full_cache : Cache
full_cache = record empty_cache { items = (key, 0) ∷ []; lru = (0, entry) ∷ []; next_ref = 1 }

put_reply : put one_message empty_cache key reply 0 ≡ some full_cache
unfolding put new_cache sis.Base.Map.lookup sis.Base.Map.insert
put_reply = refl

put-IsValid_example : Keeps (put one_message empty_cache key reply 0)
put-IsValid_example =
    put-IsValid one_message empty_cache key reply 0 (new_cache-IsValid small_options).0

soon : 5 < 0 + ttl_for (ensure_locked empty_cache) reply
unfolding ttl_for ensure_locked new_cache
soon = omega arith

get-put_example :
    (c'' : Cache) × (m : Msg) × (get one_message full_cache key (some request) 5
      ≡ some (c'', some m))
    × Answers
        (some request)
        (seconds_left 5 (0 + ttl_for (ensure_locked empty_cache) reply))
        reply
        m
get-put_example =
    get-put one_message empty_cache full_cache key reply (codes "reply") (some request) 0 5
      (new_cache-IsValid small_options).0 refl refl soon (omega arith) put_reply

-- What the hit returns: 99 whole seconds are left.
abbrev hit : Msg
hit = record reply {
  answer = record { name = codes "a."; rrtype = 1; class = 1; ttl = 99; rdata = other [] } ∷ [];
}

hit_found : get one_message full_cache key none 5 ≡ some (full_cache, some hit)
unfolding get sis.Base.Map.lookup sis.Base.eqs new_cache sis.Base.Map.delete
hit_found = refl

limits : empty_cache.min_ttl ≤ empty_cache.max_ttl
unfolding new_cache
limits = omega arith
