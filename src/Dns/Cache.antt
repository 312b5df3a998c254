-- ===== src/Dns/Cache.antt =====
-- internal/dns/cache.go: the LRU cache of responses. A list element is a reference, a number; the
-- map `items` takes a key to the reference, and `lru` holds references with their entries, the front
-- first. A method returns `none` where it would read through a dangling element or not end; it runs
-- under the mutex, and `now` is what the clock tells in it.
pub mod Ttl
pub mod Invariant
pub mod Moves
pub mod Methods
pub mod Reads
use sis.Base.{
  ℕ, zero, suc, ◌+◌, ◌-◌, ◌*◌, ◌/◌, ◌%◌, ◌^◌, Bool, true, false, not, ◌&&◌, ◌||◌, Option, none,
  some, List, [], ◌∷◌, map, Str, eqs, leb, ltb, ◌==◌, ==_iff, eqs_iff, ◌≡◌, ◌↔◌, arith,
  if◌then◌else◌, length, Eq, ◌>>=◌,
}
use sis.Base.Map.{lookup, insert, delete}
use sis.Dns.Message.{Rr, Question, Msg, Codec, rcode_success, rcode_name_error, type_opt}

-- Durations and instants are in nanoseconds. A negative option is read as 0, which the tests `<= 0`
-- treat alike.
pub record CacheOptions : Type 0 where
  pub max_entries : ℕ
  pub min_ttl : ℕ
  pub max_ttl : ℕ
  pub negative_ttl : ℕ

pub record CacheKey : Type 0 where
  pub qname : Str
  pub qtype : ℕ
  pub qclass : ℕ

pub record CacheEntry : Type 0 where
  pub key : CacheKey
  pub wire : Str
  pub expires : ℕ

abbrev pub key_eqb : CacheKey → CacheKey → Bool
key_eqb a b = eqs a.qname b.qname && a.qtype == b.qtype && a.qclass == b.qclass

pub key_eqb_iff : (a b : CacheKey) → (key_eqb a b ≡ true) ↔ (a ≡ b)
key_eqb_iff a b = ground (arith, eqs_iff a.qname b.qname)

instance abbrev pub key_eq : Eq CacheKey
key_eq = record { beq = key_eqb; beq_iff = key_eqb_iff }

instance abbrev pub ref_eq : Eq ℕ
ref_eq = record { beq = ◌==◌; beq_iff = ==_iff }

pub record Cache : Type 0 where
  pub max_entries : ℕ
  pub min_ttl : ℕ
  pub max_ttl : ℕ
  pub neg_ttl : ℕ
  pub items : List (CacheKey × ℕ)
  pub lru : List (ℕ × CacheEntry)
  pub next_ref : ℕ

abbrev pub second : ℕ
second = 1_000_000_000

abbrev pub hour : ℕ
hour = 3600 * second

abbrev pub positive_or : ℕ → ℕ → ℕ
positive_or n d = if leb n 0 then d else n

-- `NewCache`.
unfoldable pub new_cache : CacheOptions → Cache
new_cache o = record {
  max_entries = positive_or o.max_entries 100000;
  min_ttl = positive_or o.min_ttl (60 * second);
  max_ttl = positive_or o.max_ttl (24 * hour);
  neg_ttl = positive_or o.negative_ttl hour;
  items = [];
  lru = [];
  next_ref = 0;
}

-- `ensureLocked`: the defaults of a cache that was not made by NewCache.
unfoldable pub ensure_locked : Cache → Cache
ensure_locked c = record c {
  max_entries = if c.max_entries == 0 then 100000 else c.max_entries;
  min_ttl = positive_or c.min_ttl (60 * second);
  max_ttl = positive_or c.max_ttl (24 * hour);
  neg_ttl = positive_or c.neg_ttl hour;
}

-- The loop over the answers: the least time to live in seconds, 0 if there is no answer.
unfoldable pub least_ttl : ℕ → List Rr → ℕ
least_ttl least [] = least
least_ttl least (rr ∷ rrs) = least_ttl (if ltb rr.ttl least then rr.ttl else least) rrs

abbrev pub first_ttl : List Rr → ℕ
first_ttl [] = 0
first_ttl (rr ∷ rrs) = least_ttl rr.ttl rrs

abbrev pub no_answer : List Rr → Bool
no_answer [] = true
no_answer (rr ∷ rrs) = false

-- `ttlFor`.
unfoldable pub ttl_for : Cache → Msg → ℕ
unfolding least_ttl
ttl_for c msg =
    if msg.rcode == rcode_name_error || (msg.rcode == rcode_success && no_answer msg.answer)
    then c.neg_ttl
    else if not (msg.rcode == rcode_success)
    then 0
    else (let ttl = first_ttl msg.answer * second in
        let raised = if ltb ttl c.min_ttl then c.min_ttl else ttl in
        if ltb c.max_ttl raised then c.max_ttl else raised)

-- `setTTL`.
unfoldable pub cap_ttl : ℕ → Rr → Rr
cap_ttl ttl rr =
    if rr.rrtype == type_opt then rr else if ltb ttl rr.ttl then record rr { ttl = ttl } else rr

unfoldable pub set_ttl : List Rr → ℕ → List Rr
unfolding cap_ttl
set_ttl records ttl = map (cap_ttl ttl) records

-- `uint32(expires.Sub(now).Seconds())`, at least 1. (Below 2^22 seconds the float is exact enough to
-- be truncated to the whole seconds.)
unfoldable pub remaining_ttl : ℕ → ℕ → ℕ
remaining_ttl expires now =
    let seconds = (expires - now) / second % 2 ^ 32 in if seconds == 0 then 1 else seconds

-- `remove` of an element that is not nil.
unfoldable pub remove : ℕ → Cache → Option Cache
remove r c = elim (lookup r c.lru) [
  | none ↦ none
  | some entry ↦ some (record c { items = delete entry.key c.items; lru = delete r c.lru })
]

unfoldable pub back : List (ℕ × CacheEntry) → Option (ℕ × CacheEntry)
back [] = none
back (e ∷ []) = some e
back (e ∷ f ∷ l) = back (f ∷ l)

-- `c.remove(c.lru.Back())`, which does nothing where the list is empty.
unfoldable pub remove_back : Cache → Option Cache
unfolding back remove
remove_back c = elim (back c.lru) [ none ↦ some c | some (r, e) ↦ remove r c ]

-- `for len(c.items) > c.maxEntries`, with fuel.
unfoldable pub evict : ℕ → Cache → Option Cache
unfolding remove_back
evict zero c = none
evict (suc fuel) c = elim (ltb c.max_entries (length c.items)) [
  | false ↦ some c
  | true ↦ elim (remove_back c) [ none ↦ none | some c' ↦ evict fuel c' ]
]

-- The loop as it is run: each round removes an item, so the items are fuel enough.
unfoldable pub trim : Cache → Option Cache
unfolding evict
trim c = evict (suc (length c.items)) c

abbrev pub to_front : ℕ → CacheEntry → List (ℕ × CacheEntry) → List (ℕ × CacheEntry)
to_front r e lru = (r, e) ∷ delete r lru

module _ (codec : Codec) where
  -- The message that a hit returns.
  unfoldable pub rewrite : Option Msg → ℕ → Msg → Msg
  unfolding set_ttl
  rewrite req ttl msg =
      let named = (elim req as (λ _. Msg) [
        | none ↦ msg
        | some r ↦ record msg { id = r.id; question = r.question }
      ]) in
      record named {
        answer = set_ttl named.answer ttl;
        ns = set_ttl named.ns ttl;
        extra = set_ttl named.extra ttl;
      }

  -- `Get`; a nil cache is not modelled, it answers nothing.
  unfoldable pub get : Cache → CacheKey → Option Msg → ℕ → Option (Cache × Option Msg)
  unfolding ensure_locked remove rewrite remaining_ttl
  get c0 key req now =
      let c = ensure_locked c0 in
      elim (lookup key c.items) [
        | none ↦ some (c, none)
        | some r ↦ elim (lookup r c.lru) [
          | none ↦ none
          | some entry ↦
              if leb entry.expires now
              then (remove r c >>= λ c'. some (c', none))
              else elim (codec.unpack entry.wire) [
                | none ↦ remove r c >>= λ c'. some (c', none)
                | some msg ↦ some (
                  record c { lru = to_front r entry c.lru },
                  some (rewrite req (remaining_ttl entry.expires now) msg),
                )
              ]
        ]
      ]

  -- `Put` behind its guards: the entry is updated in place or pushed to the front.
  unfoldable pub store : Cache → CacheKey → Str → ℕ → Option Cache
  unfolding trim
  store c key wire expires = elim (lookup key c.items) [
    | some r ↦ elim (lookup r c.lru) [
      | none ↦ none
      | some entry ↦
          some
            (record c { lru = to_front r (record entry { wire = wire; expires = expires }) c.lru })
    ]
    | none ↦ trim (record c {
      items = insert key c.next_ref c.items;
      lru = (c.next_ref, record { key = key; wire = wire; expires = expires }) ∷ c.lru;
      next_ref = c.next_ref + 1;
    })
  ]

  -- `Put`; a nil cache or message changes nothing.
  unfoldable pub put : Cache → CacheKey → Msg → ℕ → Option Cache
  unfolding ensure_locked ttl_for store
  put c0 key msg now =
      let c = ensure_locked c0 in
      if leb c.max_entries 0
      then some c
      else if leb (ttl_for c msg) 0
      then some c
      else elim (codec.pack msg) [
        | none ↦ some c
        | some wire ↦ store c key wire (now + ttl_for c msg)
      ]

-- `Flush`.
unfoldable pub flush : Cache → Cache
unfolding ensure_locked
flush c = record (ensure_locked c) { items = []; lru = [] }

-- `Reconfigure`.
unfoldable pub reconfigure : Cache → CacheOptions → Option Cache
unfolding ensure_locked trim new_cache
reconfigure c opts =
    let next = new_cache opts in
    trim (record (ensure_locked c) {
      max_entries = next.max_entries;
      min_ttl = next.min_ttl;
      max_ttl = next.max_ttl;
      neg_ttl = next.neg_ttl;
    })

-- `Len`.
unfoldable pub len : Cache → ℕ
unfolding ensure_locked
len c = length (ensure_locked c).items
