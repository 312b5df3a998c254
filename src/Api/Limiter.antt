-- ===== src/Api/Limiter.antt =====
-- internal/api/ratelimit.go: the requests of each host, counted in windows of a fixed length. Times are in
-- nanoseconds; net.SplitHostPort is a parameter.
pub mod Windows
use sis.Base.{
  ℕ, suc, ◌+◌, Bool, true, false, not, ◌||◌, Option, none, some, List, [], ◌∷◌, Str, str_eq,
  if◌then◌else◌, ltb, leb,
}
use sis.Base.Int.{ℤ, pos_part, is_pos}
use sis.Base.Map.{lookup, insert}

-- `rateEntry`.
pub record RateEntry : Type 0 where
  pub count : ℕ
  pub reset : ℕ

pub record RequestLimiter : Type 0 where
  pub entries : List (Str × RateEntry)
  pub limit : ℤ
  pub window : ℤ
  pub next_prune : Option ℕ

unfoldable pub new_request_limiter : ℤ → ℤ → RequestLimiter
new_request_limiter limit window = record {
  entries = [];
  limit = limit;
  window = window;
  next_prune = none;
}

-- `pruneLocked`.
unfoldable pub without_expired : ℕ → List (Str × RateEntry) → List (Str × RateEntry)
without_expired now [] = []
without_expired now ((host, e) ∷ es) =
    let rest = without_expired now es in if ltb e.reset now then rest else (host, e) ∷ rest

-- The pruning that is due once a window.
unfoldable pub prune_due : ℕ → ℕ → RequestLimiter → RequestLimiter
unfolding without_expired
prune_due now window l =
    let due : RequestLimiter = record l {
      entries = without_expired now l.entries;
      next_prune = some (now + window);
    } in
    elim l.next_prune [ none ↦ due | some t ↦ if ltb t now then due else l ]

-- The host's entry, which is a new one when its window is over.
unfoldable pub current_entry : Str → ℕ → ℕ → RequestLimiter → RateEntry
current_entry host now window l =
    let fresh : RateEntry = record { count = 0; reset = now + window } in
    elim (lookup host l.entries) [ none ↦ fresh | some e ↦ if ltb e.reset now then fresh else e ]

-- `allowWith` of a limiter that is not nil: the limiter behind the call, and its answer.
unfoldable pub allow_with : RequestLimiter → Str → ℤ → ℤ → ℕ → RequestLimiter × Bool
unfolding prune_due current_entry
allow_with l host limit window now =
    if not (is_pos limit) || not (is_pos window)
    then (l, true)
    else (let m = prune_due now (pos_part window) l in
        let e = current_entry host now (pos_part window) m in
        let counted : RateEntry = record e { count = suc e.count } in
        (record m { entries = insert host counted m.entries }, leb counted.count (pos_part limit)))

-- The host of a request's address, or the whole of it.
abbrev pub host_of : (Str → Option Str) → Str → Str
host_of split_host address = elim (split_host address) [ none ↦ address | some host ↦ host ]

-- `allow`: a limiter that is nil allows everything.
unfoldable pub allow_request :
    (Str → Option Str) → Option RequestLimiter → Str → ℕ → Option RequestLimiter × Bool
unfolding allow_with
allow_request split_host none address now = (none, true)
allow_request split_host (some l) address now =
    let (m, ok) = allow_with l (host_of split_host address) l.limit l.window now in (some m, ok)

-- Requests at their times, one after another, and the answers.
unfoldable pub allow_requests :
    (Str → Option Str) → Option RequestLimiter → List (Str × ℕ) → List (Str × Bool)
unfolding allow_request
allow_requests split_host l [] = []
allow_requests split_host l ((address, now) ∷ requests) =
    let (m, ok) = allow_request split_host l address now in
    (host_of split_host address, ok) ∷ allow_requests split_host m requests
