-- ===== src/Api/Limiter/Windows.antt =====
-- What one host gets of a window, whatever the other hosts ask for.
use mathlib.Core.Path.{subst}
use sis.Base.{
  ℕ, suc, ◌+◌, ◌≤◌, ◌≡◌, ◌⊎◌, refl, sym, ap, ◌∙◌, inl, inr, Bool, Option, none, some, List, [], ◌∷◌,
  Str, str_eq, if◌then◌else◌, ltb, leb, arith, Bool-cases, Option-cases, eqs, eqs_iff,
}
use sis.Base.Int.{pos}
use sis.Base.Map.{lookup, insert, lookup-insert, Distinct, Distinct-insert}
use sis.Api.Limiter.{
  RateEntry, RequestLimiter, new_request_limiter, without_expired, prune_due, current_entry,
  allow_with, host_of, allow_request, allow_requests,
}

-- The host's requests in the window that is open at a time, and the window's end.
abbrev open_at : Option RateEntry → ℕ → Option RateEntry
open_at none now = none
open_at (some e) now = if ltb e.reset now then none else some e

unfoldable pub open_entry : RequestLimiter → Str → ℕ → Option RateEntry
open_entry l host now = open_at (lookup host l.entries) now

lookup-without_expired :
    (now t : ℕ) (host : Str) (m : List (Str × RateEntry))
    → Distinct m
    → now ≤ t
    → open_at (lookup host (without_expired now m)) t ≡ open_at (lookup host m) t
unfolding lookup without_expired
lookup-without_expired now t host [] d h = refl
lookup-without_expired now t host ((k, e) ∷ m) (a, d) h =
    ground (arith, a, eqs_iff k host, lookup-without_expired now t host m d h)

lookup-none-without_expired :
    (now : ℕ) (host : Str) (m : List (Str × RateEntry))
    → lookup host m ≡ none
    → lookup host (without_expired now m) ≡ none
unfolding lookup without_expired
lookup-none-without_expired now host [] h = refl
lookup-none-without_expired now host ((k, e) ∷ m) h =
    ground (arith, lookup-none-without_expired now host m)

Distinct-without_expired :
    (now : ℕ) (m : List (Str × RateEntry)) → Distinct m → Distinct (without_expired now m)
unfolding without_expired
Distinct-without_expired now [] d = tt
Distinct-without_expired now ((k, e) ∷ m) (a, d) =
    let rest = Distinct-without_expired now m d in
    ground (arith, rest, lookup-none-without_expired now k m a)

prune_due-Distinct :
    (now window : ℕ) (l : RequestLimiter)
    → Distinct l.entries
    → Distinct (prune_due now window l).entries
unfolding prune_due
prune_due-Distinct now window l d =
    let swept = Distinct-without_expired now l.entries d in
    elim (Option-cases l.next_prune) [
      | inl e ↦ ground (arith, e, swept)
      | inr (t, e) ↦ ground (arith, e, swept, d)
    ]

prune_due-open_entry :
    (now window t : ℕ) (host : Str) (l : RequestLimiter)
    → Distinct l.entries
    → now ≤ t
    → open_entry (prune_due now window l) host t ≡ open_entry l host t
unfolding open_entry prune_due
prune_due-open_entry now window t host l d h =
    let swept = lookup-without_expired now t host l.entries d h in
    elim (Option-cases l.next_prune) [
      | inl e ↦ ground (arith, e, swept)
      | inr (s, e) ↦ ground (arith, e, swept)
    ]

-- The entry that a request is counted in.
abbrev entry_for : Option RateEntry → ℕ → ℕ → RateEntry
entry_for none now window = record { count = 0; reset = now + window }
entry_for (some e) now window = e

current-open_entry :
    (host : Str) (now window : ℕ) (l : RequestLimiter)
    → current_entry host now window l ≡ entry_for (open_entry l host now) now window
unfolding current_entry open_entry
current-open_entry host now window l = elim (Option-cases (lookup host l.entries)) [
  | inl e ↦ ground (arith, e)
  | inr (o, e) ↦ ground (arith, e)
]

module _ (limit window : ℕ) where
  abbrev counted : RequestLimiter → Str → ℕ → RateEntry
  counted l host now =
      let e = entry_for (open_entry l host now) now (suc window) in record e { count = suc e.count }

  abbrev Counts : RequestLimiter → Str → ℕ → RequestLimiter × Bool → Type 0
  Counts l host now r =
      Distinct r.0.entries
      × (r.0.limit ≡ l.limit)
      × (r.0.window ≡ l.window)
      × (r.1 ≡ leb (counted l host now).count (suc limit))
      × ((k : Str) (t : ℕ)
          → now ≤ t
          → open_entry r.0 k t
            ≡ (if eqs host k then open_at (some (counted l host now)) t else open_entry l k t))

  prune_due-fields :
      (now w : ℕ) (l : RequestLimiter)
      → ((prune_due now w l).limit ≡ l.limit) × ((prune_due now w l).window ≡ l.window)
  unfolding prune_due
  prune_due-fields now w l = elim (Option-cases l.next_prune) [
    | inl e ↦ (ground (arith, e), ground (arith, e))
    | inr (s, e) ↦ (ground (arith, e), ground (arith, e))
  ]

  -- The limiter with the request counted, where it counts at all.
  allow_with-on :
      (l : RequestLimiter) (host : Str) (now : ℕ)
      → allow_with l host (pos (suc limit)) (pos (suc window)) now ≡ (
          let m = prune_due now (suc window) l in
          let e = current_entry host now (suc window) m in
          let c : RateEntry = record e { count = suc e.count } in
          (record m { entries = insert host c m.entries }, leb c.count (suc limit)))
  unfolding allow_with
  allow_with-on l host now = ground arith

  after :
      (l : RequestLimiter) (host : Str) (now : ℕ) (k : Str) (t : ℕ) (c : RateEntry)
      → c ≡ counted l host now
      → Distinct l.entries
      → now ≤ t
      → open_at (lookup k (insert host c (prune_due now (suc window) l).entries)) t
        ≡ (if eqs host k then open_at (some (counted l host now)) t else open_entry l k t)
  unfolding open_entry
  after l host now k t c is d h = elim (Bool-cases (eqs host k)) [
    | inl e ↦ ground (
      arith,
      e,
      lookup-insert host k c (prune_due now (suc window) l).entries,
      ap (λ x. open_at (some x) t) is,
    )
    | inr e ↦ ground (
      arith,
      e,
      lookup-insert host k c (prune_due now (suc window) l).entries,
      prune_due-open_entry now (suc window) t k l d h,
    )
  ]

  allow_with-Counts :
      (l : RequestLimiter) (host : Str) (now : ℕ)
      → Distinct l.entries
      → Counts l host now (allow_with l host (pos (suc limit)) (pos (suc window)) now)
  allow_with-Counts l host now d =
      let m = prune_due now (suc window) l in
      let same =
        current-open_entry host now (suc window) m
        ∙ ap (λ o. entry_for o now (suc window))
            (prune_due-open_entry now (suc window) now host l d (omega arith)) in
      let (a, b) = prune_due-fields now (suc window) l in
      let c : RateEntry = record (current_entry host now (suc window) m) {
        count = suc (current_entry host now (suc window) m).count;
      } in
      let is : c ≡ counted l host now =
        ap (λ e. record { count = suc e.count; reset = e.reset }) same in
      subst (Counts l host now) (sym (allow_with-on l host now)) (
        Distinct-insert host c m.entries (prune_due-Distinct now (suc window) l d),
        a,
        b,
        ap (λ e. leb e.count (suc limit)) is,
        λ k t h. unfold open_entry in after l host now k t c is d h,
      )

-- The requests with numbers below the limit are allowed, and no more.
unfoldable pub quota : ℕ → ℕ → List ℕ → List Bool
quota limit n [] = []
quota limit n (now ∷ times) = ltb n limit ∷ quota limit (suc n) times

-- The times of one host's requests, and its answers.
unfoldable pub requests_of : (Str → Option Str) → Str → List (Str × ℕ) → List ℕ
requests_of split_host host [] = []
requests_of split_host host ((address, now) ∷ requests) =
    let rest = requests_of split_host host requests in
    if eqs (host_of split_host address) host then now ∷ rest else rest

unfoldable pub answers_to : Str → List (Str × Bool) → List Bool
answers_to host [] = []
answers_to host ((h, ok) ∷ rest) =
    if eqs h host then ok ∷ answers_to host rest else answers_to host rest

-- The requests are in order, from `start` to `finish`.
abbrev pub Within : ℕ → ℕ → List (Str × ℕ) → Type 0
Within start finish [] = Unit
Within start finish ((address, now) ∷ requests) =
    (start ≤ now) × (now ≤ finish) × Within now finish requests

module _ (split_host : Str → Option Str) (limit window : ℕ) (host : Str) where
  -- The host has asked n times in the window that ends at `reset`, or not at all.
  abbrev Asked : ℕ → ℕ → ℕ → RequestLimiter → Type 0
  Asked start finish n l =
      ((n ≡ 0) × (finish ≤ start + suc window) × ((t : ℕ) → start ≤ t → open_entry l host t ≡ none))
      ⊎ ((reset : ℕ) × (finish ≤ reset)
          × ((t : ℕ)
              → start ≤ t
              → open_entry l host t ≡ open_at (some (record { count = n; reset = reset })) t))

  Asked-later :
      (start now finish n : ℕ) (l m : RequestLimiter)
      → start ≤ now
      → ((t : ℕ) → now ≤ t → open_entry m host t ≡ open_entry l host t)
      → Asked start finish n l
      → Asked now finish n m
  Asked-later start now finish n l m h same (inl (z, f, a)) =
      inl (z, omega (arith, f, h), λ t k. same t k ∙ a t (omega (arith, h, k)))
  Asked-later start now finish n l m h same (inr (reset, f, a)) =
      inr (reset, f, λ t k. same t k ∙ a t (omega (arith, h, k)))

  -- The request is number n of its window.
  counted-Asked :
      (start now finish n : ℕ) (l : RequestLimiter)
      → start ≤ now
      → now ≤ finish
      → Asked start finish n l
      → (reset : ℕ) × (finish ≤ reset)
        × (counted limit window l host now ≡ record { count = suc n; reset = reset })
  counted-Asked start now finish n l h k (inl (z, f, a)) =
      (now + suc window, omega (arith, f, h), ground (arith, a now h, z))
  counted-Asked start now finish n l h k (inr (reset, f, a)) = (reset, f, ground (arith, a now h))

  answers-quota :
      (requests : List (Str × ℕ)) (start finish n : ℕ) (l : RequestLimiter)
      → Distinct l.entries
      → l.limit ≡ pos (suc limit)
      → l.window ≡ pos (suc window)
      → Asked start finish n l
      → Within start finish requests
      → answers_to host (allow_requests split_host (some l) requests)
        ≡ quota (suc limit) n (requests_of split_host host requests)
  unfolding answers_to allow_requests allow_request quota requests_of
  answers-quota [] start finish n l d el ew a w = refl
  answers-quota ((address, now) ∷ requests) start finish n l d el ew a (h, k, w) =
      let asking = host_of split_host address in
      let m = (allow_with l asking (pos (suc limit)) (pos (suc window)) now).0 in
      let (d', l', w', ok, after) = allow_with-Counts limit window l asking now d in
      elim (Bool-cases (eqs asking host)) [
        | inr e ↦
            let rest =
              answers-quota requests now finish n m d' (l' ∙ el) (w' ∙ ew)
                (Asked-later start now finish n l m h (λ t q. ground (arith, after host t q, e)) a)
                w in
            ground (arith, e, rest, el, ew)
        | inl e ↦
            let (reset, f, c) = counted-Asked start now finish n l h k a in
            let is = ap (λ x. counted limit window l x now) ((eqs_iff asking host).0 e) ∙ c in
            let rest =
              answers-quota requests now finish (suc n) m d' (l' ∙ el) (w' ∙ ew)
                (inr (
                  reset,
                  f,
                  λ t q. ground (arith, after host t q, e) ∙ ap (λ x. open_at (some x) t) is,
                ))
                w in
            ground (arith, e, rest, el, ew, ok, ap (λ x. x.count) is)
      ]

-- From a new limiter, the requests coming in order and within one window, each host has its first
-- requests allowed up to the limit and all others refused, whatever the other hosts ask for.
pub allow_requests-quota :
    (split_host : Str → Option Str) (limit window : ℕ) (host : Str) (requests : List (Str × ℕ))
    (start : ℕ)
    → Within start (start + suc window) requests
    → answers_to host (
        allow_requests split_host
          (some (new_request_limiter (pos (suc limit)) (pos (suc window))))
          requests)
      ≡ quota (suc limit) 0 (requests_of split_host host requests)
unfolding new_request_limiter
allow_requests-quota split_host limit window host requests start w =
    answers-quota split_host limit window host requests start (start + suc window) 0
      (new_request_limiter (pos (suc limit)) (pos (suc window))) tt refl refl
      (inl (refl, omega arith, unfold open_entry lookup in λ t h. refl)) w
