-- ===== src/Config/Checks.antt =====
-- internal/config/validate.go: the host that Validate asks, and the tests of single values. Making a directory is answered by the file system; the text of its error is left out.
use sis.Base.{
  concat, ℕ, suc, Bool, true, false, not, ◌&&◌, Option, List, [], ◌∷◌, ◌++◌, Str, eqs,
  if◌then◌else◌, codes, any, all, ◌==◌, leb,
}
use sis.Base.Results.{ok, err}
use sis.Base.Strings.{to_lower}
use sis.Dns.Message.{Ip}
use sis.Policy.Config.{ScheduleConfig}
use sis.Policy.Engine.{Platform}
use sis.Policy.Schedule.{parse_clock}
use sis.Config.Issues.{Part, name, index, Message, text, about, Issue, issue_if, required}

-- The scheme and the host of a URL.
pub record Url : Type 0 where
  pub scheme : Str
  pub host : Str

-- The packages net/url, net, path/filepath and os, and policy's platform. `mkdir_all` tells whether the
-- directory is there behind the call.
pub record Host : Type 0 where
  pub platform : Platform
  pub parse_url : Str → Option Url
  pub parse_ip : Str → Option Ip
  pub is_mac : Str → Bool
  pub resolves_udp : Str → Bool
  pub resolves_tcp : Str → Bool
  pub clean : Str → Str
  pub join : Str → Str → Str
  pub mkdir_all : Str → Bool

-- `oneOf`, and a key in a set.
unfoldable pub one_of : Str → List Str → Bool
one_of v opts = any (λ opt. eqs v opt) opts

abbrev pub is_nil {ℓ} : {A : Type ℓ} → List A → Bool
is_nil [] = true
is_nil (x ∷ xs) = false

abbrev pub is_blank : Str → Bool
is_blank v = eqs v (codes "")

-- `validClock`, whose time.Parse is parseClock's.
unfoldable pub valid_clock : Str → Bool
valid_clock v = elim (parse_clock v) [ ok m ↦ true | err e ↦ false ]

abbrev forbidden : List ℕ
forbidden = codes "()<>@,;:\\\"/[]?={}"

abbrev pub cookie_char : ℕ → Bool
cookie_char r = leb 0x21 r && leb r 0x7e && not (any (λ c. r == c) forbidden)

-- `validCookieName`.
unfoldable pub valid_cookie_name : Str → Bool
valid_cookie_name v = not (is_blank v) && all cookie_char v

abbrev pub day_tokens : List Str
day_tokens =
    codes "mon"
    ∷ codes "tue"
    ∷ codes "wed"
    ∷ codes "thu"
    ∷ codes "fri"
    ∷ codes "sat"
    ∷ codes "sun"
    ∷ codes "all"
    ∷ codes "weekday"
    ∷ codes "weekend"
    ∷ []

-- A loop that reports every element that fails a test, under its index.
unfoldable pub each : (Str → Bool) → (Str → Message) → List Part → ℕ → List Str → List Issue
each good message path i [] = []
each good message path i (x ∷ xs) =
    issue_if (not (good x)) (path ++ index i ∷ []) (message x) ++ each good message path (suc i) xs

-- Whether a key is missing, stands in the set already, or goes into it.
unfoldable pub key_issues : List Part → Str → List Str → List Issue
key_issues path key seen =
    if is_blank key
    then issue_if true path required
    else issue_if (one_of key seen) path (about (codes "duplicate") key)

abbrev pub add_key : Str → List Str → List Str
add_key key seen = if is_blank key then seen else if one_of key seen then seen else key ∷ seen

-- `validateSchedule`.
unfoldable pub schedule_parts : (ℕ → ℕ) → List Part → List Str → ScheduleConfig → List (List Issue)
unfolding each one_of valid_clock
schedule_parts fold path ids s =
    issue_if (is_blank s.name) (path ++ name (codes "name") ∷ []) required
    ∷ issue_if (not (valid_clock s.from)) (path ++ name (codes "from") ∷ [])
        (text (codes "must be HH:MM"))
    ∷ issue_if (not (valid_clock s.to)) (path ++ name (codes "to") ∷ [])
        (text (codes "must be HH:MM"))
    ∷ issue_if (is_nil s.days) (path ++ name (codes "days") ∷ []) required
    ∷ each (λ day. one_of (to_lower fold day) day_tokens) (about (codes "unknown day token"))
        (path ++ name (codes "days") ∷ []) 0 s.days
    ∷ each (λ id. one_of id ids) (about (codes "unknown blocklist"))
        (path ++ name (codes "block") ∷ []) 0 s.block
    ∷ []

unfoldable pub schedule_issues : (ℕ → ℕ) → List Part → List Str → ScheduleConfig → List Issue
unfolding schedule_parts
schedule_issues fold path ids s = concat (schedule_parts fold path ids s)
