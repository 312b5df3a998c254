-- ===== src/Tests/Admins.antt =====
-- Logins and changes of the configuration at concrete requests.
use sis.Base.{
  ℕ, ◌+◌, ◌≡◌, ◌≢◌, ◌⊎◌, ◌++◌, refl, Bool, true, false, Option, none, some, [], ◌∷◌, List, Str,
  codes, if◌then◌else◌, All, arith, length, take, drop_first, leb, eqs,
}
use sis.Base.Results.{err}
use sis.Policy.Domains.{new_domains}
use sis.Policy.Engine.{Engine, new_engine}
use sis.Policy.Errors.{invalid_domain}
use sis.Config.Types.{Settings, policy_config}
use sis.Config.Checks.{is_blank}
use sis.Config.Accepted.{with_repeat}
use sis.Store.Models.{Session, Codec}
use sis.Store.File.{FileStore, Save, saved, not_saved}
use sis.Api.Auth
use sis.Api.Auth.{Server, Reply, unauthorized, welcome, create_session, login, logout}
use sis.Api.Auth.Sessions.{me_all, me_all-create_session, me_all-logout, me_all-expired}
use sis.Api.Auth.Login.{Refused, Tried, login-cases}
use sis.Api.Apply.{Outside, Admin, applied, bad_config, redacted_copy, apply_config}
use sis.Api.Apply.Outcomes.{Checked, apply_config-cases, apply_config-with_repeat}
use sis.Tests.Data.{platform, minutes, ads}
use sis.Tests.Configs.{host, small, no_issues}
use sis.Tests.Stores.{json, shelf, visit}

abbrev one_year : ℕ
one_year = 31536000000000000

-- A session as text: the length of its token, its end, and the token with the name behind it. An end
-- more than a year behind the start of the clock cannot be written.
abbrev write_session : Session → Option Str
write_session s =
    if leb s.expires_at one_year
    then some (length s.token ∷ s.expires_at ∷ (s.token ++ s.username))
    else none

abbrev read_session : Str → Option Session
read_session (n ∷ e ∷ rest) =
    some (record { token = take n rest; username = drop_first n rest; expires_at = e })
read_session rest = none

abbrev sessions : Codec Session
sessions = record { encode = write_session; decode = read_session }

abbrev web : Auth.Host
web = record {
  json = json;
  split_host = λ a. none;
  hash_password = λ p. some p;
  verify_password = λ h p. true;
}

abbrev server : Server
server = record { cfg = some small; config_path = []; sessions = some shelf; login_limiter = none }

abbrev hotel : Auth.Host
hotel = record web { json = record json { sessions = sessions } }

me_all-create_session_example :
    ((create_session hotel saved 5 (some (codes "u")) server (codes "ada")).1 ≡ some (codes "u"))
    × All
        (λ reply. reply ≡ welcome (codes "ada"))
        (me_all hotel
          (λ t. saved)
          (codes "u")
          (create_session hotel saved 5 (some (codes "u")) server (codes "ada")).0
          (10 ∷ 20 ∷ []))
unfolding sis.Base.eqs Auth.session_ttl small
me_all-create_session_example =
    me_all-create_session hotel server shelf 5 (codes "u") (codes "ada") (10 ∷ 20 ∷ [])
      ((_, refl, refl), ((_, refl, refl), ((_, refl, refl), tt))) refl refl refl
      (omega arith, (omega arith, tt))

me_all-logout_example :
    All
      (λ r. r ≡ unauthorized)
      (me_all web
        (λ t. saved)
        (codes "t")
        (logout not_saved (some (codes "t")) server).0
        (5 ∷ 6 ∷ []))
me_all-logout_example =
    me_all-logout web not_saved (λ t. saved) server shelf (codes "t") (5 ∷ 6 ∷ []) refl refl

me_all-expired_example :
    All (λ r. r ≡ unauthorized) (me_all web (λ t. saved) (codes "t") server (11 ∷ 12 ∷ []))
unfolding sis.Store.Collections.get_session sis.Store.File.get_json sis.Base.Map.lookup sis.Base.eqs
me_all-expired_example =
    me_all-expired web (λ t. saved) server shelf visit 11 (12 ∷ []) refl refl refl refl
      (omega arith)

-- A host on which a password is its own hash, and a request of a user with the password.
abbrev hostel : Auth.Host
hostel = record web { verify_password = eqs }

abbrev credentials : Auth.Credentials
credentials = record { username = codes " a "; password = codes "x" }

login-cases_example :
    Refused hostel saved 5
      (some (codes "u"))
      server
      (codes "1.1.1.1")
      (some credentials)
      (login hostel saved 5 (some (codes "u")) server (codes "1.1.1.1") (some credentials))
    ⊎ Tried hostel saved 5
        (some (codes "u"))
        server
        (codes "1.1.1.1")
        (some credentials)
        (login hostel saved 5 (some (codes "u")) server (codes "1.1.1.1") (some credentials))
login-cases_example =
    login-cases hostel saved 5 (some (codes "u")) server (codes "1.1.1.1") (some credentials)

abbrev outside : Outside
outside = record { salt = none; saves = true; appends = true; opens = true; audit_opens = true }

abbrev engine : Engine
engine = record {
  groups = [];
  lists = [];
  custom = some new_domains;
  allowlist = none;
  custom_allow = none;
  clients = none;
  tz = some minutes;
}

abbrev admin : Admin
admin = record {
  running = some small;
  config_path = codes "sis.yaml";
  file = some small;
  history = some [];
  engine = some engine;
  query_log = none;
  has_audit = false;
  upstreams = some [];
  cache = none;
  limiter = some none;
}

abbrev repeated : Settings
repeated = with_repeat host small ads (codes "ok.com" ∷ [])

apply_config-cases_example :
    ((next : Settings) × Checked host outside small next
      × ((apply_config host outside small admin).0.running ≡ some next)
      × ((apply_config host outside small admin).1 ≡ applied)
      × ((apply_config host outside small admin).0.file
          ≡ (if is_blank (codes "sis.yaml") then some small else some next)))
    ⊎ (((apply_config host outside small admin).0.running ≡ some small)
        × ((apply_config host outside small admin).1 ≢ applied))
unfolding small
apply_config-cases_example = apply_config-cases host outside small admin

apply_config-with_repeat_example :
    (apply_config host outside repeated admin ≡ (
      record admin { file = some repeated; history = some ([] ++ redacted_copy repeated ∷ []) },
      bad_config,
    ))
    × (new_engine platform (some (policy_config repeated)) none
        ≡ err (invalid_domain (codes "allowlist.domains") ads))
unfolding small
apply_config-with_repeat_example =
    apply_config-with_repeat host outside small admin engine [] ads (codes "ok.com" ∷ []) none
      no_issues ((tt, tt), tt) refl refl refl (refl, refl) refl refl
