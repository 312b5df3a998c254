-- ===== src/Api/Auth.antt =====
-- internal/api/auth.go: setting up, logging in and out, and the session of a request. The password
-- hash, the random token, the decoding of the body and the writing of the configuration are parameters;
-- a clock gives nanoseconds. The audit log and the JSON of the answers are left out.
pub mod Sessions
pub mod Login
use sis.Base.{
  ℕ, suc, ◌+◌, Bool, true, false, not, ◌&&◌, ◌||◌, Option, none, some, List, [], ◌∷◌, Str, codes,
  str_eq, eqs, if◌then◌else◌, ltb, length,
}
use sis.Base.Int.{ℤ, pos, is_pos, pos_part}
use sis.Base.Results.{Result, ok, err}
use sis.Base.Strings.{len, trim_space}
use sis.Config.Checks.{is_blank, is_nil}
use sis.Config.Types.{Settings, Auth, User}
use sis.Store.Models.{Session, StoreError}
use sis.Store.File.{FileStore, Save}
use sis.Store.Collections.{Json, get_session, upsert_session, delete_session}
use sis.Api.Limiter.{RequestLimiter, allow_request}

-- What the handlers ask for.
pub record Host : Type 0 where
  pub json : Json
  pub split_host : Str → Option Str
  pub hash_password : Str → Option Str
  pub verify_password : Str → Str → Bool

-- The fields of `Server` that the handlers use; a store or a configuration may be nil.
pub record Server : Type 0 where
  pub cfg : Option Settings
  pub config_path : Str
  pub sessions : Option FileStore
  pub login_limiter : Option RequestLimiter

-- The answers: the status, and the user where there is one.
pub data Reply : Type 0 where
  rate_limited : Reply
  unavailable : Reply
  conflict : Reply
  bad_request : Reply
  unauthorized : Reply
  internal_error : Reply
  welcome : Str → Reply
  no_content : Reply

abbrev pub one_day : ℕ
one_day = 86400000000000

unfoldable pub session_ttl : Server → ℕ
session_ttl s = elim s.cfg [
  | none ↦ one_day
  | some c ↦ if is_pos c.auth.session_ttl then pos_part c.auth.session_ttl else one_day
]

unfoldable pub cookie_name : Server → Str
cookie_name s = elim s.cfg [
  | none ↦ codes "sis_session"
  | some c ↦ if is_blank c.auth.cookie_name then codes "sis_session" else c.auth.cookie_name
]

unfoldable pub secure_cookie : Server → Bool → Bool
secure_cookie s tls = elim s.cfg [
  | none ↦ tls
  | some c ↦ if c.auth.secure_cookie || c.server.http.tls then true else tls
]

unfoldable pub find_in : Str → List User → Option User
find_in username [] = none
find_in username (u ∷ us) = if eqs u.username username then some u else find_in username us

unfoldable pub find_user : Server → Str → Option User
unfolding find_in
find_user s username = elim s.cfg [ none ↦ none | some c ↦ find_in username c.auth.users ]

-- `createSession`, on the new token if there is one: the token is the cookie.
unfoldable pub create_session : Host → Save → ℕ → Option Str → Server → Str → Server × Option Str
unfolding session_ttl
create_session host io now token s username = elim token [
  | none ↦ (s, none)
  | some t ↦
      let session : Session = record {
        token = t;
        username = username;
        expires_at = now + session_ttl s;
      } in
      elim s.sessions [
        | none ↦ (s, some t)
        | some store ↦
            let (after, failed) = upsert_session host.json io session store in
            (record s { sessions = some after }, elim failed [ none ↦ some t | some e ↦ none ])
      ]
]

-- `sessionFromRequest`, on the cookie if there is one.
unfoldable pub session_from_request :
    Host → Save → ℕ → Option Str → Server → Server × Option Session
unfolding session_ttl
session_from_request host io now cookie s = elim s.sessions [
  | none ↦ (s, none)
  | some store ↦ elim cookie [
    | none ↦ (s, none)
    | some token ↦ if is_blank token then (s, none) else elim (get_session host.json token store) [
      | err e ↦ (s, none)
      | ok found ↦
          if ltb found.expires_at now
          then (record s { sessions = some (delete_session io token store).0 }, none)
          else (let session : Session = record found { expires_at = now + session_ttl s } in
              let (after, failed) = upsert_session host.json io session store in
              (
                record s { sessions = some after },
                elim failed [ none ↦ some session | some e ↦ none ],
              ))
    ]
  ]
]

-- A body of `setup` or `login` that decodes.
pub record Credentials : Type 0 where
  pub username : Str
  pub password : Str

-- `login`: the request's address, its body, and a token.
unfoldable pub login :
    Host → Save → ℕ → Option Str → Server → Str → Option Credentials → Server × Reply × Option Str
unfolding find_user create_session
login host io now token s address body =
    let (limiter, allowed) = allow_request host.split_host s.login_limiter address now in
    let s' : Server = record s { login_limiter = limiter } in
    if not allowed then (s', rate_limited, none) else elim s.sessions [
      | none ↦ (s', unavailable, none)
      | some store ↦ elim s.cfg [
        | none ↦ (s', unavailable, none)
        | some c ↦ elim body [
          | none ↦ (s', bad_request, none)
          | some b ↦ elim (find_user s (trim_space b.username)) [
            | none ↦ (s', unauthorized, none)
            | some user ↦
                if not (host.verify_password user.password_hash b.password)
                then (s', unauthorized, none)
                else (let (after, cookie) = create_session host io now token s' user.username in
                    elim cookie [
                      | none ↦ (after, internal_error, none)
                      | some t ↦ (after, welcome user.username, some t)
                    ])
          ]
        ]
      ]
    ]

-- `logout`: the cookie is cleared whatever becomes of the session.
unfoldable pub logout : Save → Option Str → Server → Server × Reply
logout io cookie s = elim s.sessions [
  | none ↦ (s, no_content)
  | some store ↦ elim cookie [
    | none ↦ (s, no_content)
    | some token ↦ (record s { sessions = some (delete_session io token store).0 }, no_content)
  ]
]

abbrev pub reply_of : Option Session → Reply
reply_of none = unauthorized
reply_of (some session) = welcome session.username

-- `me`.
unfoldable pub me : Host → Save → ℕ → Option Str → Server → Server × Reply
unfolding session_from_request
me host io now cookie s =
    let (after, found) = session_from_request host io now cookie s in (after, reply_of found)

-- `setup`: `saves_config` tells whether the configuration could be written.
unfoldable pub setup :
    Host
    → Save
    → ℕ
    → Option Str
    → (Settings → Bool)
    → Server
    → Option Credentials
    → Server × Reply × Option Str
unfolding create_session
setup host io now token saves_config s body = elim s.sessions [
  | none ↦ (s, unavailable, none)
  | some store ↦ elim s.cfg [
    | none ↦ (s, unavailable, none)
    | some c ↦
        if not c.auth.first_run || not (is_nil c.auth.users)
        then (s, conflict, none)
        else elim body [
          | none ↦ (s, bad_request, none)
          | some b ↦
              let username = trim_space b.username in
              if is_blank username || ltb (len b.password) 8
              then (s, bad_request, none)
              else elim (host.hash_password b.password) [
                | none ↦ (s, internal_error, none)
                | some hash ↦
                    let user : User = record { username = username; password_hash = hash } in
                    let auth : Auth = record c.auth { first_run = false; users = user ∷ [] } in
                    let next : Settings = record c { auth = auth } in
                    if not (is_blank s.config_path) && not (saves_config next)
                    then (s, internal_error, none)
                    else (let (after, cookie) =
                          create_session host io now token (record s { cfg = some next })
                            username in
                        elim cookie [
                          | none ↦ (after, internal_error, none)
                          | some t ↦ (after, welcome username, some t)
                        ])
              ]
        ]
  ]
]
