-- ===== src/Api/Auth/Login.antt =====
-- Who may log in.
use mathlib.Core.Path.{subst}
use sis.Base.{
  ℕ, ◌≡◌, ◌≢◌, ◌⊎◌, refl, sym, ap, ◌∙◌, inl, inr, Bool, true, false, Option, none, some, List, [],
  ◌∷◌, Str, arith, eqs, eqs_iff, Bool-cases, Option-cases, Member, here, there, All,
}
use sis.Base.Strings.{trim_space}
use sis.Config.Types.{Settings, User}
use sis.Store.File.{FileStore, Save}
use sis.Api.Limiter.{RequestLimiter, allow_request}
use sis.Api.Auth.{
  Host, Server, Reply, Credentials, rate_limited, unavailable, bad_request, unauthorized,
  internal_error, welcome, create_session, find_in, find_user, login,
}

find_in-Member :
    (name : Str) (us : List User) (u : User)
    → find_in name us ≡ some u
    → Member u us × (u.username ≡ name)
unfolding find_in
find_in-Member name [] u h = cc
find_in-Member name (x ∷ us) u h = elim (Bool-cases (eqs x.username name)) [
  | inl e ↦
      let same : x ≡ u = ground (arith, e, h) in
      (
        subst (λ y. Member y (x ∷ us)) same here,
        ap (λ y. y.username) (sym same) ∙ (eqs_iff x.username name).0 e,
      )
  | inr e ↦ let (m, n) = find_in-Member name us u (ground (arith, e, h)) in (there m, n)
]

find_in-none :
    (name : Str) (us : List User) → find_in name us ≡ none → All (λ u. u.username ≢ name) us
unfolding find_in
find_in-none name [] h = tt
find_in-none name (x ∷ us) h = elim (Bool-cases (eqs x.username name)) [
  | inl e ↦ ground (arith, e, h)
  | inr e ↦ (
    λ q. ground (arith, e, (eqs_iff x.username name).1 q),
    find_in-none name us (ground (arith, e, h)),
  )
]

module _ (host : Host) (io : Save) (now : ℕ) (token : Option Str) (s : Server) (address : Str) where
  abbrev pub limited : Option RequestLimiter × Bool
  limited = allow_request host.split_host s.login_limiter address now

  abbrev pub counted : Server
  counted = record s { login_limiter = limited.0 }

  -- The limiter lets the request pass, and there are a store and a configuration.
  pub record Served (c : Settings) : Type 0 where
    pub allowed : limited.1 ≡ true
    pub store : (f : FileStore) × (s.sessions ≡ some f)
    pub configured : s.cfg ≡ some c

  -- No user of the configuration has the name, or one has it and another password.
  abbrev pub Wrong : Settings → Credentials → Type 0
  Wrong c b =
      All (λ u. u.username ≢ trim_space b.username) c.auth.users
      ⊎ ((user : User) × Member user c.auth.users
          × (user.username ≡ trim_space b.username)
          × (host.verify_password user.password_hash b.password ≡ false))

  -- The answers of a refusal, each with its cause.
  pub data Cause (body : Option Credentials) : Reply → Type 0 where
    too_many : limited.1 ≡ false → Cause body rate_limited
    no_store : limited.1 ≡ true → s.sessions ≡ none → Cause body unavailable
    no_config : limited.1 ≡ true → s.cfg ≡ none → Cause body unavailable
    no_body : (c : Settings) → Served c → body ≡ none → Cause body bad_request
    wrong :
        (c : Settings) (b : Credentials)
        → Served c
        → body ≡ some b
        → Wrong c b
        → Cause body unauthorized

  -- The request is refused for a cause, and the sessions and the configuration are as they were.
  abbrev pub Refused : Option Credentials → Server × Reply × Option Str → Type 0
  Refused body r = (reply : Reply) × Cause body reply × (r ≡ (counted, reply, none))

  -- The request has the password of a user of the configuration, and a session is tried.
  pub record Known (c : Settings) (b : Credentials) : Type 0 where
    pub user : User
    pub of : Member user c.auth.users
    pub named : user.username ≡ trim_space b.username
    pub proved : host.verify_password user.password_hash b.password ≡ true

  abbrev pub Tried : Option Credentials → Server × Reply × Option Str → Type 0
  Tried body r =
      (c : Settings) × (b : Credentials) × (s.cfg ≡ some c)
      × (body ≡ some b)
      × (limited.1 ≡ true)
      × Known c b
      × (let made = create_session host io now token counted (trim_space b.username) in
          r ≡ (
            made.0,
            (elim made.1 [ none ↦ internal_error | some t ↦ welcome (trim_space b.username) ]),
            made.1,
          ))

  answered :
      (c : Settings) (b : Credentials) (store : FileStore) (user : User)
      → limited.1 ≡ true
      → s.sessions ≡ some store
      → s.cfg ≡ some c
      → find_user s (trim_space b.username) ≡ some user
      → host.verify_password user.password_hash b.password ≡ true
      → let made = create_session host io now token counted user.username in
        login host io now token s address (some b)
        ≡ (made.0, (elim made.1 [ none ↦ internal_error | some t ↦ welcome user.username ]), made.1)
  unfolding login
  answered c b store user a e f g v =
      elim (Option-cases (create_session host io now token counted user.username).1) [
        | inl m ↦ ground (arith, a, e, f, g, v, m)
        | inr (t, m) ↦ ground (arith, a, e, f, g, v, m)
      ]

  absent :
      (b : Credentials) (c : Settings)
      → s.cfg ≡ some c
      → find_user s (trim_space b.username) ≡ none
      → All (λ u. u.username ≢ trim_space b.username) c.auth.users
  unfolding find_user
  absent b c f g = find_in-none (trim_space b.username) c.auth.users (ground (arith, f, g))

  present :
      (b : Credentials) (c : Settings) (user : User)
      → s.cfg ≡ some c
      → find_user s (trim_space b.username) ≡ some user
      → Member user c.auth.users × (user.username ≡ trim_space b.username)
  unfolding find_user
  present b c user f g =
      find_in-Member (trim_space b.username) c.auth.users user (ground (arith, f, g))

  refused :
      (body : Option Credentials)
      → Refused body (login host io now token s address body)
        ⊎ ((c : Settings) × (b : Credentials) × (store : FileStore) × (user : User) × (body
              ≡ some b)
            × (limited.1 ≡ true)
            × (s.sessions ≡ some store)
            × (s.cfg ≡ some c)
            × (find_user s (trim_space b.username) ≡ some user)
            × (host.verify_password user.password_hash b.password ≡ true))
  unfolding login
  refused none = elim (Bool-cases limited.1) [
    | inr a ↦ inl (rate_limited, too_many a, ground (arith, a))
    | inl a ↦ elim (Option-cases s.sessions) [
      | inl e ↦ inl (unavailable, no_store a e, ground (arith, a, e))
      | inr (store, e) ↦ elim (Option-cases s.cfg) [
        | inl f ↦ inl (unavailable, no_config a f, ground (arith, a, e, f))
        | inr (c, f) ↦ inl (
          bad_request,
          no_body c (record { allowed = a; store = (store, e); configured = f }) refl,
          ground (arith, a, e, f),
        )
      ]
    ]
  ]
  refused (some b) = elim (Bool-cases limited.1) [
    | inr a ↦ inl (rate_limited, too_many a, ground (arith, a))
    | inl a ↦ elim (Option-cases s.sessions) [
      | inl e ↦ inl (unavailable, no_store a e, ground (arith, a, e))
      | inr (store, e) ↦ elim (Option-cases s.cfg) [
        | inl f ↦ inl (unavailable, no_config a f, ground (arith, a, e, f))
        | inr (c, f) ↦
            let served : Served c = record { allowed = a; store = (store, e); configured = f } in
            elim (Option-cases (find_user s (trim_space b.username))) [
              | inl g ↦ inl (
                unauthorized,
                wrong c b served refl (inl (absent b c f g)),
                ground (arith, a, e, f, g),
              )
              | inr (user, g) ↦
                  elim (Bool-cases (host.verify_password user.password_hash b.password)) [
                    | inr v ↦
                        let (m, n) = present b c user f g in
                        inl (
                          unauthorized,
                          wrong c b served refl (inr (user, m, n, v)),
                          ground (arith, a, e, f, g, v),
                        )
                    | inl v ↦ inr (c, b, store, user, refl, a, e, f, g, v)
                  ]
            ]
      ]
    ]
  ]

  -- A login is refused for one of these causes, and no session is made: the limiter refuses it; there is
  -- no store or no configuration; these are there, but no body; the body is there, but no user of the
  -- configuration has its name, trimmed, or one has it whose password is another. Or its password is
  -- that of a user of the configuration under its name, and it is for this user that a session is made.
  pub login-cases :
      (body : Option Credentials)
      → Refused body (login host io now token s address body)
        ⊎ Tried body (login host io now token s address body)
  login-cases body = elim (refused body) [
    | inl r ↦ inl r
    | inr (c, b, store, user, is, a, e, f, g, v) ↦
        let (m, n) = present b c user f g in
        let made = λ (name : Str). create_session host io now token counted name in
        let answer = λ (name : Str).
          (let r : Server × Reply × Option Str = (
            (made name).0,
            (elim (made name).1 [ none ↦ internal_error | some t ↦ welcome name ]),
            (made name).1,
          ) in
            r) in
        inr (
          c,
          b,
          f,
          is,
          a,
          record { user = user; of = m; named = n; proved = v },
          ap (login host io now token s address) is
              ∙ answered c b store user a e f g v
              ∙ ap answer n,
        )
  ]
