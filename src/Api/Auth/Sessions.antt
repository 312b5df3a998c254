-- ===== src/Api/Auth/Sessions.antt =====
-- How long a session lasts.
use mathlib.Core.Path.{subst}
use sis.Base.{
  ℕ, ◌+◌, ◌≤◌, ◌<◌, ◌≡◌, refl, sym, ap, ◌∙◌, inl, inr, true, false, Option, none, some, List, [],
  ◌∷◌, Str, arith, str_eq, eqs_refl, ltb, Bool-cases, All,
}
use sis.Base.Results.{ok, err}
use sis.Config.Checks.{is_blank}
use sis.Store.Models.{Session, not_found}
use sis.Store.File.{FileStore, Save, saved, put_json, save_locked}
use sis.Store.File.Laws.{Faithful, get_json-put_json, put_json-rows, delete_key-open}
use sis.Store.Collections.{session_key, get_session, upsert_session, delete_session}
use sis.Store.Collections.Apart.{get_session-delete_session}
use sis.Api.Auth.{
  Host, Server, Reply, unauthorized, welcome, reply_of, session_ttl, create_session,
  session_from_request, logout, me,
}

ttl_cong : (r s : Server) → r.cfg ≡ s.cfg → session_ttl r ≡ session_ttl s
unfolding session_ttl
ttl_cong r s h = rw h refl

module _ (host : Host) where
  -- A session of the user, last renewed at the time, and that it is read back from JSON as it is
  -- written.
  abbrev pub session_at : ℕ → Str → Str → ℕ → Session
  session_at ttl token username now = record {
    token = token;
    username = username;
    expires_at = now + ttl;
  }

  abbrev pub Reads : ℕ → Str → Str → ℕ → Type 0
  Reads ttl token username now = Faithful host.json.sessions (session_at ttl token username now)

  -- The store is open and holds the session.
  record Alive (session : Session) (s : Server) : Type 0 where
    store : FileStore
    is : s.sessions ≡ some store
    opened : store.is_closed ≡ false
    held : get_session host.json session.token store ≡ ok session

  upsert-held :
      (session : Session) (store : FileStore)
      → Faithful host.json.sessions session
      → is_blank session.token ≡ false
      → store.is_closed ≡ false
      → let r = upsert_session host.json saved session store in
        (r.1 ≡ none)
        × (r.0.is_closed ≡ false)
        × (get_session host.json session.token r.0 ≡ ok session)
  unfolding upsert_session get_session
  upsert-held session store reads b o =
      let (raw, e, d) = reads in
      let key = session_key session.token in
      let put = put_json host.json.sessions saved key session store in
      let is : upsert_session host.json saved session store ≡ put = ground (arith, b) in
      let none_failed : put.1 ≡ none = unfold put_json save_locked in ground (arith, e, o) in
      (
        ap (λ x. x.1) is ∙ none_failed,
        ap (λ x. x.0.is_closed) is
            ∙ (put_json-rows host.json.sessions saved key session store raw o e).1,
        ap (λ x. get_session host.json session.token x.0) is
            ∙ get_json-put_json host.json.sessions saved key session store o reads,
      )

  abbrev renewed : Server → ℕ → Session → Session
  renewed s now session = record session { expires_at = now + session_ttl s }

  abbrev with_store : Server → FileStore → Server
  with_store s store = record s { sessions = some store }

  create-Alive :
      (s : Server) (store : FileStore) (now : ℕ) (token username : Str)
      → Reads (session_ttl s) token username now
      → s.sessions ≡ some store
      → store.is_closed ≡ false
      → is_blank token ≡ false
      → let r = create_session host saved now (some token) s username in
        (r.1 ≡ some token)
        × Alive
            (record { token = token; username = username; expires_at = now + session_ttl s })
            r.0
        × (r.0.cfg ≡ s.cfg)
  create-Alive s store now token username reads e o b =
      let session : Session = record {
        token = token;
        username = username;
        expires_at = now + session_ttl s;
      } in
      let put = upsert_session host.json saved session store in
      let (f, c, g) = upsert-held session store reads b o in
      let is : create_session host saved now (some token) s username
          ≡ (with_store s put.0, some token) =
        unfold create_session in ground (arith, e, f) in
      subst (λ r. (r.1 ≡ some token) × Alive session r.0 × (r.0.cfg ≡ s.cfg)) (sym is)
        (refl, record { store = put.0; is = refl; opened = c; held = g }, refl)

  request-Alive :
      (s : Server) (session : Session) (now : ℕ)
      → Reads (session_ttl s) session.token session.username now
      → Alive session s
      → is_blank session.token ≡ false
      → now ≤ session.expires_at
      → let r = session_from_request host saved now (some session.token) s in
        (r.1 ≡ some (renewed s now session)) × Alive (renewed s now session) r.0 × (r.0.cfg ≡ s.cfg)
  request-Alive s session now reads a b h =
      let next = renewed s now session in
      let put = upsert_session host.json saved next a.store in
      let (f, c, g) = upsert-held next a.store reads b a.opened in
      let early : ltb session.expires_at now ≡ false = ground arith in
      let is : session_from_request host saved now (some session.token) s
          ≡ (with_store s put.0, some next) =
        unfold session_from_request in ground (arith, a.is, b, a.held, early, f) in
      subst (λ r. (r.1 ≡ some next) × Alive next r.0 × (r.0.cfg ≡ s.cfg)) (sym is)
        (refl, record { store = put.0; is = refl; opened = c; held = g }, refl)

  -- The store is open and holds nothing under the token.
  record Gone (token : Str) (s : Server) : Type 0 where
    store : FileStore
    is : s.sessions ≡ some store
    opened : store.is_closed ≡ false
    missing : get_session host.json token store ≡ err not_found

  Gone-refused :
      (io : Save) (s : Server) (token : Str) (now : ℕ)
      → Gone token s
      → session_from_request host io now (some token) s ≡ (s, none)
  unfolding session_from_request
  Gone-refused io s token now g = elim (Bool-cases (is_blank token)) [
    | inl b ↦ ground (arith, g.is, b)
    | inr b ↦ ground (arith, g.is, b, g.missing)
  ]

  deleted-Gone :
      (io : Save) (s : Server) (store : FileStore) (token : Str)
      → store.is_closed ≡ false
      → Gone token (with_store s (delete_session io token store).0)
  deleted-Gone io s store token o = record {
    store = (delete_session io token store).0;
    is = refl;
    opened = unfold delete_session in delete_key-open io (session_key token) store o;
    missing =
        (get_session-delete_session host.json io store token token o).0
        ∙ ground (arith, eqs_refl token);
  }

  -- Requests of one cookie at their times, and the answers of `me`.
  unfoldable pub me_all : (ℕ → Save) → Str → Server → List ℕ → List Reply
  me_all saves token s [] = []
  me_all saves token s (now ∷ times) =
      let (after, reply) = me host (saves now) now (some token) s in
      reply ∷ me_all saves token after times

  me-request :
      (io : Save) (now : ℕ) (cookie : Option Str) (s t : Server) (found : Option Session)
      → session_from_request host io now cookie s ≡ (t, found)
      → me host io now cookie s ≡ (t, reply_of found)
  unfolding me
  me-request io now cookie s t found h =
      ap (λ (r : Server × Option Session). let p : Server × Reply = (r.0, reply_of r.1) in p) h

  -- All answers are the same where the first one is and those behind it are.
  me_all-step :
      (saves : ℕ → Save) (token : Str) (now : ℕ) (times : List ℕ) (s t : Server) (reply : Reply)
      → me host (saves now) now (some token) s ≡ (t, reply)
      → All (λ r. r ≡ reply) (me_all saves token t times)
      → All (λ r. r ≡ reply) (me_all saves token s (now ∷ times))
  unfolding me_all
  me_all-step saves token now times s t reply h rest = (
    ap (λ x. x.1) h,
    subst (λ x. All (λ r. r ≡ reply) (me_all saves token x times)) (ap (λ x. x.0) (sym h)) rest,
  )

  -- Each time is at most this long behind the one before it.
  abbrev pub InTime : ℕ → ℕ → List ℕ → Type 0
  InTime ttl last [] = Unit
  InTime ttl last (now ∷ times) = (now ≤ last + ttl) × InTime ttl now times

  me-Alive :
      (times : List ℕ) (s : Server) (session : Session) (last : ℕ)
      → All (Reads (session_ttl s) session.token session.username) times
      → Alive session s
      → is_blank session.token ≡ false
      → session.expires_at ≡ last + session_ttl s
      → InTime (session_ttl s) last times
      → All (λ r. r ≡ welcome session.username) (me_all (λ t. saved) session.token s times)
  me-Alive [] s session last reads a b e t = unfold me_all in tt
  me-Alive (now ∷ times) s session last (read, reads) a b e (h, t) =
      let (found, alive, same) = request-Alive s session now read a b (omega (arith, e, h)) in
      let r = session_from_request host saved now (some session.token) s in
      let ttl : session_ttl r.0 ≡ session_ttl s = ttl_cong r.0 s same in
      me_all-step (λ t. saved) session.token now times s r.0 (welcome session.username)
        (me-request saved now (some session.token) s r.0 (some (renewed s now session))
          (ap (λ o. (r.0, o)) found))
        (me-Alive times r.0 (renewed s now session) now
          (subst (λ x. All (Reads x session.token session.username) times) (sym ttl) reads) alive b
          (ap (λ x. now + x) (sym ttl)) (subst (λ x. InTime x now times) (sym ttl) t))

  -- A session lasts as long as it is used: behind a login every request is answered with the user, where
  -- none comes later than the time to live behind the one before it, the writes of the store succeed,
  -- and the user's session, as it is renewed at each of these times, is read back from JSON as it was
  -- written.
  pub me_all-create_session :
      (s : Server) (store : FileStore) (now : ℕ) (token username : Str) (times : List ℕ)
      → All (Reads (session_ttl s) token username) (now ∷ times)
      → s.sessions ≡ some store
      → store.is_closed ≡ false
      → is_blank token ≡ false
      → InTime (session_ttl s) now times
      → let r = create_session host saved now (some token) s username in
        (r.1 ≡ some token)
        × All (λ reply. reply ≡ welcome username) (me_all (λ t. saved) token r.0 times)
  me_all-create_session s store now token username times (read, reads) e o b t =
      let session : Session = record {
        token = token;
        username = username;
        expires_at = now + session_ttl s;
      } in
      let r = create_session host saved now (some token) s username in
      let (cookie, alive, same) = create-Alive s store now token username read e o b in
      let ttl : session_ttl r.0 ≡ session_ttl s = ttl_cong r.0 s same in
      (
        cookie,
        me-Alive times r.0 session now
            (subst (λ x. All (Reads x token username) times) (sym ttl) reads) alive b
            (ap (λ x. now + x) (sym ttl)) (subst (λ x. InTime x now times) (sym ttl) t),
      )

  me-Gone :
      (saves : ℕ → Save) (times : List ℕ) (s : Server) (token : Str)
      → Gone token s
      → All (λ r. r ≡ unauthorized) (me_all saves token s times)
  me-Gone saves [] s token g = unfold me_all in tt
  me-Gone saves (now ∷ times) s token g =
      let is = Gone-refused (saves now) s token now g in
      me_all-step saves token now times s s unauthorized
        (me-request (saves now) now (some token) s s none is) (me-Gone saves times s token g)

  -- Behind a logout the cookie is refused at all times, whether or not the store could be written.
  pub me_all-logout :
      (io : Save) (saves : ℕ → Save) (s : Server) (store : FileStore) (token : Str) (times : List ℕ)
      → s.sessions ≡ some store
      → store.is_closed ≡ false
      → All (λ r. r ≡ unauthorized) (me_all saves token (logout io (some token) s).0 times)
  me_all-logout io saves s store token times e o =
      let is : (logout io (some token) s).0 ≡ with_store s (delete_session io token store).0 =
        unfold logout in ground (arith, e) in
      subst (λ x. All (λ r. r ≡ unauthorized) (me_all saves token x times)) (sym is)
        (me-Gone saves times _ token (deleted-Gone io s store token o))

  -- A session that is used for the first time behind its end is refused, and refused from then on.
  pub me_all-expired :
      (saves : ℕ → Save) (s : Server) (store : FileStore) (session : Session) (late : ℕ)
      (times : List ℕ)
      → s.sessions ≡ some store
      → store.is_closed ≡ false
      → get_session host.json session.token store ≡ ok session
      → is_blank session.token ≡ false
      → session.expires_at < late
      → All (λ r. r ≡ unauthorized) (me_all saves session.token s (late ∷ times))
  me_all-expired saves s store session late times e o held b h =
      let over : ltb session.expires_at late ≡ true = ground arith in
      let is : session_from_request host (saves late) late (some session.token) s
          ≡ (with_store s (delete_session (saves late) session.token store).0, none) =
        unfold session_from_request in ground (arith, e, b, held, over) in
      let after = with_store s (delete_session (saves late) session.token store).0 in
      me_all-step saves session.token late times s after unauthorized
        (me-request (saves late) late (some session.token) s after none is)
        (me-Gone saves times after session.token
          (deleted-Gone (saves late) s store session.token o))
