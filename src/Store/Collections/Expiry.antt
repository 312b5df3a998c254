-- ===== src/Store/Collections/Expiry.antt =====
-- What DeleteExpired removes.
use sis.Base.{
  not, ltb, ◌==◌, ℕ, ◌≡◌, refl, sym, ap, ◌∙◌, inl, inr, Bool, true, false, ◌&&◌, ◌||◌, Option, none,
  some, List, [], ◌∷◌, Str, arith, str_eq, if◌then◌else◌, eqs, eqs_iff, codes, Bool-cases,
  Option-cases,
}
use sis.Base.Map.{lookup, delete, lookup-delete, Distinct}
use sis.Base.Results.{ok, err}
use sis.Base.Strings.{has_prefix}
use sis.Store.Models.{Session, StoreError, not_found, closed, required, bad_json, file_failed}
use sis.Store.File.{FileStore, Save, get_json, delete_key, scan_rows, scan}
use sis.Store.File.Laws.{save_locked-rows}
use sis.Store.Collections.{
  Json, Outcome, session_key, get_session, is_expired, resume, delete_rows, delete_expired,
}

module _ (json : Json) (saves : Str → Save) (now : ℕ) where
  -- The row is a session that is over.
  abbrev over : Str → Bool
  over raw = elim (json.sessions.decode raw) [
    | none ↦ false
    | some session ↦ is_expired json now session
  ]

  doomed : Str → List (Str × Str) → Bool
  doomed key [] = false
  doomed key ((k, raw) ∷ rows) = (eqs k key && over raw) || doomed key rows

  -- A deletion that does not report another error than a missing key.
  delete_key-rows :
      (io : Save) (key k : Str) (s : FileStore)
      → s.is_closed ≡ false
      → (lookup k (delete_key io key s).0.rows ≡ (if eqs key k then none else lookup k s.rows))
        × ((delete_key io key s).0.is_closed ≡ false)
  unfolding delete_key
  delete_key-rows io key k s o =
      let (r, c) = save_locked-rows io (record s { rows = delete key s.rows }) in
      let there = ap (lookup k) r ∙ lookup-delete key k s.rows in
      elim (Option-cases (lookup key s.rows)) [
        | inr (raw, f) ↦ (ground (arith, o, f, there), ground (arith, o, f, c))
        | inl f ↦ elim (Bool-cases (eqs key k)) [
          | inl e ↦ (
            ground (arith, o, f, e, ap (λ x. lookup x s.rows) (sym ((eqs_iff key k).0 e)) ∙ f),
            ground (arith, o, f),
          )
          | inr e ↦ (ground (arith, o, f, e), ground (arith, o, f))
        ]
      ]

  resumed :
      (failed : Option StoreError) (next : Outcome) (t : FileStore)
      → (resume failed next (t, failed)).1 ≡ none
      → resume failed next (t, failed) ≡ next
  unfolding resume
  resumed none next t h = refl
  resumed (some not_found) next t h = refl
  resumed (some closed) next t h = ground (arith, h)
  resumed (some (required m)) next t h = ground (arith, h)
  resumed (some bad_json) next t h = ground (arith, h)
  resumed (some file_failed) next t h = ground (arith, h)

  module _ (key k raw : Str) (rows : List (Str × Str)) (s : FileStore) (session : Session)
      (d : json.sessions.decode raw ≡ some session) where
    abbrev one : Outcome
    one = delete_key (saves k) k s

    kept :
        is_expired json now session ≡ false
        → delete_rows json saves now ((k, raw) ∷ rows) s ≡ delete_rows json saves now rows s
    unfolding delete_rows
    kept e = ground (arith, d, e)

    dropped :
        is_expired json now session ≡ true
        → delete_rows json saves now ((k, raw) ∷ rows) s
          ≡ resume one.1 (delete_rows json saves now rows one.0) one
    unfolding delete_rows
    dropped e = ground (arith, d, e)

  delete_rows-doomed :
      (key : Str) (rows : List (Str × Str)) (s : FileStore)
      → s.is_closed ≡ false
      → (delete_rows json saves now rows s).1 ≡ none
      → lookup key (delete_rows json saves now rows s).0.rows
        ≡ (if doomed key rows then none else lookup key s.rows)
  unfolding doomed
  delete_rows-doomed key [] s o h = unfold delete_rows in refl
  delete_rows-doomed key ((k, raw) ∷ rows) s o h = elim (Option-cases (json.sessions.decode raw)) [
    | inl d ↦ unfold delete_rows in ground (arith, d, h)
    | inr (session, d) ↦ elim (Bool-cases (is_expired json now session)) [
      | inr e ↦
          let is = kept key k raw rows s session d e in
          let rest = delete_rows-doomed key rows s o (ap (λ x. x.1) (sym is) ∙ h) in
          ap (λ x. lookup key x.0.rows) is ∙ ground (arith, rest, d, e)
      | inl e ↦
          let (r, c) = delete_key-rows (saves k) k key s o in
          let t = delete_key (saves k) k s in
          let is = dropped key k raw rows s session d e in
          let all =
            is
            ∙ resumed t.1 (delete_rows json saves now rows t.0) t.0 (ap (λ x. x.1) (sym is) ∙ h) in
          let rest = delete_rows-doomed key rows t.0 c (ap (λ x. x.1) (sym all) ∙ h) in
          ap (λ x. lookup key x.0.rows) all ∙ ground (arith, rest, r, d, e)
    ]
  ]

  doomed-absent :
      (key prefix : Str) (rows : List (Str × Str))
      → lookup key rows ≡ none
      → doomed key (scan_rows prefix rows) ≡ false
  unfolding doomed scan_rows lookup
  doomed-absent key prefix [] h = refl
  doomed-absent key prefix ((k, raw) ∷ rows) h = ground (arith, h, doomed-absent key prefix rows)

  doomed-scan :
      (key prefix : Str) (rows : List (Str × Str))
      → Distinct rows
      → doomed key (scan_rows prefix rows)
        ≡ elim (lookup key rows) [ none ↦ false | some raw ↦ has_prefix key prefix && over raw ]
  unfolding doomed scan_rows lookup
  doomed-scan key prefix [] d = refl
  doomed-scan key prefix ((k, raw) ∷ rows) (a, d) = elim (Bool-cases (eqs k key)) [
    | inl e ↦
        let same = (eqs_iff k key).0 e in
        let gone = doomed-absent key prefix rows (ap (λ x. lookup x rows) (sym same) ∙ a) in
        ground (arith, e, gone, ap (λ x. has_prefix x prefix) same)
    | inr e ↦ ground (arith, e, doomed-scan key prefix rows d)
  ]

  -- Where DeleteExpired reports no error on an open store, the sessions that have an end, which lies in
  -- the past, are gone, and every other session is as it was.
  pub get_session-delete_expired :
      (s : FileStore) (token : Str)
      → Distinct s.rows
      → s.is_closed ≡ false
      → (delete_expired json saves now s).1 ≡ none
      → get_session json token (delete_expired json saves now s).0
        ≡ (elim (get_session json token s) [
          | err e ↦ err e
          | ok session ↦
              if not (session.expires_at == 0) && ltb session.expires_at now
              then err not_found
              else ok session
        ])
  unfolding get_session get_json delete_expired
  get_session-delete_expired s token d o h =
      let key = session_key token in
      let rows = scan (codes "session:") s in
      let after = delete_rows-doomed key rows s o h in
      let which = doomed-scan key (codes "session:") s.rows d in
      let prefixed : has_prefix key (codes "session:") ≡ true = unfold has_prefix eqs in refl in
      elim (Option-cases (lookup key s.rows)) [
        | inl f ↦ ground (arith, after, which, f)
        | inr (raw, f) ↦ elim (Option-cases (json.sessions.decode raw)) [
          | inl g ↦ ground (arith, after, which, f, g)
          | inr (session, g) ↦ ground (arith, after, which, f, g, prefixed)
        ]
      ]
