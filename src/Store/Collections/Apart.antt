-- ===== src/Store/Collections/Apart.antt =====
-- The collections do not touch each other's records, nor do two custom lists.
use sis.Base.{
  ◌≡◌, refl, sym, ap, ◌∙◌, inl, inr, Bool, true, false, not, ◌||◌, List, [], ◌∷◌, ◌++◌, Str, arith,
  str_eq, if◌then◌else◌, eqs, eqs_iff, codes, Bool-cases, Option-cases, any, ◌==◌,
}
use sis.Base.Map.{insert}
use sis.Base.Results.{ok, err}
use sis.Base.Sort.{sort, str_lt}
use sis.Base.Strings.{has_prefix}
use sis.Config.Checks.{is_blank}
use sis.Store.Models.{Client, not_found}
use sis.Store.File.{FileStore, Save, get_json, put_json, scan_rows, scan}
use sis.Store.File.Laws.{
  Faithful, get_json-put_json, get_json-put_json_other, get_json-delete_key, save_locked-rows,
}
use sis.Store.Collections.{
  Json, client_key, session_key, list_prefix, stats_key, get_client, upsert_client, get_session,
  delete_session, get_stats, add_custom, list_custom, names_below,
}

module _ (json : Json) (io : Save) (s : FileStore) where
  own :
      (k key : Str) (client : Client) (s : FileStore)
      → s.is_closed ≡ false
      → Faithful json.clients client
      → get_json json.clients (client_key key) (put_json json.clients io (client_key k) client s).0
        ≡ (if eqs k key then ok client else get_json json.clients (client_key key) s)
  unfolding eqs
  own k key client s o f = elim (Bool-cases (eqs k key)) [
    | inl e ↦
        let same =
          ap
            (λ x.
              get_json json.clients (client_key x)
                (put_json json.clients io (client_key k) client s).0)
            (sym ((eqs_iff k key).0 e)) in
        rw e (same ∙ get_json-put_json json.clients io (client_key k) client s o f)
    | inr e ↦ rw e (
        get_json-put_json_other json.clients json.clients io (client_key k) (client_key key) client
          s e)
  ]

  -- A client that is stored in an open store is read back under its key; the other clients, the
  -- sessions and the statistics are as they were.
  pub get_client-upsert_client :
      (client : Client)
      → is_blank client.key ≡ false
      → s.is_closed ≡ false
      → Faithful json.clients client
      → let t = (upsert_client json io client s).0 in
        ((key : Str)
          → get_client json key t
            ≡ (if eqs client.key key then ok client else get_client json key s))
        × ((token : Str) → get_session json token t ≡ get_session json token s)
        × ((granularity bucket : Str)
            → get_stats json granularity bucket t ≡ get_stats json granularity bucket s)
  unfolding get_client get_session get_stats eqs
  get_client-upsert_client client b o f =
      let put = put_json json.clients io (client_key client.key) client s in
      let is : upsert_client json io client s ≡ put = unfold upsert_client in rw b refl in
      (
        λ key.
            ap (λ t. get_json json.clients (client_key key) t.0) is
            ∙ own client.key key client s o f,
        λ token.
            ap (λ t. get_json json.sessions (session_key token) t.0) is
            ∙ get_json-put_json_other json.clients json.sessions io (client_key client.key)
                (session_key token) client s refl,
        λ granularity bucket.
            ap (λ t. get_json json.stats (stats_key granularity bucket) t.0) is
            ∙ get_json-put_json_other json.clients json.stats io (client_key client.key)
                (stats_key granularity bucket) client s refl,
      )

  -- A session that is deleted is gone, and the other sessions and the clients are as they were.
  pub get_session-delete_session :
      (token other : Str)
      → s.is_closed ≡ false
      → (get_session json other (delete_session io token s).0
          ≡ (if eqs token other then err not_found else get_session json other s))
        × ((key : Str) → get_client json key (delete_session io token s).0 ≡ get_client json key s)
  unfolding delete_session get_client get_session eqs
  get_session-delete_session token other o = (
    get_json-delete_key json.sessions io (session_key token) (session_key other) s o,
    λ key. get_json-delete_key json.clients io (session_key token) (client_key key) s o,
  )

-- No colon stands in the name.
abbrev pub is_plain : Str → Bool
is_plain list = not (any (λ c. c == b':') list)

prefix-lists :
    (a b d : Str)
    → is_plain a ≡ true
    → is_plain b ≡ true
    → has_prefix (a ++ codes ":" ++ d) (b ++ codes ":") ≡ eqs a b
unfolding has_prefix eqs
prefix-lists [] [] d p q = refl
prefix-lists [] (y ∷ b) d p q = ground arith
prefix-lists (x ∷ a) [] d p q = ground arith
prefix-lists (x ∷ a) (y ∷ b) d p q = ground (arith, prefix-lists a b d)

scan-insert :
    (prefix key raw : Str) (rows : List (Str × Str))
    → has_prefix key prefix ≡ false
    → scan_rows prefix (insert key raw rows) ≡ scan_rows prefix rows
unfolding scan_rows insert
scan-insert prefix key raw [] h = ground (arith, h)
scan-insert prefix key raw ((k, r) ∷ rows) h = elim (Bool-cases (eqs k key)) [
  | inl e ↦ ground (arith, e, h, ap (λ x. has_prefix x prefix) ((eqs_iff k key).0 e))
  | inr e ↦ ground (arith, e, scan-insert prefix key raw rows h)
]

scans :
    (json : Json) (io : Save) (s : FileStore) (list other domain : Str)
    → is_plain list ≡ true
    → is_plain other ≡ true
    → eqs list other ≡ false
    → scan (list_prefix other) (add_custom json io list domain s).0 ≡ scan (list_prefix other) s
unfolding add_custom put_json has_prefix
scans json io s list other domain p q n = elim (Bool-cases (is_blank list || is_blank domain)) [
  | inl b ↦ ground (arith, b)
  | inr b ↦ elim (Option-cases (json.flags.encode true)) [
    | inl e ↦ ground (arith, b, e)
    | inr (raw, e) ↦ elim (Bool-cases s.is_closed) [
      | inl c ↦ ground (arith, b, e, c)
      | inr c ↦
          let key = list_prefix list ++ domain in
          let (r, o) = save_locked-rows io (record s { rows = insert key raw s.rows }) in
          let apart = prefix-lists list other domain p q ∙ n in
          let same =
            ap (scan_rows (list_prefix other)) r
            ∙ scan-insert (list_prefix other) key raw s.rows apart in
          ground (arith, b, e, c, same)
    ]
  ]
]

-- A domain that is added to one custom list does not show in another, where the names of the lists
-- have no colon.
pub list_custom-add_custom :
    (json : Json) (io : Save) (s : FileStore) (list other domain : Str)
    → is_plain list ≡ true
    → is_plain other ≡ true
    → eqs list other ≡ false
    → list_custom other (add_custom json io list domain s).0 ≡ list_custom other s
unfolding list_custom
list_custom-add_custom json io s list other domain p q n =
    ap (λ rows. sort str_lt (names_below (list_prefix other) rows))
      (scans json io s list other domain p q n)
