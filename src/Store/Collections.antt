-- ===== src/Store/Collections.antt =====
-- internal/store/file.go: the collections, which both backends share: each keeps its records under a
-- prefix of its own.
pub mod Apart
pub mod Expiry
use sis.Base.{
  ℕ, suc, Bool, true, false, not, ◌&&◌, ◌||◌, Option, none, some, List, [], ◌∷◌, ◌++◌, map, Str,
  codes, str_eq, if◌then◌else◌, leb, ltb, ◌==◌, length, take,
}
use sis.Base.Int.{ℤ, is_pos, pos_part}
use sis.Base.Results.{Result, ok, err, ◌>>=◌}
use sis.Base.Sort.{sort, str_lt}
use sis.Base.Strings.{trim_prefix}
use sis.Config.Checks.{is_blank}
use sis.Store.Models.{
  Client, Session, StatsRow, ConfigSnapshot, StoreError, not_found, required, bad_json, Codec,
}
use sis.Store.File.{FileStore, Save, get_json, put_json, delete_key, scan}

-- encoding/json on the records, and on `true`.
pub record Json : Type 0 where
  pub clients : Codec Client
  pub sessions : Codec Session
  pub stats : Codec StatsRow
  pub snapshots : Codec ConfigSnapshot
  pub flags : Codec Bool

abbrev pub Outcome : Type 0
Outcome = FileStore × Option StoreError

-- The records of the rows, or the first error.
unfoldable pub decode_rows : {A : Type 0} → Codec A → List (Str × Str) → Result StoreError (List A)
decode_rows codec [] = ok []
decode_rows codec ((key, raw) ∷ rows) =
    let rest = decode_rows codec rows in
    elim (codec.decode raw) [
      | none ↦ err bad_json
      | some a ↦ elim rest [ err e ↦ err e | ok as' ↦ ok (a ∷ as') ]
    ]

abbrev pub client_key : Str → Str
client_key key = codes "clients:" ++ key

abbrev pub session_key : Str → Str
session_key token = codes "session:" ++ token

abbrev pub list_prefix : Str → Str
list_prefix list = codes "customlist:" ++ list ++ codes ":"

abbrev pub stats_key : Str → Str → Str
stats_key granularity bucket = codes "stats:" ++ granularity ++ codes ":" ++ bucket

unfoldable pub resume : Option StoreError → Outcome → Outcome → Outcome
resume none next stop = next
resume (some not_found) next stop = next
resume (some e) next stop = stop

module _ (json : Json) where
  -- `clientStore`.
  unfoldable pub get_client : Str → FileStore → Result StoreError Client
  get_client key s = get_json json.clients (client_key key) s

  unfoldable pub upsert_client : Save → Client → FileStore → Outcome
  upsert_client io client s =
      if is_blank client.key
      then (s, some (required (codes "clients.key")))
      else put_json json.clients io (client_key client.key) client s

  unfoldable pub list_clients : FileStore → Result StoreError (List Client)
  unfolding decode_rows
  list_clients s = elim (decode_rows json.clients (scan (codes "clients:") s)) [
    | err e ↦ err e
    | ok out ↦ ok (sort (λ a b. str_lt a.key b.key) out)
  ]

  -- `customListStore`.
  unfoldable pub add_custom : Save → Str → Str → FileStore → Outcome
  add_custom io list domain s =
      if is_blank list || is_blank domain
      then (s, some (required (codes "customlist")))
      else put_json json.flags io (list_prefix list ++ domain) true s

  -- `sessionStore`.
  unfoldable pub get_session : Str → FileStore → Result StoreError Session
  get_session token s = get_json json.sessions (session_key token) s

  unfoldable pub upsert_session : Save → Session → FileStore → Outcome
  upsert_session io session s =
      if is_blank session.token
      then (s, some (required (codes "session.token")))
      else put_json json.sessions io (session_key session.token) session s

  abbrev pub is_expired : ℕ → Session → Bool
  is_expired now session = not (session.expires_at == 0) && ltb session.expires_at now

  -- The loop of `DeleteExpired`, which goes on over a key that is missing.
  unfoldable pub delete_rows : (Str → Save) → ℕ → List (Str × Str) → FileStore → Outcome
  delete_rows saves now [] s = (s, none)
  delete_rows saves now ((key, raw) ∷ rows) s =
      let (t, failed) = delete_key (saves key) key s in
      elim (json.sessions.decode raw) [
        | none ↦ (s, some bad_json)
        | some session ↦
            if not (is_expired now session)
            then delete_rows saves now rows s
            else resume failed (delete_rows saves now rows t) (t, failed)
      ]

  unfoldable pub delete_expired : (Str → Save) → ℕ → FileStore → Outcome
  unfolding delete_rows
  delete_expired saves now s = delete_rows saves now (scan (codes "session:") s) s

  -- `statsStore`.
  unfoldable pub put_stats : Save → Str → Str → StatsRow → FileStore → Outcome
  put_stats io granularity bucket row s =
      if is_blank granularity || is_blank bucket
      then (s, some (required (codes "stats")))
      else put_json json.stats io (stats_key granularity bucket) (record row { bucket = bucket }) s

  unfoldable pub get_stats : Str → Str → FileStore → Result StoreError StatsRow
  get_stats granularity bucket s = get_json json.stats (stats_key granularity bucket) s

  -- `configHistoryStore`, on the text of a time.
  unfoldable pub append_history : (ℕ → Str) → ℕ → Save → ConfigSnapshot → FileStore → Outcome
  append_history format now io snapshot s =
      let stored : ConfigSnapshot =
        if snapshot.ts == 0 then record snapshot { ts = now } else snapshot in
      put_json json.snapshots io (codes "confhist:" ++ format stored.ts) stored s

  unfoldable pub list_history : ℤ → FileStore → Result StoreError (List ConfigSnapshot)
  unfolding decode_rows
  list_history limit s = elim (decode_rows json.snapshots (scan (codes "confhist:") s)) [
    | err e ↦ err e
    | ok out ↦
        let newest = sort (λ a b. ltb b.ts a.ts) out in
        ok (
          if is_pos limit && ltb (pos_part limit) (length newest)
          then take (pos_part limit) newest
          else newest)
  ]

-- The deletions, and the listing of a custom list.
unfoldable pub delete_client : Save → Str → FileStore → Outcome
delete_client io key s = delete_key io (client_key key) s

unfoldable pub remove_custom : Save → Str → Str → FileStore → Outcome
remove_custom io list domain s = delete_key io (list_prefix list ++ domain) s

unfoldable pub delete_session : Save → Str → FileStore → Outcome
delete_session io token s = delete_key io (session_key token) s

unfoldable pub names_below : Str → List (Str × Str) → List Str
names_below prefix [] = []
names_below prefix ((key, raw) ∷ rows) = trim_prefix key prefix ∷ names_below prefix rows

unfoldable pub list_custom : Str → FileStore → List Str
unfolding names_below
list_custom list s = sort str_lt (names_below (list_prefix list) (scan (list_prefix list) s))
