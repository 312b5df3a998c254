-- ===== src/Store/File.antt =====
-- internal/store/file.go: the map of raw JSON that is kept in memory and written to a file at every
-- change. What becomes of a write is a parameter: CreateTemp, Write, Sync and Rename are the system's.
pub mod Laws
pub mod Opening
use sis.Base.{
  ℕ, Bool, true, false, not, Option, none, some, List, [], ◌∷◌, Str, codes, str_eq, if◌then◌else◌,
  leb, ltb,
}
use sis.Base.Map.{lookup, insert, delete, is_some}
use sis.Base.Results.{Result, ok, err, ◌>>=◌}
use sis.Base.Strings.{has_prefix}
use sis.Store.Models.{StoreError, not_found, closed, bad_json, file_failed, Codec}

-- `fileStore`, with what its file holds.
pub record FileStore : Type 0 where
  pub rows : List (Str × Str)
  pub is_closed : Bool
  pub disk : List (Str × Str)

-- `saveLocked`: the new file is in place, the old one still is, or the new one is but its directory
-- could not be synced.
pub data Save : Type 0 where
  saved : Save
  not_saved : Save
  not_synced : Save

unfoldable pub save_locked : Save → FileStore → FileStore × Option StoreError
save_locked saved s = (record s { disk = s.rows }, none)
save_locked not_saved s = (s, some file_failed)
save_locked not_synced s = (record s { disk = s.rows }, some file_failed)

unfoldable pub get_json : {A : Type 0} → Codec A → Str → FileStore → Result StoreError A
get_json codec key s = elim (lookup key s.rows) [
  | none ↦ err not_found
  | some raw ↦ elim (codec.decode raw) [ none ↦ err bad_json | some a ↦ ok a ]
]

unfoldable pub put_json :
    {A : Type 0} → Codec A → Save → Str → A → FileStore → FileStore × Option StoreError
unfolding save_locked
put_json codec io key value s = elim (codec.encode value) [
  | none ↦ (s, some bad_json)
  | some raw ↦
      if s.is_closed
      then (s, some closed)
      else save_locked io (record s { rows = insert key raw s.rows })
]

unfoldable pub delete_key : Save → Str → FileStore → FileStore × Option StoreError
unfolding save_locked
delete_key io key s =
    if s.is_closed
    then (s, some closed)
    else if not (is_some (lookup key s.rows))
    then (s, some not_found)
    else save_locked io (record s { rows = delete key s.rows })

unfoldable pub scan_rows : Str → List (Str × Str) → List (Str × Str)
scan_rows prefix [] = []
scan_rows prefix ((key, raw) ∷ rows) =
    let rest = scan_rows prefix rows in if has_prefix key prefix then (key, raw) ∷ rest else rest

abbrev pub scan : Str → FileStore → List (Str × Str)
scan prefix s = scan_rows prefix s.rows

-- `Close`.
unfoldable pub close : Save → FileStore → FileStore × Option StoreError
unfolding save_locked
close io s =
    if s.is_closed
    then (s, none)
    else (let (t, failed) = save_locked io s in
        elim failed [ none ↦ (record t { is_closed = true }, none) | some e ↦ (t, some e) ])

-- `runMigrations`: on this store every migration has nothing to do but to be recorded.
abbrev pub schema_key : Str
schema_key = codes "store_meta:schema_version"

abbrev pub versions : List ℕ
versions = 1 ∷ 2 ∷ 3 ∷ 4 ∷ 5 ∷ 6 ∷ 7 ∷ []

unfoldable pub apply_migrations :
    Codec ℕ → (ℕ → Save) → ℕ → List ℕ → FileStore → FileStore × Option StoreError
unfolding put_json
apply_migrations codec saves current [] s = (s, none)
apply_migrations codec saves current (v ∷ vs) s =
    let (t, failed) = put_json codec (saves v) schema_key v s in
    if leb v current
    then apply_migrations codec saves current vs s
    else elim failed [ none ↦ apply_migrations codec saves current vs t | some e ↦ (t, some e) ]

unfoldable pub migrate_from : Codec ℕ → (ℕ → Save) → ℕ → FileStore → FileStore × Option StoreError
migrate_from codec saves current s =
    if leb 7 current then (s, none) else apply_migrations codec saves current versions s

unfoldable pub run_migrations : Codec ℕ → (ℕ → Save) → FileStore → FileStore × Option StoreError
unfolding get_json apply_migrations
run_migrations codec saves s =
    migrate_from codec saves (elim (get_json codec schema_key s) [ ok v ↦ v | err e ↦ 0 ]) s

-- `Open`, from what was read: the rows of the file, none if there is no file or an empty one, or an
-- error of reading or decoding it.
unfoldable pub open_store :
    Codec ℕ → (ℕ → Save) → Result StoreError (List (Str × Str)) → Result StoreError FileStore
unfolding run_migrations
open_store codec saves read = do
  rows ← read
  let (s, failed) =
      run_migrations codec saves (record { rows = rows; is_closed = false; disk = rows })
  elim failed [ none ↦ ok s | some e ↦ err e ]
