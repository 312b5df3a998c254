-- ===== src/Tests/Stores.antt =====
-- The store, the sessions and the login with a small store.
use sis.Base.{
  not, ltb, ◌==◌, ◌&&◌, ℕ, ◌+◌, ◌≤◌, ◌≡◌, ◌⊎◌, refl, Bool, true, false, Option, none, some, [], ◌∷◌,
  List, Str, codes, if◌then◌else◌, eqs, All, arith,
}
use sis.Base.Results.{ok, err}
use sis.Store.Models.{Client, Session, StatsRow, Codec, not_found, closed}
use sis.Store.File.{
  FileStore, saved, not_saved, get_json, put_json, delete_key, close, open_store, schema_key,
}
use sis.Store.File.Laws.{close-final}
use sis.Store.File.Opening.{open_store-version}
use sis.Store.Collections.{
  Json, get_client, upsert_client, get_session, delete_session, delete_expired, is_expired,
  get_stats, add_custom, list_custom,
}
use sis.Store.Collections.Apart.{get_client-upsert_client}
use sis.Store.Collections.Expiry.{get_session-delete_expired}

-- JSON that keeps one thing: the first character stands for the record.
abbrev one : {A : Type 0} → A → Codec A
one a = record { encode = λ x. some (codes "1"); decode = λ raw. some a }

abbrev first : Str → Option ℕ
first [] = none
first (n ∷ s) = some n

abbrev numbers : Codec ℕ
numbers = record { encode = λ n. some (n ∷ []); decode = first }

abbrev laptop : Client
laptop = record {
  key = codes "aa";
  kind = codes "mac";
  name = [];
  group = codes "kids";
  first_seen = 1;
  last_seen = 2;
  last_ip = [];
  hidden = false;
}

abbrev pub visit : Session
visit = record { token = codes "t"; username = codes "a"; expires_at = 10 }

abbrev row : StatsRow
row = record { bucket = []; counters = [] }

abbrev pub json : Json
json = record {
  clients = one laptop;
  sessions = one visit;
  stats = one row;
  snapshots = one (record { ts = 1; yaml = [] });
  flags = one true;
}

abbrev pub shelf : FileStore
shelf = record {
  rows = (codes "session:t", codes "1") ∷ (codes "clients:bb", codes "1") ∷ [];
  is_closed = false;
  disk = [];
}

close-final_example :
    ((close saved shelf).0.disk ≡ shelf.rows)
    × ((close saved shelf).0.rows ≡ shelf.rows)
    × ((put_json numbers saved (codes "n") 5 (close saved shelf).0).0 ≡ (close saved shelf).0)
    × (delete_key saved (codes "n") (close saved shelf).0 ≡ ((close saved shelf).0, some closed))
    × (close saved (close saved shelf).0 ≡ ((close saved shelf).0, none))
unfolding close
close-final_example = close-final numbers saved saved shelf (codes "n") 5 refl refl

-- The store that opens on the rows.
abbrev opened : FileStore
opened = (put_json numbers saved schema_key 7 (record shelf { disk = shelf.rows })).0

open_store-version_example :
    ((v : ℕ) × (get_json numbers schema_key opened ≡ ok v) × (7 ≤ v))
    × (opened.is_closed ≡ false)
    × ((k : Str)
        → eqs schema_key k ≡ false
        → get_json (one laptop) k opened
          ≡ get_json
              (one laptop)
              k
              (record { rows = shelf.rows; is_closed = false; disk = shelf.rows }))
unfolding open_store sis.Store.File.migrate_from sis.Base.Map.lookup eqs sis.Base.Map.insert
open_store-version_example =
    open_store-version numbers (λ v. saved) (one laptop) shelf.rows opened
      (
        (1 ∷ [], refl, refl),
        (
          (2 ∷ [], refl, refl),
          (
            (3 ∷ [], refl, refl),
            (
              (4 ∷ [], refl, refl),
              ((5 ∷ [], refl, refl), ((6 ∷ [], refl, refl), ((7 ∷ [], refl, refl), tt))),
            ),
          ),
        ),
      )
      refl

get_client-upsert_client_example :
    ((key : Str)
      → get_client json key (upsert_client json not_saved laptop shelf).0
        ≡ (if eqs (codes "aa") key then ok laptop else get_client json key shelf))
    × ((token : Str)
        → get_session json token (upsert_client json not_saved laptop shelf).0
          ≡ get_session json token shelf)
    × ((granularity bucket : Str)
        → get_stats json granularity bucket (upsert_client json not_saved laptop shelf).0
          ≡ get_stats json granularity bucket shelf)
unfolding eqs
get_client-upsert_client_example =
    get_client-upsert_client json not_saved shelf laptop refl refl (codes "1", refl, refl)

get_session-delete_expired_example :
    get_session json (codes "t") (delete_expired json (λ k. saved) 20 shelf).0
    ≡ (elim (get_session json (codes "t") shelf) [
      | err e ↦ err e
      | ok session ↦
          if not (session.expires_at == 0) && ltb session.expires_at 20
          then err not_found
          else ok session
    ])
unfolding sis.Base.Map.lookup eqs delete_expired sis.Store.File.scan_rows
    sis.Base.Strings.has_prefix sis.Store.Collections.resume delete_key
get_session-delete_expired_example =
    get_session-delete_expired json (λ k. saved) 20 shelf (codes "t") (refl, (refl, tt)) refl refl
