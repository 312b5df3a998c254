-- ===== src/Store/Models.antt =====
-- internal/store/models.go: the records of the store and its errors. Times are in nanoseconds, and 0 is
-- the zero time.
use sis.Base.{ℕ, Bool, Option, List, Str}

pub record Client : Type 0 where
  pub key : Str
  pub kind : Str
  pub name : Str
  pub group : Str
  pub first_seen : ℕ
  pub last_seen : ℕ
  pub last_ip : Str
  pub hidden : Bool

pub record Session : Type 0 where
  pub token : Str
  pub username : Str
  pub expires_at : ℕ

pub record StatsRow : Type 0 where
  pub bucket : Str
  pub counters : List (Str × ℕ)

pub record ConfigSnapshot : Type 0 where
  pub ts : ℕ
  pub yaml : Str

-- `ErrNotFound` and `ErrClosed`, the texts of the checks, and the errors of encoding/json and of the
-- file system.
pub data StoreError : Type 0 where
  not_found : StoreError
  closed : StoreError
  required : Str → StoreError
  bad_json : StoreError
  file_failed : StoreError

-- encoding/json on one type.
pub record Codec (A : Type 0) : Type 0 where
  pub encode : A → Option Str
  pub decode : Str → Option A
