-- ===== src/Log/Query.antt =====
-- internal/log/query.go: the query log. The keyed hash of crypto/hmac, the random salt and the opening
-- of a rotated file are parameters; of the file the entries are kept that were given to its encoder.
pub mod Privacy
pub mod Recent
use sis.Base.{
  ℕ, zero, suc, ◌+◌, ◌%◌, Bool, true, false, not, ◌&&◌, ◌||◌, Option, none, some, List, [], ◌∷◌,
  ◌++◌, if◌then◌else◌, Str, codes, eqs, ltb, leb, ◌==◌, length, take, reverse,
}
use sis.Base.Int.{ℤ, pos, negsuc, is_pos, ltb_ℤ, pos_part}
use sis.Base.Strings.{to_lower, contains}
use sis.Config.Checks.{is_blank}
use sis.Config.Types.{PrivacyConfig, LoggingConfig}
use sis.Log.Entry.{Entry}
use sis.Log.Fanout.{Fanout, new_fanout, snapshot, publish, subscribe, unsubscribe}

pub record Query : Type 0 where
  pub enabled : Bool
  pub mode : Str
  pub salt : Str
  pub has_file : Bool
  pub fanout : Fanout Entry
  pub encoded : List Entry

-- `hashValue`, on a hash of a salt and a value.
unfoldable pub hash_value : (Str → Str → Str) → Str → Str → Str
hash_value hash salt value = if is_blank value then [] else hash salt value

unfoldable pub apply_privacy : (Str → Str → Str) → Str → Str → Entry → Entry
unfolding hash_value
apply_privacy hash mode salt e =
    if eqs mode (codes "hashed")
    then record e {
      client_key = hash_value hash salt e.client_key;
      client_ip = hash_value hash salt e.client_ip;
    }
    else if eqs mode (codes "anonymous")
    then record e { client_key = []; client_name = []; client_group = []; client_ip = [] }
    else e

-- The entry as `Write` publishes it.
unfoldable pub prepared : (Str → Str → Str) → ℕ → Query → Entry → Entry
unfolding apply_privacy
prepared hash now q e =
    apply_privacy hash q.mode q.salt (if e.ts == 0 then record e { ts = now } else e)

-- `Write` of a log and an entry that are not nil.
unfoldable pub write : (Str → Str → Str) → ℕ → Query → Entry → Query
unfolding prepared
write hash now q e =
    let entry = prepared hash now q e in
    let r : Query = record q { fanout = publish q.fanout entry } in
    if not r.enabled || not r.has_file then r else record r { encoded = r.encoded ++ entry ∷ [] }

-- Entries written one after another, each at its time.
unfoldable pub write_all : (Str → Str → Str) → Query → List (ℕ × Entry) → Query
unfolding write
write_all hash q [] = q
write_all hash q ((now, e) ∷ es) = write_all hash (write hash now q e) es

-- `Reconfigure`: the random salt, and whether the file opens; `none` is an error.
unfoldable pub reconfigure :
    Option Str → Bool → Query → PrivacyConfig → LoggingConfig → Option Query
reconfigure random opens q p l =
    let mode = if is_blank p.log_mode then codes "full" else p.log_mode in
    let salt : Option Str =
      if eqs mode (codes "hashed") && is_blank p.log_salt then random else some p.log_salt in
    elim salt [
      | none ↦ none
      | some s ↦
          if l.query_log && not opens
          then none
          else some
              (record q { enabled = l.query_log; mode = mode; salt = s; has_file = l.query_log })
    ]

-- `OpenQuery`, on the zero entry.
unfoldable pub open_query : Entry → Option Str → Bool → PrivacyConfig → LoggingConfig → Option Query
unfolding reconfigure
open_query blank random opens p l =
    reconfigure random opens
      (record {
        enabled = false;
        mode = [];
        salt = [];
        has_file = false;
        fanout = new_fanout blank (pos 256);
        encoded = [];
      })
      p l

-- `Filter`.
pub record Filter : Type 0 where
  pub client : Str
  pub qname : Str
  pub blocked : Option Bool
  pub limit : ℤ

-- `containsFold`, on the lower case of single characters.
unfoldable pub contains_fold : (ℕ → ℕ) → Str → Str → Bool
contains_fold fold s part =
    if is_blank part then true else contains (to_lower fold s) (to_lower fold part)

abbrev same_flag : Bool → Bool → Bool
same_flag true b = b
same_flag false b = not b

-- The entries that the loop of `Recent` does not pass over.
unfoldable pub matches : (ℕ → ℕ) → Filter → Entry → Bool
unfolding contains_fold
matches fold f e =
    not (
      not (is_blank f.client)
      && not (eqs e.client_key f.client)
      && not (eqs e.client_ip f.client)
      && not (eqs e.client_name f.client))
    && not (not (is_blank f.qname) && not (contains_fold fold e.qname f.qname))
    && elim f.blocked [ none ↦ true | some b ↦ same_flag b e.blocked ]

abbrev pub effective_limit : ℤ → ℕ
effective_limit n = if not (is_pos n) || ltb_ℤ (pos 1000) n then 100 else pos_part n

-- The loop of `Recent`, from the newest entry on, with room for so many.
unfoldable pub collect : (Entry → Bool) → ℕ → List Entry → List Entry
collect p zero es = []
collect p (suc room) [] = []
collect p (suc room) (e ∷ es) = if p e then e ∷ collect p room es else collect p (suc room) es

-- `Recent`.
unfoldable pub recent : (ℕ → ℕ) → Query → Filter → List Entry
unfolding matches collect
recent fold q f =
    reverse (collect (matches fold f) (effective_limit f.limit) (reverse (snapshot q.fanout)))

-- `SubscribeReplay` and `Unsubscribe`.
unfoldable pub subscribe_replay : Query → ℕ → ℤ → Bool → Query
subscribe_replay q id size replay = record q { fanout = subscribe q.fanout id size replay }

unfoldable pub unsubscribe_query : Query → ℕ → Query
unsubscribe_query q id = record q { fanout = unsubscribe q.fanout id }

-- `Close`.
unfoldable pub close : Query → Query
close q = if q.has_file then record q { enabled = false; has_file = false } else q
