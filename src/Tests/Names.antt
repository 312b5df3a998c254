-- ===== src/Tests/Names.antt =====
-- Names, tries and schedules at concrete inputs.
use sis.Base.{
  ℕ, ◌+◌, ◌%◌, ◌<◌, ◌≡◌, ◌≢◌, ◌↔◌, ◌⊎◌, refl, Bool, true, false, not, ◌&&◌, ◌||◌, Option, none,
  some, List, [], ◌∷◌, ◌++◌, Str, codes, arith, any,
}
use sis.Base.Results.{ok}
use sis.Base.Strings.{
  trim_space, trim_suffix, valid_string, has_suffix, contains_space, drop, split, to_lower, len,
  has_prefix,
}
use sis.Policy.Names.{
  normalize_domain_pattern, normalize_host, check_ascii, lower_host, plausible, valid_label,
}
use sis.Policy.Names.Canonical.{IsHost, normalize-IsHost}
use sis.Policy.Trie
use sis.Policy.Trie.{Node, new_node}
use sis.Policy.Config.{ScheduleConfig}
use sis.Policy.Schedule.{CompiledSchedule, compile_schedule, active_at, has, day_for}
use sis.Policy.Schedule.Window.{InWindow, week_minute, active_at_iff}
use sis.Tests.Data.{plain, minutes, night}

abbrev raw_name : Str
raw_name = codes "*.Ads.COM."

abbrev wild_ads : Str
wild_ads = codes "*.ads.com"

raw_name_normalized : normalize_domain_pattern plain raw_name ≡ some wild_ads
unfolding normalize_domain_pattern normalize_host check_ascii lower_host plausible valid_label
    valid_string has_prefix trim_suffix trim_space sis.Base.Strings.is_space sis.Base.eqs has_suffix
    to_lower len split
raw_name_normalized = refl

normalize-IsHost_example :
    (normalize_domain_pattern plain wild_ads ≡ some wild_ads)
    × ((s : Str) × IsHost plain s × ((wild_ads ≡ s) ⊎ (wild_ads ≡ codes "*." ++ s)))
normalize-IsHost_example = normalize-IsHost plain raw_name wild_ads raw_name_normalized

abbrev small_trie : Node
small_trie = (Trie.add (codes "com" ∷ codes "ads" ∷ []) new_node).0

abbrev below : List Str
below = codes "com" ∷ codes "ads" ∷ codes "x" ∷ []

-- Tuesday, 01:00.
active_at_iff_example : (active_at minutes night 2940 (some minutes) ≡ true) ↔ (
    (d : ℕ) × (d < 7)
    × (has 2 (day_for d) ≡ true)
    × InWindow 1320 360 d (week_minute (minutes 2940)))
active_at_iff_example =
    active_at_iff minutes minutes night 2940
      (record { hours = omega arith; minutes = omega arith; days = omega arith; before = refl })
      (omega arith) (omega arith) (omega arith)

abbrev evenings : ScheduleConfig
evenings = record {
  name = codes "evenings";
  days = codes "mon" ∷ codes "Weekend" ∷ [];
  from = codes "20:00";
  to = codes "23:30";
  block = [];
}

abbrev evenings_compiled : CompiledSchedule
evenings_compiled = record {
  name = codes "evenings";
  days = 67;
  from = 1200;
  to = 1410;
  block = [];
}

evenings_compile : compile_schedule plain.fold evenings ≡ ok evenings_compiled
unfolding compile_schedule sis.Policy.Schedule.token_days sis.Base.eqs to_lower
evenings_compile = refl
