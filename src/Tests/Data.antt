-- ===== src/Tests/Data.antt =====
-- Test data: tables of names that change nothing above ASCII, a clock that counts minutes, a codec
-- that keeps one message, and small configurations.
use sis.Base.{◌+◌, ◌/◌, ◌%◌, none, some, [], ◌∷◌, Str, codes}
use sis.Policy.Names.{Unicode}
use sis.Policy.Schedule.{Zone, CompiledSchedule}
use sis.Policy.Engine.{Platform}

abbrev pub plain : Unicode
plain = record { to_ascii = some; fold = λ c. c }

-- Minute 0 is the first minute of a Sunday.
abbrev pub minutes : Zone
minutes = λ now. record {
  hour = now / 60 % 24;
  minute = now % 60;
  weekday = now / 1440 % 7;
  weekday_before = (now / 1440 % 7 + 6) % 7;
}

abbrev pub platform : Platform
platform = record { unicode = plain; local_zone = minutes; load_location = λ name. none }

abbrev pub ads : Str
ads = codes "ads.com"

-- Monday, from 22:00 to 06:00.
abbrev pub night : CompiledSchedule
night = record { name = codes "night"; days = 2; from = 1320; to = 360; block = codes "ads" ∷ [] }
