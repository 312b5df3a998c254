-- ===== src/Policy/Schedule.antt =====
-- internal/policy/group.go: schedules, with days as a bit set and times as minutes of the day.
pub mod Window
pub mod Compile
use sis.Base.{
  ℕ, ◌+◌, ◌*◌, ◌-◌, ◌^◌, Bool, true, false, not, ◌&&◌, Option, none, some, List, [], ◌∷◌, Str, eqs,
  leb, ltb, ◌==◌, if◌then◌else◌, codes, bit_and, bit_or,
}
use sis.Base.Strings.{to_lower}
use sis.Base.Results.{Result, ok, err, ◌>>=◌, wrap, or_err}
use sis.Policy.Config.{ScheduleConfig}
use sis.Policy.Errors.{Error, unknown_day, days_required, bad_clock, in_from, in_to}

-- What `now.In(tz)` tells: the hour, the minute, the weekday (Sunday is 0) and the weekday of
-- `AddDate(0, 0, -1)`.
pub record LocalTime : Type 0 where
  pub hour : ℕ
  pub minute : ℕ
  pub weekday : ℕ
  pub weekday_before : ℕ

-- A `*time.Location`: an instant read as local time. Package time is not modelled further.
abbrev pub Zone : Type 0
Zone = ℕ → LocalTime

pub record CompiledSchedule : Type 0 where
  pub name : Str
  pub days : ℕ
  pub from : ℕ
  pub to : ℕ
  pub block : List Str

-- The constants daySunday to daySaturday, 1 << 0 to 1 << 6, by dayFor.
unfoldable pub day_for : ℕ → ℕ
day_for w =
    if w == 0
    then 1
    else if w == 1
    then 2
    else if w == 2
    then 4
    else if w == 3
    then 8
    else if w == 4
    then 16
    else if w == 5
    then 32
    else 64

-- `d.has(day)`.
unfoldable pub has : ℕ → ℕ → Bool
has d day = not (bit_and d day == 0)

-- `ActiveAt`; `local_zone` is time.Local, which stands in for a nil location.
unfoldable pub active_at : Zone → CompiledSchedule → ℕ → Option Zone → Bool
active_at local_zone s now tz =
    let local : LocalTime = elim tz [ none ↦ local_zone now | some zone ↦ zone now ] in
    let minute = local.hour * 60 + local.minute in
    let today = day_for local.weekday in
    if s.from == s.to
    then has s.days today
    else if ltb s.from s.to
    then has s.days today && leb s.from minute && ltb minute s.to
    else if leb s.from minute
    then has s.days today
    else has s.days (day_for local.weekday_before) && ltb minute s.to

-- The switch of parseDays on a token in lower case.
unfoldable pub token_days : Str → Option ℕ
token_days day =
    if eqs day (codes "all")
    then some 127
    else if eqs day (codes "weekday")
    then some 62
    else if eqs day (codes "weekend")
    then some 65
    else if eqs day (codes "sun")
    then some 1
    else if eqs day (codes "mon")
    then some 2
    else if eqs day (codes "tue")
    then some 4
    else if eqs day (codes "wed")
    then some 8
    else if eqs day (codes "thu")
    then some 16
    else if eqs day (codes "fri")
    then some 32
    else if eqs day (codes "sat")
    then some 64
    else none

unfoldable pub parse_days_from : (ℕ → ℕ) → ℕ → List Str → Result Error ℕ
parse_days_from fold out [] = if out == 0 then err days_required else ok out
parse_days_from fold out (day ∷ rest) = elim (token_days (to_lower fold day)) [
  | none ↦ err (unknown_day day)
  | some days ↦ parse_days_from fold (bit_or out days) rest
]

unfoldable pub parse_days : (ℕ → ℕ) → List Str → Result Error ℕ
unfolding parse_days_from
parse_days fold raw = parse_days_from fold 0 raw

abbrev pub digit : ℕ → Bool
digit c = leb b'0' c && leb c b'9'

-- `getnum` of package time: two digits, or one if the number is not of fixed width.
unfoldable pub getnum : Bool → Str → Option (ℕ × Str)
getnum fixed [] = none
getnum fixed (a ∷ []) = if digit a && not fixed then some (a - b'0', []) else none
getnum fixed (a ∷ b ∷ s) =
    if digit a
    then if digit b
      then some ((a - b'0') * 10 + (b - b'0'), s)
      else if fixed
      then none
      else some (a - b'0', b ∷ s)
    else none

-- `time.Parse("15:04", raw)`: the hour in one digit or two, a colon, and two digits of minutes.
abbrev pub clock_minutes : ℕ → Option (ℕ × Str) → Option ℕ
clock_minutes hour none = none
clock_minutes hour (some (minute, [])) = if ltb minute 60 then some (hour * 60 + minute) else none
clock_minutes hour (some (minute, c ∷ s)) = none

abbrev pub clock_hours : Option (ℕ × Str) → Option ℕ
clock_hours none = none
clock_hours (some (hour, [])) = none
clock_hours (some (hour, c ∷ s)) =
    if ltb hour 24 && c == b':' then clock_minutes hour (getnum true s) else none

unfoldable pub parse_clock : Str → Result Error ℕ
unfolding getnum
parse_clock raw = or_err (bad_clock raw) (clock_hours (getnum false raw))

unfoldable pub compile_schedule : (ℕ → ℕ) → ScheduleConfig → Result Error CompiledSchedule
unfolding parse_days parse_clock
compile_schedule fold raw = do
  days ← parse_days fold raw.days
  from ← wrap in_from (parse_clock raw.from)
  to ← wrap in_to (parse_clock raw.to)
  ok (record { name = raw.name; days = days; from = from; to = to; block = raw.block })
