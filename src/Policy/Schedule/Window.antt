-- ===== src/Policy/Schedule/Window.antt =====
-- When a schedule is active, against windows of the week that begin on its days.
use sis.Base.{
  ℕ, ◌+◌, ◌*◌, ◌-◌, ◌%◌, ◌≤◌, ◌<◌, ◌≡◌, sym, ◌∙◌, ◌&&◌, ◌↔◌, ◌≢◌, ◌⊎◌, inl, inr, Bool, true, some,
  arith, ltb, leb, if◌then◌else◌, Bool-cases,
}
use sis.Policy.Schedule.{LocalTime, Zone, CompiledSchedule, day_for, has, active_at}

-- A time of day and of week, with the weekday before it as the calendar has it.
pub record IsLocal (t : LocalTime) : Type 0 where
  pub hours : t.hour < 24
  pub minutes : t.minute < 60
  pub days : t.weekday < 7
  pub before : t.weekday_before ≡ (t.weekday + 6) % 7

-- The minute of the week.
abbrev pub week_minute : LocalTime → ℕ
week_minute t = t.weekday * 1440 + (t.hour * 60 + t.minute)

-- How long a window is: from `from` to the next `to`.
abbrev pub duration : ℕ → ℕ → ℕ
duration from to = if ltb from to then to - from else 1440 + to - from

-- The window that begins at minute `from` of day `d` holds the minute `w` of the week; the week is
-- a circle of 10080 minutes.
abbrev pub InWindow : ℕ → ℕ → ℕ → ℕ → Type 0
InWindow from to d w = (w + 10080 - (d * 1440 + from)) % 10080 < duration from to

module _ (w d m from to : ℕ) (hw : w < 7) (hd : d < 7) (hm : m < 1440) (hf : from < 1440)
    (ht : to < 1440) where
  by_day : from < to → InWindow from to d (w * 1440 + m) → (d ≡ w) × (from ≤ m) × (m < to)
  by_day h k = ground arith

  by_night :
      to < from
      → InWindow from to d (w * 1440 + m)
      → ((d ≡ w) × (from ≤ m)) ⊎ ((d ≡ (w + 6) % 7) × (m < from) × (m < to))
  by_night h k = ground arith

-- The tests of ActiveAt on plain numbers: the weekday, the minute of the day and the two times.
abbrev windowed : (ℕ → Bool) → ℕ → ℕ → ℕ → ℕ → ℕ → Bool
windowed on w b m from to =
    if ltb from to
    then on w && leb from m && ltb m to
    else if leb from m
    then on w
    else on b && ltb m to

module _ (on : ℕ → Bool) (w m from to : ℕ) (hw : w < 7) (hm : m < 1440) (hf : from < 1440)
    (ht : to < 1440) (ne : from ≢ to) where
  abbrev Open : Type 0
  Open = (d : ℕ) × (d < 7) × (on d ≡ true) × InWindow from to d (w * 1440 + m)

  windowed→open : windowed on w ((w + 6) % 7) m from to ≡ true → Open
  windowed→open h = elim (Bool-cases (ltb from to)) [
    | inl day ↦ (w, hw, ground arith, ground arith)
    | inr night ↦ elim (Bool-cases (leb from m)) [
      | inl late ↦ (w, hw, ground arith, ground arith)
      | inr early ↦ ((w + 6) % 7, omega arith, ground arith, ground arith)
    ]
  ]

  open→windowed : Open → windowed on w ((w + 6) % 7) m from to ≡ true
  open→windowed (d, hd, h, k) = elim (Bool-cases (ltb from to)) [
    | inl day ↦
        let (same, x, y) = by_day w d m from to hw hd hm hf ht (ground arith) k in
        let here = rw same at h in ground arith
    | inr night ↦ elim (by_night w d m from to hw hd hm hf ht (ground arith) k) [
      | inl (same, x) ↦ let here = rw same at h in ground arith
      | inr (same, x, y) ↦ let here = rw same at h in ground arith
    ]
  ]

-- In a zone whose local time is well formed, a schedule with two different times of day is active exactly in the windows that begin on its
-- days, also where a window runs past midnight.
pub active_at_iff :
    (local_zone zone : Zone) (s : CompiledSchedule) (now : ℕ)
    → IsLocal (zone now)
    → s.from < 1440
    → s.to < 1440
    → s.from ≢ s.to
    → (active_at local_zone s now (some zone) ≡ true) ↔ (
        (d : ℕ) × (d < 7)
        × (has s.days (day_for d) ≡ true)
        × InWindow s.from s.to d (week_minute (zone now)))
unfolding active_at
active_at_iff local_zone zone s now l hf ht ne =
    let t = zone now in
    let on = λ (d : ℕ). has s.days (day_for d) in
    let m = t.hour * 60 + t.minute in
    let same : active_at local_zone s now (some zone)
        ≡ windowed on t.weekday ((t.weekday + 6) % 7) m s.from s.to =
      ground arith in
    let hm : m < 1440 = omega arith in
    (
      (λ h. windowed→open on t.weekday m s.from s.to l.days hm hf ht ne (sym same ∙ h)),
      (λ h. same ∙ open→windowed on t.weekday m s.from s.to l.days hm hf ht ne h),
    )

-- A schedule that begins and ends at the same minute is active all through its days.
pub active_at_all_day :
    (local_zone zone : Zone) (s : CompiledSchedule) (now : ℕ)
    → s.from ≡ s.to
    → active_at local_zone s now (some zone) ≡ has s.days (day_for (zone now).weekday)
unfolding active_at
active_at_all_day local_zone zone s now e = ground arith
