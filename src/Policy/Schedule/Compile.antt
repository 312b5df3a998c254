-- ===== src/Policy/Schedule/Compile.antt =====
-- What a compiled schedule holds: the days that its tokens name, and two times of day.
use sis.Base.{
  ℕ, zero, suc, ◌<◌, ◌≡◌, refl, sym, ◌∙◌, inl, inr, ◌≢◌, Bool, true, false, not, ◌&&◌, ◌||◌, Option,
  none, some, List, [], ◌∷◌, arith, Str, ltb, ◌==◌, ==_iff, bit_or, Option-cases, any, any_sound,
  all, all→All, All, Member, here, there,
}
use sis.Base.Map.{is_some}
use sis.Base.Strings.{to_lower}
use sis.Base.Results.{ok, >>=-eq-ok, wrap-eq-ok, wrap}
use sis.Policy.Config.{ScheduleConfig}
use sis.Policy.Errors.{in_from, in_to}
use sis.Policy.Schedule.{
  CompiledSchedule, day_for, has, token_days, parse_days_from, parse_days, getnum, clock_minutes,
  clock_hours, parse_clock, compile_schedule,
}

-- The test holds of every number under the bound.
every_under : (ℕ → Bool) → ℕ → Bool
every_under test zero = true
every_under test (suc bound) = every_under test bound && test bound

every_under_use :
    (test : ℕ → Bool) (bound : ℕ) {k : ℕ}
    → k < bound
    → every_under test bound ≡ true
    → test k ≡ true
unfolding every_under
every_under_use test zero lt all_hold = absurd (omega arith)
every_under_use test (suc bound) {k = k} lt all_hold =
    ground (arith, every_under_use test bound {k = k})

same_bool : Bool → Bool → Bool
same_bool true b = b
same_bool false b = not b

same_bool_sound : (a b : Bool) → same_bool a b ≡ true → a ≡ b
unfolding same_bool
same_bool_sound true b h = sym h
same_bool_sound false b h = ground arith

abbrev tokens : List ℕ
tokens = 127 ∷ 62 ∷ 65 ∷ 1 ∷ 2 ∷ 4 ∷ 8 ∷ 16 ∷ 32 ∷ 64 ∷ []

abbrev IsToken : ℕ → Type 0
IsToken b = any (λ t. t == b) tokens ≡ true

day_test : ℕ → ℕ → ℕ → Bool
unfolding has day_for same_bool
day_test b x w = same_bool (has (bit_or x b) (day_for w)) (has x (day_for w) || has b (day_for w))

or_test : ℕ → ℕ → Bool
unfolding every_under day_test
or_test b x = ltb (bit_or x b) 128 && every_under (day_test b x) 7

or_table : all (λ b. every_under (or_test b) 128) tokens ≡ true
unfolding or_test
or_table = refl

All-member {ℓ κ} :
    {A : Type ℓ} (P : A → Type κ) {a : A} {xs : List A} → Member a xs → All P xs → P a
All-member P here h = h.0
All-member P (there m) h = All-member P m h.1

table_use :
    (test : ℕ → ℕ → Bool)
    → all (λ b. every_under (test b) 128) tokens ≡ true
    → (b x : ℕ) → IsToken b
    → x < 128
    → test b x ≡ true
table_use test table b x t h =
    let (c, m, e) = any_sound (λ (k : ℕ). k == b) tokens t in
    let p =
      All-member (λ k. every_under (test k) 128 ≡ true) m
        (all→All (λ (k : ℕ). every_under (test k) 128) tokens table) in
    every_under_use (test b) 128 {k = x} h (rw ((==_iff c b).0 e) at p)

or_checked : (b x : ℕ) → IsToken b → x < 128 → or_test b x ≡ true
or_checked b x t h = table_use or_test or_table b x t h

nonzero_test : ℕ → ℕ → Bool
nonzero_test b x = not (bit_or x b == 0)

nonzero_table : all (λ b. every_under (nonzero_test b) 128) tokens ≡ true
unfolding nonzero_test every_under
nonzero_table = refl

bit_or-lt : (b x : ℕ) → IsToken b → x < 128 → bit_or x b < 128
bit_or-lt b x t h = let k = or_checked b x t h in unfold or_test in ground (arith, k)

has-bit_or :
    (b x w : ℕ)
    → IsToken b
    → x < 128
    → w < 7
    → has (bit_or x b) (day_for w) ≡ (has x (day_for w) || has b (day_for w))
has-bit_or b x w t h lt =
    let k = or_checked b x t h in
    same_bool_sound _ _ (
      unfold day_test in
      every_under_use (day_test b x) 7 {k = w} lt (unfold or_test in ground (arith, k)))

bit_or-ne-zero : (b x : ℕ) → IsToken b → x < 128 → bit_or x b ≢ 0
bit_or-ne-zero b x t h =
    let k = table_use nonzero_test nonzero_table b x t h in
    unfold nonzero_test in ground (arith, k, ==_iff (bit_or x b) 0)

token_days-IsToken : (s : Str) (b : ℕ) → token_days s ≡ some b → IsToken b
unfolding token_days
token_days-IsToken s b h = ground arith

-- A token names a day.
unfoldable pub names_day : (ℕ → ℕ) → ℕ → Str → Bool
names_day fold w token = elim (token_days (to_lower fold token)) [
  | none ↦ false
  | some b ↦ has b (day_for w)
]

parse_days_from_lem :
    (fold : ℕ → ℕ) (out : ℕ) (raw : List Str) {d : ℕ}
    → parse_days_from fold out raw ≡ ok d
    → out < 128
    → (d < 128)
      × (d ≢ 0)
      × ((w : ℕ) → w < 7 → has d (day_for w) ≡ (has out (day_for w) || any (names_day fold w) raw))
unfolding parse_days_from names_day
parse_days_from_lem fold out [] h lt = (ground arith, ground arith, λ w lw. ground arith)
parse_days_from_lem fold out (t ∷ ts) h lt = elim (Option-cases (token_days (to_lower fold t))) [
  | inl e ↦ ground arith
  | inr (b, e) ↦
      let k = token_days-IsToken (to_lower fold t) b e in
      let (x, y, z) =
        parse_days_from_lem fold (bit_or out b) ts (rw (e, parse_days_from) at h)
          (bit_or-lt b out k lt) in
      (x, y, λ w lw. ground (arith, e, z w lw, has-bit_or b out w k lt lw))
]

parse_days_from_succeeds :
    (fold : ℕ → ℕ) (out : ℕ) (raw : List Str)
    → out < 128
    → out ≢ 0
    → All (λ t. is_some (token_days (to_lower fold t)) ≡ true) raw
    → (d : ℕ) × (parse_days_from fold out raw ≡ ok d)
unfolding parse_days_from
parse_days_from_succeeds fold out [] lt h a = (out, ground arith)
parse_days_from_succeeds fold out (t ∷ ts) lt h (p, a) =
    elim (Option-cases (token_days (to_lower fold t))) [
      | inl e ↦ ground (arith, e)
      | inr (b, e) ↦
          let k = token_days-IsToken (to_lower fold t) b e in
          let (d, f) =
            parse_days_from_succeeds fold (bit_or out b) ts (bit_or-lt b out k lt)
              (bit_or-ne-zero b out k lt) a in
          (d, rw (e, parse_days_from) f)
    ]

-- A list of tokens with one element at least compiles.
pub parse_days_succeeds :
    (fold : ℕ → ℕ) (t : Str) (ts : List Str)
    → All (λ t. is_some (token_days (to_lower fold t)) ≡ true) (t ∷ ts)
    → (d : ℕ) × (parse_days fold (t ∷ ts) ≡ ok d)
unfolding parse_days parse_days_from
parse_days_succeeds fold t ts (p, a) = elim (Option-cases (token_days (to_lower fold t))) [
  | inl e ↦ ground (arith, e)
  | inr (b, e) ↦
      let k = token_days-IsToken (to_lower fold t) b e in
      let (d, f) =
        parse_days_from_succeeds fold (bit_or 0 b) ts (bit_or-lt b 0 k (omega arith))
          (bit_or-ne-zero b 0 k (omega arith)) a in
      (d, rw (e, parse_days_from) f)
]

has-zero : (w : ℕ) → w < 7 → has 0 (day_for w) ≡ false
unfolding has day_for
has-zero w h = ground arith

-- The set of days holds exactly the days that some token names, is never empty, and has no other bit.
pub parse_days_lem :
    (fold : ℕ → ℕ) (raw : List Str) {d : ℕ}
    → parse_days fold raw ≡ ok d
    → (d < 128) × (d ≢ 0) × ((w : ℕ) → w < 7 → has d (day_for w) ≡ any (names_day fold w) raw)
unfolding parse_days
parse_days_lem fold raw h =
    let (x, y, z) = parse_days_from_lem fold 0 raw h (omega arith) in
    (x, y, λ w lw. z w lw ∙ ground (arith, has-zero w))

getnum-lt : (fixed : Bool) (s r : Str) (n : ℕ) → getnum fixed s ≡ some (n, r) → n < 100
unfolding getnum
getnum-lt fixed [] r n h = cc
getnum-lt fixed (a ∷ []) r n h = ground arith
getnum-lt fixed (a ∷ b ∷ s) r n h = ground arith

clock_minutes-lt :
    (hour : ℕ) (o : Option (ℕ × Str)) (m : ℕ) → hour < 24 → clock_minutes hour o ≡ some m → m < 1440
clock_minutes-lt hour none m lt h = cc
clock_minutes-lt hour (some (minute, [])) m lt h = ground arith
clock_minutes-lt hour (some (minute, c ∷ s)) m lt h = cc

clock_hours-lt : (o : Option (ℕ × Str)) (m : ℕ) → clock_hours o ≡ some m → m < 1440
clock_hours-lt none m h = cc
clock_hours-lt (some (hour, [])) m h = cc
clock_hours-lt (some (hour, c ∷ s)) m h = ground (arith, clock_minutes-lt hour (getnum true s) m)

-- A parsed clock is a minute of the day.
pub parse_clock-lt : (raw : Str) {m : ℕ} → parse_clock raw ≡ ok m → m < 1440
unfolding parse_clock
parse_clock-lt raw {m} h = elim (Option-cases (clock_hours (getnum false raw))) [
  | inl e ↦ ground arith
  | inr (k, e) ↦ ground (arith, clock_hours-lt (getnum false raw) k e)
]

-- A compiled schedule has a set of days with nothing else in it and two times of day.
pub compile_schedule-bounds :
    (fold : ℕ → ℕ) (raw : ScheduleConfig) {s : CompiledSchedule}
    → compile_schedule fold raw ≡ ok s
    → (s.days < 128)
      × (s.from < 1440)
      × (s.to < 1440)
      × ((w : ℕ) → w < 7 → has s.days (day_for w) ≡ any (names_day fold w) raw.days)
unfolding compile_schedule
compile_schedule-bounds fold raw {s} h =
    let (days, e1, h1) = >>=-eq-ok (parse_days fold raw.days) _ h in
    let (from, e2, h2) = >>=-eq-ok (wrap in_from (parse_clock raw.from)) _ h1 in
    let (to, e3, h3) = >>=-eq-ok (wrap in_to (parse_clock raw.to)) _ h2 in
    let (x, y, z) = parse_days_lem fold raw.days e1 in
    let lf = parse_clock-lt raw.from (wrap-eq-ok in_from _ e2) in
    let lt = parse_clock-lt raw.to (wrap-eq-ok in_to _ e3) in
    (ground arith, ground arith, ground arith, λ w lw. ground (arith, z w lw))

-- A schedule that compiles has two times of day and, of the seven days, exactly those that some word of
-- its list names.
pub compile_schedule-days :
    (fold : ℕ → ℕ) (raw : ScheduleConfig) {s : CompiledSchedule} (w : ℕ)
    → compile_schedule fold raw ≡ ok s
    → w < 7
    → (s.days < 128)
      × (s.from < 1440)
      × (s.to < 1440)
      × (has s.days (day_for w) ≡ any (names_day fold w) raw.days)
compile_schedule-days fold raw w h lw =
    let (x, y, z, f) = compile_schedule-bounds fold raw h in (x, y, z, f w lw)
