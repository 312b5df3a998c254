-- ===== src/Stats/Histogram/Laws.antt =====
-- The histogram against the list of its samples.
use sis.Base.{
  ℕ, suc, ◌+◌, ◌*◌, ◌%◌, ◌≤◌, ◌<◌, ◌≡◌, refl, sym, ap, ◌∙◌, inl, inr, ◌⊎◌, true, false, List, [],
  ◌∷◌, leb, ◌==◌, if◌then◌else◌, length, arith, All, All-map, Bool-cases,
}
use mathlib.Core.Path.{subst}
use sis.Stats.Histogram.{
  Histogram, Scaling, histogram_bounds, second, u64, new_histogram, bucket_index, increment_at,
  observe, scan, quantile, snapshot,
}

-- Each bound is at least the one before it, and none is above the last.
abbrev Ascends : ℕ → ℕ → List ℕ → Type 0
Ascends low last [] = low ≤ last
Ascends low last (b ∷ bs) = (low ≤ b) × Ascends b last bs

Ascends-last : (low last : ℕ) (bs : List ℕ) → Ascends low last bs → low ≤ last
Ascends-last low last [] h = h
Ascends-last low last (b ∷ bs) (h, k) = omega (arith, Ascends-last b last bs k)

histogram_bounds-Ascends : Ascends 0 (10 * second) histogram_bounds
unfolding histogram_bounds
histogram_bounds-Ascends = omega arith

scan-low :
    (target last seen low : ℕ) (bs ns : List ℕ)
    → Ascends low last bs
    → low ≤ scan target last seen bs ns
unfolding scan
scan-low target last seen low bs [] h = Ascends-last low last bs h
scan-low target last seen low [] (n ∷ ns) h =
    ground (arith, scan-low target last ((seen + n) % u64) low [] ns)
scan-low target last seen low (b ∷ bs) (n ∷ ns) (h, k) =
    ground (arith, scan-low target last ((seen + n) % u64) b bs ns)

scan-last : (target last seen : ℕ) (ns : List ℕ) → scan target last seen [] ns ≡ last
unfolding scan
scan-last target last seen [] = refl
scan-last target last seen (n ∷ ns) = ground (arith, scan-last target last ((seen + n) % u64) ns)

scan_mono :
    (t t' last seen low : ℕ) (bs ns : List ℕ)
    → t ≤ t'
    → Ascends low last bs
    → scan t last seen bs ns ≤ scan t' last seen bs ns
unfolding scan
scan_mono t t' last seen low bs [] le h = omega arith
scan_mono t t' last seen low [] (n ∷ ns) le h = ground (
  arith,
  scan_mono t t' last ((seen + n) % u64) low [] ns,
  scan-last t last ((seen + n) % u64) ns,
  scan-last t' last ((seen + n) % u64) ns,
)
scan_mono t t' last seen low (b ∷ bs) (n ∷ ns) le (h, k) = ground (
  arith,
  scan_mono t t' last ((seen + n) % u64) b bs ns,
  scan-low t' last ((seen + n) % u64) b bs ns,
)

quantile_mono : (h : Histogram) (count t t' : ℕ) → t ≤ t' → quantile h count t ≤ quantile h count t'
unfolding quantile
quantile_mono h count t t' le = ground (
  arith,
  scan_mono (if t == 0 then 1 else t) (if t' == 0 then 1 else t') (10 * second) 0 0 histogram_bounds
      h.buckets (ground arith) histogram_bounds-Ascends,
)

-- The quantiles of a snapshot stand in order, if the scaled counts do.
pub snapshot-ordered :
    (sc : Scaling) (h : Histogram)
    → sc.half h.total ≤ sc.most h.total
    → sc.most h.total ≤ sc.nearly_all h.total
    → ((snapshot sc h).p50 ≤ (snapshot sc h).p95) × ((snapshot sc h).p95 ≤ (snapshot sc h).p99)
unfolding snapshot
snapshot-ordered sc h a b = (quantile_mono h h.total _ _ a, quantile_mono h h.total _ _ b)

-- How many samples are at most `b`, and the samples above it.
abbrev pub le_count : ℕ → List ℕ → ℕ
le_count b [] = 0
le_count b (d ∷ ds) = (if leb d b then 1 else 0) + le_count b ds

abbrev above : ℕ → List ℕ → List ℕ
above b [] = []
above b (d ∷ ds) = if leb d b then above b ds else d ∷ above b ds

-- The buckets count the samples.
abbrev Tally : List ℕ → List ℕ → List ℕ → Type 0
Tally bs [] ds = ⊥
Tally [] (n ∷ ns) ds = (n ≡ length ds) × (length ns ≡ 0)
Tally (b ∷ bs) (n ∷ ns) ds = (n ≡ le_count b ds) × Tally bs ns (above b ds)

le_count-le : (b : ℕ) (ds : List ℕ) → le_count b ds ≤ length ds
le_count-le b [] = omega arith
le_count-le b (d ∷ ds) = ground (arith, le_count-le b ds)

length-above : (b : ℕ) (ds : List ℕ) → length (above b ds) + le_count b ds ≡ length ds
length-above b [] = refl
length-above b (d ∷ ds) = ground (arith, length-above b ds)

le_count-above :
    (low b : ℕ) (ds : List ℕ)
    → low ≤ b
    → le_count b ds ≡ le_count low ds + le_count b (above low ds)
le_count-above low b [] h = refl
le_count-above low b (d ∷ ds) h = ground (arith, le_count-above low b ds h)

Tally-increment :
    (d : ℕ) (bs ns ds : List ℕ)
    → suc (length ds) < u64
    → Tally bs ns ds
    → Tally bs (increment_at (bucket_index d bs) ns) (d ∷ ds)
unfolding increment_at bucket_index
Tally-increment d bs [] ds lt h = absurd h
Tally-increment d [] (n ∷ ns) ds lt h = ground arith
Tally-increment d (b ∷ bs) (n ∷ ns) ds lt (h, k) = elim (Bool-cases (leb d b)) [
  | inl e ↦ ground (arith, e, le_count-le b ds)
  | inr e ↦ ground (arith, e, length-above b ds, Tally-increment d bs ns (above b ds))
]

Ascends-All : (low last : ℕ) (bs : List ℕ) → Ascends low last bs → All (λ b. low ≤ b) bs
Ascends-All low last [] h = tt
Ascends-All low last (b ∷ bs) (h, k) = (h, All-weaken low b bs h (Ascends-All b last bs k))
  where
    All-weaken : (l m : ℕ) (xs : List ℕ) → l ≤ m → All (λ x. m ≤ x) xs → All (λ x. l ≤ x) xs
    All-weaken l m [] le a = tt
    All-weaken l m (x ∷ xs) le (p, a) = (omega arith, All-weaken l m xs le a)

-- A bound is not below the result, or fewer than `t` of the samples lie at or below it.
abbrev Short : ℕ → ℕ → ℕ → List ℕ → ℕ → Type 0
Short result t seen ds b = (result ≤ b) ⊎ (seen + le_count b ds < t)

Short-now : (t seen b : ℕ) (ds bs : List ℕ) → All (λ x. b ≤ x) bs → All (Short b t seen ds) bs
Short-now t seen b ds [] a = tt
Short-now t seen b ds (x ∷ xs) (p, a) = (inl p, Short-now t seen b ds xs a)

Short-later :
    (result t seen b : ℕ) (ds bs : List ℕ)
    → All (λ x. b ≤ x) bs
    → All (Short result t (seen + le_count b ds) (above b ds)) bs
    → All (Short result t seen ds) bs
Short-later result t seen b ds [] a s = tt
Short-later result t seen b ds (x ∷ xs) (p, a) (q, s) =
    (ground (arith, le_count-above b x ds p), Short-later result t seen b ds xs a s)

abbrev Reaches : ℕ → ℕ → ℕ → ℕ → List ℕ → Type 0
Reaches result last t seen ds = (result ≡ last) ⊎ (t ≤ seen + le_count result ds)

abbrev Found : ℕ → ℕ → ℕ → List ℕ → List ℕ → ℕ → Type 0
Found t last seen bs ds r = All (Short r t seen ds) bs × Reaches r last t seen ds

scan_now :
    (t last seen b : ℕ) (bs : List ℕ) (n : ℕ) (ns : List ℕ)
    → leb t ((seen + n) % u64) ≡ true
    → scan t last seen (b ∷ bs) (n ∷ ns) ≡ b
unfolding scan
scan_now t last seen b bs n ns h = ground arith

scan_later :
    (t last seen b : ℕ) (bs : List ℕ) (n : ℕ) (ns : List ℕ)
    → leb t ((seen + n) % u64) ≡ false
    → scan t last seen (b ∷ bs) (n ∷ ns) ≡ scan t last ((seen + n) % u64) bs ns
unfolding scan
scan_later t last seen b bs n ns h = ground arith

scan_lem :
    (t last seen low : ℕ) (bs ns ds : List ℕ)
    → Ascends low last bs
    → seen + length ds < u64
    → Tally bs ns ds
    → Found t last seen bs ds (scan t last seen bs ns)
scan_lem t last seen low bs [] ds asc lt h = absurd h
scan_lem t last seen low [] (n ∷ ns) ds asc lt h = (tt, inl (scan-last t last seen (n ∷ ns)))
scan_lem t last seen low (b ∷ bs) (n ∷ ns) ds (p, asc) lt (h, k) =
    let le = le_count-le b ds in
    let more = length-above b ds in
    let later = Ascends-All b last bs asc in
    let same : (seen + n) % u64 ≡ seen + le_count b ds = ground arith in
    elim (Bool-cases (leb t (seen + le_count b ds))) [
      | inl e ↦
          subst (Found t last seen (b ∷ bs) ds) (sym (scan_now t last seen b bs n ns (rw same e)))
            ((inl (omega arith), Short-now t seen b ds bs later), inr (ground arith))
      | inr e ↦
          let seen' = seen + le_count b ds in
          let r = scan t last seen' bs ns in
          let (x, y) = scan_lem t last seen' b bs ns (above b ds) asc (omega arith) k in
          let low_r = scan-low t last seen' b bs ns asc in
          subst (Found t last seen (b ∷ bs) ds)
            (sym
              (scan_later t last seen b bs n ns (rw same e) ∙ ap (λ m. scan t last m bs ns) same))
            (
              (inr (ground arith), Short-later r t seen b ds bs later x),
              ground (arith, y, le_count-above b r ds low_r),
            )
    ]

-- The histogram of a list of samples, the last one first.
unfoldable pub observed : List ℕ → Histogram
observed [] = new_histogram
observed (d ∷ ds) = observe (observed ds) d

observed_lem :
    (ds : List ℕ)
    → length ds < u64
    → Tally histogram_bounds (observed ds).buckets ds × ((observed ds).total ≡ length ds)
unfolding observed observe
observed_lem [] h = unfold new_histogram in ground arith
observed_lem (d ∷ ds) h =
    let (x, y) = observed_lem ds (omega arith) in
    (Tally-increment d histogram_bounds (observed ds).buckets ds h x, ground arith)

quantile-scan :
    (h : Histogram) (count scaled : ℕ)
    → 1 ≤ count
    → quantile h count scaled
      ≡ scan (if scaled == 0 then 1 else scaled) (10 * second) 0 histogram_bounds h.buckets
unfolding quantile
quantile-scan h count scaled le = ground arith

-- The quantile of fewer than 2^64 samples is the least bound at or below which at least the scaled
-- count of samples lie (at least 1); or it is the last bound, 10 s.
pub quantile-least :
    (ds : List ℕ) (scaled : ℕ)
    → length ds < u64
    → 1 ≤ length ds
    → (let q = quantile (observed ds) (observed ds).total scaled in
        let t = if scaled == 0 then 1 else scaled in
        All (λ b. (q ≤ b) ⊎ (le_count b ds < t)) histogram_bounds
        × ((q ≡ 10 * second) ⊎ (t ≤ le_count q ds)))
quantile-least ds scaled h k =
    let (x, y) = observed_lem ds h in
    let t = if scaled == 0 then 1 else scaled in
    let q = quantile (observed ds) (observed ds).total scaled in
    let (a, b) : Found t (10 * second) 0 histogram_bounds ds q =
      subst (Found t (10 * second) 0 histogram_bounds ds)
        (sym (quantile-scan (observed ds) (observed ds).total scaled (omega (arith, y))))
        (scan_lem t (10 * second) 0 0 histogram_bounds (observed ds).buckets ds
          histogram_bounds-Ascends (omega arith) x) in
    (
      All-map (Short q t 0 ds) (λ c. (q ≤ c) ⊎ (le_count c ds < t)) histogram_bounds
          (λ c s. ground arith) a,
      ground arith,
    )
