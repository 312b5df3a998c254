-- ===== src/Policy/Parser/Counts.antt =====
-- What parsing a blocklist promises: the counts, the size, and the names that match.
use sis.Base.{
  ℕ, suc, ◌+◌, ◌≡◌, refl, inl, inr, Bool, false, ◌||◌, Option, none, some, List, [], ◌∷◌, arith,
  Str, length, if◌then◌else◌, Option-cases, Bool-cases, any,
}
use native.Mathlib.Nat.{add-zero}
use sis.Policy.Names.{Unicode}
use sis.Policy.Domains.{Domains, new_domains, len, match}
use sis.Policy.Domains.Laws.{
  PtrIsValid, add-IsValid, new_domains-IsValid, len-add, covers, match-add_ptr, NonNil, NonNil-add,
  match-empty,
}
use sis.Policy.Parser.{
  ParseStats, no_stats, strip_comment, domain_from_line, is_blank, parse_line, parse_lines,
  parse_blocklist,
}

-- Every line is accepted, skipped or malformed, and the accepted ones are the size of the set.
pub record IsCounted (n : ℕ) (s : Option Domains × ParseStats) : Type 0 where
  pub total : s.1.lines ≡ s.1.accepted + s.1.skipped + s.1.malformed
  pub lines : s.1.lines ≡ n
  pub sized : len s.0 ≡ s.1.accepted
  pub valid : PtrIsValid s.0

module _ (u : Unicode) (is_ip : Str → Bool) where
  parse_line-IsCounted :
      (n : ℕ) (s : Option Domains × ParseStats) (text : Str)
      → IsCounted n s
      → IsCounted (n + 1) (parse_line u is_ip s text)
  unfolding parse_line
  parse_line-IsCounted n s text c =
      elim (Option-cases (domain_from_line u is_ip (strip_comment text))) [
        | inl e ↦ ground (arith, e)
        | inr (d, e) ↦ ground (arith, e, len-add u s.0 d, add-IsValid u s.0 d c.valid)
      ]

  parse_lines-IsCounted :
      (n : ℕ) (s : Option Domains × ParseStats) (lines : List Str)
      → IsCounted n s
      → IsCounted (n + length lines) (parse_lines u is_ip s lines)
  unfolding parse_lines
  parse_lines-IsCounted n s [] c = rw add-zero c
  parse_lines-IsCounted n s (t ∷ ts) c =
      rw (← shift)
        (parse_lines-IsCounted (n + 1) (parse_line u is_ip s t) ts (parse_line-IsCounted n s t c))
    where
      shift : n + 1 + length ts ≡ n + suc (length ts)
      shift = omega arith

  -- The name that a line gives to the set, if it gives one.
  unfoldable pub line_domain : Str → Option Str
  line_domain text =
      if is_blank (strip_comment text) then none else domain_from_line u is_ip (strip_comment text)

  abbrev pub listed : Str → Str → Bool
  listed q text = elim (line_domain text) [ none ↦ false | some d ↦ covers u d q ]

  parse_line-match :
      (s : Option Domains × ParseStats) (text q : Str)
      → NonNil s.0
      → NonNil (parse_line u is_ip s text).0
        × (match u (parse_line u is_ip s text).0 q ≡ (listed q text || match u s.0 q))
  unfolding parse_line line_domain
  parse_line-match s text q h =
      elim (Option-cases (domain_from_line u is_ip (strip_comment text))) [
        | inl e ↦ ground (arith, e)
        | inr (d, e) ↦ ground (arith, e, NonNil-add u s.0 d h, match-add_ptr u s.0 d q h)
      ]

  parse_lines-match :
      (s : Option Domains × ParseStats) (lines : List Str) (q : Str)
      → NonNil s.0
      → match u (parse_lines u is_ip s lines).0 q ≡ (any (listed q) lines || match u s.0 q)
  unfolding parse_lines
  parse_lines-match s [] q h = refl
  parse_lines-match s (t ∷ ts) q h =
      let (h', e) = parse_line-match s t q h in
      ground (arith, e, parse_lines-match (parse_line u is_ip s t) ts q h')

  -- Every line read is counted once, as accepted, skipped or malformed, also when the scanner fails;
  -- the set of a scan that succeeds holds as many suffixes as lines were accepted.
  pub parse_blocklist-counts :
      (lines : List Str) (failed : Bool)
      → (let stats = (parse_blocklist u is_ip lines failed).1 in
          (stats.lines ≡ length lines)
          × (stats.lines ≡ stats.accepted + stats.skipped + stats.malformed)
          × (len (parse_blocklist u is_ip lines failed).0 ≡ (if failed then 0 else stats.accepted))
          × PtrIsValid (parse_blocklist u is_ip lines failed).0)
  unfolding parse_blocklist
  parse_blocklist-counts lines failed =
      let c =
        parse_lines-IsCounted 0 (some new_domains, no_stats) lines
          (record { total = refl; lines = refl; sized = nothing; valid = new_domains-IsValid }) in
      elim (Bool-cases failed) [
        | inl e ↦ ground (arith, e, c.total, c.lines, nothing_valid)
        | inr e ↦ ground (arith, e, c.total, c.lines, c.sized, c.valid)
      ]
    where
      nothing : len (some new_domains) ≡ 0
      nothing = unfold len in refl

      nothing_valid : len none ≡ 0
      nothing_valid = unfold len in refl

  -- A name matches the parsed set exactly if it lies under the name that some line gives.
  pub match-parse_blocklist :
      (lines : List Str) (q : Str)
      → match u (parse_blocklist u is_ip lines false).0 q ≡ any (listed q) lines
  unfolding parse_blocklist
  match-parse_blocklist lines q =
      let e = parse_lines-match (some new_domains, no_stats) lines q tt in
      let f = match-empty u q in ground (arith, e, f)
