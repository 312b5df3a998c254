-- ===== src/Dns/Cache/Ttl.antt =====
-- Times to live: the clamp of ttlFor and the cap of setTTL.
use sis.Base.{
  ℕ, ◌-◌, ◌*◌, ◌/◌, ◌%◌, ◌^◌, ◌≤◌, ◌<◌, ◌≡◌, ◌≢◌, ◌⊎◌, inl, inr, refl, min, true, false, Option,
  none, some, List, [], ◌∷◌, arith, All, Bool-cases, ltb, ◌==◌, ==_iff, if◌then◌else◌,
}
use sis.Dns.Message.{Rr, Msg, Codec, rcode_success, rcode_name_error, type_opt}
use sis.Dns.Cache.{Cache, second, no_answer, ttl_for, set_ttl, remaining_ttl, rewrite}

-- Where minTTL is at most maxTTL, the time to live of a positive answer lies between them, that of a negative one is negTTL, and
-- an error is not cached at all.
pub ttl_for-bounds :
    (c : Cache) (msg : Msg)
    → c.min_ttl ≤ c.max_ttl
    → ((ttl_for c msg ≡ 0) × (msg.rcode ≢ rcode_success) × (msg.rcode ≢ rcode_name_error))
      ⊎ ((ttl_for c msg ≡ c.neg_ttl)
          × ((msg.rcode ≡ rcode_name_error)
              ⊎ ((msg.rcode ≡ rcode_success) × (no_answer msg.answer ≡ true))))
      ⊎ ((c.min_ttl ≤ ttl_for c msg)
          × (ttl_for c msg ≤ c.max_ttl)
          × (msg.rcode ≡ rcode_success)
          × (no_answer msg.answer ≡ false))
unfolding ttl_for
ttl_for-bounds c msg h = ground arith

-- What a hit carries lives no longer than the entry that it was read from.
pub set_ttl-caps :
    (rrs : List Rr) (ttl : ℕ)
    → All (λ rr. (rr.rrtype ≡ type_opt) ⊎ (rr.ttl ≤ ttl)) (set_ttl rrs ttl)
unfolding set_ttl
set_ttl-caps [] ttl = tt
set_ttl-caps (rr ∷ rrs) ttl = (ground arith, set_ttl-caps rrs ttl)

-- The time that a hit still has, before its entry expires, is at least 1 second and, unless it is 1, not
-- more than is left.
pub remaining_ttl-bounds :
    (expires now : ℕ)
    → now < expires
    → (1 ≤ remaining_ttl expires now)
      × ((remaining_ttl expires now ≡ 1) ⊎ (remaining_ttl expires now * second ≤ expires - now))
unfolding remaining_ttl
remaining_ttl-bounds expires now h = ground arith

-- The second list has the records of the first, which have at most `left` seconds to live: OPT records,
-- whose field is no time, as they are, others with the less of their own time and that.
abbrev pub Aged : ℕ → List Rr → List Rr → Type 0
Aged left [] [] = Unit
Aged left [] (b ∷ bs) = ⊥
Aged left (a ∷ rrs) [] = ⊥
Aged left (a ∷ rrs) (b ∷ bs) =
    (b.name ≡ a.name)
    × (b.rrtype ≡ a.rrtype)
    × (b.class ≡ a.class)
    × (b.rdata ≡ a.rdata)
    × ((a.rrtype ≡ type_opt) × (b.ttl ≡ a.ttl) ⊎ (a.rrtype ≢ type_opt) × (b.ttl ≡ min a.ttl left))
    × Aged left rrs bs

set_ttl-Aged : (left : ℕ) (rrs : List Rr) → Aged left rrs (set_ttl rrs left)
unfolding set_ttl
set_ttl-Aged left [] = tt
set_ttl-Aged left (a ∷ rrs) = elim (Bool-cases (a.rrtype == type_opt)) [
  | inl e ↦
      rw e
        (refl, refl, refl, refl, inl ((==_iff a.rrtype type_opt).0 e, refl), set_ttl-Aged left rrs)
  | inr e ↦
      let other : a.rrtype ≢ type_opt = λ h. ground (arith, e, h) in
      elim (Bool-cases (ltb left a.ttl)) [
        | inl f ↦
            rw e (rw f (refl, refl, refl, refl, inr (other, ground arith), set_ttl-Aged left rrs))
        | inr f ↦
            rw e (rw f (refl, refl, refl, refl, inr (other, ground arith), set_ttl-Aged left rrs))
      ]
]

-- The second message is the first one as an answer to the request: under its number and question, with
-- the records of all sections aged, and otherwise as it was.
pub record Answers (req : Option Msg) (left : ℕ) (msg m : Msg) : Type 0 where
  pub asked : (r : Msg) → req ≡ some r → (m.id ≡ r.id) × (m.question ≡ r.question)
  pub unasked : req ≡ none → (m.id ≡ msg.id) × (m.question ≡ msg.question)
  pub answer : Aged left msg.answer m.answer
  pub ns : Aged left msg.ns m.ns
  pub extra : Aged left msg.extra m.extra
  pub response : m.response ≡ msg.response
  pub opcode : m.opcode ≡ msg.opcode
  pub rcode : m.rcode ≡ msg.rcode
  pub recursion_available : m.recursion_available ≡ msg.recursion_available
  pub flags : m.flags ≡ msg.flags

pub rewrite-Answers :
    (codec : Codec) (req : Option Msg) (left : ℕ) (msg : Msg)
    → Answers req left msg (rewrite codec req left msg)
unfolding rewrite
rewrite-Answers codec none left msg = record {
  asked = λ r e. cc;
  unasked = λ e. (refl, refl);
  answer = set_ttl-Aged left msg.answer;
  ns = set_ttl-Aged left msg.ns;
  extra = set_ttl-Aged left msg.extra;
  response = refl;
  opcode = refl;
  rcode = refl;
  recursion_available = refl;
  flags = refl;
}
rewrite-Answers codec (some q) left msg = record {
  asked = λ r e. (ground (arith, e), ground (arith, e));
  unasked = λ e. cc;
  answer = set_ttl-Aged left msg.answer;
  ns = set_ttl-Aged left msg.ns;
  extra = set_ttl-Aged left msg.extra;
  response = refl;
  opcode = refl;
  rcode = refl;
  recursion_available = refl;
  flags = refl;
}

-- The whole seconds from one time to another, as an unsigned number of 32 bits, and 1 in place of 0.
abbrev pub seconds_left : ℕ → ℕ → ℕ
seconds_left later expires =
    let n = (expires - later) / 1_000_000_000 % 2 ^ 32 in if n == 0 then 1 else n

pub remaining_ttl-seconds_left :
    (expires now : ℕ) → remaining_ttl expires now ≡ seconds_left now expires
unfolding remaining_ttl
remaining_ttl-seconds_left expires now = refl
