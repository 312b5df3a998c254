-- ===== src/Dns/Special.antt =====
-- internal/dns/special.go and internal/dns/edns.go: names that never leave the server, and the
-- removal of client-subnet options.
use sis.Base.{
  ℕ, zero, suc, ◌+◌, ◌/◌, ◌%◌, Bool, false, ◌&&◌, ◌||◌, Option, none, some, List, [], ◌∷◌, ◌++◌,
  map, Str, codes, eqs, ltb, ◌==◌, if◌then◌else◌,
}
use sis.Base.Strings.{has_suffix, to_lower}
use sis.Dns.Message.{
  Msg, Rr, Rdata, address, soa, opt, other, type_ptr, rcode_name_error, edns0_subnet,
}
use sis.Dns.Synthetic.{Names, synth_rcode, synth_loopback}

-- `itoa`, of a number below 100.
unfoldable pub itoa : ℕ → Str
itoa i = if ltb i 10 then (48 + i) ∷ [] else (48 + i / 10) ∷ (48 + i % 10) ∷ []

-- The loop over 16 to 31: `left` rounds from `i`.
unfoldable pub in_172 : ℕ → ℕ → Str → Bool
unfolding itoa
in_172 zero i qname = false
in_172 (suc left) i qname =
    has_suffix qname (codes "." ++ itoa i ++ codes ".172.in-addr.arpa.")
    || in_172 left (i + 1) qname

-- `isPrivatePTR`; `fold` is the table of unicode.ToLower above ASCII.
unfoldable pub is_private_ptr : (ℕ → ℕ) → Str → Bool
unfolding in_172
is_private_ptr fold name =
    let qname = to_lower fold name in
    has_suffix qname (codes ".10.in-addr.arpa.")
    || has_suffix qname (codes ".168.192.in-addr.arpa.")
    || has_suffix qname (codes ".254.169.in-addr.arpa.")
    || in_172 16 16 qname
    || has_suffix qname (codes ".c.f.ip6.arpa.")
    || has_suffix qname (codes ".d.f.ip6.arpa.")
    || has_suffix qname (codes ".8.e.f.ip6.arpa.")
    || has_suffix qname (codes ".9.e.f.ip6.arpa.")
    || has_suffix qname (codes ".a.e.f.ip6.arpa.")
    || has_suffix qname (codes ".b.e.f.ip6.arpa.")

-- `handleSpecial`.
unfoldable pub handle_special : Names → (ℕ → ℕ) → Msg → Str → ℕ → Bool → Option Msg
unfolding is_private_ptr
handle_special nm fold req qname qtype block_local_ptr =
    if eqs qname (codes "localhost.") || has_suffix qname (codes ".localhost.")
    then some (synth_loopback nm req qtype)
    else if eqs qname (codes "use-application-dns.net.")
    then some (synth_rcode nm (some req) rcode_name_error)
    else if block_local_ptr && qtype == type_ptr && is_private_ptr fold qname
    then some (synth_rcode nm (some req) rcode_name_error)
    else none

-- The loop over the options of one record.
unfoldable pub without_subnet : List (ℕ × Str) → List (ℕ × Str)
without_subnet [] = []
without_subnet ((code, value) ∷ options) =
    let filtered = without_subnet options in
    if code == edns0_subnet then filtered else (code, value) ∷ filtered

abbrev pub strip_rdata : Rdata → Rdata
strip_rdata (opt options) = opt (without_subnet options)
strip_rdata (address ip) = address ip
strip_rdata (soa ns mbox serial refresh retry expire minttl) =
    soa ns mbox serial refresh retry expire minttl
strip_rdata (other text) = other text

abbrev pub strip_rr : Rr → Rr
strip_rr rr = record rr { rdata = strip_rdata rr.rdata }

-- `StripECS` of a message that is not nil; the copy is the message as a value.
unfoldable pub strip_ecs : Msg → Msg
unfolding without_subnet
strip_ecs msg = record msg { extra = map strip_rr msg.extra }
