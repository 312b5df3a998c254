-- ===== src/Dns/Synthetic.antt =====
-- internal/dns/synthetic.go: the answers that the server makes itself.
use sis.Base.{
  ℕ, ◌/◌, ◌%◌, ◌^◌, Bool, true, ◌||◌, Option, none, some, [], ◌∷◌, ◌++◌, Str, codes, ◌==◌,
  if◌then◌else◌, length,
}
use sis.Dns.Message.{
  Ip, Rdata, address, soa, Rr, Msg, empty_msg, rcode_success, rcode_name_error, class_inet, type_a,
  type_aaaa, type_soa, type_svcb, type_https,
}

-- The helpers of github.com/miekg/dns: `SetReply` on a new message, `Fqdn` and `CanonicalName`.
pub record Names : Type 0 where
  pub set_reply : Msg → Msg
  pub fqdn : Str → Str
  pub canonical_name : Str → Str

-- The addresses of package net, in their 16-byte form.
abbrev pub v4_prefix : Ip
v4_prefix = 0 ∷ 0 ∷ 0 ∷ 0 ∷ 0 ∷ 0 ∷ 0 ∷ 0 ∷ 0 ∷ 0 ∷ 255 ∷ 255 ∷ []

abbrev pub ipv4 : ℕ → ℕ → ℕ → ℕ → Ip
ipv4 a b c d = v4_prefix ++ a ∷ b ∷ c ∷ d ∷ []

abbrev pub ipv4_zero : Ip
ipv4_zero = ipv4 0 0 0 0

abbrev pub ipv6_zero : Ip
ipv6_zero = 0 ∷ 0 ∷ 0 ∷ 0 ∷ 0 ∷ 0 ∷ 0 ∷ 0 ∷ 0 ∷ 0 ∷ 0 ∷ 0 ∷ 0 ∷ 0 ∷ 0 ∷ 0 ∷ []

abbrev pub ipv6_loopback : Ip
ipv6_loopback = 0 ∷ 0 ∷ 0 ∷ 0 ∷ 0 ∷ 0 ∷ 0 ∷ 0 ∷ 0 ∷ 0 ∷ 0 ∷ 0 ∷ 0 ∷ 0 ∷ 0 ∷ 1 ∷ []

-- The bytes behind the prefix of an IPv4 address, if it stands there.
abbrev pub strip_v4 : Ip → Ip → Option Ip
strip_v4 [] ip = some ip
strip_v4 (p ∷ ps) [] = none
strip_v4 (p ∷ ps) (b ∷ bs) = if p == b then strip_v4 ps bs else none

-- `ip.To4()` and `ip.To16()`, the nil address being the empty list.
unfoldable pub to4 : Ip → Ip
to4 ip =
    if length ip == 4
    then ip
    else if length ip == 16
    then elim (strip_v4 v4_prefix ip) [ none ↦ [] | some v4 ↦ v4 ]
    else []

unfoldable pub to16 : Ip → Ip
to16 ip = if length ip == 4 then v4_prefix ++ ip else if length ip == 16 then ip else []

abbrev pub second : ℕ
second = 1_000_000_000

-- The time to live is in nanoseconds; `none` is the nil address.
pub record BlockOptions : Type 0 where
  pub response_a : Option Ip
  pub response_aaaa : Option Ip
  pub ttl : ℕ
  pub use_nxdomain : Bool

abbrev pub or_ip : Option Ip → Ip → Ip
or_ip none ip = ip
or_ip (some a) ip = a

module _ (nm : Names) where
  -- `rrHeader` with the data of the record.
  unfoldable pub new_rr : Str → ℕ → ℕ → Rdata → Rr
  new_rr name typ ttl rdata = record {
    name = nm.fqdn name;
    rrtype = typ;
    class = class_inet;
    ttl = ttl;
    rdata = rdata;
  }

  -- `soaFor`.
  unfoldable pub soa_for : Str → ℕ → Rr
  unfolding new_rr
  soa_for name ttl =
      new_rr (nm.fqdn name) type_soa ttl
        (soa (codes "sis.local.") (codes "hostmaster.sis.local.") 1 60 60 60 ttl)

  -- `synthRCode`; `none` is the nil request.
  unfoldable pub synth_rcode : Option Msg → ℕ → Msg
  synth_rcode none rcode = record empty_msg {
    response = true;
    rcode = rcode;
    recursion_available = true;
  }
  synth_rcode (some req) rcode = record (nm.set_reply req) {
    rcode = rcode;
    recursion_available = true;
  }

  -- `synthLoopback`.
  unfoldable pub synth_loopback : Msg → ℕ → Msg
  unfolding synth_rcode soa_for new_rr
  synth_loopback req qtype =
      let resp = synth_rcode (some req) rcode_success in
      elim req.question [
        | [] ↦ resp
        | q ∷ qs ↦
            if qtype == type_a
            then record resp { answer = new_rr q.name type_a 60 (address (ipv4 127 0 0 1)) ∷ [] }
            else if qtype == type_aaaa
            then record resp { answer = new_rr q.name type_aaaa 60 (address ipv6_loopback) ∷ [] }
            else record resp { ns = soa_for q.name 60 ∷ [] }
      ]

  -- `uint32(opts.TTL.Seconds())`, 60 in place of 0.
  unfoldable pub block_ttl : ℕ → ℕ
  block_ttl ttl = let seconds = ttl / second % 2 ^ 32 in if seconds == 0 then 60 else seconds

  -- `synthBlock`.
  unfoldable pub synth_block : Msg → ℕ → BlockOptions → Msg
  unfolding synth_rcode soa_for new_rr block_ttl
  synth_block req qtype opts =
      let ttl = block_ttl opts.ttl in
      let resp = synth_rcode (some req) rcode_success in
      let nxdomain = synth_rcode (some req) rcode_name_error in
      if opts.use_nxdomain then nxdomain else elim req.question [
        | [] ↦ resp
        | q ∷ qs ↦
            if qtype == type_a
            then record resp {
              answer =
                  new_rr q.name type_a ttl (address (to4 (or_ip opts.response_a ipv4_zero))) ∷ [];
            }
            else if qtype == type_aaaa
            then record resp {
              answer =
                  new_rr q.name type_aaaa ttl (address (to16 (or_ip opts.response_aaaa ipv6_zero)))
                  ∷ [];
            }
            else if qtype == type_https || qtype == type_svcb
            then record resp { ns = soa_for q.name ttl ∷ [] }
            else nxdomain
      ]
