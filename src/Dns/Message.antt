-- ===== src/Dns/Message.antt =====
-- The parts of a DNS message that the program reads and writes. github.com/miekg/dns, which packs
-- and unpacks messages, is a parameter.
use sis.Base.{ℕ, Bool, false, List, [], Option, Str}

-- An IP address by its bytes, 4 or 16.
abbrev pub Ip : Type 0
Ip = List ℕ

-- The data of a record, as far as the program makes or reads it.
pub data Rdata : Type 0 where
  address : Ip → Rdata
  soa : Str → Str → ℕ → ℕ → ℕ → ℕ → ℕ → Rdata
  opt : List (ℕ × Str) → Rdata
  other : Str → Rdata

-- A resource record.
pub record Rr : Type 0 where
  pub name : Str
  pub rrtype : ℕ
  pub class : ℕ
  pub ttl : ℕ
  pub rdata : Rdata

pub record Question : Type 0 where
  pub name : Str
  pub qtype : ℕ
  pub qclass : ℕ

-- `flags` stands for the header bits that the program leaves alone.
pub record Msg : Type 0 where
  pub id : ℕ
  pub response : Bool
  pub opcode : ℕ
  pub rcode : ℕ
  pub recursion_available : Bool
  pub flags : ℕ
  pub question : List Question
  pub answer : List Rr
  pub ns : List Rr
  pub extra : List Rr

-- `Pack` and `Unpack`; `none` is their error.
pub record Codec : Type 0 where
  pub pack : Msg → Option Str
  pub unpack : Str → Option Msg

-- Codes of the protocol (RFC 1035, RFC 6891).
abbrev pub rcode_success : ℕ
rcode_success = 0

abbrev pub rcode_format_error : ℕ
rcode_format_error = 1

abbrev pub rcode_server_failure : ℕ
rcode_server_failure = 2

abbrev pub rcode_name_error : ℕ
rcode_name_error = 3

abbrev pub rcode_not_implemented : ℕ
rcode_not_implemented = 4

abbrev pub rcode_refused : ℕ
rcode_refused = 5

abbrev pub type_opt : ℕ
type_opt = 41

abbrev pub opcode_query : ℕ
opcode_query = 0

abbrev pub class_inet : ℕ
class_inet = 1

abbrev pub type_a : ℕ
type_a = 1

abbrev pub type_soa : ℕ
type_soa = 6

abbrev pub type_ptr : ℕ
type_ptr = 12

abbrev pub type_aaaa : ℕ
type_aaaa = 28

abbrev pub type_svcb : ℕ
type_svcb = 64

abbrev pub type_https : ℕ
type_https = 65

abbrev pub edns0_subnet : ℕ
edns0_subnet = 8

-- `new(mdns.Msg)`.
abbrev pub empty_msg : Msg
empty_msg = record {
  id = 0;
  response = false;
  opcode = 0;
  rcode = 0;
  recursion_available = false;
  flags = 0;
  question = [];
  answer = [];
  ns = [];
  extra = [];
}
