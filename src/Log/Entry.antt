-- ===== src/Log/Entry.antt =====
-- internal/log/entry.go: the records. Times are in nanoseconds, and 0 is the zero time. A clone shares
-- no memory with its original, so that as a value it is the same.
use sis.Base.{ℕ, Bool, List, Str}

pub record Entry : Type 0 where
  pub ts : ℕ
  pub request_id : Str
  pub client_key : Str
  pub client_name : Str
  pub client_group : Str
  pub client_ip : Str
  pub qname : Str
  pub qtype : Str
  pub qclass : Str
  pub rcode : Str
  pub answers : List Str
  pub blocked : Bool
  pub block_reason : Str
  pub block_list : Str
  pub upstream : Str
  pub cache_hit : Bool
  pub latency_us : ℕ
  pub proto : Str
