-- ===== src/Dns.antt =====
-- The DNS messages that the program handles, with the fields that its code reads or writes, and
-- the functions of github.com/miekg/dns that it calls, which are a parameter of the model.
-- Messages are values: where the Go code shares a *dns.Msg it works on copies made by Msg.Copy.
pub mod Sample
use dinosaur_dns.Common.{ℕ, Bool, List, Option, Str, ◌^◌}

-- The Go type of a record, with its data: dns.A, dns.AAAA, dns.PTR, or any other type.
pub data RData : Type 0 where
  a aaaa : List ℕ → RData
  ptr other : Str → RData

-- dns.RR with its dns.RR_Header
pub record Rr : Type 0 where
  pub name : Str
  pub rrtype : ℕ
  pub class : ℕ
  pub ttl : ℕ
  pub rdata : RData

pub record Question : Type 0 where
  pub name : Str
  pub qtype : ℕ

-- dns.Msg
pub record Msg : Type 0 where
  pub id : ℕ
  pub response : Bool
  pub authoritative : Bool
  pub truncated : Bool
  pub recursion_available : Bool
  pub rcode : ℕ
  pub question : List Question
  pub answer : List Rr
  pub ns : List Rr
  pub extra : List Rr

abbrev pub type_a : ℕ
type_a = 1

abbrev pub type_ptr : ℕ
type_ptr = 12

abbrev pub type_aaaa : ℕ
type_aaaa = 28

abbrev pub type_opt : ℕ
type_opt = 41

abbrev pub class_inet : ℕ
class_inet = 1

abbrev pub rcode_success : ℕ
rcode_success = 0

abbrev pub rcode_server_failure : ℕ
rcode_server_failure = 2

abbrev pub rcode_name_error : ℕ
rcode_name_error = 3

-- uint32
abbrev pub u32_mod : ℕ
u32_mod = 2 ^ 32

pub record DnsLib : Type 0 where
  pub canonical_name : Str → Str
  pub fqdn : Str → Str
  -- SetQuestion on a new message
  pub set_question : Str → ℕ → Msg
  -- SetRcode on a new message, for a request
  pub set_rcode : Msg → ℕ → Msg
  -- NewRR: `none` is an error, and `some none` the nil record of a text with no record
  pub new_rr : Str → Option (Option Rr)
  -- the maps TypeToString and StringToType
  pub type_to_string : ℕ → Str
  pub string_to_type : Str → Option ℕ
