-- ===== src/Dns/Sample.antt =====
-- A concrete DNS library and messages, for the tests of the other modules.
use dinosaur_dns.Common.{ℕ, true, false, [], ◌∷◌, Option, none, some, Str, str_eq, if◌then◌else◌}
use dinosaur_dns.Common.Strings.{codes, to_lower}
use dinosaur_dns.Dns.{Rr, a, Msg, DnsLib}

abbrev pub sample_string_to_type : Str → Option ℕ
sample_string_to_type s =
    if str_eq s (codes "A") then some 1 else if str_eq s (codes "AAAA") then some 28 else none

abbrev pub question_message : Str → ℕ → Msg
question_message name qtype = record {
  id = 1;
  response = false;
  authoritative = false;
  truncated = false;
  recursion_available = false;
  rcode = 0;
  question = record { name = name; qtype = qtype } ∷ [];
  answer = [];
  ns = [];
  extra = [];
}

abbrev pub sample_dns : DnsLib
sample_dns = record {
  canonical_name = to_lower;
  fqdn = λ s. s;
  set_question = question_message;
  set_rcode = λ r rcode. record r { response = true; rcode = rcode };
  new_rr = λ s. none;
  type_to_string = λ t. codes "A";
  string_to_type = sample_string_to_type;
}

-- example.com. 300 IN A 192.0.2.1
abbrev pub sample_name : Str
sample_name = codes "example.com."

abbrev pub sample_rr : Rr
sample_rr = record {
  name = sample_name;
  rrtype = 1;
  class = 1;
  ttl = 300;
  rdata = a (192 ∷ 0 ∷ 2 ∷ 1 ∷ []);
}

abbrev pub sample_query : Msg
sample_query = question_message sample_name 1

abbrev pub sample_response : Msg
sample_response = record sample_query { id = 77; response = true; answer = sample_rr ∷ [] }
