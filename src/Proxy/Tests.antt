-- ===== src/Proxy/Tests.antt =====
-- The theorems on the proxy with two resolvers, 0 and 1, at small configurations.
use dinosaur_dns.Blocklist.Trie.{
  add_here, insert_child, lookup_child, contains, match_rev, new_level, add_rev, type_any,
}
use dinosaur_dns.Common.{
  ℕ_discrete, Str-discrete, ℕ, ◌≤◌, ◌≡◌, ◌≢◌, refl, ◌↔◌, ◌⊎◌, inl, inr, true, false, List, [], ◌∷◌,
  Option, none, some, length, insert, arith, is_some, Bool-cases, if◌then◌else◌, ◌==◌, lookup,
}
use dinosaur_dns.Common.Strings.{lower, trim_dot, split_on, codes, to_lower}
use dinosaur_dns.Proxy.Handler.{
  same_network, net_contains, some_net, accept, serve, dns_error_response, check_acl,
  blocking_paused, ip_addr, Connection, handle, finish,
}
use dinosaur_dns.Proxy.Upstream.{
  note_failure, at_first, try_each, resolve_from, IpNet, ProxyConfig, resolve, cache_add,
}
use mathlib.Core.List.{Perm}
use dinosaur_dns.Dns.{Question, Msg, type_a, type_aaaa, rcode_name_error}
use dinosaur_dns.Dns.Sample.{
  sample_dns, sample_name, sample_query, sample_response, question_message,
}
use dinosaur_dns.Cache
use dinosaur_dns.Cache.Ptr.{to4}
use dinosaur_dns.Cache.{DnsCache}
use dinosaur_dns.Stats.{ConnectionLog}
use dinosaur_dns.Stats.Buffer.{new}
use dinosaur_dns.Blocklist
use dinosaur_dns.Blocklist.Trie
use dinosaur_dns.Blocklist.{split_name, is_root}
use dinosaur_dns.Proxy.Upstream.Demotion.{
  Call, resolve_all, Misses, resolve_all-Perm, resolve_all-short, four_failures,
}
use dinosaur_dns.Proxy.Upstream.Failover.{first_answer, or_else, CacheAfter, resolve-answer}
use dinosaur_dns.Proxy.Handler.Access.{InSomeNet, check_acl_iff, admits, Refused, handle-Refused}
use dinosaur_dns.Proxy.Handler.Blocking.{blocks_query, handle-Answers}
use dinosaur_dns.Proxy.Handler.Returns.{Returns, handle-Returns}
use dinosaur_dns.Proxy.Handler.Dns64.{AllTranslated, finish-dns64}

abbrev empty_item : ConnectionLog
empty_item = record {
  timestamp = 0;
  client = [];
  qname = [];
  qtype = [];
  rcode = 0;
  query_time = 0;
  acl = false;
  blocked = false;
  cached = false;
  error = false;
}

-- 64:ff9b::/96
abbrev prefix : IpNet
prefix = record {
  ip = 0 ∷ 100 ∷ 255 ∷ 155 ∷ 0 ∷ 0 ∷ 0 ∷ 0 ∷ 0 ∷ 0 ∷ 0 ∷ 0 ∷ 0 ∷ 0 ∷ 0 ∷ 0 ∷ [];
  mask = 255 ∷ 255 ∷ 255 ∷ 255 ∷ 255 ∷ 255 ∷ 255 ∷ 255 ∷ 255 ∷ 255 ∷ 255 ∷ 255 ∷ 0 ∷ 0 ∷ 0 ∷ 0 ∷ [];
}

abbrev config : ProxyConfig ℕ
config = record {
  upstream = 0 ∷ 1 ∷ [];
  upstream_err = 0;
  cache = [];
  block_list = new_level;
  block_pause_until = 0;
  acl = [];
  dns64 = true;
  dns64_prefix = prefix;
  stats_handler = new empty_item 3;
}

-- Only resolver 1 answers.
abbrev exchange : ℕ → Msg → Option Msg
exchange r q = if r == 1 then some sample_response else none

abbrev silent : ℕ → Msg → Option Msg
silent r q = none

answers_ask : (r : ℕ) (q out : Msg) → exchange r q ≡ some out → out.question ≢ []
answers_ask r q out e none_asked = elim (Bool-cases (r == 1)) [
  | inl one ↦ absurd (ground arith)
  | inr other ↦ absurd (ground arith)
]

resolve-answer_example :
    (c : DnsCache) × (hit : Option Msg) × (config' : ProxyConfig ℕ) × (Cache.get sample_dns
        sample_query 5 5 config.cache
      ≡ some (c, hit))
    × (resolve sample_dns exchange sample_query 5 5 5 config
        ≡ some (
          config',
          or_else hit (first_answer exchange config.upstream sample_query),
          is_some hit,
        ))
    × CacheAfter sample_dns
        (if is_some hit then none else first_answer exchange config.upstream sample_query)
        5
        c
        config'.cache
resolve-answer_example =
    resolve-answer sample_dns exchange answers_ask sample_query 5 5 5 config
      (λ e. absurd (ground arith))

abbrev call : Call
call = record { query = sample_query; got = 5; got' = 5; added = 5 }

abbrev failed_once : ProxyConfig ℕ
failed_once = record config { upstream_err = 1 }

misses : Misses sample_dns silent [] call
unfolding Cache.get Cache.get_key lookup
misses = refl

one_failure : resolve_all sample_dns silent (call ∷ []) config ≡ some failed_once
unfolding resolve_all resolve Cache.get resolve_from Cache.get_key lookup try_each at_first
    note_failure
one_failure = refl

resolve_all-Perm_example :
    Perm failed_once.upstream config.upstream × (failed_once.upstream_err ≤ 3)
resolve_all-Perm_example =
    resolve_all-Perm sample_dns silent (call ∷ []) config failed_once (omega arith) one_failure

resolve_all-short_example : failed_once.upstream ≡ config.upstream
resolve_all-short_example =
    resolve_all-short sample_dns silent (call ∷ []) config failed_once refl (omega arith)
      one_failure

four_failures_example :
    resolve_all sample_dns silent (call ∷ call ∷ call ∷ call ∷ []) config
    ≡ some (record config { upstream = 1 ∷ 0 ∷ []; upstream_err = 0 })
four_failures_example =
    four_failures sample_dns silent (λ r q. refl) 0 (1 ∷ []) call call call call config refl refl
      misses misses misses misses

-- 192.0.2.0/24
abbrev acl : List IpNet
acl = record { ip = 192 ∷ 0 ∷ 2 ∷ 0 ∷ []; mask = 255 ∷ 255 ∷ 255 ∷ 0 ∷ [] } ∷ []

check_acl_iff_example :
    (check_acl acl (192 ∷ 0 ∷ 2 ∷ 7 ∷ []) ≡ true)
    ↔ ((acl ≡ []) ⊎ InSomeNet acl (192 ∷ 0 ∷ 2 ∷ 7 ∷ []))
check_acl_iff_example = check_acl_iff acl (192 ∷ 0 ∷ 2 ∷ 7 ∷ [])

abbrev connection : List ℕ → Connection
connection ip = record {
  client = codes "client";
  addr = ip_addr ip;
  start_time = 5;
  block_time = 5;
  got = 5;
  got' = 5;
  added = 5;
  got64 = 5;
  got64' = 5;
  added64 = 5;
}

abbrev inside : Connection
inside = connection (192 ∷ 0 ∷ 2 ∷ 7 ∷ [])

abbrev outside : Connection
outside = connection (198 ∷ 51 ∷ 100 ∷ 7 ∷ [])

abbrev guarded : ProxyConfig ℕ
guarded = record config {
  acl = acl;
  block_list = add_rev (codes "com" ∷ codes "example" ∷ []) type_any new_level;
}

refused : admits outside.addr sample_query.question guarded.acl ≡ false
unfolding admits check_acl some_net net_contains same_network to4
refused = refl

handle-Refused_example : Refused guarded (handle sample_dns exchange outside sample_query guarded)
handle-Refused_example = handle-Refused sample_dns exchange outside sample_query guarded refused

abbrev question : Question
question = record { name = sample_name; qtype = 1 }

permitted : admits inside.addr sample_query.question guarded.acl ≡ true
unfolding admits check_acl some_net net_contains same_network to4
permitted = refl

same_name : split_name (to_lower sample_name) ≡ codes "example" ∷ codes "com" ∷ []
unfolding split_name to_lower split_on trim_dot lower
same_name = refl

-- The message of a blocked query, as the handler gives it.
abbrev nxdomain : Msg
nxdomain = record sample_query { response = true; rcode = rcode_name_error }

abbrev blocked_item : ConnectionLog
blocked_item = record empty_item {
  timestamp = 5;
  client = codes "client";
  qname = sample_name;
  qtype = codes "A";
  acl = true;
  blocked = true;
}

blocked_run :
    handle sample_dns exchange inside sample_query guarded
    ≡ some (guarded, nxdomain ∷ [], blocked_item)
unfolding handle accept check_acl some_net net_contains same_network to4 serve blocking_paused
    Blocklist.match Trie.match match_rev split_name to_lower split_on trim_dot lower is_root add_rev
    add_here contains insert_child lookup_child Str-discrete ℕ_discrete dns_error_response
blocked_run = refl

handle-Answers_example :
    (length (nxdomain ∷ []) ≡ 1)
    × (blocked_item.acl ≡ true)
    × (blocked_item.blocked ≡ blocks_query sample_dns guarded 5 sample_query.question)
handle-Answers_example =
    handle-Answers sample_dns exchange inside sample_query guarded guarded (nxdomain ∷ [])
      blocked_item permitted blocked_run

abbrev query6 : Msg
query6 = question_message sample_name type_aaaa

abbrev question6 : Question
question6 = record { name = sample_name; qtype = type_aaaa }

abbrev answered_item : Cache.DnsCacheItem
answered_item = record {
  message = sample_response;
  inserted = 5;
  expires = 300000000005;
  permanent = false;
}

abbrev after_answer : ProxyConfig ℕ
after_answer = record failed_once {
  cache = (record { name = sample_name; qtype = type_a }, answered_item) ∷ [];
}

asked_again :
    resolve sample_dns exchange
      (record query6 { question = record question6 { qtype = type_a } ∷ [] })
      5
      5
      5
      config
    ≡ some (after_answer, some sample_response, false)
unfolding resolve Cache.get resolve_from Cache.get_key lookup try_each cache_add Cache.add
    Cache.refused Cache.message_ttl Cache.min_ttl at_first insert note_failure to_lower lower
asked_again = refl

finish-dns64_example :
    (reply : Msg) × (item' : ConnectionLog) × (finish sample_dns exchange inside query6 question6
        empty_item
        (some (config, some query6, false))
      ≡ some (after_answer, reply ∷ [], item'))
    × (item'.cached ≡ false)
    × (item'.rcode ≡ sample_response.rcode)
    × (reply.question ≡ record { name = sample_name; qtype = type_aaaa } ∷ [])
    × AllTranslated prefix sample_response.answer reply.answer
finish-dns64_example =
    finish-dns64 sample_dns exchange inside query6 question6 question [] empty_item config
      after_answer query6 sample_response false false refl refl refl asked_again refl (omega arith)

abbrev without_dns64 : ProxyConfig ℕ
without_dns64 = record config { dns64 = false }

handle-Returns_example : Returns (handle sample_dns exchange inside query6 without_dns64)
handle-Returns_example =
    handle-Returns sample_dns exchange answers_ask inside query6 without_dns64 refl
