-- ===== src/Doh/Tests.antt =====
-- The theorems on queries over HTTPS, at a block list that blocks example.com and at a codec of two
-- messages, a query for it and the answer to it.
use dinosaur_dns.Common.{
  ℕ, ◌≤◌, ◌≡◌, ◌≢◌, refl, Bool, true, false, List, [], ◌∷◌, Option, none, some, Str, Str-discrete,
  ℕ_discrete, str_eq, length, ◌==◌, if◌then◌else◌, arith,
}
use mathlib.Core.Path.{subst, sym, ap, ◌∙◌}
use dinosaur_dns.Blocklist.Trie.{new_level}
use dinosaur_dns.Stats.Buffer.{new}
use dinosaur_dns.Common.Results.{Result, ok, fail}
use dinosaur_dns.Common.Strings.{codes}
use dinosaur_dns.Dns.{Msg}
use dinosaur_dns.Dns.Sample.{sample_dns, sample_query, sample_response}
use dinosaur_dns.Stats.{ConnectionLog}
use dinosaur_dns.Proxy.Upstream.{ProxyConfig}
use dinosaur_dns.Proxy.Handler.{Connection, ip_addr, handler}
use dinosaur_dns.Proxy.Sample.{sample_config, sample_connection}
use dinosaur_dns.Doh.{Codec, Request, dns_message, last_message, doh_handler}
use dinosaur_dns.Doh.Requests.{IsGet, IsPost, get-post}
use dinosaur_dns.Resolver.Https.{doh_resolve}
use dinosaur_dns.Resolver.Https.Served.{HasWireForm, over_https, client_of, doh_resolve-doh_handler}

-- The query is the byte 1 and any answer the byte 2.
abbrev codec : Codec
codec = record {
  decode_base64 = λ s. if str_eq s (codes "AQ") then ok (1 ∷ []) else fail (codes "bad");
  unpack = λ bytes. if str_eq bytes (1 ∷ []) then ok sample_query else ok sample_response;
  pack = λ m. if m.response then ok (2 ∷ []) else ok (1 ∷ []);
}

abbrev exchange : ℕ → Msg → Option Msg
exchange r q = some sample_response

abbrev path : Str
path = codes "/dns-query"

abbrev get_request : Request
get_request = record {
  path = path;
  dns_param = codes "AQ";
  method = codes "GET";
  accept = [];
  content_type = [];
  body = ok [];
}

abbrev posted : Request
posted = record {
  path = path;
  dns_param = [];
  method = codes "POST";
  accept = [];
  content_type = dns_message;
  body = ok (1 ∷ []);
}

is_get : IsGet codec get_request (1 ∷ [])
unfolding IsGet Str-discrete ℕ_discrete
is_get = (refl, (λ e. absurd (ground arith)), refl)

is_post : IsPost codec posted (1 ∷ [])
unfolding IsPost
is_post = (refl, refl, refl)

get-post_example :
    doh_handler codec sample_dns exchange path sample_connection get_request 9 sample_config
    ≡ doh_handler codec sample_dns exchange path sample_connection posted 9 sample_config
get-post_example =
    get-post codec sample_dns exchange path sample_connection get_request posted 9 sample_config
      (1 ∷ []) refl (omega arith) is_get is_post

abbrev writes_of : Option (ProxyConfig ℕ × List Msg) → List Msg
writes_of none = []
writes_of (some (_, writes)) = writes

answered :
    writes_of (handler sample_dns exchange sample_connection sample_query 9 sample_config)
    ≡ sample_response ∷ []
unfolding handler dinosaur_dns.Proxy.Handler.handle dinosaur_dns.Proxy.Handler.accept
    dinosaur_dns.Proxy.Handler.check_acl dinosaur_dns.Proxy.Handler.serve
    dinosaur_dns.Proxy.Handler.blocking_paused dinosaur_dns.Proxy.Handler.finish
    dinosaur_dns.Proxy.Handler.finished dinosaur_dns.Proxy.Handler.handler_calls
    dinosaur_dns.Proxy.Handler.returned dinosaur_dns.Blocklist.match
    dinosaur_dns.Blocklist.split_name dinosaur_dns.Blocklist.is_root
    dinosaur_dns.Blocklist.Trie.match dinosaur_dns.Blocklist.Trie.match_rev
    dinosaur_dns.Blocklist.Trie.contains dinosaur_dns.Blocklist.Trie.lookup_child
    dinosaur_dns.Common.Strings.to_lower dinosaur_dns.Common.Strings.split_on
    dinosaur_dns.Common.Strings.trim_dot dinosaur_dns.Common.Strings.lower
    dinosaur_dns.Common.Strings.cons_head dinosaur_dns.Cache.add dinosaur_dns.Cache.get
    dinosaur_dns.Cache.get_key dinosaur_dns.Cache.message_ttl dinosaur_dns.Cache.min_ttl
    dinosaur_dns.Cache.refused dinosaur_dns.Cache.expired dinosaur_dns.Cache.DnsCacheKey-discrete
    dinosaur_dns.Proxy.Upstream.resolve dinosaur_dns.Proxy.Upstream.at_first
    dinosaur_dns.Proxy.Upstream.cache_add dinosaur_dns.Proxy.Upstream.note_success
    dinosaur_dns.Proxy.Upstream.resolve_from dinosaur_dns.Proxy.Upstream.try_each Str-discrete
    ℕ_discrete dinosaur_dns.Common.insert dinosaur_dns.Common.lookup
    dinosaur_dns.Stats.Buffer.insert dinosaur_dns.Stats.add
answered = refl

query_form : HasWireForm codec sample_query
unfolding HasWireForm Str-discrete ℕ_discrete
query_form = (1 ∷ [], refl, refl, omega arith)

response_form : HasWireForm codec sample_response
unfolding HasWireForm Str-discrete ℕ_discrete
response_form = (2 ∷ [], refl, refl, omega arith)

written_form :
    (config' : ProxyConfig ℕ) (writes : List Msg) (m : Msg)
    → handler sample_dns exchange sample_connection sample_query 9 sample_config
      ≡ some (config', writes)
    → last_message writes ≡ some m
    → HasWireForm codec m
unfolding last_message
written_form config' writes m done last =
    let one : writes ≡ sample_response ∷ [] = sym (ap writes_of done) ∙ answered in
    let same : ◌≡◌ {A = Option Msg} (some sample_response) (some m) =
      sym (ap last_message one) ∙ last in
    subst (Form) same response_form
  where
    Form : Option Msg → Type 0
    Form none = Unit
    Form (some out) = HasWireForm codec out

abbrev status_text : ℕ → Str
status_text code = codes "status"

abbrev parse_url : Str → Result Str (Str × Str)
parse_url url = ok (path, [])

doh_resolve-doh_handler_example :
    doh_resolve codec
      (client_of codec sample_dns exchange status_text
        (codes "EOF")
        parse_url
        path
        sample_connection
        9
        sample_config)
      (codes "https://127.0.0.1/dns-query")
      sample_query
    ≡ over_https status_text
        (codes "EOF")
        (handler sample_dns exchange sample_connection sample_query 9 sample_config)
doh_resolve-doh_handler_example =
    doh_resolve-doh_handler codec sample_dns exchange status_text (codes "EOF") parse_url
      (codes "https://127.0.0.1/dns-query") path [] sample_connection sample_query 9 sample_config
      refl query_form written_form
