-- ===== src/Proxy/Handler.antt =====
-- proxy.go, MakeHandler: what is done with one query. The result is the new state, the messages
-- written to the client and the item for the query log; `none` is a panic.
pub mod Access
pub mod Blocking
pub mod Dns64
pub mod Returns
pub mod Keeps
use Prim.Native.Nat.{bit_and}
use dinosaur_dns.Common.{
  ℕ, zero, suc, ◌+◌, ◌-◌, Bool, true, false, not, ◌&&◌, ◌||◌, List, [], ◌∷◌, ◌++◌, map, Option,
  none, some, Str, length, take, drop, ltb, ◌==◌, if◌then◌else◌,
}
use dinosaur_dns.Common.Strings.{codes}
use dinosaur_dns.Dns.{
  Rr, RData, a, aaaa, ptr, other, Question, Msg, DnsLib, type_a, type_aaaa, class_inet,
  rcode_name_error, rcode_server_failure,
}
use dinosaur_dns.Cache.Ptr.{to4}
use dinosaur_dns.Blocklist
use dinosaur_dns.Stats
use dinosaur_dns.Stats.{ConnectionLog}
use dinosaur_dns.Proxy.Upstream.{IpNet, ProxyConfig, resolve}

-- The bytes under the mask are the same.
unfoldable pub same_network : List ℕ → List ℕ → List ℕ → Bool
same_network [] [] [] = true
same_network (n ∷ ns) (m ∷ ms) (x ∷ xs) = bit_and n m == bit_and x m && same_network ns ms xs
same_network _ _ _ = false

-- The address and the mask of a network, of 4 bytes each for an IPv4 network.
network_number : IpNet → List ℕ × List ℕ
network_number net =
    if length (to4 net.ip) == 4
    then (to4 net.ip, if length net.mask == 16 then drop 12 net.mask else net.mask)
    else (net.ip, net.mask)

-- (*net.IPNet).Contains
unfoldable pub net_contains : IpNet → List ℕ → Bool
unfolding network_number
net_contains net ip =
    let (number, mask) = network_number net in
    same_network number mask (if length (to4 ip) == 4 then to4 ip else ip)

unfoldable pub some_net : List IpNet → List ℕ → Bool
some_net [] client = false
some_net (v ∷ acl) client = if net_contains v client then true else some_net acl client

unfoldable pub check_acl : List IpNet → List ℕ → Bool
check_acl acl client = if length acl == 0 then true else some_net acl client

-- !pauseUntil.IsZero() && time.Now().Before(pauseUntil)
unfoldable pub blocking_paused : ℕ → ℕ → Bool
blocking_paused until now = not (until == 0) && ltb now until

-- The 16 bytes of r.AAAA after the copy of the prefix, as far as they are kept: the first twelve.
unfoldable pub prefix_bytes : List ℕ → List ℕ
prefix_bytes ip = take 12 (ip ++ (0 ∷ 0 ∷ 0 ∷ 0 ∷ 0 ∷ 0 ∷ 0 ∷ 0 ∷ 0 ∷ 0 ∷ 0 ∷ 0 ∷ []))

-- One round of the DNS64 loop: an A record with an IPv4 address becomes an AAAA record.
unfoldable pub synthesise_data : IpNet → RData → Option (List ℕ)
synthesise_data prefix (a ip) =
    if length (to4 ip) == 0 then none else some (prefix_bytes prefix.ip ++ to4 ip)
synthesise_data prefix _ = none

unfoldable pub synthesise : IpNet → Rr → Rr
synthesise prefix rr = elim (synthesise_data prefix rr.rdata) [
  | none ↦ rr
  | some ip ↦ record {
    name = rr.name;
    rrtype = type_aaaa;
    class = class_inet;
    ttl = rr.ttl;
    rdata = aaaa ip;
  }
]

-- dns64_out with its first question's type and its answers rewritten; `none` is the panic of
-- `Question[0]` at a response with no question.
unfoldable pub dns64_reply : IpNet → Msg → Option Msg
dns64_reply prefix out = elim (out.question) [
  | [] ↦ none
  | q ∷ qs ↦ some (record out {
    question = record q { qtype = type_aaaa } ∷ qs;
    answer = map (synthesise prefix) out.answer;
  })
]

-- The client address: not host:port, or an IP address, `[]` being the nil of net.ParseIP.
pub data ClientAddr : Type 0 where
  bad_addr : ClientAddr
  ip_addr : List ℕ → ClientAddr

-- A connection, with the readings of the clock while it is handled: at the start, at the block
-- list, and in each of at most two calls of resolve.
pub record Connection : Type 0 where
  pub client : Str
  pub addr : ClientAddr
  pub start_time : ℕ
  pub block_time : ℕ
  pub got : ℕ
  pub got' : ℕ
  pub added : ℕ
  pub got64 : ℕ
  pub got64' : ℕ
  pub added64 : ℕ

-- The new state, the messages written to the client and the item; `none` is a panic.
abbrev pub Outcome : Type 0 → Type 0
Outcome R = Option (ProxyConfig R × List Msg × ConnectionLog)

abbrev pub start_item : Connection → ConnectionLog
start_item conn = record {
  timestamp = conn.start_time;
  client = conn.client;
  qname = [];
  qtype = [];
  rcode = 0;
  query_time = 0;
  acl = false;
  blocked = false;
  cached = false;
  error = false;
}

module _ (dns : DnsLib) where
  open dns use {set_rcode, new_rr}

  -- dnsErrorResponse: a TXT record with the error, if its text is good. The text is not empty, so
  -- NewRR does not give the nil record.
  unfoldable pub dns_error_response : Msg → ℕ → Str → Msg
  dns_error_response r rcode err =
      let m = set_rcode r rcode in
      elim (new_rr (codes ". 0 IN TXT \"" ++ err ++ codes "\"")) [
        | none ↦ m
        | some none ↦ m
        | some (some txt) ↦ record m { extra = m.extra ++ (txt ∷ []) }
      ]

module _ {R : Type 0} where
  module _ (dns : DnsLib) (exchange : R → Msg → Option Msg) where
    open dns use {canonical_name, type_to_string}

    upstream_error : ProxyConfig R → Msg → ConnectionLog → Outcome R
    upstream_error config q item = some (
      config,
      dns_error_response dns q rcode_server_failure (codes "Upstream error") ∷ [],
      record item { error = true },
    )

    answer_with : ProxyConfig R → Msg → Bool → ConnectionLog → Outcome R
    answer_with config out cached item =
        some (config, out ∷ [], record item { rcode = out.rcode; cached = cached })

    dns64_answer : Msg → ConnectionLog → Option (ProxyConfig R × Option Msg × Bool) → Outcome R
    dns64_answer q item none = none
    dns64_answer q item (some (config, none, cached)) = upstream_error config q item
    dns64_answer q item (some (config, some out, cached)) =
        elim (dns64_reply config.dns64_prefix out) [
          | none ↦ none
          | some reply ↦ answer_with config reply cached item
        ]

    -- From the result of the first call of resolve on.
    unfoldable pub finish :
        Connection
        → Msg
        → Question
        → ConnectionLog
        → Option (ProxyConfig R × Option Msg × Bool)
        → Outcome R
    unfolding upstream_error answer_with dns64_answer
    finish conn q asked item none = none
    finish conn q asked item (some (config, none, cached)) = upstream_error config q item
    finish conn q asked item (some (config, some out, cached)) =
        if config.dns64 && (asked.qtype == type_aaaa && length out.answer == 0)
        then dns64_answer q item (
            resolve dns exchange (record q { question = record asked { qtype = type_a } ∷ [] })
              conn.got64 conn.got64' conn.added64 config)
        else answer_with config out cached item

    -- From the block list on, for a client that the ACL permits.
    unfoldable pub serve : Connection → Msg → Question → ConnectionLog → ProxyConfig R → Outcome R
    serve conn q asked item config =
        if not (blocking_paused config.block_pause_until conn.block_time)
          && Blocklist.match (canonical_name asked.name) asked.qtype config.block_list
        then some (
          config,
          dns_error_response dns q rcode_name_error (codes "Blocked") ∷ [],
          record item { blocked = true },
        )
        else finish conn q asked item (resolve dns exchange q conn.got conn.got' conn.added config)

    -- From the client's address on: only a query with one question is looked at.
    unfoldable pub accept :
        Connection → Msg → List Question → ClientAddr → ProxyConfig R → Outcome R
    accept conn q (asked ∷ []) (ip_addr client) config =
        let item = record (start_item conn) {
          qname = canonical_name asked.name;
          qtype = type_to_string asked.qtype;
        } in
        if not (check_acl config.acl client)
        then some (config, [], item)
        else serve conn q asked (record item { acl = true }) config
    accept conn q _ _ config = some (config, [], start_item conn)

    -- The handler, but for the deferred work.
    unfoldable pub handle : Connection → Msg → ProxyConfig R → Outcome R
    handle conn q config = accept conn q q.question conn.addr config

    -- The deferred function puts the item into the query log. The last part has the calls of the
    -- hooks that this makes: one for each client that follows the log, and Insert waits for them.
    unfoldable pub finished :
        ℕ → Outcome R → Option (ProxyConfig R × List Msg × List (Str × ConnectionLog))
    finished end_time none = none
    finished end_time (some (config, writes, item)) =
        let done = record item { query_time = end_time - item.timestamp } in
        elim (Stats.add done config.stats_handler) [
          | none ↦ none
          | some (stats, calls) ↦ some (record config { stats_handler = stats }, writes, calls)
        ]

    -- The whole handler, with the calls of the hooks.
    unfoldable pub handler_calls :
        Connection
        → Msg
        → ℕ
        → ProxyConfig R
        → Option (ProxyConfig R × List Msg × List (Str × ConnectionLog))
    handler_calls conn q end_time config = finished end_time (handle conn q config)

    -- What is there when all calls of hooks have come back
    unfoldable pub returned :
        Option (ProxyConfig R × List Msg × List (Str × ConnectionLog))
        → Option (ProxyConfig R × List Msg)
    returned none = none
    returned (some (config, writes, calls)) = some (config, writes)

    unfoldable pub handler :
        Connection → Msg → ℕ → ProxyConfig R → Option (ProxyConfig R × List Msg)
    unfolding returned
    handler conn q end_time config = returned (handler_calls conn q end_time config)
