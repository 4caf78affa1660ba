-- ===== src/Proxy/Sample.antt =====
-- A state and a connection for the tests of the other modules.
use dinosaur_dns.Common.{ℕ, false, [], ◌∷◌}
use dinosaur_dns.Common.Strings.{codes}
use dinosaur_dns.Blocklist.Trie.{new_level}
use dinosaur_dns.Stats.{ConnectionLog}
use dinosaur_dns.Stats.Buffer.{new}
use dinosaur_dns.Proxy.Upstream.{ProxyConfig}
use dinosaur_dns.Proxy.Handler.{Connection, ip_addr}

abbrev pub zero_item : ConnectionLog
zero_item = record {
  timestamp = 0;
  client = [];
  qname = [];
  qtype = [];
  rcode = 0;
  query_time = 0;
  acl = false;
  blocked = false;
  cached = false;
  error = false;
}

abbrev pub sample_config : ProxyConfig ℕ
sample_config = record {
  upstream = 0 ∷ 1 ∷ [];
  upstream_err = 0;
  cache = [];
  block_list = new_level;
  block_pause_until = 0;
  acl = [];
  dns64 = false;
  dns64_prefix = record { ip = []; mask = [] };
  stats_handler = new zero_item 3;
}

abbrev pub sample_connection : Connection
sample_connection = record {
  client = codes "client";
  addr = ip_addr (127 ∷ 0 ∷ 0 ∷ 1 ∷ []);
  start_time = 15;
  block_time = 15;
  got = 15;
  got' = 15;
  added = 15;
  got64 = 15;
  got64' = 15;
  added64 = 15;
}
