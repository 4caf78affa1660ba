-- ===== src/Server.antt =====
-- server/: the work beside the queries: the flush of the cache, the refresh of the block list, and
-- the networks of a listener.
pub mod Steps
pub mod Started
mod Tests
use dinosaur_dns.Common.{ℕ, Bool, ◌||◌, List, Option, none, some, Str, str_eq, if◌then◌else◌}
use dinosaur_dns.Common.Strings.{codes}
use dinosaur_dns.Blocklist.Trie.{Level, new_level}
use dinosaur_dns.Cache.{flush}
use dinosaur_dns.Proxy.Upstream.{ProxyConfig}
use dinosaur_dns.Config.{UserConfig}
use dinosaur_dns.Config.Sources.{LoadError, update_block_list}

-- isV4Global and isV6Global, for the host that net.SplitHostPort gives
unfoldable pub is_v4_global : Str → Bool
is_v4_global host = str_eq host (codes "0.0.0.0") || str_eq host (codes "0")

unfoldable pub is_v6_global : Str → Bool
is_v6_global host = str_eq host (codes "::") || str_eq host (codes "::0")

-- The networks of the two listeners for a host
unfoldable pub listen_networks : Str → Str × Str
listen_networks host =
    if is_v6_global host
    then (codes "udp6", codes "tcp6")
    else if is_v4_global host
    then (codes "udp4", codes "tcp4")
    else (codes "udp", codes "tcp")

module _ {R : Type 0} where
  -- One round of the flush, with the numbers that it logs
  unfoldable pub flush_round : ℕ → ProxyConfig R → ProxyConfig R × ℕ × ℕ
  flush_round now config =
      let (c, total, expired) = flush now config.cache in
      (record config { cache = c }, total, expired)

  refreshed :
      ProxyConfig R → Option (Level × Option LoadError) → Option (ProxyConfig R × Option LoadError)
  refreshed config none = none
  refreshed config (some (b, some e)) = some (config, some e)
  refreshed config (some (b, none)) = some (record config { block_list = b }, none)

  -- One round of the refresh: the old list stays if the new one has an error; `none` is a panic.
  unfoldable pub refresh_round :
      (Str → Option ℕ)
      → (Str → Option (List Str × Bool))
      → UserConfig
      → ProxyConfig R
      → Option (ProxyConfig R × Option LoadError)
  unfolding refreshed
  refresh_round string_to_type open_url uc config =
      refreshed config (update_block_list string_to_type open_url uc new_level)
