-- ===== src/Proxy/Upstream.antt =====
-- proxy.go, resolve: the cache, then each upstream resolver in order, with the demotion of a first
-- resolver that keeps failing. A resolver is known by a value of `R`, and `exchange` is what
-- each resolver answers during one call of the handler, `none` being an error. `none` for a whole
-- result is a panic of the cache.
pub mod Demotion
pub mod Failover
pub mod Keeps
use dinosaur_dns.Common.{
  ℕ, zero, suc, ◌+◌, Bool, true, false, List, [], ◌∷◌, ◌++◌, Option, none, some, ltb, ◌==◌,
  if◌then◌else◌,
}
use dinosaur_dns.Dns.{Msg, DnsLib}
use dinosaur_dns.Cache
use dinosaur_dns.Cache.{DnsCache}
use dinosaur_dns.Blocklist.Trie.{Level}
use dinosaur_dns.Stats.{StatsHandler}

-- net.IPNet, as net.ParseCIDR gives it: 4 or 16 bytes of address, and as many of mask
pub record IpNet : Type 0 where
  pub ip : List ℕ
  pub mask : List ℕ

-- The fields of config.ProxyConfig that the handler uses. A pause until 0 is Go's zero time.
pub record ProxyConfig (R : Type 0) : Type 0 where
  pub upstream : List R
  pub upstream_err : ℕ
  pub cache : DnsCache
  pub block_list : Level
  pub block_pause_until : ℕ
  pub acl : List IpNet
  pub dns64 : Bool
  pub dns64_prefix : IpNet
  pub stats_handler : StatsHandler

module _ {R : Type 0} where
  -- append(Upstream[1:], Upstream[0])
  unfoldable pub rotate : List R → List R
  rotate [] = []
  rotate (r ∷ rs) = rs ++ (r ∷ [])

  -- The first resolver failed: count it, and demote the resolver past the threshold.
  unfoldable pub note_failure : ProxyConfig R → ProxyConfig R
  note_failure config =
      if ltb 3 (config.upstream_err + 1)
      then record config { upstream = rotate config.upstream; upstream_err = 0 }
      else record config { upstream_err = config.upstream_err + 1 }

  unfoldable pub note_success : ProxyConfig R → ProxyConfig R
  note_success config = record config { upstream_err = 0 }

  -- Only the resolver at index 0 of the snapshot is counted.
  unfoldable pub at_first : ℕ → (ProxyConfig R → ProxyConfig R) → ProxyConfig R → ProxyConfig R
  at_first i note config = if i == 0 then note config else config

  with_upstream : Option (ProxyConfig R × Option Msg) → Option (ProxyConfig R × Option Msg × Bool)
  with_upstream none = none
  with_upstream (some (config, out)) = some (config, out, false)

  module _ (dns : DnsLib) (exchange : R → Msg → Option Msg) where
    -- config.Cache.Add(out)
    unfoldable pub cache_add : Msg → ℕ → ProxyConfig R → Option (ProxyConfig R)
    cache_add out now config = elim (Cache.add dns out now config.cache) [
      | none ↦ none
      | some c ↦ some (record config { cache = c })
    ]

    answered : ℕ → Msg → ℕ → ProxyConfig R → Option (ProxyConfig R × Option Msg)
    answered i out now config = elim (cache_add out now (at_first i note_success config)) [
      | none ↦ none
      | some config' ↦ some (config', some out)
    ]

    -- The loop over the snapshot of the upstream list, from index `i` on.
    unfoldable pub try_each :
        ℕ → List R → Msg → ℕ → ProxyConfig R → Option (ProxyConfig R × Option Msg)
    unfolding answered
    try_each i [] q now config = some (config, none)
    try_each i (r ∷ rs) q now config = elim (exchange r q) [
      | some out ↦ answered i out now config
      | none ↦ try_each (i + 1) rs q now (at_first i note_failure config)
    ]

    -- What the cache gave: a hit, or the upstream resolvers' turn.
    unfoldable pub resolve_from :
        DnsCache × Option Msg → Msg → ℕ → ProxyConfig R → Option (ProxyConfig R × Option Msg × Bool)
    unfolding with_upstream
    resolve_from (c, some out) q added config = some (record config { cache = c }, some out, true)
    resolve_from (c, none) q added config =
        with_upstream (try_each 0 config.upstream q added (record config { cache = c }))

    -- resolve: the new state, the answer (`none` if all resolvers failed) and whether it was
    -- cached. The clock reads `now` and `now'` in Cache.Get and `added` in Cache.Add.
    unfoldable pub resolve :
        Msg → ℕ → ℕ → ℕ → ProxyConfig R → Option (ProxyConfig R × Option Msg × Bool)
    resolve q now now' added config = elim (Cache.get dns q now now' config.cache) [
      | none ↦ none
      | some got ↦ resolve_from got q added config
    ]
