-- ===== src/Server/Steps/Sound.antt =====
-- The invariant of the running server, and that it goes on answering queries.
use mathlib.Core.List.{Perm, perm_append_singleton}
use mathlib.Core.List.Perm
use dinosaur_dns.Common.{ℕ, ◌+◌, ◌≤◌, ◌≡◌, List, [], ◌∷◌, inl, inr, arith, Bool-cases, ltb}
use dinosaur_dns.Blocklist.Trie.{Level}
use dinosaur_dns.Blocklist.Trie.Invariant.{IsValid}
use dinosaur_dns.Cache.{DnsCache}
use dinosaur_dns.Cache.Invariant.{IsValid as CacheIsValid}
use dinosaur_dns.Stats.{ConnectionLog, StatsHandler}
use dinosaur_dns.Stats.Buffer.Invariant.{Holds}
use dinosaur_dns.Proxy.Upstream.{ProxyConfig, rotate, note_failure, note_success}

-- What holds of the state at all times, against the state at the start: the invariants of the
-- cache, the block list and the query log, the same resolvers in some order with an error count of
-- at most 3, and the same settings.
pub record IsSound {R : Type 0} (start config : ProxyConfig R) : Type 0 where
  pub cache : CacheIsValid config.cache
  pub block_list : IsValid config.block_list
  pub upstream : Perm config.upstream start.upstream
  pub upstream_err : config.upstream_err ≤ 3
  pub log : (history : List ConnectionLog) × Holds config.stats_handler history
  pub acl : config.acl ≡ start.acl
  pub dns64 : config.dns64 ≡ start.dns64
  pub dns64_prefix : config.dns64_prefix ≡ start.dns64_prefix

module _ {R : Type 0} where
  rotate-Perm : (rs : List R) → Perm (rotate rs) rs
  unfolding rotate
  rotate-Perm [] = Perm.refl []
  rotate-Perm (r ∷ rs) = perm_append_singleton r rs

  -- The parts of the state that a step changes.
  pub cached-IsSound :
      (start config : ProxyConfig R) (c : DnsCache)
      → IsSound start config
      → CacheIsValid c
      → IsSound start (record config { cache = c })
  cached-IsSound start config c s valid = record {
    cache = valid;
    block_list = s.block_list;
    upstream = s.upstream;
    upstream_err = s.upstream_err;
    log = s.log;
    acl = s.acl;
    dns64 = s.dns64;
    dns64_prefix = s.dns64_prefix;
  }

  pub listed-IsSound :
      (start config : ProxyConfig R) (b : Level)
      → IsSound start config
      → IsValid b
      → IsSound start (record config { block_list = b })
  listed-IsSound start config b s valid = record {
    cache = s.cache;
    block_list = valid;
    upstream = s.upstream;
    upstream_err = s.upstream_err;
    log = s.log;
    acl = s.acl;
    dns64 = s.dns64;
    dns64_prefix = s.dns64_prefix;
  }

  pub paused-IsSound :
      (start config : ProxyConfig R) (until : ℕ)
      → IsSound start config
      → IsSound start (record config { block_pause_until = until })
  paused-IsSound start config until s = record {
    cache = s.cache;
    block_list = s.block_list;
    upstream = s.upstream;
    upstream_err = s.upstream_err;
    log = s.log;
    acl = s.acl;
    dns64 = s.dns64;
    dns64_prefix = s.dns64_prefix;
  }

  pub logged-IsSound :
      (start config : ProxyConfig R) (stats : StatsHandler) (history : List ConnectionLog)
      → IsSound start config
      → Holds stats history
      → IsSound start (record config { stats_handler = stats })
  logged-IsSound start config stats history s holds = record {
    cache = s.cache;
    block_list = s.block_list;
    upstream = s.upstream;
    upstream_err = s.upstream_err;
    log = (history, holds);
    acl = s.acl;
    dns64 = s.dns64;
    dns64_prefix = s.dns64_prefix;
  }

  asked-IsSound :
      (start config : ProxyConfig R) (upstream : List R) (errors : ℕ)
      → IsSound start config
      → Perm upstream start.upstream
      → errors ≤ 3
      → IsSound start (record config { upstream = upstream; upstream_err = errors })
  asked-IsSound start config upstream errors s perm small = record {
    cache = s.cache;
    block_list = s.block_list;
    upstream = perm;
    upstream_err = small;
    log = s.log;
    acl = s.acl;
    dns64 = s.dns64;
    dns64_prefix = s.dns64_prefix;
  }

  pub note_failure-IsSound :
      (start config : ProxyConfig R) → IsSound start config → IsSound start (note_failure config)
  unfolding note_failure
  note_failure-IsSound start config s = elim (Bool-cases (ltb 3 (config.upstream_err + 1))) [
    | inl e ↦ rw e (
        asked-IsSound start config (rotate config.upstream) 0 s
          (Perm.trans (rotate-Perm config.upstream) s.upstream) (omega arith))
    | inr e ↦ rw e (
        asked-IsSound start config config.upstream (config.upstream_err + 1) s s.upstream
          (ground arith))
  ]

  pub note_success-IsSound :
      (start config : ProxyConfig R) → IsSound start config → IsSound start (note_success config)
  unfolding note_success
  note_success-IsSound start config s =
      asked-IsSound start config config.upstream 0 s s.upstream (omega arith)
