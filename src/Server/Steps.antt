-- ===== src/Server/Steps.antt =====
-- The running server as a step relation: a query, a call of the API, a client of the query log that
-- comes or goes, or a round of the background work is one step from state to state, in any order.
-- `exchange i` is what the resolvers answer at one time: each query has a time of its own.
pub mod Sound
pub mod Hooks
pub mod Answers
use dinosaur_dns.Common.{ℕ, ◌≡◌, Bool, List, Option, none, some, Str, ◌⊎◌}
use dinosaur_dns.Common.Ints.{ℤ}
use dinosaur_dns.Dns.{Msg, DnsLib}
use dinosaur_dns.Blocklist.{Error}
use dinosaur_dns.Blocklist.Trie.{Level}
use dinosaur_dns.Cache.{DnsCache}
use dinosaur_dns.Cache.Reach.{Call}
use dinosaur_dns.Proxy.Upstream.{ProxyConfig}
use dinosaur_dns.Proxy.Handler.{Connection, handler}
use dinosaur_dns.Config.{UserConfig}
use dinosaur_dns.Config.Sources.{LoadError}
use dinosaur_dns.Api.Changelog.{ChangeLog}
use dinosaur_dns.Api.Service.{block_list_add, block_list_delete}
use dinosaur_dns.Api.Pause.{pause_blocking, resume_blocking}
use dinosaur_dns.Stats.Channels.{make_log_channel, close_log_channel}
use dinosaur_dns.Server.{flush_round, refresh_round}

module _ {R : Type 0} (dns : DnsLib) (exchange : ℕ → R → Msg → Option Msg) (uc : UserConfig) where
  pub data Step (config : ProxyConfig R) : ProxyConfig R → Type 0 where
    step_query :
        (i : ℕ) (conn : Connection) (q : Msg) (end_time : ℕ) (writes : List Msg)
        {config' : ProxyConfig R}
        → handler dns (exchange i) conn q end_time config ≡ some (config', writes)
        → Step config config'
    -- a client of the query log comes or goes
    step_connect :
        (id : Str) {config' : ProxyConfig R}
        → record config { stats_handler = make_log_channel id config.stats_handler } ≡ config'
        → Step config config'
    step_disconnect :
        (id : Str) {config' : ProxyConfig R}
        → record config { stats_handler = close_log_channel id config.stats_handler } ≡ config'
        → Step config config'
    step_flush :
        (now : ℕ) {config' : ProxyConfig R}
        → (flush_round now config).0 ≡ config'
        → Step config config'
    -- the lists as they are at that time
    step_refresh :
        (open_url : Str → Option (List Str × Bool)) (e : Option LoadError) {config' : ProxyConfig R}
        → refresh_round dns.string_to_type open_url uc config ≡ some (config', e)
        → Step config config'
    step_pause :
        (seconds : ℤ) (now now' : ℕ) {config' : ProxyConfig R}
        → (pause_blocking seconds now now' config).0 ≡ config'
        → Step config config'
    step_resume :
        (now : ℕ) {config' : ProxyConfig R}
        → (resume_blocking now config).0 ≡ config'
        → Step config config'
    step_block :
        (entries : List Str) (log : ChangeLog) {config' : ProxyConfig R}
        → record config { block_list = (block_list_add dns entries config.block_list log).0 }
          ≡ config'
        → Step config config'
    step_unblock :
        (name : Str) (log : ChangeLog) {config' : ProxyConfig R}
        → record config { block_list = (block_list_delete dns name config.block_list log).0 }
          ≡ config'
        → Step config config'
    -- the calls of the API on the cache
    step_cache :
        (c : DnsCache) {config' : ProxyConfig R}
        → Call dns config.cache c
        → record config { cache = c } ≡ config'
        → Step config config'

  pub data Reach (start : ProxyConfig R) : ProxyConfig R → Type 0 where
    started : Reach start start
    then_step :
        {config config' : ProxyConfig R}
        → Reach start config
        → Step config config'
        → Reach start config'
