-- ===== src/Server/Started.antt =====
-- The program as a whole, cmd/dinosaur/main.go: from the command line and the configuration file to
-- the running server.
use mathlib.Core.Path.{subst}
use mathlib.Core.List.Perm
use dinosaur_dns.Common.{ℕ, ◌≡◌, ◌≢◌, refl, false, List, [], Option, some, Str, arith}
use dinosaur_dns.Common.Results.{Result, ok, Holds}
use dinosaur_dns.Dns.{Rr, Msg}
use dinosaur_dns.Blocklist.Trie.Invariant.{new_level-IsValid}
use dinosaur_dns.Cache.Invariant.{Words, MessageWords, empty-IsValid}
use dinosaur_dns.Cache.Keeps.{EmptyQuestions, RrWord}
use dinosaur_dns.Stats.{ConnectionLog}
use dinosaur_dns.Stats.Buffer.Invariant.{new-Holds}
use dinosaur_dns.Proxy.Upstream.{ProxyConfig}
use dinosaur_dns.Proxy.Handler.{Connection, handler_calls}
use dinosaur_dns.Config.{UserConfig}
use dinosaur_dns.Config.Startup.{Resolver, ServerConfig, Environment, new_proxy_config}
use dinosaur_dns.Config.Startup.Keeps.{IsFilled, get_proxy_config-IsFilled}
use dinosaur_dns.Config.Options.{Flags}
use dinosaur_dns.Config.Options.Start.{start, start-Holds}
use dinosaur_dns.Server.Steps.{Reach}
use dinosaur_dns.Server.Steps.Sound.{IsSound}
use dinosaur_dns.Server.Steps.Answers.{Reach-answers}

IsFilled-IsSound :
    (zero_item : ConnectionLog) (config : ServerConfig)
    → IsFilled (new_proxy_config zero_item) config
    → IsSound config.proxy config.proxy
IsFilled-IsSound zero_item config filled = record {
  cache = filled.cache;
  block_list = filled.block_list;
  upstream = Perm.refl config.proxy.upstream;
  upstream_err = rw filled.upstream_err (omega arith);
  log = ([], rw filled.stats_handler (new-Holds zero_item 1000 (omega arith)));
  acl = refl;
  dns64 = refl;
  dns64_prefix = refl;
}

module _ (env : Environment) (read_file : Str → Result Str (List ℕ))
    (unmarshal : List ℕ → UserConfig → Result Str UserConfig)
    (exchange : ℕ → Resolver → Msg → Option Msg) (empty_questions : EmptyQuestions env.dns)
    (entry_words : (entry : Str) (rr : Option Rr) → env.dns.new_rr entry ≡ some rr → RrWord rr)
    (zone_words : (v : Str) (zone : List Rr × Option Str)
      → env.open_zone v ≡ ok zone
      → Words zone.0)
    (answers_words : (i : ℕ) (r : Resolver) (q out : Msg)
      → exchange i r q ≡ some out
      → MessageWords out)
    (answers_ask : (i : ℕ) (r : Resolver) (q out : Msg)
      → exchange i r q ≡ some out
      → out.question ≢ []) where
  start-IsSound :
      (zero_item : ConnectionLog) (now : ℕ) (flags : Flags) (config : ServerConfig)
      → start env read_file unmarshal zero_item now flags ≡ ok config
      → IsSound config.proxy config.proxy
  start-IsSound zero_item now flags config starts = IsFilled-IsSound zero_item config (
      subst (Holds (IsFilled (new_proxy_config zero_item))) starts (
        start-Holds env read_file unmarshal (IsFilled (new_proxy_config zero_item)) zero_item now
          flags
          (λ uc.
            get_proxy_config-IsFilled env empty_questions entry_words zone_words now uc
              (new_proxy_config zero_item) empty-IsValid new_level-IsValid)))

  -- If the program starts its server with DNS64 off then it answers: after any queries, API calls,
  -- clients of the query log and rounds of the background work, each finished before the next, and
  -- if no client follows the query log at that time, the handler returns for every query, without a
  -- panic and without waiting for a client of the log. The TTLs of all records read and of all
  -- answers are to be uint32 values, the answers of the resolvers are to have a question, and new
  -- question messages no records.
  pub start-answers :
      (zero_item : ConnectionLog) (now : ℕ) (flags : Flags) (config : ServerConfig)
      (uc : UserConfig) (i : ℕ) (later : ProxyConfig Resolver) (conn : Connection) (q : Msg)
      (end_time : ℕ)
      → start env read_file unmarshal zero_item now flags ≡ ok config
      → config.proxy.dns64 ≡ false
      → Reach env.dns exchange uc config.proxy later
      → later.stats_handler.hooks ≡ []
      → (later' : ProxyConfig Resolver) × (writes : List Msg) × (handler_calls env.dns
            (exchange i)
            conn
            q
            end_time
            later
          ≡ some (later', writes, []))
  start-answers zero_item now flags config uc i later conn q end_time starts off reach no_clients =
      Reach-answers env.dns exchange uc empty_questions answers_words answers_ask i config.proxy
        later conn q end_time (start-IsSound zero_item now flags config starts) off reach no_clients
