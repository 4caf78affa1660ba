-- ===== src/Server/Steps/Answers.antt =====
-- Every step of the server keeps its invariant, and so the handler goes on answering.
use mathlib.Core.Path.{subst}
use dinosaur_dns.Common.{
  ℕ, ◌-◌, ◌≡◌, ◌≢◌, refl, sym, ap, map, ◌∙◌, Bool, false, List, [], ◌∷◌, Option, none, some, Str,
  inl, inr, Option-cases, ◌⊎◌, if◌then◌else◌,
}
use dinosaur_dns.Dns.{Msg, DnsLib}
use dinosaur_dns.Blocklist.Trie.{Level, type_any, new_level}
use dinosaur_dns.Blocklist.Trie.Invariant.{IsValid, new_level-IsValid}
use dinosaur_dns.Blocklist.Keeps.{add_entry-IsValid, delete_entry-IsValid}
use dinosaur_dns.Cache.Invariant.{MessageWords}
use dinosaur_dns.Cache.Keeps.{EmptyQuestions, IsValid?, ResultIsValid, add-IsValid, get-IsValid}
use dinosaur_dns.Cache.Flush.{flush-IsValid}
use dinosaur_dns.Cache.Reach.{Call-IsValid}
use dinosaur_dns.Api.Changelog.{ChangeLog, add_block, remove_block}
use dinosaur_dns.Api.Service.{block_list_add, block_list_delete}
use dinosaur_dns.Api.Pause.{pause_blocking, resume_blocking}
use dinosaur_dns.Config.{UserConfig}
use dinosaur_dns.Config.Sources.{LoadError}
use dinosaur_dns.Config.Sources.Keeps.{ValidUpdate, update_block_list-ValidUpdate}
use dinosaur_dns.Blocklist.{Error, add_entry, delete_entry}
use dinosaur_dns.Server.{flush_round, refreshed, refresh_round}
use dinosaur_dns.Server.Steps.{
  Step, step_query, step_connect, step_disconnect, step_flush, step_refresh, step_pause,
  step_resume, step_block, step_unblock, step_cache, Reach, started, then_step,
}
use dinosaur_dns.Stats.Buffer.Hooks.{add_hook-Holds, delete_hook-Holds}
use dinosaur_dns.Server.Steps.Hooks.{HasHooks, handle-HasHooks}
use dinosaur_dns.Server.Steps.Sound.{
  IsSound, cached-IsSound, listed-IsSound, paused-IsSound, logged-IsSound, note_failure-IsSound,
  note_success-IsSound,
}
use dinosaur_dns.Stats
use dinosaur_dns.Stats.{ConnectionLog, StatsHandler}
use dinosaur_dns.Stats.Buffer.Invariant.{Holds, inserted, insert-Holds}
use dinosaur_dns.Proxy.Upstream.{ProxyConfig}
use dinosaur_dns.Proxy.Upstream.Keeps.{IsKept}
use dinosaur_dns.Proxy.Handler.{
  Connection, Outcome, handle, finished, handler_calls, returned, handler,
}
use dinosaur_dns.Proxy.Handler.Keeps.{AfterHandle, handle-AfterHandle}
use dinosaur_dns.Proxy.Handler.Returns.{handle-Returns}

module _ {R : Type 0} where
  abbrev AfterLog : (ProxyConfig R → Type 0) → Option (ProxyConfig R × List Msg) → Type 0
  AfterLog P none = Unit
  AfterLog P (some (config, writes)) = P config

  abbrev AfterRefresh :
      (ProxyConfig R → Type 0) → Option (ProxyConfig R × Option LoadError) → Type 0
  AfterRefresh P none = Unit
  AfterRefresh P (some (config, e)) = P config

  refreshed-IsSound :
      (start config : ProxyConfig R) (r : Option (Level × Option LoadError))
      → IsSound start config
      → ValidUpdate r
      → AfterRefresh (IsSound start) (refreshed config r)
  unfolding refreshed
  refreshed-IsSound start config none s valid = tt
  refreshed-IsSound start config (some (b, some e)) s valid = s
  refreshed-IsSound start config (some (b, none)) s valid = listed-IsSound start config b s valid

module _ (dns : DnsLib) where
  block_list_add-IsValid :
      (entries : List Str) (b : Level) (log : ChangeLog)
      → IsValid b
      → IsValid (block_list_add dns entries b log).0
  unfolding block_list_add
  block_list_add-IsValid [] b log valid = valid
  block_list_add-IsValid (v ∷ entries) b log valid =
      let valid' = add_entry-IsValid dns.string_to_type v type_any b valid in
      elim (Option-cases (add_entry dns.string_to_type v type_any b).1) [
        | inl e ↦ rw (e, block_list_add) (block_list_add-IsValid entries _ (add_block v log) valid')
        | inr (x, e) ↦ rw (e, block_list_add) valid'
      ]

  block_list_delete-IsValid :
      (name : Str) (b : Level) (log : ChangeLog)
      → IsValid b
      → IsValid (block_list_delete dns name b log).0
  unfolding block_list_delete
  block_list_delete-IsValid name b log valid =
      by_result (delete_entry dns.string_to_type name type_any b).1 _
        (delete_entry-IsValid dns.string_to_type name type_any b valid)
    where
      by_result :
          (result : Bool ⊎ Error) (b' : Level)
          → IsValid b'
          → IsValid
              (elim result as (λ _. Level × ChangeLog × (Bool ⊎ Error)) [
                | inl found ↦ (b', if found then remove_block name log else log, inl found)
                | inr e ↦ (b', log, inr e)
              ]).0
      by_result (inl found) b' valid' = valid'
      by_result (inr e) b' valid' = valid'

module _ {R : Type 0} (dns : DnsLib) (exchange : ℕ → R → Msg → Option Msg) (uc : UserConfig)
    (empty_questions : EmptyQuestions dns)
    (answers_words : (i : ℕ) (r : R) (q out : Msg)
      → exchange i r q ≡ some out
      → MessageWords out) where
  IsSound-IsKept : (i : ℕ) (start : ProxyConfig R) → IsKept dns (exchange i) (IsSound start)
  IsSound-IsKept i start = record {
    failed = note_failure-IsSound start;
    succeeded = note_success-IsSound start;
    got = λ q now now' config c hit s e.
        cached-IsSound start config c s
          (subst ResultIsValid e (get-IsValid dns q now now' config.cache s.cache));
    added = λ r q out now config c gives s e. cached-IsSound start config c s (
        subst IsValid? e
          (add-IsValid dns out now config.cache (answers_words i r q out gives) s.cache));
  }

  finished-inserted :
      (i end_time : ℕ) (config : ProxyConfig R) (writes : List Msg) (item : ConnectionLog)
      (history : List ConnectionLog)
      → Holds config.stats_handler history
      → let done = record item { query_time = end_time - item.timestamp } in
        finished dns (exchange i) end_time (some (config, writes, item))
        ≡ some (
          record config { stats_handler = inserted done config.stats_handler },
          writes,
          map (λ id. (id, done)) config.stats_handler.hooks,
        )
  unfolding finished Stats.add
  finished-inserted i end_time config writes item history holds =
      let done = record item { query_time = end_time - item.timestamp } in
      rw ((insert-Holds done config.stats_handler history holds).0, finished) refl

  finished-AfterLog :
      (i : ℕ) (start : ProxyConfig R) (end_time : ℕ) (outcome : Outcome R)
      → AfterHandle (IsSound start) outcome
      → AfterLog
          (IsSound start)
          (returned dns (exchange i) (finished dns (exchange i) end_time outcome))
  unfolding finished returned
  finished-AfterLog i start end_time none s = tt
  finished-AfterLog i start end_time (some (config, writes, item)) s =
      let done = record item { query_time = end_time - item.timestamp } in
      let holds = (insert-Holds done config.stats_handler s.log.0 s.log.1).1 in
      subst (λ r. AfterLog (IsSound start) (returned dns (exchange i) r))
        (sym (finished-inserted i end_time config writes item s.log.0 s.log.1))
        (logged-IsSound start config (inserted done config.stats_handler) (done ∷ s.log.0) s holds)

  -- One step keeps the invariant.
  Step-IsSound :
      (start config config' : ProxyConfig R)
      → IsSound start config
      → Step dns exchange uc config config'
      → IsSound start config'
  unfolding flush_round pause_blocking resume_blocking handler handler_calls returned refresh_round
  Step-IsSound start config config' s (step_query i conn q end_time writes e) =
      subst (AfterLog (IsSound start)) e (
        finished-AfterLog i start end_time (handle dns (exchange i) conn q config) (
          handle-AfterHandle dns (exchange i) (IsSound start) (IsSound-IsKept i start) conn q config
            s))
  Step-IsSound start config config' s (step_connect id e) = subst (IsSound start) e (
      logged-IsSound start config _ s.log.0 s
        (add_hook-Holds id config.stats_handler s.log.0 s.log.1))
  Step-IsSound start config config' s (step_disconnect id e) = subst (IsSound start) e (
      logged-IsSound start config _ s.log.0 s
        (delete_hook-Holds id config.stats_handler s.log.0 s.log.1))
  Step-IsSound start config config' s (step_flush now e) =
      subst (IsSound start) e
        (cached-IsSound start config _ s (flush-IsValid now config.cache s.cache))
  Step-IsSound start config config' s (step_refresh open_url failed e) =
      subst (AfterRefresh (IsSound start)) e (
        refreshed-IsSound start config _ s (
          update_block_list-ValidUpdate dns.string_to_type open_url uc new_level new_level-IsValid))
  Step-IsSound start config config' s (step_pause seconds now now' e) =
      subst (IsSound start) e (paused-IsSound start config _ s)
  Step-IsSound start config config' s (step_resume now e) =
      subst (IsSound start) e (paused-IsSound start config 0 s)
  Step-IsSound start config config' s (step_block entries log e) = subst (IsSound start) e (
      listed-IsSound start config _ s
        (block_list_add-IsValid dns entries config.block_list log s.block_list))
  Step-IsSound start config config' s (step_unblock name log e) = subst (IsSound start) e (
      listed-IsSound start config _ s
        (block_list_delete-IsValid dns name config.block_list log s.block_list))
  Step-IsSound start config config' s (step_cache c call e) =
      subst (IsSound start) e
        (cached-IsSound start config c s (Call-IsValid dns empty_questions call s.cache))

  -- From a sound start, any queries, API calls, clients of the query log and rounds of the
  -- background work, in any order, keep the server's invariant: that of the cache, of the block list
  -- and of the query log, the same resolvers with at most 3 errors counted, and the same ACL and
  -- DNS64 settings. The TTLs of all records added and of all answers are to be uint32 values, and
  -- new question messages are to have no records.
  pub Reach-IsSound :
      (start config : ProxyConfig R)
      → IsSound start start
      → Reach dns exchange uc start config
      → IsSound start config
  Reach-IsSound start config s started = s
  Reach-IsSound start config s (then_step reach step) =
      Step-IsSound start _ config (Reach-IsSound start _ s reach) step

  -- With DNS64 off, and if the answers of the resolvers have a question, the server answers: after
  -- any finished steps from a sound start, and if no client follows the query log at that time, the
  -- handler returns for every query, without a panic and without waiting for a client of the log,
  -- whatever the resolvers answer then. The TTLs of all records added and of all answers are to be
  -- uint32 values, and new question messages are to have no records.
  pub Reach-answers :
      ((i : ℕ) (r : R) (q out : Msg) → exchange i r q ≡ some out → out.question ≢ [])
      → (i : ℕ) (start config : ProxyConfig R) (conn : Connection) (q : Msg) (end_time : ℕ)
      → IsSound start start
      → start.dns64 ≡ false
      → Reach dns exchange uc start config
      → config.stats_handler.hooks ≡ []
      → (config' : ProxyConfig R) × (writes : List Msg) × (handler_calls dns
            (exchange i)
            conn
            q
            end_time
            config
          ≡ some (config', writes, []))
  unfolding handler_calls HasHooks
  Reach-answers answers_ask i start config conn q end_time s off reach no_clients =
      let sound = Reach-IsSound start config s reach in
      let (config', writes, item, handles) =
        handle-Returns dns (exchange i) (answers_ask i) conn q config (sound.dns64 ∙ off) in
      let sound' = subst (AfterHandle (IsSound start)) handles (
        handle-AfterHandle dns (exchange i) (IsSound start) (IsSound-IsKept i start) conn q config
          sound) in
      let none_called =
        subst (AfterHandle (HasHooks [])) handles
          (handle-HasHooks dns (exchange i) [] conn q config no_clients) in
      let done = record item { query_time = end_time - item.timestamp } in
      rw handles (
        _,
        _,
        finished-inserted i end_time config' writes item sound'.log.0 sound'.log.1
            ∙ ap
                (λ hooks. some (
                  record config' { stats_handler = inserted done config'.stats_handler },
                  writes,
                  map (λ id. (id, done)) hooks,
                ))
                none_called,
      )
