-- ===== src/Server/Tests.antt =====
-- The theorems on the running server, after a pause of the block list and a flush of the cache.
use mathlib.Core.Path.{subst}
use mathlib.Core.List.Perm
use dinosaur_dns.Common.{
  Str-discrete, ℕ_discrete, zero, suc, ℕ, ◌≡◌, ◌≢◌, refl, List, [], ◌∷◌, Option, none, some, arith,
}
use dinosaur_dns.Common.Ints.{pos}
use dinosaur_dns.Dns.{Msg}
use dinosaur_dns.Dns.Sample.{sample_dns, sample_query, sample_response}
use dinosaur_dns.Blocklist.Trie.Invariant.{new_level-IsValid}
use dinosaur_dns.Cache.Invariant.{MessageWords, empty-IsValid}
use dinosaur_dns.Cache.Keeps.{EmptyQuestions}
use dinosaur_dns.Stats.Buffer.Invariant.{new-Holds}
use dinosaur_dns.Proxy.Upstream.{ProxyConfig}
use dinosaur_dns.Proxy.Handler.{handler_calls}
use dinosaur_dns.Proxy.Sample.{zero_item, sample_config, sample_connection}
use dinosaur_dns.Config.{new_user_config}
use dinosaur_dns.Config.Startup.{Resolver}
use dinosaur_dns.Config.Sample.{
  env, flags, read_file, unmarshal, running, starts, running-dns64, running-hooks,
}
use dinosaur_dns.Server.Started.{start-answers}
use dinosaur_dns.Api.Pause.{pause_blocking}
use dinosaur_dns.Stats.Channels.{make_log_channel, close_log_channel}
use dinosaur_dns.Stats.Buffer.{add_hook, delete_hook}
use dinosaur_dns.Server.{flush_round}
use dinosaur_dns.Server.Steps.{
  Reach, started, then_step, step_pause, step_flush, step_connect, step_disconnect,
}
use dinosaur_dns.Server.Steps.Sound.{IsSound}
use dinosaur_dns.Server.Steps.Answers.{Reach-IsSound, Reach-answers}

-- The resolvers do not answer at time 0.
abbrev exchange : {R : Type 0} → ℕ → R → Msg → Option Msg
exchange zero r q = none
exchange (suc i) r q = some sample_response

empty_questions : EmptyQuestions sample_dns
empty_questions name qtype = (refl, refl, refl)

words : {R : Type 0} (i : ℕ) (r : R) (q out : Msg) → exchange i r q ≡ some out → MessageWords out
words zero r q out e = absurd (ground arith)
words (suc i) r q out e = subst Words? e ((omega arith, tt), tt, tt)
  where
    Words? : Option Msg → Type 0
    Words? none = Unit
    Words? (some m) = MessageWords m

answers_ask :
    {R : Type 0} (i : ℕ) (r : R) (q out : Msg) → exchange i r q ≡ some out → out.question ≢ []
answers_ask zero r q out e none_asked = absurd (ground arith)
answers_ask (suc i) r q out e none_asked = absurd (ground arith)

sound : IsSound sample_config sample_config
sound = record {
  cache = empty-IsValid;
  block_list = new_level-IsValid;
  upstream = Perm.refl (0 ∷ 1 ∷ []);
  upstream_err = omega arith;
  log = ([], new-Holds zero_item 3 (omega arith));
  acl = refl;
  dns64 = refl;
  dns64_prefix = refl;
}

-- A client of the query log comes, and goes again.
abbrev client : List ℕ
client = 49 ∷ []

abbrev followed : ProxyConfig ℕ
followed = record sample_config {
  stats_handler = make_log_channel client sample_config.stats_handler;
}

abbrev left_again : ProxyConfig ℕ
left_again = record followed { stats_handler = close_log_channel client followed.stats_handler }

abbrev paused : ProxyConfig ℕ
paused = (pause_blocking (pos 60) 5 6 left_again).0

abbrev flushed : ProxyConfig ℕ
flushed = (flush_round 9 paused).0

reach : Reach sample_dns exchange new_user_config sample_config flushed
reach =
    then_step
      (then_step
        (then_step (then_step started (step_connect client refl)) (step_disconnect client refl))
        (step_pause (pos 60) 5 6 refl))
      (step_flush 9 refl)

Reach-IsSound_example : IsSound sample_config flushed
Reach-IsSound_example =
    Reach-IsSound sample_dns exchange new_user_config empty_questions words sample_config flushed
      sound reach

no_hooks : flushed.stats_handler.hooks ≡ []
unfolding flush_round pause_blocking add_hook delete_hook Str-discrete ℕ_discrete
no_hooks = refl

Reach-answers_example :
    (config' : ProxyConfig ℕ) × (writes : List Msg) × (handler_calls sample_dns
        (exchange 1)
        sample_connection
        sample_query
        20
        flushed
      ≡ some (config', writes, []))
Reach-answers_example =
    Reach-answers sample_dns exchange new_user_config empty_questions words answers_ask 1
      sample_config flushed sample_connection sample_query 20 sound refl reach no_hooks

still_no_hooks : (pause_blocking (pos 60) 5 6 running.proxy).0.stats_handler.hooks ≡ []
unfolding pause_blocking
still_no_hooks = running-hooks

start-answers_example :
    (later' : ProxyConfig Resolver) × (writes : List Msg) × (handler_calls env.dns
        (exchange 1)
        sample_connection
        sample_query
        20
        (pause_blocking (pos 60) 5 6 running.proxy).0
      ≡ some (later', writes, []))
start-answers_example =
    start-answers env read_file unmarshal exchange empty_questions
      (λ entry rr e. absurd (ground arith)) (λ v zone e. absurd (ground arith)) words answers_ask
      zero_item 5 flags running new_user_config 1 (pause_blocking (pos 60) 5 6 running.proxy).0
      sample_connection sample_query 20 starts running-dns64
      (then_step started (step_pause (pos 60) 5 6 refl)) still_no_hooks
