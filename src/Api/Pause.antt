-- ===== src/Api/Pause.antt =====
-- api/jsonrpc.go: the calls that pause and resume the block list. The remaining time is in
-- nanoseconds, where the code gives it in seconds.
use dinosaur_dns.Common.{
  ℕ, zero, suc, ◌+◌, ◌-◌, ◌*◌, ◌%◌, ◌^◌, ◌≤◌, ◌<◌, ◌≡◌, refl, Bool, true, false, not, ◌&&◌, List,
  [], ◌∷◌, ltb, ◌==◌, if◌then◌else◌, arith,
}
use dinosaur_dns.Common.Ints.{ℤ, pos, negsuc}
use dinosaur_dns.Dns.{Question, DnsLib}
use dinosaur_dns.Cache.{second}
use dinosaur_dns.Proxy.Upstream.{ProxyConfig}
use dinosaur_dns.Proxy.Handler.{blocking_paused}
use dinosaur_dns.Proxy.Handler.Blocking.{blocks_query}

pub record BlockingStatus : Type 0 where
  pub paused : Bool
  pub remaining : ℕ

-- time.Duration(seconds) * time.Second, an int64 that wraps, for seconds that are not negative
unfoldable pub duration : ℕ → ℤ
duration seconds =
    let d = seconds * second % 2 ^ 64 in if ltb d (2 ^ 63) then pos d else negsuc (2 ^ 64 - d - 1)

-- time.Add; the times that the clock reads are later than the zero time by more than 2^63.
unfoldable pub add_time : ℕ → ℤ → ℕ
add_time now (pos d) = now + d
add_time now (negsuc d) = now - (d + 1)

-- The default of 300 for a number that is not positive
unfoldable pub pause_seconds : ℤ → ℕ
pause_seconds (pos zero) = 300
pause_seconds (pos (suc n)) = suc n
pause_seconds (negsuc n) = 300

module _ {R : Type 0} where
  unfoldable pub get_blocking_status : ℕ → ProxyConfig R → BlockingStatus
  get_blocking_status now config =
      if blocking_paused config.block_pause_until now
      then record { paused = true; remaining = config.block_pause_until - now }
      else record { paused = false; remaining = 0 }

  -- PauseBlocking: the clock reads `now`, and `now'` for the status.
  unfoldable pub pause_blocking : ℤ → ℕ → ℕ → ProxyConfig R → ProxyConfig R × BlockingStatus
  pause_blocking seconds now now' config =
      let config' = record config {
        block_pause_until = add_time now (duration (pause_seconds seconds));
      } in
      (config', get_blocking_status now' config')

  unfoldable pub resume_blocking : ℕ → ProxyConfig R → ProxyConfig R × BlockingStatus
  resume_blocking now' config =
      let config' = record config { block_pause_until = 0 } in
      (config', get_blocking_status now' config')

-- The longest pause that does not overflow: 9223372036 seconds.
abbrev pub max_pause : ℕ
max_pause = 9223372036

add_time-duration : (now n : ℕ) → n ≤ max_pause → add_time now (duration n) ≡ now + n * second
unfolding add_time duration
add_time-duration now n small =
    let whole : n * second % 2 ^ 64 ≡ n * second = omega arith in
    let short : ltb (n * second) (2 ^ 63) ≡ true = ground arith in rw (whole, short) refl

paused_test :
    (until t : ℕ) (blocked : Bool)
    → 0 < until
    → (not (not (until == 0) && ltb t until) && blocked) ≡ (if ltb t until then false else blocked)
paused_test until t blocked later = ground arith

module _ {R : Type 0} (dns : DnsLib) where
  -- What the handler blocks after PauseBlocking, for at most 9223372036 seconds: nothing until the
  -- seconds have passed, and from then on what it blocks after ResumeBlocking.
  pub blocks_query-pause_blocking :
      (seconds : ℤ) (now now' now'' t : ℕ) (config : ProxyConfig R) (question : List Question)
      → 0 < now
      → pause_seconds seconds ≤ max_pause
      → blocks_query dns (pause_blocking seconds now now' config).0 t question ≡ (
          if ltb t (now + pause_seconds seconds * second)
          then false
          else blocks_query dns (resume_blocking now'' config).0 t question)
  unfolding pause_blocking resume_blocking blocks_query blocking_paused
  blocks_query-pause_blocking seconds now now' now'' t config [] later small = ground arith
  blocks_query-pause_blocking seconds now now' now'' t config (asked ∷ []) later small =
      rw (add_time-duration now (pause_seconds seconds) small) (paused_test _ t _ (omega arith))
  blocks_query-pause_blocking seconds now now' now'' t config (_ ∷ _ ∷ _) later small = ground arith
