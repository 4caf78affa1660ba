-- ===== src/Server/Steps/Hooks.antt =====
-- The hooks of the query log while a query is handled.
use dinosaur_dns.Common.{◌+◌, ◌≡◌, List, Option, Str, Bool-cases, inl, inr, ltb}
use dinosaur_dns.Dns.{Msg, DnsLib}
use dinosaur_dns.Proxy.Upstream.{ProxyConfig, note_failure, note_success}
use dinosaur_dns.Proxy.Upstream.Keeps.{IsKept}
use dinosaur_dns.Proxy.Handler.{Connection, handle}
use dinosaur_dns.Proxy.Handler.Keeps.{AfterHandle, handle-AfterHandle}

-- The hooks of the log are the ones given.
unfoldable pub HasHooks : {R : Type 0} → List Str → ProxyConfig R → Type 0
HasHooks hooks config = config.stats_handler.hooks ≡ hooks

module _ {R : Type 0} (dns : DnsLib) (exchange : R → Msg → Option Msg) (hooks : List Str) where
  note_failure-HasHooks :
      (config : ProxyConfig R) → HasHooks hooks config → HasHooks hooks (note_failure config)
  unfolding note_failure HasHooks
  note_failure-HasHooks config same = elim (Bool-cases (ltb 3 (config.upstream_err + 1))) [
    | inl e ↦ rw e same
    | inr e ↦ rw e same
  ]

  HasHooks-IsKept : IsKept dns exchange (HasHooks hooks)
  unfolding HasHooks note_success
  HasHooks-IsKept = record {
    failed = note_failure-HasHooks;
    succeeded = λ config same. same;
    got = λ q now now' config c hit same e. same;
    added = λ r q out now config c gives same e. same;
  }

  -- A query leaves the hooks as they are.
  pub handle-HasHooks :
      (conn : Connection) (q : Msg) (config : ProxyConfig R)
      → HasHooks hooks config
      → AfterHandle (HasHooks hooks) (handle dns exchange conn q config)
  handle-HasHooks conn q config same =
      handle-AfterHandle dns exchange (HasHooks hooks) HasHooks-IsKept conn q config same
