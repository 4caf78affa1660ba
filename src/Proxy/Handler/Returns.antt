-- ===== src/Proxy/Handler/Returns.antt =====
-- proxy.go, MakeHandler: where the handler does not panic.
use dinosaur_dns.Common.{
  ◌≡◌, ◌≢◌, refl, ◌∙◌, Bool, false, not, ◌&&◌, List, [], ◌∷◌, Option, none, some, arith, Bool-cases,
  inl, inr, length, ◌==◌,
}
use dinosaur_dns.Dns.{Question, Msg, DnsLib, type_aaaa}
use dinosaur_dns.Stats.{ConnectionLog}
use dinosaur_dns.Blocklist
use dinosaur_dns.Proxy.Upstream.{ProxyConfig}
use dinosaur_dns.Proxy.Upstream.Failover.{resolve-returns}
use dinosaur_dns.Proxy.Handler.{
  check_acl, blocking_paused, ClientAddr, bad_addr, ip_addr, Connection, Outcome, finish, serve,
  accept, handle, upstream_error, answer_with,
}

module _ {R : Type 0} where
  abbrev pub Returns : Outcome R → Type 0
  Returns outcome =
      (config' : ProxyConfig R) × (writes : List Msg) × (item : ConnectionLog) × (outcome
        ≡ some (config', writes, item))

module _ {R : Type 0} (dns : DnsLib) (exchange : R → Msg → Option Msg)
    (answers_ask : (r : R) (q out : Msg) → exchange r q ≡ some out → out.question ≢ []) where
  open dns use {canonical_name}

  finish-Returns :
      (conn : Connection) (q : Msg) (asked : Question) (item : ConnectionLog)
      (config : ProxyConfig R) (out : Option Msg) (cached : Bool)
      → config.dns64 ≡ false
      → Returns (finish dns exchange conn q asked item (some (config, out, cached)))
  unfolding finish upstream_error answer_with
  finish-Returns conn q asked item config none cached off = (_, _, _, refl)
  finish-Returns conn q asked item config (some out) cached off =
      let test : (config.dns64 && (asked.qtype == type_aaaa && length out.answer == 0)) ≡ false =
        rw off refl in
      rw (test, finish) (_, _, _, refl)

  serve-Returns :
      (conn : Connection) (q : Msg) (asked : Question) (item : ConnectionLog)
      (config : ProxyConfig R)
      → config.dns64 ≡ false
      → q.question ≢ []
      → Returns (serve dns exchange conn q asked item config)
  unfolding serve
  serve-Returns conn q asked item config off some_asked =
      elim (Bool-cases (
        not (blocking_paused config.block_pause_until conn.block_time)
        && Blocklist.match (canonical_name asked.name) asked.qtype config.block_list)) [
          | inl e ↦ rw (e, serve) (_, _, _, refl)
          | inr e ↦
              let (config', out, cached, done, same) =
                resolve-returns dns exchange answers_ask q conn.got conn.got' conn.added config
                  some_asked in
              rw (e, serve, done) (finish-Returns conn q asked item config' out cached (same ∙ off))
        ]

  accept-Returns :
      (conn : Connection) (q : Msg) (config : ProxyConfig R) (addr : ClientAddr)
      (question : List Question)
      → config.dns64 ≡ false
      → q.question ≡ question
      → Returns (accept dns exchange conn q question addr config)
  unfolding accept
  accept-Returns conn q config (ip_addr client) (asked ∷ []) off e =
      elim (Bool-cases (check_acl config.acl client)) [
        | inl ok ↦
            rw (ok, accept) (serve-Returns conn q asked _ config off (λ n. absurd (ground arith)))
        | inr denied ↦ rw (denied, accept) (_, _, _, refl)
      ]
  accept-Returns conn q config (ip_addr client) [] off e = (_, _, _, refl)
  accept-Returns conn q config (ip_addr client) (_ ∷ _ ∷ _) off e = (_, _, _, refl)
  accept-Returns conn q config bad_addr [] off e = (_, _, _, refl)
  accept-Returns conn q config bad_addr (_ ∷ []) off e = (_, _, _, refl)
  accept-Returns conn q config bad_addr (_ ∷ _ ∷ _) off e = (_, _, _, refl)

  -- With DNS64 off, and if the answers of the resolvers have a question, the handler does not panic,
  -- for any query, client and state.
  pub handle-Returns :
      (conn : Connection) (q : Msg) (config : ProxyConfig R)
      → config.dns64 ≡ false
      → Returns (handle dns exchange conn q config)
  unfolding handle
  handle-Returns conn q config off = accept-Returns conn q config conn.addr q.question off refl
