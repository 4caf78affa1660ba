-- ===== src/Proxy/Handler/Keeps.antt =====
-- proxy.go: how a property of the state is kept by a whole call of the handler: by its calls of the
-- cache, the counting of the first resolver's failures, and the query log.
use dinosaur_dns.Common.{
  Bool, not, ◌&&◌, List, [], ◌∷◌, Option, none, some, length, ◌==◌, Bool-cases, Option-cases, inl,
  inr,
}
use dinosaur_dns.Dns.{Question, Msg, DnsLib, type_aaaa}
use dinosaur_dns.Blocklist
use dinosaur_dns.Stats.{ConnectionLog}
use dinosaur_dns.Proxy.Upstream.{ProxyConfig}
use dinosaur_dns.Proxy.Upstream.Keeps.{AfterResolve, IsKept, resolve-AfterResolve}
use dinosaur_dns.Proxy.Handler.{
  ClientAddr, bad_addr, ip_addr, Connection, Outcome, check_acl, blocking_paused, dns64_reply,
  upstream_error, answer_with, dns64_answer, finish, serve, accept, handle,
}

module _ {R : Type 0} where
  abbrev pub AfterHandle : (ProxyConfig R → Type 0) → Outcome R → Type 0
  AfterHandle P none = Unit
  AfterHandle P (some (config, writes, item)) = P config

module _ {R : Type 0} (dns : DnsLib) (exchange : R → Msg → Option Msg) (P : ProxyConfig R → Type 0)
    (kept : IsKept dns exchange P) where
  dns64_answer-AfterHandle :
      (q : Msg) (item : ConnectionLog) (result : Option (ProxyConfig R × Option Msg × Bool))
      → AfterResolve P result
      → AfterHandle P (dns64_answer dns exchange q item result)
  unfolding dns64_answer upstream_error answer_with
  dns64_answer-AfterHandle q item none p = tt
  dns64_answer-AfterHandle q item (some (config, none, cached)) p = p
  dns64_answer-AfterHandle q item (some (config, some out, cached)) p =
      elim (Option-cases (dns64_reply config.dns64_prefix out)) [
        | inl e ↦ rw (e, dns64_answer) tt
        | inr (reply, e) ↦ rw (e, dns64_answer) p
      ]

  finish-AfterHandle :
      (conn : Connection) (q : Msg) (asked : Question) (item : ConnectionLog)
      (result : Option (ProxyConfig R × Option Msg × Bool))
      → AfterResolve P result
      → AfterHandle P (finish dns exchange conn q asked item result)
  unfolding finish upstream_error answer_with
  finish-AfterHandle conn q asked item none p = tt
  finish-AfterHandle conn q asked item (some (config, none, cached)) p = p
  finish-AfterHandle conn q asked item (some (config, some out, cached)) p =
      elim (Bool-cases (config.dns64 && (asked.qtype == type_aaaa && length out.answer == 0))) [
        | inl e ↦
            rw (e, finish)
              (dns64_answer-AfterHandle q item _
                (resolve-AfterResolve dns exchange P kept _ _ _ _ config p))
        | inr e ↦ rw (e, finish) p
      ]

  serve-AfterHandle :
      (conn : Connection) (q : Msg) (asked : Question) (item : ConnectionLog)
      (config : ProxyConfig R)
      → P config
      → AfterHandle P (serve dns exchange conn q asked item config)
  unfolding serve
  serve-AfterHandle conn q asked item config p =
      elim (Bool-cases (
        not (blocking_paused config.block_pause_until conn.block_time)
        && Blocklist.match (dns.canonical_name asked.name) asked.qtype config.block_list)) [
          | inl e ↦ rw (e, serve) p
          | inr e ↦
              rw (e, serve)
                (finish-AfterHandle conn q asked item _
                  (resolve-AfterResolve dns exchange P kept q _ _ _ config p))
        ]

  accept-AfterHandle :
      (conn : Connection) (q : Msg) (config : ProxyConfig R) (addr : ClientAddr)
      (question : List Question)
      → P config
      → AfterHandle P (accept dns exchange conn q question addr config)
  unfolding accept
  accept-AfterHandle conn q config (ip_addr client) (asked ∷ []) p =
      elim (Bool-cases (check_acl config.acl client)) [
        | inl e ↦ rw (e, accept) (serve-AfterHandle conn q asked _ config p)
        | inr e ↦ rw (e, accept) p
      ]
  accept-AfterHandle conn q config (ip_addr client) [] p = p
  accept-AfterHandle conn q config (ip_addr client) (_ ∷ _ ∷ _) p = p
  accept-AfterHandle conn q config bad_addr [] p = p
  accept-AfterHandle conn q config bad_addr (_ ∷ []) p = p
  accept-AfterHandle conn q config bad_addr (_ ∷ _ ∷ _) p = p

  pub handle-AfterHandle :
      (conn : Connection) (q : Msg) (config : ProxyConfig R)
      → P config
      → AfterHandle P (handle dns exchange conn q config)
  unfolding handle
  handle-AfterHandle conn q config p = accept-AfterHandle conn q config conn.addr q.question p
