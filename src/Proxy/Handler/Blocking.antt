-- ===== src/Proxy/Handler/Blocking.antt =====
-- proxy.go, MakeHandler: the block list and its pause.
use mathlib.Core.Path.{subst}
use dinosaur_dns.Common.{
  ℕ, ◌≡◌, refl, inl, inr, Bool, true, false, not, ◌&&◌, List, [], ◌∷◌, Option, some, length, arith,
  Bool-cases,
}
use dinosaur_dns.Common.Strings.{codes}
use dinosaur_dns.Dns.{Question, Msg, DnsLib, rcode_name_error}
use dinosaur_dns.Stats.{ConnectionLog}
use dinosaur_dns.Blocklist
use dinosaur_dns.Proxy.Upstream.{ProxyConfig, resolve}
use dinosaur_dns.Proxy.Handler.{
  blocking_paused, dns_error_response, ClientAddr, bad_addr, ip_addr, Connection, Outcome, accept,
  handle, serve,
}
use dinosaur_dns.Proxy.Handler.Access.{admits, Answers, finish-Answers}

module _ {R : Type 0} (dns : DnsLib) where
  open dns use {canonical_name}

  -- The test of the handler on a query with one question.
  unfoldable pub blocks_query : ProxyConfig R → ℕ → List Question → Bool
  blocks_query config now (asked ∷ []) =
      not (blocking_paused config.block_pause_until now)
      && Blocklist.match (canonical_name asked.name) asked.qtype config.block_list
  blocks_query config now _ = false

module _ {R : Type 0} (dns : DnsLib) (exchange : R → Msg → Option Msg) where
  open dns use {canonical_name, set_rcode, new_rr}

  serve-Answers :
      (conn : Connection) (q : Msg) (asked : Question) (item : ConnectionLog)
      (config : ProxyConfig R)
      → item.acl ≡ true
      → item.blocked ≡ false
      → Answers
          (blocks_query dns config conn.block_time (asked ∷ []))
          (serve dns exchange conn q asked item config)
  unfolding serve blocks_query
  serve-Answers conn q asked item config h b =
      elim (Bool-cases (
        not (blocking_paused config.block_pause_until conn.block_time)
        && Blocklist.match (canonical_name asked.name) asked.qtype config.block_list)) [
          | inl e ↦ rw (e, serve) (refl, h, refl)
          | inr e ↦
              rw (e, serve)
                (finish-Answers dns exchange conn q asked item
                  (resolve dns exchange q conn.got conn.got' conn.added config) h b)
        ]

  accept-Answers :
      (conn : Connection) (q : Msg) (config : ProxyConfig R) (addr : ClientAddr)
      (question : List Question)
      → admits addr question config.acl ≡ true
      → Answers
          (blocks_query dns config conn.block_time question)
          (accept dns exchange conn q question addr config)
  unfolding admits accept
  accept-Answers conn q config (ip_addr client) (asked ∷ []) h =
      rw (h, accept) (serve-Answers conn q asked _ config refl refl)
  accept-Answers conn q config (ip_addr client) [] h = absurd (ground arith)
  accept-Answers conn q config (ip_addr client) (_ ∷ _ ∷ _) h = absurd (ground arith)
  accept-Answers conn q config bad_addr [] h = absurd (ground arith)
  accept-Answers conn q config bad_addr (_ ∷ []) h = absurd (ground arith)
  accept-Answers conn q config bad_addr (_ ∷ _ ∷ _) h = absurd (ground arith)

  -- A query that is looked at gets one message, unless the handler panics; it is logged as blocked
  -- exactly if blocking is not paused and the block list matches it.
  pub handle-Answers :
      (conn : Connection) (q : Msg) (config config' : ProxyConfig R) (writes : List Msg)
      (item : ConnectionLog)
      → admits conn.addr q.question config.acl ≡ true
      → handle dns exchange conn q config ≡ some (config', writes, item)
      → (length writes ≡ 1)
        × (item.acl ≡ true)
        × (item.blocked ≡ blocks_query dns config conn.block_time q.question)
  unfolding handle
  handle-Answers conn q config config' writes item h e =
      subst (Answers (blocks_query dns config conn.block_time q.question)) e
        (accept-Answers conn q config conn.addr q.question h)

  -- The reply is the error response, the state stays, and the item is logged as blocked.
  abbrev pub Blocked : Msg → ProxyConfig R → Outcome R → Type 0
  Blocked q config outcome =
      (item : ConnectionLog) × (outcome
        ≡ some (config, dns_error_response dns q rcode_name_error (codes "Blocked") ∷ [], item))
      × (item.blocked ≡ true)
