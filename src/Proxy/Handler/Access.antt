-- ===== src/Proxy/Handler/Access.antt =====
-- proxy.go, checkAcl and the guards of MakeHandler: which queries are looked at, and how many
-- messages each of them gets.
use dinosaur_dns.Common.{
  ℕ, ◌≡◌, refl, ap, ◌↔◌, ◌⊎◌, inl, inr, Bool, true, false, ◌&&◌, List, [], ◌∷◌, ◌++◌, Option, none,
  some, length, ◌==◌, arith, Bool-cases, Option-cases,
}
use dinosaur_dns.Dns.{Question, Msg, DnsLib, type_aaaa}
use dinosaur_dns.Stats.{ConnectionLog}
use dinosaur_dns.Proxy.Upstream.{IpNet, ProxyConfig}
use dinosaur_dns.Proxy.Handler.{
  net_contains, some_net, check_acl, ClientAddr, bad_addr, ip_addr, Connection, Outcome, accept,
  handle, finish, dns64_answer, dns64_reply, upstream_error, answer_with,
}

-- A network of the ACL contains the client.
abbrev pub InSomeNet : List IpNet → List ℕ → Type 0
InSomeNet acl client =
    (before : List IpNet) × (net : IpNet) × (after : List IpNet) × (acl ≡ before ++ (net ∷ after))
    × (net_contains net client ≡ true)

some_net-InSomeNet :
    (acl : List IpNet) (client : List ℕ) → some_net acl client ≡ true → InSomeNet acl client
unfolding some_net
some_net-InSomeNet [] client h = absurd (ground arith)
some_net-InSomeNet (v ∷ acl) client h = elim (Bool-cases (net_contains v client)) [
  | inl e ↦ ([], v, acl, refl, e)
  | inr e ↦
      let (before, net, after, split, inside) = some_net-InSomeNet acl client (ground arith) in
      (v ∷ before, net, after, ap (◌∷◌ v) split, inside)
]

some_net-append :
    (before : List IpNet) (net : IpNet) (after : List IpNet) (client : List ℕ)
    → net_contains net client ≡ true
    → some_net (before ++ (net ∷ after)) client ≡ true
unfolding some_net
some_net-append [] net after client h = rw (h, some_net) refl
some_net-append (v ∷ before) net after client h =
    ground (arith, some_net-append before net after client h)

-- A client is permitted exactly when there is no ACL, or a network of it contains the client.
pub check_acl_iff :
    (acl : List IpNet) (client : List ℕ)
    → (check_acl acl client ≡ true) ↔ ((acl ≡ []) ⊎ InSomeNet acl client)
unfolding check_acl
check_acl_iff [] client = (λ _. inl refl, λ _. refl)
check_acl_iff (v ∷ acl) client = (there, back)
  where
    there : check_acl (v ∷ acl) client ≡ true → ((v ∷ acl) ≡ []) ⊎ InSomeNet (v ∷ acl) client
    there h = inr (some_net-InSomeNet (v ∷ acl) client (ground arith))

    back : ((v ∷ acl) ≡ []) ⊎ InSomeNet (v ∷ acl) client → check_acl (v ∷ acl) client ≡ true
    back (inl e) = ground arith
    back (inr (before, net, after, e, h)) =
        let found = some_net-append before net after client h in
        let same : some_net (v ∷ acl) client ≡ true = rw e found in ground arith

-- A query is looked at if the client's address is good, it has one question, and the ACL permits it.
unfoldable pub admits : ClientAddr → List Question → List IpNet → Bool
admits (ip_addr client) (asked ∷ []) acl = check_acl acl client
admits _ _ acl = false

module _ {R : Type 0} where
  -- The query is not answered and the state stays; the item for the log says neither permitted nor
  -- blocked.
  abbrev pub Refused : ProxyConfig R → Outcome R → Type 0
  Refused config outcome =
      (item : ConnectionLog) × (outcome ≡ some (config, [], item))
      × (item.acl ≡ false)
      × (item.blocked ≡ false)

  -- A result with one message, that is logged as permitted and, if `b`, as blocked.
  abbrev pub Answers : Bool → Outcome R → Type 0
  Answers b none = Unit
  Answers b (some (config, writes, item)) =
      (length writes ≡ 1) × (item.acl ≡ true) × (item.blocked ≡ b)

module _ {R : Type 0} (dns : DnsLib) (exchange : R → Msg → Option Msg) where
  accept-Refused :
      (conn : Connection) (q : Msg) (config : ProxyConfig R) (addr : ClientAddr)
      (question : List Question)
      → admits addr question config.acl ≡ false
      → Refused config (accept dns exchange conn q question addr config)
  unfolding admits accept
  accept-Refused conn q config (ip_addr client) (asked ∷ []) h =
      rw (h, accept) (_, refl, refl, refl)
  accept-Refused conn q config (ip_addr client) [] h = (_, refl, refl, refl)
  accept-Refused conn q config (ip_addr client) (_ ∷ _ ∷ _) h = (_, refl, refl, refl)
  accept-Refused conn q config bad_addr [] h = (_, refl, refl, refl)
  accept-Refused conn q config bad_addr (_ ∷ []) h = (_, refl, refl, refl)
  accept-Refused conn q config bad_addr (_ ∷ _ ∷ _) h = (_, refl, refl, refl)

  -- A query that is not looked at changes nothing and is not answered; it is logged as refused.
  pub handle-Refused :
      (conn : Connection) (q : Msg) (config : ProxyConfig R)
      → admits conn.addr q.question config.acl ≡ false
      → Refused config (handle dns exchange conn q config)
  unfolding handle
  handle-Refused conn q config h = accept-Refused conn q config conn.addr q.question h

  dns64_answer-Answers :
      (q : Msg) (item : ConnectionLog) (result : Option (ProxyConfig R × Option Msg × Bool))
      → item.acl ≡ true
      → item.blocked ≡ false
      → Answers false (dns64_answer dns exchange q item result)
  unfolding dns64_answer upstream_error answer_with
  dns64_answer-Answers q item none h b = tt
  dns64_answer-Answers q item (some (config, none, cached)) h b = (refl, h, b)
  dns64_answer-Answers q item (some (config, some out, cached)) h b =
      elim (Option-cases (dns64_reply config.dns64_prefix out)) [
        | inl e ↦ rw (e, dns64_answer) tt
        | inr (reply, e) ↦ rw (e, dns64_answer) (refl, h, b)
      ]

  pub finish-Answers :
      (conn : Connection) (q : Msg) (asked : Question) (item : ConnectionLog)
      (result : Option (ProxyConfig R × Option Msg × Bool))
      → item.acl ≡ true
      → item.blocked ≡ false
      → Answers false (finish dns exchange conn q asked item result)
  unfolding finish upstream_error answer_with
  finish-Answers conn q asked item none h b = tt
  finish-Answers conn q asked item (some (config, none, cached)) h b = (refl, h, b)
  finish-Answers conn q asked item (some (config, some out, cached)) h b =
      elim (Bool-cases (config.dns64 && (asked.qtype == type_aaaa && length out.answer == 0))) [
        | inl e ↦ rw (e, finish) (dns64_answer-Answers q item _ h b)
        | inr e ↦ rw (e, finish) (refl, h, b)
      ]
