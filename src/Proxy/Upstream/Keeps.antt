-- ===== src/Proxy/Upstream/Keeps.antt =====
-- proxy.go, resolve: how a property of the state is kept by a whole call: by its calls of the cache,
-- and the counting of the first resolver's failures.
use dinosaur_dns.Common.{
  ℕ, ◌+◌, ◌≡◌, Bool, List, [], ◌∷◌, Option, none, some, ◌==◌, Bool-cases, Option-cases, inl, inr,
}
use dinosaur_dns.Dns.{Msg, DnsLib}
use dinosaur_dns.Cache
use dinosaur_dns.Cache.{DnsCache}
use dinosaur_dns.Proxy.Upstream.{
  ProxyConfig, note_failure, note_success, at_first, cache_add, answered, try_each, resolve_from,
  with_upstream, resolve,
}

module _ {R : Type 0} where
  abbrev pub AfterTry : (ProxyConfig R → Type 0) → Option (ProxyConfig R × Option Msg) → Type 0
  AfterTry P none = Unit
  AfterTry P (some (config, out)) = P config

  abbrev pub AfterResolve :
      (ProxyConfig R → Type 0) → Option (ProxyConfig R × Option Msg × Bool) → Type 0
  AfterResolve P none = Unit
  AfterResolve P (some (config, out, cached)) = P config

-- What keeps a property: each of the small steps of which a call consists.
pub record IsKept {R : Type 0} (dns : DnsLib) (exchange : R → Msg → Option Msg)
    (P : ProxyConfig R → Type 0) : Type 0 where
  pub failed : (config : ProxyConfig R) → P config → P (note_failure config)
  pub succeeded : (config : ProxyConfig R) → P config → P (note_success config)
  pub got :
      (q : Msg) (now now' : ℕ) (config : ProxyConfig R) (c : DnsCache) (hit : Option Msg)
      → P config
      → Cache.get dns q now now' config.cache ≡ some (c, hit)
      → P (record config { cache = c })
  pub added :
      (r : R) (q out : Msg) (now : ℕ) (config : ProxyConfig R) (c : DnsCache)
      → exchange r q ≡ some out
      → P config
      → Cache.add dns out now config.cache ≡ some c
      → P (record config { cache = c })

module _ {R : Type 0} (dns : DnsLib) (exchange : R → Msg → Option Msg) (P : ProxyConfig R → Type 0)
    (kept : IsKept dns exchange P) where
  noted-failure : (i : ℕ) (config : ProxyConfig R) → P config → P (at_first i note_failure config)
  unfolding at_first
  noted-failure i config p = elim (Bool-cases (i == 0)) [
    | inl e ↦ rw e (kept.failed config p)
    | inr e ↦ rw e p
  ]

  noted-success : (i : ℕ) (config : ProxyConfig R) → P config → P (at_first i note_success config)
  unfolding at_first
  noted-success i config p = elim (Bool-cases (i == 0)) [
    | inl e ↦ rw e (kept.succeeded config p)
    | inr e ↦ rw e p
  ]

  answered-AfterTry :
      (i : ℕ) (r : R) (q out : Msg) (now : ℕ) (config : ProxyConfig R)
      → exchange r q ≡ some out
      → P config
      → AfterTry P (answered dns exchange i out now config)
  unfolding answered cache_add
  answered-AfterTry i r q out now config gives p =
      let noted = at_first i note_success config in
      elim (Option-cases (Cache.add dns out now noted.cache)) [
        | inl e ↦ rw (e, answered, cache_add) tt
        | inr (c, e) ↦
            rw (e, answered, cache_add)
              (kept.added r q out now noted c gives (noted-success i config p) e)
      ]

  try_each-AfterTry :
      (rs : List R) (i : ℕ) (q : Msg) (now : ℕ) (config : ProxyConfig R)
      → P config
      → AfterTry P (try_each dns exchange i rs q now config)
  unfolding try_each
  try_each-AfterTry [] i q now config p = p
  try_each-AfterTry (r ∷ rs) i q now config p = elim (Option-cases (exchange r q)) [
    | inl e ↦ rw (e, try_each) (try_each-AfterTry rs (i + 1) q now _ (noted-failure i config p))
    | inr (out, e) ↦ rw (e, try_each) (answered-AfterTry i r q out now config e p)
  ]

  with_upstream-AfterResolve :
      (result : Option (ProxyConfig R × Option Msg))
      → AfterTry P result
      → AfterResolve P (with_upstream result)
  unfolding with_upstream
  with_upstream-AfterResolve none p = tt
  with_upstream-AfterResolve (some (config, out)) p = p

  resolve_from-AfterResolve :
      (got : DnsCache × Option Msg) (q : Msg) (now : ℕ) (config : ProxyConfig R)
      → P (record config { cache = got.0 })
      → AfterResolve P (resolve_from dns exchange got q now config)
  unfolding resolve_from
  resolve_from-AfterResolve (c, some out) q now config p = p
  resolve_from-AfterResolve (c, none) q now config p =
      with_upstream-AfterResolve _ (try_each-AfterTry config.upstream 0 q now _ p)

  pub resolve-AfterResolve :
      (q : Msg) (now now' added : ℕ) (config : ProxyConfig R)
      → P config
      → AfterResolve P (resolve dns exchange q now now' added config)
  unfolding resolve
  resolve-AfterResolve q now now' added config p =
      elim (Option-cases (Cache.get dns q now now' config.cache)) [
        | inl e ↦ rw (e, resolve) tt
        | inr (got, e) ↦
            rw (e, resolve)
              (resolve_from-AfterResolve got q added config
                (kept.got q now now' config got.0 got.1 p e))
      ]
