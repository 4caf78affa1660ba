-- ===== src/Proxy/Upstream/Failover.antt =====
-- proxy.go, resolve: which answer a query gets.
use mathlib.Core.Path.{subst}
use dinosaur_dns.Common.{
  ◌∙◌, Bool, ltb, ℕ, ◌+◌, ◌≡◌, ◌≢◌, refl, ap, List, [], ◌∷◌, Option, none, some, inl, inr, ◌==◌,
  Bool-cases, Option-cases, List-cases, is_some, if◌then◌else◌,
}
use dinosaur_dns.Dns.{Msg, DnsLib}
use dinosaur_dns.Cache
use dinosaur_dns.Cache.{DnsCache}
use dinosaur_dns.Proxy.Upstream.{
  ProxyConfig, note_failure, note_success, at_first, cache_add, answered, try_each, with_upstream,
  resolve_from, resolve,
}

abbrev pub or_else : Option Msg → Option Msg → Option Msg
or_else (some out) other = some out
or_else none other = other

-- The cache after the resolvers were asked.
abbrev pub CacheAfter : DnsLib → Option Msg → ℕ → DnsCache → DnsCache → Type 0
CacheAfter dns none now c c' = c' ≡ c
CacheAfter dns (some out) now c c' = Cache.add dns out now c ≡ some c'

module _ {R : Type 0} where
  -- What the first resolver that answers gives.
  unfoldable pub first_answer : (R → Msg → Option Msg) → List R → Msg → Option Msg
  first_answer exchange [] q = none
  first_answer exchange (r ∷ us) q = elim (exchange r q) [
    | some out ↦ some out
    | none ↦ first_answer exchange us q
  ]

  module _ (dns : DnsLib) (exchange : R → Msg → Option Msg)
      (answers_ask : (r : R) (q out : Msg) → exchange r q ≡ some out → out.question ≢ []) where
    add-returns :
        (out : Msg) (now : ℕ) (c : DnsCache)
        → out.question ≢ []
        → (c' : DnsCache) × (Cache.add dns out now c ≡ some c')
    unfolding Cache.add
    add-returns out now c h = elim (List-cases out.question) [
      | inl e ↦ absurd (h e)
      | inr (x, xs, e) ↦ elim (Bool-cases (Cache.refused out)) [
        | inl refused ↦ rw (refused, Cache.add) (c, refl)
        | inr fine ↦ elim (Bool-cases (Cache.message_ttl out == 0)) [
          | inl t ↦ rw (fine, Cache.add, t) (c, refl)
          | inr t ↦ rw (fine, Cache.add, t, e) (_, refl)
        ]
      ]
    ]

    get-returns :
        (q : Msg) (now now' : ℕ) (c : DnsCache)
        → q.question ≢ []
        → (c' : DnsCache) × (hit : Option Msg) × (Cache.get dns q now now' c ≡ some (c', hit))
    unfolding Cache.get
    get-returns q now now' c h = elim (List-cases q.question) [
      | inl e ↦ absurd (h e)
      | inr (x, xs, e) ↦ rw (e, Cache.get) (_, _, refl)
    ]

    at_first-cache :
        (i : ℕ) (note : ProxyConfig R → ProxyConfig R) (config : ProxyConfig R)
        → (note config).cache ≡ config.cache
        → (at_first i note config).cache ≡ config.cache
    unfolding at_first
    at_first-cache i note config h = elim (Bool-cases (i == 0)) [
      | inl e ↦ rw (e, at_first) h
      | inr e ↦ rw (e, at_first) refl
    ]

    note_failure-cache : (config : ProxyConfig R) → (note_failure config).cache ≡ config.cache
    unfolding note_failure
    note_failure-cache config = elim (Bool-cases (ltb 3 (config.upstream_err + 1))) [
      | inl e ↦ rw (e, note_failure) refl
      | inr e ↦ rw (e, note_failure) refl
    ]

    note_success-cache : (config : ProxyConfig R) → (note_success config).cache ≡ config.cache
    unfolding note_success
    note_success-cache config = refl

    at_first-dns64 :
        (i : ℕ) (note : ProxyConfig R → ProxyConfig R) (config : ProxyConfig R)
        → (note config).dns64 ≡ config.dns64
        → (at_first i note config).dns64 ≡ config.dns64
    unfolding at_first
    at_first-dns64 i note config h = elim (Bool-cases (i == 0)) [
      | inl e ↦ rw (e, at_first) h
      | inr e ↦ rw (e, at_first) refl
    ]

    note_failure-dns64 : (config : ProxyConfig R) → (note_failure config).dns64 ≡ config.dns64
    unfolding note_failure
    note_failure-dns64 config = elim (Bool-cases (ltb 3 (config.upstream_err + 1))) [
      | inl e ↦ rw (e, note_failure) refl
      | inr e ↦ rw (e, note_failure) refl
    ]

    note_success-dns64 : (config : ProxyConfig R) → (note_success config).dns64 ≡ config.dns64
    unfolding note_success
    note_success-dns64 config = refl

    try_each-answer :
        (i : ℕ) (us : List R) (q : Msg) (now : ℕ) (config : ProxyConfig R)
        → (config' : ProxyConfig R) × (try_each dns exchange i us q now config
            ≡ some (config', first_answer exchange us q))
          × CacheAfter dns (first_answer exchange us q) now config.cache config'.cache
          × (config'.dns64 ≡ config.dns64)
    unfolding try_each answered cache_add first_answer
    try_each-answer i [] q now config = (config, refl, refl, refl)
    try_each-answer i (r ∷ us) q now config = elim (Option-cases (exchange r q)) [
      | inl e ↦
          let (config', done, after, same) =
            try_each-answer (i + 1) us q now (at_first i note_failure config) in
          rw (e, try_each, first_answer)
            (
              config',
              done,
              subst (λ c. CacheAfter dns (first_answer exchange us q) now c config'.cache)
                  (at_first-cache i note_failure config (note_failure-cache config)) after,
              same ∙ at_first-dns64 i note_failure config (note_failure-dns64 config),
            )
      | inr (out, e) ↦
          let (c, added) =
            add-returns out now (at_first i note_success config).cache (answers_ask r q out e) in
          rw (e, try_each, first_answer, added, answered)
            (
              _,
              refl,
              subst (λ c0. Cache.add dns out now c0 ≡ some c)
                  (at_first-cache i note_success config (note_success-cache config)) added,
              at_first-dns64 i note_success config (note_success-dns64 config),
            )
    ]

    resolve_from-answer :
        (c : DnsCache) (hit : Option Msg) (q : Msg) (added : ℕ) (config : ProxyConfig R)
        → (config' : ProxyConfig R) × (resolve_from dns exchange (c, hit) q added config
            ≡ some (config', or_else hit (first_answer exchange config.upstream q), is_some hit))
          × CacheAfter dns
              (if is_some hit then none else first_answer exchange config.upstream q)
              added
              c
              config'.cache
          × (config'.dns64 ≡ config.dns64)
    unfolding resolve_from with_upstream
    resolve_from-answer c (some out) q added config =
        (record config { cache = c }, refl, refl, refl)
    resolve_from-answer c none q added config =
        let (config', done, after, same) =
          try_each-answer 0 config.upstream q added (record config { cache = c }) in
        (config', ap with_upstream done, after, same)

    -- If the answers of the resolvers have a question, resolve returns, for every query with one:
    -- the cached answer if there is one, whatever the resolvers do, or else the answer of the first
    -- resolver that gives one, or else an error. An answer of a resolver is put into the cache.
    pub resolve-answer :
        (q : Msg) (now now' added : ℕ) (config : ProxyConfig R)
        → q.question ≢ []
        → (c : DnsCache) × (hit : Option Msg) × (config' : ProxyConfig R) × (Cache.get dns q now
              now' config.cache
            ≡ some (c, hit))
          × (resolve dns exchange q now now' added config
              ≡ some (config', or_else hit (first_answer exchange config.upstream q), is_some hit))
          × CacheAfter dns
              (if is_some hit then none else first_answer exchange config.upstream q)
              added
              c
              config'.cache
    unfolding resolve
    resolve-answer q now now' added config h =
        let (c, hit, e) = get-returns q now now' config.cache h in
        let (config', done, after, same) = resolve_from-answer c hit q added config in
        (c, hit, config', e, rw (e, resolve) done, after)

    pub resolve-returns :
        (q : Msg) (now now' added : ℕ) (config : ProxyConfig R)
        → q.question ≢ []
        → (config' : ProxyConfig R) × (out : Option Msg) × (hit : Bool) × (resolve dns exchange q
              now now' added config
            ≡ some (config', out, hit))
          × (config'.dns64 ≡ config.dns64)
    unfolding resolve
    resolve-returns q now now' added config h =
        let (c, hit, e) = get-returns q now now' config.cache h in
        let (config', done, after, same) = resolve_from-answer c hit q added config in
        (
          config',
          or_else hit (first_answer exchange config.upstream q),
          is_some hit,
          rw (e, resolve) done,
          same,
        )
