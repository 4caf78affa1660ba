-- ===== src/Proxy/Upstream/Demotion.antt =====
-- proxy.go, resolve: the order of the upstream resolvers and the error count of the first, seen as
-- a state machine of its own.
use mathlib.Core.Path.{subst}
use mathlib.Core.List.{Perm, perm_append_singleton}
use mathlib.Core.List.Perm
use dinosaur_dns.Common.{
  ℕ, ◌+◌, ◌≤◌, ◌<◌, ◌≡◌, refl, sym, ap, ◌∙◌, Bool, false, List, [], ◌∷◌, ◌++◌, Option, none, some,
  dec_lt, length, inl, inr, arith, Option-cases,
}
use dinosaur_dns.Dns.{Msg, DnsLib}
use dinosaur_dns.Cache
use dinosaur_dns.Cache.{DnsCache}
use dinosaur_dns.Proxy.Upstream.{
  ProxyConfig, rotate, note_failure, note_success, at_first, cache_add, answered, try_each,
  with_upstream, resolve_from, resolve,
}

-- One query's effect on the order of the resolvers and the error count.
pub data Step {R : Type 0} : List R → ℕ → List R → ℕ → Type 0 where
  -- no resolver was asked, or there is none
  idle : {us : List R} {n : ℕ} → Step us n us n
  first_answered : {us : List R} {n : ℕ} → Step us n us 0
  first_failed : {us : List R} {n : ℕ} → n < 3 → Step us n us (n + 1)
  demoted : {r : R} {us : List R} → Step (r ∷ us) 3 (us ++ (r ∷ [])) 0

module _ {R : Type 0} where
  -- What a result did to the order and the count.
  abbrev pub Steps : ProxyConfig R → Option (ProxyConfig R × Option Msg) → Type 0
  Steps config none = Unit
  Steps config (some (config', out)) =
      Step config.upstream config.upstream_err config'.upstream config'.upstream_err

  abbrev pub ResolveSteps : ProxyConfig R → Option (ProxyConfig R × Option Msg × Bool) → Type 0
  ResolveSteps config none = Unit
  ResolveSteps config (some (config', out, cached)) =
      Step config.upstream config.upstream_err config'.upstream config'.upstream_err

  at_first-suc :
      (i : ℕ) (note : ProxyConfig R → ProxyConfig R) (config : ProxyConfig R)
      → at_first (i + 1) note config ≡ config
  unfolding at_first
  at_first-suc i note config = ground arith

  note_failure-below :
      (config : ProxyConfig R)
      → config.upstream_err < 3
      → note_failure config ≡ record config { upstream_err = config.upstream_err + 1 }
  unfolding note_failure
  note_failure-below config h = ground arith

  note_failure-at :
      (config : ProxyConfig R)
      → config.upstream_err ≡ 3
      → note_failure config ≡ record config { upstream = rotate config.upstream; upstream_err = 0 }
  unfolding note_failure
  note_failure-at config h = ground arith

  count_failure :
      (config : ProxyConfig R) (n : ℕ)
      → config.upstream_err ≡ n
      → n < 3
      → note_failure config ≡ record config { upstream_err = n + 1 }
  count_failure config n e h =
      note_failure-below config (omega arith) ∙ ap (λ m. record config { upstream_err = m + 1 }) e

  note_failure-Step :
      (r : R) (us : List R) (config : ProxyConfig R)
      → config.upstream ≡ r ∷ us
      → config.upstream_err ≤ 3
      → let config' = note_failure config in
        Step config.upstream config.upstream_err config'.upstream config'.upstream_err
  unfolding rotate
  note_failure-Step r us config e h = elim (dec_lt config.upstream_err 3) [
    | yes p ↦ rw (note_failure-below config p) (first_failed p)
    | no p ↦
        let full : config.upstream_err ≡ 3 = omega arith in
        rw (note_failure-at config full, e, full, rotate) demoted
  ]

  module _ (dns : DnsLib) (exchange : R → Msg → Option Msg) where
    answered-Step :
        (i : ℕ) (out : Msg) (now : ℕ) (before config : ProxyConfig R)
        → (let config' = at_first i note_success config in
            Step before.upstream before.upstream_err config'.upstream config'.upstream_err)
        → Steps before (answered dns exchange i out now config)
    unfolding answered cache_add
    answered-Step i out now before config s =
        elim (Option-cases (Cache.add dns out now (at_first i note_success config).cache)) [
          | inl e ↦ rw (e, answered) tt
          | inr (c, e) ↦ rw (e, answered) s
        ]

    later-Step :
        (i : ℕ) (us : List R) (q : Msg) (now : ℕ) (before config : ProxyConfig R)
        → Step before.upstream before.upstream_err config.upstream config.upstream_err
        → Steps before (try_each dns exchange (i + 1) us q now config)
    unfolding try_each
    later-Step i [] q now before config s = s
    later-Step i (r ∷ us) q now before config s = elim (Option-cases (exchange r q)) [
      | inl e ↦
          rw (e, try_each, at_first-suc i note_failure config)
            (later-Step (i + 1) us q now before config s)
      | inr (out, e) ↦
          rw (e, try_each)
            (answered-Step (i + 1) out now before config
              (rw (at_first-suc i note_success config) s))
    ]

    first-Step :
        (us : List R) (q : Msg) (now : ℕ) (config : ProxyConfig R)
        → config.upstream ≡ us
        → config.upstream_err ≤ 3
        → Steps config (try_each dns exchange 0 us q now config)
    unfolding try_each at_first note_success
    first-Step [] q now config e h = idle
    first-Step (r ∷ us) q now config e h = elim (Option-cases (exchange r q)) [
      | inl f ↦
          rw (f, try_each)
            (later-Step 0 us q now config (note_failure config) (note_failure-Step r us config e h))
      | inr (out, f) ↦ rw (f, try_each) (answered-Step 0 out now config config first_answered)
    ]

    with_upstream-Step :
        (config : ProxyConfig R) (result : Option (ProxyConfig R × Option Msg))
        → Steps config result
        → ResolveSteps config (with_upstream result)
    unfolding with_upstream
    with_upstream-Step config none s = tt
    with_upstream-Step config (some (config', out)) s = s

    -- One call of resolve is one step on the order of the resolvers and the count.
    pub resolve-Step :
        (q : Msg) (now now' added : ℕ) (config : ProxyConfig R)
        → config.upstream_err ≤ 3
        → ResolveSteps config (resolve dns exchange q now now' added config)
    unfolding resolve resolve_from
    resolve-Step q now now' added config h =
        elim (Option-cases (Cache.get dns q now now' config.cache)) [
          | inl e ↦ rw (e, resolve) tt
          | inr ((c, none), e) ↦
              rw (e, resolve, resolve_from)
                (with_upstream-Step config
                  (try_each dns exchange 0 config.upstream q added (record config { cache = c }))
                  (first-Step config.upstream q added (record config { cache = c }) refl h))
          | inr ((c, some out), e) ↦ rw (e, resolve, resolve_from) idle
        ]

-- A call of resolve: the query and the clock's readings.
pub record Call : Type 0 where
  pub query : Msg
  pub got : ℕ
  pub got' : ℕ
  pub added : ℕ

module _ {R : Type 0} (dns : DnsLib) (exchange : R → Msg → Option Msg) where
  -- The state after a sequence of calls of resolve; `none` after a panic.
  unfoldable pub resolve_all : List Call → ProxyConfig R → Option (ProxyConfig R)
  resolve_all [] config = some config
  resolve_all (call ∷ calls) config =
      elim (resolve dns exchange call.query call.got call.got' call.added config) [
        | none ↦ none
        | some (config', out, cached) ↦ resolve_all calls config'
      ]

  Step-Perm : {us vs : List R} {n m : ℕ} → Step us n vs m → n ≤ 3 → Perm vs us × (m ≤ 3)
  Step-Perm (idle {us}) h = (Perm.refl us, h)
  Step-Perm (first_answered {us}) h = (Perm.refl us, omega arith)
  Step-Perm (first_failed {us} p) h = (Perm.refl us, omega arith)
  Step-Perm (demoted {r} {us}) h = (perm_append_singleton r us, omega arith)

  Step-below : {us vs : List R} {n m : ℕ} → Step us n vs m → n < 3 → (vs ≡ us) × (m ≤ n + 1)
  Step-below idle h = (refl, omega arith)
  Step-below first_answered h = (refl, omega arith)
  Step-below (first_failed p) h = (refl, omega arith)
  Step-below demoted h = absurd (omega arith)

  abbrev Ordered : ProxyConfig R → Option (ProxyConfig R) → Type 0
  Ordered config none = Unit
  Ordered config (some config') = Perm config'.upstream config.upstream × (config'.upstream_err ≤ 3)

  abbrev SameOrder : ProxyConfig R → Option (ProxyConfig R) → Type 0
  SameOrder config none = Unit
  SameOrder config (some config') = config'.upstream ≡ config.upstream

  resolve_all-Ordered :
      (calls : List Call) (start config : ProxyConfig R)
      → Ordered start (some config)
      → Ordered start (resolve_all calls config)
  unfolding resolve_all
  resolve_all-Ordered [] start config h = h
  resolve_all-Ordered (call ∷ calls) start config h =
      let s = resolve-Step dns exchange call.query call.got call.got' call.added config h.1 in
      elim (Option-cases (resolve dns exchange call.query call.got call.got' call.added config)) [
        | inl e ↦ rw (e, resolve_all) tt
        | inr ((config', out, cached), e) ↦
            let (perm, small) = Step-Perm (subst (ResolveSteps config) e s) h.1 in
            rw (e, resolve_all)
              (resolve_all-Ordered calls start config' (Perm.trans perm h.0, small))
      ]

  -- The resolver list is only ever reordered, and the error count stays at most 3.
  pub resolve_all-Perm :
      (calls : List Call) (config config' : ProxyConfig R)
      → config.upstream_err ≤ 3
      → resolve_all calls config ≡ some config'
      → Perm config'.upstream config.upstream × (config'.upstream_err ≤ 3)
  resolve_all-Perm calls config config' h e =
      subst (Ordered config) e
        (resolve_all-Ordered calls config config (Perm.refl config.upstream, h))

  resolve_all-SameOrder :
      (calls : List Call) (start config : ProxyConfig R)
      → config.upstream ≡ start.upstream
      → config.upstream_err + length calls ≤ 3
      → SameOrder start (resolve_all calls config)
  unfolding resolve_all
  resolve_all-SameOrder [] start config h n = h
  resolve_all-SameOrder (call ∷ calls) start config h n =
      let s =
        resolve-Step dns exchange call.query call.got call.got' call.added config (omega arith) in
      elim (Option-cases (resolve dns exchange call.query call.got call.got' call.added config)) [
        | inl e ↦ rw (e, resolve_all) tt
        | inr ((config', out, cached), e) ↦
            let (same, small) = Step-below (subst (ResolveSteps config) e s) (omega arith) in
            rw (e, resolve_all) (resolve_all-SameOrder calls start config' (same ∙ h) (omega arith))
      ]

  -- A resolver is not demoted before the fourth call after the count was cleared.
  pub resolve_all-short :
      (calls : List Call) (config config' : ProxyConfig R)
      → config.upstream_err ≡ 0
      → length calls ≤ 3
      → resolve_all calls config ≡ some config'
      → config'.upstream ≡ config.upstream
  resolve_all-short calls config config' h n e =
      subst (SameOrder config) e (resolve_all-SameOrder calls config config refl (omega arith))

  -- A query that is not in the cache, and does not change it.
  abbrev pub Misses : DnsCache → Call → Type 0
  Misses c call = Cache.get dns call.query call.got call.got' c ≡ some (c, none)

  module _ (down : (r : R) (q : Msg) → exchange r q ≡ none) where
    later-down :
        (i : ℕ) (us : List R) (q : Msg) (now : ℕ) (config : ProxyConfig R)
        → try_each dns exchange (i + 1) us q now config ≡ some (config, none)
    unfolding try_each
    later-down i [] q now config = refl
    later-down i (r ∷ us) q now config =
        rw (down r q, try_each, at_first-suc i note_failure config)
          (later-down (i + 1) us q now config)

    try_each-down :
        (r : R) (us : List R) (q : Msg) (now : ℕ) (config : ProxyConfig R)
        → try_each dns exchange 0 (r ∷ us) q now config ≡ some (note_failure config, none)
    unfolding try_each at_first
    try_each-down r us q now config =
        rw (down r q, try_each) (later-down 0 us q now (note_failure config))

    resolve-down :
        (r : R) (us : List R) (call : Call) (config : ProxyConfig R)
        → config.upstream ≡ r ∷ us
        → Misses config.cache call
        → resolve dns exchange call.query call.got call.got' call.added config
          ≡ some (note_failure config, none, false)
    unfolding resolve resolve_from with_upstream
    resolve-down r us call config e miss =
        let failed : try_each dns exchange 0 config.upstream call.query call.added config
            ≡ some (note_failure config, none) =
          subst
            (λ vs.
              try_each dns exchange 0 vs call.query call.added config
              ≡ some (note_failure config, none))
            (sym e) (try_each-down r us call.query call.added config) in
        rw (miss, resolve) (ap with_upstream failed)

    resolve_all-down :
        (r : R) (us : List R) (call : Call) (calls : List Call) (config : ProxyConfig R)
        → config.upstream ≡ r ∷ us
        → Misses config.cache call
        → resolve_all (call ∷ calls) config ≡ resolve_all calls (note_failure config)
    unfolding resolve_all
    resolve_all-down r us call calls config e miss =
        rw (resolve-down r us call config e miss, resolve_all) refl

    -- While every resolver fails, the fourth query that is not in the cache moves the first resolver
    -- to the end, and clears the count.
    pub four_failures :
        (r : R) (us : List R) (c1 c2 c3 c4 : Call) (config : ProxyConfig R)
        → config.upstream ≡ r ∷ us
        → config.upstream_err ≡ 0
        → Misses config.cache c1
        → Misses config.cache c2
        → Misses config.cache c3
        → Misses config.cache c4
        → resolve_all (c1 ∷ c2 ∷ c3 ∷ c4 ∷ []) config
          ≡ some (record config { upstream = us ++ (r ∷ []); upstream_err = 0 })
    unfolding resolve_all rotate
    four_failures r us c1 c2 c3 c4 config e clear m1 m2 m3 m4 =
        let one = record config { upstream_err = 1 } in
        let two = record config { upstream_err = 2 } in
        let three = record config { upstream_err = 3 } in
        resolve_all-down r us c1 (c2 ∷ c3 ∷ c4 ∷ []) config e m1
        ∙ ap (resolve_all (c2 ∷ c3 ∷ c4 ∷ [])) (count_failure config 0 clear (omega arith))
        ∙ resolve_all-down r us c2 (c3 ∷ c4 ∷ []) one e m2
        ∙ ap (resolve_all (c3 ∷ c4 ∷ [])) (count_failure one 1 refl (omega arith))
        ∙ resolve_all-down r us c3 (c4 ∷ []) two e m3
        ∙ ap (resolve_all (c4 ∷ [])) (count_failure two 2 refl (omega arith))
        ∙ resolve_all-down r us c4 [] three e m4
        ∙ ap some (
            note_failure-at three refl
            ∙ ap (λ vs. record config { upstream = vs; upstream_err = 0 }) (ap rotate e))
