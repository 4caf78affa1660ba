-- ===== src/Config/Startup/Keeps.antt =====
-- userconfig.go, GetProxyConfig: the cache and the block list that it fills have their invariants.
use mathlib.Core.Path.{subst}
use dinosaur_dns.Common.{
  ℕ, ◌≡◌, refl, Bool, true, false, List, [], ◌∷◌, Option, none, some, Str, arith,
}
use dinosaur_dns.Common.Results.{Result, ok, fail, Holds, Holds-self, >>=-Holds}
use dinosaur_dns.Dns.{Rr}
use dinosaur_dns.Blocklist.Trie.Invariant.{IsValid}
use dinosaur_dns.Cache.{DnsCache, add_rr_string, add_rr}
use dinosaur_dns.Cache.Invariant.{Words, IsValid as CacheIsValid}
use dinosaur_dns.Cache.Keeps.{
  EmptyQuestions, RrWord, IsValid?, add_rr-IsValid, add_rr_string-IsValid,
}
use dinosaur_dns.Config.{UserConfig}
use dinosaur_dns.Config.Sources.{update_block_list}
use dinosaur_dns.Config.Sources.Keeps.{ValidUpdate, update_block_list-ValidUpdate}
use dinosaur_dns.Config.Startup.{
  ServerConfig, Environment, or_stop, add_addrs, updated_list, cached, add_local, add_records,
  zone_end, add_zones, add_acl, dns64_prefix_of, refresh_interval_of, ids_of, get_proxy_config,
}
use dinosaur_dns.Config.Startup.Stages.{updated_list-Holds}

-- The state that the handler starts from, in a configuration made from an earlier one.
pub record IsFilled (old new : ServerConfig) : Type 0 where
  pub cache : CacheIsValid new.proxy.cache
  pub block_list : IsValid new.proxy.block_list
  pub upstream_err : new.proxy.upstream_err ≡ old.proxy.upstream_err
  pub stats_handler : new.proxy.stats_handler ≡ old.proxy.stats_handler

module _ (env : Environment) (empty_questions : EmptyQuestions env.dns)
    (entry_words : (entry : Str) (rr : Option Rr) → env.dns.new_rr entry ≡ some rr → RrWord rr)
    (zone_words : (v : Str) (zone : List Rr × Option Str)
      → env.open_zone v ≡ ok zone
      → Words zone.0) where
  cached-IsValid :
      (entry : Str) (r : Option DnsCache) → IsValid? r → Holds CacheIsValid (cached env entry r)
  unfolding cached
  cached-IsValid entry none valid = tt
  cached-IsValid entry (some c) valid = valid

  add_local-IsValid :
      (with_ptr : Bool) (now : ℕ) (vs : List Str) (c : DnsCache)
      → CacheIsValid c
      → Holds CacheIsValid (add_local env with_ptr now vs c)
  unfolding add_local
  add_local-IsValid with_ptr now [] c valid = valid
  add_local-IsValid with_ptr now (v ∷ vs) c valid =
      let added = add_rr_string env.dns v true with_ptr now c in
      >>=-Holds _ (cached env v added) _
        (cached-IsValid v added (
          add_rr_string-IsValid env.dns empty_questions v true with_ptr now c (entry_words v)
            valid))
        (λ c' valid'. add_local-IsValid with_ptr now vs c' valid')

  add_records-IsValid :
      (now : ℕ) (rrs : List Rr) (c : DnsCache)
      → Words rrs
      → CacheIsValid c
      → CacheIsValid (add_records env now rrs c)
  unfolding add_records
  add_records-IsValid now [] c words valid = valid
  add_records-IsValid now (rr ∷ rrs) c words valid =
      add_records-IsValid now rrs (add_rr env.dns (some rr) true now now c) words.1 (
        add_rr-IsValid env.dns empty_questions (some rr) true now now c words.0 (omega arith) valid)

  or_stop-Words :
      (r : Result Str (List Rr × Option Str))
      → ((zone : List Rr × Option Str) → r ≡ ok zone → Words zone.0)
      → Holds (λ zone. Words zone.0) (or_stop r)
  unfolding or_stop
  or_stop-Words (ok zone) words = words zone refl
  or_stop-Words (fail e) words = tt

  zone_end-IsValid :
      (e : Option Str) (c : DnsCache) → CacheIsValid c → Holds CacheIsValid (zone_end env e c)
  unfolding zone_end
  zone_end-IsValid none c valid = valid
  zone_end-IsValid (some e) c valid = tt

  add_zones-IsValid :
      (now : ℕ) (vs : List Str) (c : DnsCache)
      → CacheIsValid c
      → Holds CacheIsValid (add_zones env now vs c)
  unfolding add_zones
  add_zones-IsValid now [] c valid = valid
  add_zones-IsValid now (v ∷ vs) c valid =
      >>=-Holds _ (or_stop (env.open_zone v)) _ (or_stop-Words (env.open_zone v) (zone_words v))
        (λ zone words.
          >>=-Holds _ (zone_end env zone.1 (add_records env now zone.0 c)) _
            (zone_end-IsValid zone.1 (add_records env now zone.0 c)
              (add_records-IsValid now zone.0 c words valid))
            (λ c' valid'. add_zones-IsValid now vs c' valid'))

  pub get_proxy_config-IsFilled :
      (now : ℕ) (uc : UserConfig) (old : ServerConfig)
      → CacheIsValid old.proxy.cache
      → IsValid old.proxy.block_list
      → Holds (IsFilled old) (get_proxy_config env now uc old)
  unfolding get_proxy_config
  get_proxy_config-IsFilled now uc old cache_valid list_valid =
      let update = update_block_list env.dns.string_to_type env.open_url uc old.proxy.block_list in
      let update_valid =
        update_block_list-ValidUpdate env.dns.string_to_type env.open_url uc old.proxy.block_list
          list_valid in
      >>=-Holds _ (add_addrs env 53 uc.listen old.listen_addr) _ (Holds-self _) (λ _ _.
        >>=-Holds _ (updated_list env update) _ (updated_list-Holds env update)
          (λ block_list updated.
            >>=-Holds _ (add_local env false now uc.local_rr old.proxy.cache) _
              (add_local-IsValid false now uc.local_rr old.proxy.cache cache_valid)
              (λ local local_valid.
                >>=-Holds _ (add_local env true now uc.local_rr_ptr local) _
                  (add_local-IsValid true now uc.local_rr_ptr local local_valid)
                  (λ local' local'_valid.
                    >>=-Holds _ (add_zones env now uc.localzone local') _
                      (add_zones-IsValid now uc.localzone local' local'_valid)
                      (λ cache filled.
                        >>=-Holds _ (add_acl env uc.acl old.proxy.acl) _ (Holds-self _) (λ _ _.
                          >>=-Holds _ (dns64_prefix_of env uc old.proxy.dns64_prefix) _
                            (Holds-self _)
                            (λ _ _.
                              >>=-Holds _ (add_addrs env 443 uc.doh old.doh_bind) _ (Holds-self _)
                                (λ _ _.
                                  >>=-Holds _ (refresh_interval_of env uc old.refresh_interval) _
                                    (Holds-self _)
                                    (λ _ _.
                                      >>=-Holds _ (ids_of env uc.setuid old) _ (Holds-self _)
                                        (λ _ _. record {
                                          cache = filled;
                                          block_list = subst ValidUpdate updated update_valid;
                                          upstream_err = refl;
                                          stats_handler = refl;
                                        }))))))))))
