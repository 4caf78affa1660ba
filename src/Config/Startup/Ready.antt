-- ===== src/Config/Startup/Ready.antt =====
-- userconfig.go, GetProxyConfig: what a configuration has that it returns with no error.
use mathlib.Core.Path.{subst}
use dinosaur_dns.Common.{ℕ, ◌≤◌, ◌≡◌, refl, true, false, List, ◌++◌, none, some}
use dinosaur_dns.Common.Results.{ok, Holds, Holds-self, >>=-Holds}
use dinosaur_dns.Cache.{second}
use dinosaur_dns.Proxy.Upstream.{IpNet}
use dinosaur_dns.Config.{UserConfig}
use dinosaur_dns.Config.Sources.{update_block_list}
use dinosaur_dns.Config.Startup.{
  ServerConfig, Environment, resolvers_of, add_addrs, updated_list, add_acl, dns64_prefix_of,
  refresh_interval_of, ids_of, add_local, add_zones, get_proxy_config,
}
use dinosaur_dns.Config.Startup.Stages.{
  Is96, Networks, HavePorts, updated_list-Holds, add_addrs-HavePorts, add_acl-Extends,
  dns64_prefix_of-Is96, refresh_interval_of-le,
}

-- What stands in a configuration made from an earlier one.
pub record IsReady (env : Environment) (uc : UserConfig) (old new : ServerConfig) : Type 0 where
  pub upstream : new.proxy.upstream ≡ old.proxy.upstream ++ resolvers_of uc.upstream
  pub block_list :
      update_block_list env.dns.string_to_type env.open_url uc old.proxy.block_list
      ≡ some (new.proxy.block_list, none)
  pub nets : List IpNet
  pub acl : new.proxy.acl ≡ old.proxy.acl ++ nets
  pub nets_named : Networks env.parse_cidr uc.acl nets
  pub dns64_prefix : Is96 new.proxy.dns64_prefix
  pub refresh_interval : second ≤ new.refresh_interval
  pub listen_addr : HavePorts new.listen_addr
  pub doh_bind : HavePorts new.doh_bind

module _ (env : Environment) where
  chain-IsReady :
      (now : ℕ) (uc : UserConfig) (old : ServerConfig)
      → Is96 old.proxy.dns64_prefix
      → second ≤ old.refresh_interval
      → HavePorts old.listen_addr
      → HavePorts old.doh_bind
      → Holds (IsReady env uc old) (get_proxy_config env now uc old)
  unfolding get_proxy_config
  chain-IsReady now uc old is96 long listens binds =
      let update = update_block_list env.dns.string_to_type env.open_url uc old.proxy.block_list in
      >>=-Holds _ (add_addrs env 53 uc.listen old.listen_addr) _
        (add_addrs-HavePorts env 53 uc.listen old.listen_addr listens)
        (λ listen_addr listen.
          >>=-Holds _ (updated_list env update) _ (updated_list-Holds env update)
            (λ block_list updated.
              >>=-Holds _ (add_local env false now uc.local_rr old.proxy.cache) _ (Holds-self _)
                (λ local _.
                  >>=-Holds _ (add_local env true now uc.local_rr_ptr local) _ (Holds-self _)
                    (λ local' _.
                      >>=-Holds _ (add_zones env now uc.localzone local') _ (Holds-self _)
                        (λ cache _.
                          >>=-Holds _ (add_acl env uc.acl old.proxy.acl) _
                            (add_acl-Extends env uc.acl old.proxy.acl)
                            (λ acl extends.
                              >>=-Holds _ (dns64_prefix_of env uc old.proxy.dns64_prefix) _
                                (dns64_prefix_of-Is96 env uc old.proxy.dns64_prefix is96)
                                (λ prefix prefix_is96.
                                  >>=-Holds _ (add_addrs env 443 uc.doh old.doh_bind) _
                                    (add_addrs-HavePorts env 443 uc.doh old.doh_bind binds)
                                    (λ doh_bind bind.
                                      >>=-Holds _ (refresh_interval_of env uc old.refresh_interval)
                                        _ (refresh_interval_of-le env uc old.refresh_interval long)
                                        (λ interval interval_long.
                                          >>=-Holds _ (ids_of env uc.setuid old) _ (Holds-self _)
                                            (λ ids _. record {
                                              upstream = refl;
                                              block_list = updated;
                                              nets = extends.0;
                                              acl = extends.1;
                                              nets_named = extends.2;
                                              dns64_prefix = prefix_is96;
                                              refresh_interval = interval_long;
                                              listen_addr = listen;
                                              doh_bind = bind;
                                            }))))))))))

  -- If GetProxyConfig returns with no error then the resolvers are the ones of the upstream
  -- entries in their order, the block list is what UpdateBlockList gives, the ACL has the network
  -- of each entry, the DNS64 prefix has 96 bits of 128, the block list is refreshed once per second
  -- at most, and all addresses to listen on have a port. The earlier configuration is to have the
  -- last three of these.
  pub get_proxy_config-IsReady :
      (now : ℕ) (uc : UserConfig) (old new : ServerConfig)
      → Is96 old.proxy.dns64_prefix
      → second ≤ old.refresh_interval
      → HavePorts old.listen_addr
      → HavePorts old.doh_bind
      → get_proxy_config env now uc old ≡ ok new
      → IsReady env uc old new
  get_proxy_config-IsReady now uc old new is96 long listens binds done =
      subst (Holds (IsReady env uc old)) done (chain-IsReady now uc old is96 long listens binds)
