-- ===== src/Config/Tests.antt =====
-- The theorems on the start of the program, for one upstream resolver and one network in the ACL.
use dinosaur_dns.Common.{
  ℕ, ◌≤◌, ◌≡◌, refl, Bool, true, false, List, [], ◌∷◌, Option, none, some, Str, Str-discrete,
  ℕ_discrete, arith,
}
use dinosaur_dns.Common.Results.{ok}
use dinosaur_dns.Common.Strings.{codes}
use dinosaur_dns.Proxy.Sample.{zero_item}
use dinosaur_dns.Config.{UserConfig, new_user_config}
use dinosaur_dns.Config.Startup.{
  Environment, ServerConfig, Stop, Resolver, udp, new_proxy_config, get_proxy_config,
}
use dinosaur_dns.Config.Startup.Stages.{default_dns64_prefix-Is96}
use dinosaur_dns.Config.Startup.Ready.{IsReady, get_proxy_config-IsReady}
use dinosaur_dns.Config.Options.Start.{IsStarted, start-IsStarted}
use dinosaur_dns.Config.Sample.{
  env, user_config, value_or, flags, read_file, unmarshal, running, starts,
}

abbrev configured : ServerConfig
configured =
    value_or (new_proxy_config zero_item)
      (get_proxy_config env 5 user_config (new_proxy_config zero_item))

configures : get_proxy_config env 5 user_config (new_proxy_config zero_item) ≡ ok configured
unfolding get_proxy_config dinosaur_dns.Config.Startup.add_addrs dinosaur_dns.Config.Startup.or_stop
    dinosaur_dns.Config.Startup.resolver_of dinosaur_dns.Config.Startup.resolvers_of
    dinosaur_dns.Config.Startup.log_target dinosaur_dns.Config.Startup.or_default
    dinosaur_dns.Config.Startup.add_local dinosaur_dns.Config.Startup.add_zones
    dinosaur_dns.Config.Startup.add_acl dinosaur_dns.Config.Startup.dns64_prefix_of
    dinosaur_dns.Config.Startup.refresh_interval_of dinosaur_dns.Config.Startup.ids_of
    dinosaur_dns.Util.Addrs.parse_addr dinosaur_dns.Util.Addrs.normal_addr
    dinosaur_dns.Util.Addrs.with_port dinosaur_dns.Util.Addrs.is_bare
    dinosaur_dns.Util.Addrs.has_port dinosaur_dns.Util.Addrs.is_port
    dinosaur_dns.Util.Addrs.all_digits dinosaur_dns.Util.Addrs.is_digit
    dinosaur_dns.Util.Addrs.count_colons dinosaur_dns.Util.Addrs.split_colon
    dinosaur_dns.Util.Addrs.cons_name dinosaur_dns.Util.Addrs.decimal_int
    dinosaur_dns.Util.Addrs.digits dinosaur_dns.Util.Addrs.lookup_addr
    dinosaur_dns.Config.Sources.update_block_list dinosaur_dns.Config.Sources.load_sources
    dinosaur_dns.Config.Sources.load_all dinosaur_dns.Config.Sources.delete_all Str-discrete
    ℕ_discrete dinosaur_dns.Common.Strings.has_prefix
configures = refl

get_proxy_config-IsReady_example : IsReady env user_config (new_proxy_config zero_item) configured
get_proxy_config-IsReady_example =
    get_proxy_config-IsReady env 5 user_config (new_proxy_config zero_item) configured
      default_dns64_prefix-Is96 (omega arith) tt tt configures

-- The default port of a UDP resolver
upstream : configured.proxy.upstream ≡ udp (codes "1.1.1.1:53") ∷ []
unfolding get_proxy_config dinosaur_dns.Config.Startup.add_addrs dinosaur_dns.Config.Startup.or_stop
    dinosaur_dns.Config.Startup.resolver_of dinosaur_dns.Config.Startup.resolvers_of
    dinosaur_dns.Config.Startup.log_target dinosaur_dns.Config.Startup.or_default
    dinosaur_dns.Config.Startup.add_local dinosaur_dns.Config.Startup.add_zones
    dinosaur_dns.Config.Startup.add_acl dinosaur_dns.Config.Startup.dns64_prefix_of
    dinosaur_dns.Config.Startup.refresh_interval_of dinosaur_dns.Config.Startup.ids_of
    dinosaur_dns.Util.Addrs.parse_addr dinosaur_dns.Util.Addrs.normal_addr
    dinosaur_dns.Util.Addrs.with_port dinosaur_dns.Util.Addrs.is_bare
    dinosaur_dns.Util.Addrs.has_port dinosaur_dns.Util.Addrs.is_port
    dinosaur_dns.Util.Addrs.all_digits dinosaur_dns.Util.Addrs.is_digit
    dinosaur_dns.Util.Addrs.count_colons dinosaur_dns.Util.Addrs.split_colon
    dinosaur_dns.Util.Addrs.cons_name dinosaur_dns.Util.Addrs.decimal_int
    dinosaur_dns.Util.Addrs.digits dinosaur_dns.Util.Addrs.lookup_addr
    dinosaur_dns.Config.Sources.update_block_list dinosaur_dns.Config.Sources.load_sources
    dinosaur_dns.Config.Sources.load_all dinosaur_dns.Config.Sources.delete_all Str-discrete
    ℕ_discrete dinosaur_dns.Common.Strings.has_prefix
upstream = refl

start-IsStarted_example : IsStarted env read_file unmarshal zero_item 5 flags running
start-IsStarted_example = start-IsStarted env read_file unmarshal zero_item 5 flags running starts
