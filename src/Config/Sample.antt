-- ===== src/Config/Sample.antt =====
-- A configuration file, flags and a system for the tests of the other modules.
use dinosaur_dns.Common.{
  ℕ, ◌≤◌, ◌≡◌, refl, Bool, true, false, List, [], ◌∷◌, Option, none, some, Str, Str-discrete,
  ℕ_discrete, arith,
}
use dinosaur_dns.Common.Ints.{pos}
use dinosaur_dns.Common.Results.{Result, ok, fail}
use dinosaur_dns.Common.Strings.{codes}
use dinosaur_dns.Dns.Sample.{sample_dns}
use dinosaur_dns.Proxy.Sample.{zero_item}
use dinosaur_dns.Proxy.Upstream.{IpNet}
use dinosaur_dns.Config.{UserConfig, new_user_config}
use dinosaur_dns.Config.Startup.{
  Environment, ServerConfig, Stop, Resolver, udp, new_proxy_config, get_proxy_config,
}
use dinosaur_dns.Config.Options.{Flags}
use dinosaur_dns.Config.Options.Start.{start}

-- 10.0.0.0/8
abbrev pub network : IpNet
network = record { ip = 10 ∷ 0 ∷ 0 ∷ 0 ∷ []; mask = 255 ∷ 0 ∷ 0 ∷ 0 ∷ [] }

abbrev pub env : Environment
env = record {
  dns = sample_dns;
  system = record { interface_by_name = λ name. none; parse_ip = λ text. fail (codes "bad") };
  users = record {
    lookup_user = λ s. none;
    lookup_id = λ s. none;
    lookup_group = λ s. none;
    lookup_group_id = λ s. none;
    atoi = λ s. none;
  };
  getuid = 0;
  parse_cidr = λ v. ok network;
  parse_duration = λ v. ok (pos 0);
  open_url = λ url. none;
  open_zone = λ url. fail (codes "no file");
}

abbrev pub user_config : UserConfig
user_config = record new_user_config {
  listen = codes "lo0:8053" ∷ [];
  upstream = codes "1.1.1.1" ∷ [];
  acl = codes "10.0.0.0/8" ∷ [];
}

-- The value of a result, or the configuration before.
abbrev pub value_or : {E : Type 0} → ServerConfig → Result E ServerConfig → ServerConfig
value_or default (ok config) = config
value_or default (fail _) = default

abbrev pub flags : Flags
flags = record {
  help = false;
  config = [];
  given = record user_config { upstream = []; setuid = [] };
}

abbrev pub read_file : Str → Result Str (List ℕ)
read_file name = fail (codes "no file")

abbrev pub unmarshal : List ℕ → UserConfig → Result Str UserConfig
unmarshal buf uc = ok uc

abbrev pub running : ServerConfig
running = value_or (new_proxy_config zero_item) (start env read_file unmarshal zero_item 5 flags)

pub starts : start env read_file unmarshal zero_item 5 flags ≡ ok running
unfolding start dinosaur_dns.Config.Options.get_user_config dinosaur_dns.Config.Options.file_config
    dinosaur_dns.Config.Options.merge_flags dinosaur_dns.Config.Options.append_all
    dinosaur_dns.Config.Options.default_list dinosaur_dns.Config.Options.override get_proxy_config
    dinosaur_dns.Config.Startup.add_addrs dinosaur_dns.Config.Startup.or_stop
    dinosaur_dns.Config.Startup.resolver_of dinosaur_dns.Config.Startup.resolvers_of
    dinosaur_dns.Config.Startup.log_target dinosaur_dns.Config.Startup.or_default
    dinosaur_dns.Config.Startup.add_local dinosaur_dns.Config.Startup.add_zones
    dinosaur_dns.Config.Startup.add_acl dinosaur_dns.Config.Startup.dns64_prefix_of
    dinosaur_dns.Config.Startup.refresh_interval_of dinosaur_dns.Config.Startup.ids_of
    dinosaur_dns.Util.Addrs.parse_addr dinosaur_dns.Util.Addrs.normal_addr
    dinosaur_dns.Util.Addrs.with_port dinosaur_dns.Util.Addrs.is_bare
    dinosaur_dns.Util.Addrs.has_port dinosaur_dns.Util.Addrs.is_port
    dinosaur_dns.Util.Addrs.all_digits dinosaur_dns.Util.Addrs.is_digit
    dinosaur_dns.Util.Addrs.count_colons dinosaur_dns.Util.Addrs.split_colon
    dinosaur_dns.Util.Addrs.cons_name dinosaur_dns.Util.Addrs.decimal_int
    dinosaur_dns.Util.Addrs.digits dinosaur_dns.Util.Addrs.lookup_addr
    dinosaur_dns.Config.Sources.update_block_list dinosaur_dns.Config.Sources.load_sources
    dinosaur_dns.Config.Sources.load_all dinosaur_dns.Config.Sources.delete_all Str-discrete
    ℕ_discrete dinosaur_dns.Common.Strings.has_prefix
starts = refl

pub running-dns64 : running.proxy.dns64 ≡ false
unfolding start dinosaur_dns.Config.Options.get_user_config dinosaur_dns.Config.Options.file_config
    dinosaur_dns.Config.Options.merge_flags dinosaur_dns.Config.Options.append_all
    dinosaur_dns.Config.Options.default_list dinosaur_dns.Config.Options.override get_proxy_config
    dinosaur_dns.Config.Startup.add_addrs dinosaur_dns.Config.Startup.or_stop
    dinosaur_dns.Config.Startup.resolver_of dinosaur_dns.Config.Startup.resolvers_of
    dinosaur_dns.Config.Startup.log_target dinosaur_dns.Config.Startup.or_default
    dinosaur_dns.Config.Startup.add_local dinosaur_dns.Config.Startup.add_zones
    dinosaur_dns.Config.Startup.add_acl dinosaur_dns.Config.Startup.dns64_prefix_of
    dinosaur_dns.Config.Startup.refresh_interval_of dinosaur_dns.Config.Startup.ids_of
    dinosaur_dns.Util.Addrs.parse_addr dinosaur_dns.Util.Addrs.normal_addr
    dinosaur_dns.Util.Addrs.with_port dinosaur_dns.Util.Addrs.is_bare
    dinosaur_dns.Util.Addrs.has_port dinosaur_dns.Util.Addrs.is_port
    dinosaur_dns.Util.Addrs.all_digits dinosaur_dns.Util.Addrs.is_digit
    dinosaur_dns.Util.Addrs.count_colons dinosaur_dns.Util.Addrs.split_colon
    dinosaur_dns.Util.Addrs.cons_name dinosaur_dns.Util.Addrs.decimal_int
    dinosaur_dns.Util.Addrs.digits dinosaur_dns.Util.Addrs.lookup_addr
    dinosaur_dns.Config.Sources.update_block_list dinosaur_dns.Config.Sources.load_sources
    dinosaur_dns.Config.Sources.load_all dinosaur_dns.Config.Sources.delete_all Str-discrete
    ℕ_discrete dinosaur_dns.Common.Strings.has_prefix
running-dns64 = refl

pub running-hooks : running.proxy.stats_handler.hooks ≡ []
unfolding start dinosaur_dns.Config.Options.get_user_config dinosaur_dns.Config.Options.file_config
    dinosaur_dns.Config.Options.merge_flags dinosaur_dns.Config.Options.append_all
    dinosaur_dns.Config.Options.default_list dinosaur_dns.Config.Options.override get_proxy_config
    dinosaur_dns.Config.Startup.add_addrs dinosaur_dns.Config.Startup.or_stop
    dinosaur_dns.Config.Startup.resolver_of dinosaur_dns.Config.Startup.resolvers_of
    dinosaur_dns.Config.Startup.log_target dinosaur_dns.Config.Startup.or_default
    dinosaur_dns.Config.Startup.add_local dinosaur_dns.Config.Startup.add_zones
    dinosaur_dns.Config.Startup.add_acl dinosaur_dns.Config.Startup.dns64_prefix_of
    dinosaur_dns.Config.Startup.refresh_interval_of dinosaur_dns.Config.Startup.ids_of
    dinosaur_dns.Util.Addrs.parse_addr dinosaur_dns.Util.Addrs.normal_addr
    dinosaur_dns.Util.Addrs.with_port dinosaur_dns.Util.Addrs.is_bare
    dinosaur_dns.Util.Addrs.has_port dinosaur_dns.Util.Addrs.is_port
    dinosaur_dns.Util.Addrs.all_digits dinosaur_dns.Util.Addrs.is_digit
    dinosaur_dns.Util.Addrs.count_colons dinosaur_dns.Util.Addrs.split_colon
    dinosaur_dns.Util.Addrs.cons_name dinosaur_dns.Util.Addrs.decimal_int
    dinosaur_dns.Util.Addrs.digits dinosaur_dns.Util.Addrs.lookup_addr
    dinosaur_dns.Config.Sources.update_block_list dinosaur_dns.Config.Sources.load_sources
    dinosaur_dns.Config.Sources.load_all dinosaur_dns.Config.Sources.delete_all Str-discrete
    ℕ_discrete dinosaur_dns.Common.Strings.has_prefix
running-hooks = refl
