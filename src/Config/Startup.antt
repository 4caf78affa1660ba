-- ===== src/Config/Startup.antt =====
-- config/config.go and config/userconfig.go, GetProxyConfig: the configuration that the program
-- starts with. What the system, the network and other libraries find is a parameter.
pub mod Stages
pub mod Ready
pub mod Keeps
use dinosaur_dns.Common.{
  ℕ, ◌+◌, ◌*◌, Bool, true, false, not, ◌&&◌, ◌||◌, List, [], ◌∷◌, ◌++◌, Option, none, some, Str,
  str_eq, length, ltb, ◌==◌, if◌then◌else◌,
}
use dinosaur_dns.Common.Ints.{ℤ, pos, negsuc}
use dinosaur_dns.Common.Results.{Result, ok, fail, ◌>>=◌}
use dinosaur_dns.Common.Strings.{codes, has_prefix}
use dinosaur_dns.Dns.{Rr, DnsLib}
use dinosaur_dns.Blocklist.Trie.{Level, new_level}
use dinosaur_dns.Cache.{DnsCache, add_rr, add_rr_string, second}
use dinosaur_dns.Stats.{ConnectionLog}
use dinosaur_dns.Stats.Buffer.{new}
use dinosaur_dns.Util.Addrs.{System, has_port, parse_addr}
use dinosaur_dns.Util.Ids.{UserDb, split_id}
use dinosaur_dns.Proxy.Upstream.{IpNet, ProxyConfig}
use dinosaur_dns.Config.{UserConfig, new_user_config}
use dinosaur_dns.Config.Sources.{LoadError, update_block_list}

-- The resolvers, by their upstream.
pub data Resolver : Type 0 where
  udp dot doh : Str → Resolver

-- The loggers, with their debug flag
pub data LogTarget : Type 0 where
  to_discard to_syslog to_stderr : Bool → LogTarget

-- config.ProxyConfig: the fields that the handler uses, and the others.
pub record ServerConfig : Type 0 where
  pub listen_addr : List Str
  pub proxy : ProxyConfig Resolver
  pub cache_flush : ℕ
  pub api : Bool
  pub api_bind : Str
  pub doh_bind : List Str
  pub doh_cert : Str
  pub doh_key : Str
  pub doh_path : Str
  pub refresh : Bool
  pub refresh_interval : ℕ
  pub log : LogTarget
  pub user_config : Option UserConfig
  pub setuid : Bool
  pub setuid_uid : ℤ
  pub setuid_gid : ℤ

-- 64:ff9b::/96
abbrev pub default_dns64_prefix : IpNet
default_dns64_prefix = record {
  ip = 0 ∷ 100 ∷ 255 ∷ 155 ∷ 0 ∷ 0 ∷ 0 ∷ 0 ∷ 0 ∷ 0 ∷ 0 ∷ 0 ∷ 0 ∷ 0 ∷ 0 ∷ 0 ∷ [];
  mask = 255 ∷ 255 ∷ 255 ∷ 255 ∷ 255 ∷ 255 ∷ 255 ∷ 255 ∷ 255 ∷ 255 ∷ 255 ∷ 255 ∷ 0 ∷ 0 ∷ 0 ∷ 0 ∷ [];
}

-- NewProxyConfig; the argument is the zero item of a new query log.
abbrev pub new_proxy_config : ConnectionLog → ServerConfig
new_proxy_config zero_item = record {
  listen_addr = [];
  proxy = record {
    upstream = [];
    upstream_err = 0;
    cache = [];
    block_list = new_level;
    block_pause_until = 0;
    acl = [];
    dns64 = false;
    dns64_prefix = default_dns64_prefix;
    stats_handler = new zero_item 1000;
  };
  cache_flush = 30 * second;
  api = false;
  api_bind = codes "127.0.0.1:8553";
  doh_bind = [];
  doh_cert = [];
  doh_key = [];
  doh_path = codes "/dns-query";
  refresh = false;
  refresh_interval = 86400 * second;
  log = to_stderr false;
  user_config = none;
  setuid = false;
  setuid_uid = pos 0;
  setuid_gid = pos 0;
}

-- How GetProxyConfig ends without a configuration: an error, log.Fatal, or a panic.
pub data Stop : Type 0 where
  error_text fatal : Str → Stop
  -- the error of dns.NewRR for an entry
  record_error : Str → Stop
  load_error : LoadError → Stop
  panicked : Stop

-- What the functions of other packages give during the call.
pub record Environment : Type 0 where
  pub dns : DnsLib
  pub system : System
  pub users : UserDb
  pub getuid : ℕ
  -- net.ParseCIDR and time.ParseDuration
  pub parse_cidr : Str → Result Str IpNet
  pub parse_duration : Str → Result Str ℤ
  -- util.UrlOpen, by its lines, and by the records and the error of dns.ZoneParser
  pub open_url : Str → Option (List Str × Bool)
  pub open_zone : Str → Result Str (List Rr × Option Str)

-- The bits of a byte of a mask that are set at its front, if no other one is.
unfoldable pub leading_ones : ℕ → Option ℕ
leading_ones b =
    if b == 0
    then some 0
    else if b == 128
    then some 1
    else if b == 192
    then some 2
    else if b == 224
    then some 3
    else if b == 240
    then some 4
    else if b == 248
    then some 5
    else if b == 252
    then some 6
    else if b == 254
    then some 7
    else none

unfoldable pub all_zero : List ℕ → Bool
all_zero [] = true
all_zero (b ∷ mask) = b == 0 && all_zero mask

unfoldable pub mask_length : List ℕ → Option ℕ
mask_length [] = some 0
mask_length (b ∷ mask) =
    let rest = mask_length mask in
    if b == 255
    then elim rest [ none ↦ none | some n ↦ some (8 + n) ]
    else if all_zero mask
    then leading_ones b
    else none

-- IPMask.Size: the ones and the bits, both 0 for a mask that has a one behind a zero
unfoldable pub mask_size : List ℕ → ℕ × ℕ
mask_size mask = elim (mask_length mask) [ none ↦ (0, 0) | some n ↦ (n, 8 * length mask) ]

unfoldable pub or_stop : {A : Type 0} → Result Str A → Result Stop A
or_stop (ok a) = ok a
or_stop (fail e) = fail (error_text e)

-- A name and a default port
unfoldable pub resolver_of : Str → Resolver
resolver_of v =
    if has_prefix v (codes "https://")
    then doh v
    else if has_prefix v (codes "tls://")
    then dot (if has_port v then v else v ++ codes ":853")
    else udp (if has_port v then v else v ++ codes ":53")

-- The loop over Upstream
unfoldable pub resolvers_of : List Str → List Resolver
resolvers_of [] = []
resolvers_of (v ∷ upstream) = resolver_of v ∷ resolvers_of upstream

unfoldable pub log_target : UserConfig → LogTarget
log_target uc =
    if uc.discard
    then to_discard false
    else if uc.syslog
    then to_syslog uc.debug
    else to_stderr uc.debug

-- if v != "" { field = v }
unfoldable pub or_default : Str → Str → Str
or_default v default = if str_eq v [] then default else v

module _ (env : Environment) where
  open env use {dns, system, users, getuid, parse_cidr, parse_duration, open_url, open_zone}

  parsed_addr : Option (Result Str (List Str)) → Result Stop (List Str)
  parsed_addr none = fail panicked
  parsed_addr (some r) = or_stop r

  -- The loops over Listen and Doh
  unfoldable pub add_addrs : ℕ → List Str → List Str → Result Stop (List Str)
  unfolding parsed_addr
  add_addrs default_port [] bind = ok bind
  add_addrs default_port (v ∷ vs) bind = do
    addrs ← parsed_addr (parse_addr system v default_port)
    add_addrs default_port vs (bind ++ addrs)

  pub updated_list : Option (Level × Option LoadError) → Result Stop Level
  updated_list none = fail panicked
  updated_list (some (b, some e)) = fail (load_error e)
  updated_list (some (b, none)) = ok b

  cached : Str → Option DnsCache → Result Stop DnsCache
  cached entry none = fail (record_error entry)
  cached entry (some c) = ok c

  -- The loops over LocalRR and LocalRRPtr
  unfoldable pub add_local : Bool → ℕ → List Str → DnsCache → Result Stop DnsCache
  unfolding cached
  add_local with_ptr now [] c = ok c
  add_local with_ptr now (v ∷ vs) c = do
    c' ← cached v (add_rr_string dns v true with_ptr now c)
    add_local with_ptr now vs c'

  unfoldable pub add_records : ℕ → List Rr → DnsCache → DnsCache
  add_records now [] c = c
  add_records now (rr ∷ rrs) c = add_records now rrs (add_rr dns (some rr) true now now c)

  zone_end : Option Str → DnsCache → Result Stop DnsCache
  zone_end none c = ok c
  zone_end (some e) c = fail (error_text e)

  -- The loop over Localzone
  unfoldable pub add_zones : ℕ → List Str → DnsCache → Result Stop DnsCache
  unfolding zone_end
  add_zones now [] c = ok c
  add_zones now (v ∷ vs) c = do
    zone ← or_stop (open_zone v)
    c' ← zone_end zone.1 (add_records now zone.0 c)
    add_zones now vs c'

  parsed_net : Str → Str → Result Str IpNet → Result Stop IpNet
  parsed_net what v (ok net) = ok net
  parsed_net what v (fail e) = fail (error_text (what ++ codes " (" ++ v ++ codes "): " ++ e))

  -- The loop over Acl
  unfoldable pub add_acl : List Str → List IpNet → Result Stop (List IpNet)
  unfolding parsed_net
  add_acl [] acl = ok acl
  add_acl (v ∷ vs) acl = do
    cidr ← parsed_net (codes "ACL Error") v (parse_cidr v)
    add_acl vs (acl ++ (cidr ∷ []))

  -- The prefix has 96 bits of 128.
  checked_prefix : Str → IpNet → Result Stop IpNet
  checked_prefix v net =
      let size = mask_size net.mask in
      if not (size.0 == 96) || not (size.1 == 128)
      then fail (error_text (codes "Dns64 Prefix Error (" ++ v ++ codes "): Invalid prefix"))
      else ok net

  unfoldable pub dns64_prefix_of : UserConfig → IpNet → Result Stop IpNet
  unfolding parsed_net checked_prefix
  dns64_prefix_of uc prefix =
      if uc.dns64 && not (str_eq uc.dns64_prefix [])
      then (do
        net ← parsed_net (codes "Dns64 Prefix Error") uc.dns64_prefix (parse_cidr uc.dns64_prefix)
        checked_prefix uc.dns64_prefix net)
      else ok prefix

  -- duration < time.Second
  checked_interval : ℤ → Result Stop ℕ
  checked_interval (negsuc n) = fail (error_text (codes "Invalid duration"))
  checked_interval (pos n) =
      if ltb n second then fail (error_text (codes "Invalid duration")) else ok n

  unfoldable pub refresh_interval_of : UserConfig → ℕ → Result Stop ℕ
  unfolding checked_interval
  refresh_interval_of uc interval =
      if str_eq uc.refresh_interval []
      then ok interval
      else (do duration ← or_stop (parse_duration uc.refresh_interval); checked_interval duration)

  as_fatal : Result Str (ℤ × ℤ) → Result Stop (ℤ × ℤ)
  as_fatal (ok ids) = ok ids
  as_fatal (fail e) = fail (fatal (codes "setuid: " ++ e))

  -- Whether to change the user, and the ids
  unfoldable pub ids_of : Str → ServerConfig → Result Stop (Bool × ℤ × ℤ)
  unfolding as_fatal
  ids_of setuid config =
      if str_eq setuid []
      then ok (config.setuid, config.setuid_uid, config.setuid_gid)
      else if not (getuid == 0)
      then fail (fatal (codes "setuid: Must be running as root"))
      else (do ids ← as_fatal (split_id users setuid); ok (true, ids.0, ids.1))

  -- GetProxyConfig at one time of the clock. A configuration that is given up is not kept.
  unfoldable pub get_proxy_config : ℕ → UserConfig → ServerConfig → Result Stop ServerConfig
  unfolding updated_list
  get_proxy_config now uc config = do
    listen_addr ← add_addrs 53 uc.listen config.listen_addr
    let upstream = config.proxy.upstream ++ resolvers_of uc.upstream
    block_list ←
        updated_list (update_block_list dns.string_to_type open_url uc config.proxy.block_list)
    local ← add_local false now uc.local_rr config.proxy.cache
    local' ← add_local true now uc.local_rr_ptr local
    cache ← add_zones now uc.localzone local'
    acl ← add_acl uc.acl config.proxy.acl
    prefix ← dns64_prefix_of uc config.proxy.dns64_prefix
    doh_bind ← add_addrs 443 uc.doh config.doh_bind
    interval ← refresh_interval_of uc config.refresh_interval
    ids ← ids_of uc.setuid config
    ok (record config {
      listen_addr = listen_addr;
      proxy = record (config.proxy) {
        upstream = upstream;
        block_list = block_list;
        cache = cache;
        acl = acl;
        dns64 = if uc.dns64 then true else config.proxy.dns64;
        dns64_prefix = prefix;
      };
      api = uc.api;
      api_bind = or_default uc.api_bind config.api_bind;
      doh_bind = doh_bind;
      doh_cert = uc.doh_cert;
      doh_key = uc.doh_key;
      doh_path = or_default uc.doh_path config.doh_path;
      refresh = uc.refresh;
      refresh_interval = interval;
      log = log_target uc;
      user_config = some uc;
      setuid = ids.0;
      setuid_uid = ids.1;
      setuid_gid = ids.2;
    })
