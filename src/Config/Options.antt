-- ===== src/Config/Options.antt =====
-- cmd/dinosaur/options.go, GetUserConfig: the configuration file, then the command line. The
-- parsed flags are a parameter, and so are what util.UrlOpen and io.ReadAll give for the file, and
-- json.Unmarshal into the new configuration.
pub mod Merged
pub mod Start
use dinosaur_dns.Common.{
  ℕ, Bool, true, false, ◌||◌, List, [], ◌∷◌, ◌++◌, Str, length, ◌==◌, if◌then◌else◌,
}
use dinosaur_dns.Common.Results.{Result, ok, fail, ◌>>=◌}
use dinosaur_dns.Common.Strings.{codes}
use dinosaur_dns.Config.{UserConfig, new_user_config}

-- util.MultiFlag.Set
unfoldable pub set_flag : Str → List Str → List Str
set_flag value f = f ++ (value ∷ [])

-- The flags: the same as a configuration, and two more. A flag that is not given is empty.
pub record Flags : Type 0 where
  pub help : Bool
  pub config : Str
  pub given : UserConfig

-- How GetUserConfig ends without a configuration: os.Exit after the usage, or an error
pub data Quit : Type 0 where
  usage : Quit
  config_error : Str → Quit

-- for v := range flag { field = append(field, v) }
unfoldable pub append_all : List Str → List Str → List Str
append_all [] field = field
append_all (v ∷ flag) field = append_all flag (field ++ (v ∷ []))

-- if flag != "" { field = flag }
unfoldable pub override : Str → Str → Str
override [] field = field
override (c ∷ flag) field = c ∷ flag

-- if len(field) == 0 { field = append(field, defaults...) }
unfoldable pub default_list : List Str → List Str → List Str
default_list field defaults = if length field == 0 then field ++ defaults else field

-- From the flags on
unfoldable pub merge_flags : UserConfig → UserConfig → UserConfig
merge_flags flags uc = record {
  listen = default_list (append_all flags.listen uc.listen) (codes "lo0:8053" ∷ []);
  upstream =
      default_list (append_all flags.upstream uc.upstream)
        (codes "tls://1.1.1.1:853" ∷ codes "tls://1.0.0.1:853" ∷ []);
  acl = append_all flags.acl uc.acl;
  block = append_all flags.block uc.block;
  block_delete = append_all flags.block_delete uc.block_delete;
  blocklist = append_all flags.blocklist uc.blocklist;
  blocklist_aaaa = append_all flags.blocklist_aaaa uc.blocklist_aaaa;
  blocklist_from_hosts = append_all flags.blocklist_from_hosts uc.blocklist_from_hosts;
  local_rr = append_all flags.local_rr uc.local_rr;
  local_rr_ptr = append_all flags.local_rr_ptr uc.local_rr_ptr;
  localzone = append_all flags.localzone uc.localzone;
  dns64 = uc.dns64 || flags.dns64;
  dns64_prefix = override flags.dns64_prefix uc.dns64_prefix;
  api = uc.api || flags.api;
  api_bind = override flags.api_bind uc.api_bind;
  doh = append_all flags.doh uc.doh;
  doh_cert = override flags.doh_cert uc.doh_cert;
  doh_key = override flags.doh_key uc.doh_key;
  doh_path = override flags.doh_path uc.doh_path;
  refresh = uc.refresh || flags.refresh;
  refresh_interval = override flags.refresh_interval uc.refresh_interval;
  debug = uc.debug || flags.debug;
  syslog = uc.syslog || flags.syslog;
  discard = uc.discard || flags.discard;
  setuid = flags.setuid;
}

or_quit : {A : Type 0} → Result Str A → Result Quit A
or_quit (ok a) = ok a
or_quit (fail e) = fail (config_error e)

module _ (read_file : Str → Result Str (List ℕ))
    (unmarshal : List ℕ → UserConfig → Result Str UserConfig) where
  -- The configuration file, if there is one
  unfoldable pub file_config : Str → Result Quit UserConfig
  unfolding or_quit
  file_config name =
      if length name == 0
      then ok new_user_config
      else (do buf ← or_quit (read_file name); or_quit (unmarshal buf new_user_config))

  -- GetUserConfig
  unfoldable pub get_user_config : Flags → Result Quit UserConfig
  get_user_config flags =
      if flags.help
      then fail usage
      else (do uc ← file_config flags.config; ok (merge_flags flags.given uc))
