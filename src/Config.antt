-- ===== src/Config.antt =====
-- config/userconfig.go: the user configuration, which comes from the configuration file and the
-- command line.
pub mod Sources
pub mod Startup
pub mod Options
pub mod Sample
mod Tests
use dinosaur_dns.Common.{Bool, false, List, [], Str}

pub record UserConfig : Type 0 where
  pub listen : List Str
  pub upstream : List Str
  pub acl : List Str
  pub block : List Str
  pub block_delete : List Str
  pub blocklist : List Str
  pub blocklist_aaaa : List Str
  pub blocklist_from_hosts : List Str
  pub local_rr : List Str
  pub local_rr_ptr : List Str
  pub localzone : List Str
  pub dns64 : Bool
  pub dns64_prefix : Str
  pub api : Bool
  pub api_bind : Str
  pub doh : List Str
  pub doh_cert : Str
  pub doh_key : Str
  pub doh_path : Str
  pub refresh : Bool
  pub refresh_interval : Str
  pub debug : Bool
  pub syslog : Bool
  pub discard : Bool
  pub setuid : Str

-- NewUserConfig
abbrev pub new_user_config : UserConfig
new_user_config = record {
  listen = [];
  upstream = [];
  acl = [];
  block = [];
  block_delete = [];
  blocklist = [];
  blocklist_aaaa = [];
  blocklist_from_hosts = [];
  local_rr = [];
  local_rr_ptr = [];
  localzone = [];
  dns64 = false;
  dns64_prefix = [];
  api = false;
  api_bind = [];
  doh = [];
  doh_cert = [];
  doh_key = [];
  doh_path = [];
  refresh = false;
  refresh_interval = [];
  debug = false;
  syslog = false;
  discard = false;
  setuid = [];
}
