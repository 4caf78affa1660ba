-- ===== src/Config/Options/Merged.antt =====
-- cmd/dinosaur/options.go, GetUserConfig: what a configuration merged from the flags and the
-- configuration file is made of.
use mathlib.Core.List.{append_assoc, append-nil}
use dinosaur_dns.Common.{◌≡◌, ◌≢◌, refl, sym, ap, ◌∙◌, ◌||◌, List, [], ◌∷◌, ◌++◌, Str, arith}
use dinosaur_dns.Common.Strings.{codes}
use dinosaur_dns.Config.{UserConfig}
use dinosaur_dns.Config.Options.{append_all, override, default_list, merge_flags}

-- What is given, or else the other.
unfoldable pub or_given : {A : Type 0} → List A → List A → List A
or_given [] default = default
or_given (x ∷ given) default = x ∷ given

-- Lists have the entries of the file and then those of the flags, and `listen` and `upstream` a
-- default if they are empty. A string is that of the flag if it is given, else that of the file, but
-- for `setuid`. A switch is on if it is on in one of the two.
pub record IsMerged (flags file uc : UserConfig) : Type 0 where
  pub listen : uc.listen ≡ or_given (file.listen ++ flags.listen) (codes "lo0:8053" ∷ [])
  pub upstream :
      uc.upstream
      ≡ or_given
          (file.upstream ++ flags.upstream)
          (codes "tls://1.1.1.1:853" ∷ codes "tls://1.0.0.1:853" ∷ [])
  pub acl : uc.acl ≡ file.acl ++ flags.acl
  pub block : uc.block ≡ file.block ++ flags.block
  pub block_delete : uc.block_delete ≡ file.block_delete ++ flags.block_delete
  pub blocklist : uc.blocklist ≡ file.blocklist ++ flags.blocklist
  pub blocklist_aaaa : uc.blocklist_aaaa ≡ file.blocklist_aaaa ++ flags.blocklist_aaaa
  pub blocklist_from_hosts :
      uc.blocklist_from_hosts ≡ file.blocklist_from_hosts ++ flags.blocklist_from_hosts
  pub local_rr : uc.local_rr ≡ file.local_rr ++ flags.local_rr
  pub local_rr_ptr : uc.local_rr_ptr ≡ file.local_rr_ptr ++ flags.local_rr_ptr
  pub localzone : uc.localzone ≡ file.localzone ++ flags.localzone
  pub doh : uc.doh ≡ file.doh ++ flags.doh
  pub dns64_prefix : uc.dns64_prefix ≡ or_given flags.dns64_prefix file.dns64_prefix
  pub api_bind : uc.api_bind ≡ or_given flags.api_bind file.api_bind
  pub doh_cert : uc.doh_cert ≡ or_given flags.doh_cert file.doh_cert
  pub doh_key : uc.doh_key ≡ or_given flags.doh_key file.doh_key
  pub doh_path : uc.doh_path ≡ or_given flags.doh_path file.doh_path
  pub refresh_interval : uc.refresh_interval ≡ or_given flags.refresh_interval file.refresh_interval
  pub dns64 : uc.dns64 ≡ (file.dns64 || flags.dns64)
  pub api : uc.api ≡ (file.api || flags.api)
  pub refresh : uc.refresh ≡ (file.refresh || flags.refresh)
  pub debug : uc.debug ≡ (file.debug || flags.debug)
  pub syslog : uc.syslog ≡ (file.syslog || flags.syslog)
  pub discard : uc.discard ≡ (file.discard || flags.discard)
  pub setuid : uc.setuid ≡ flags.setuid

append_all-append : (flag field : List Str) → append_all flag field ≡ field ++ flag
unfolding append_all
append_all-append [] field = sym (append-nil field)
append_all-append (v ∷ flag) field =
    append_all-append flag (field ++ (v ∷ [])) ∙ append_assoc field (v ∷ []) flag

override-or_given : (flag field : Str) → override flag field ≡ or_given flag field
unfolding override or_given
override-or_given [] field = refl
override-or_given (c ∷ flag) field = refl

default_list_same :
    (given defaults : List Str) → default_list given defaults ≡ or_given given defaults
unfolding default_list or_given
default_list_same [] defaults = refl
default_list_same (v ∷ given) defaults = ground arith

default_list-or_given :
    (flag field defaults : List Str)
    → default_list (append_all flag field) defaults ≡ or_given (field ++ flag) defaults
default_list-or_given flag field defaults =
    ap (λ given. default_list given defaults) (append_all-append flag field)
    ∙ default_list_same (field ++ flag) defaults

pub or_given_ne :
    {A : Type 0} (given : List A) (x : A) (default : List A) → or_given given (x ∷ default) ≢ []
unfolding or_given
or_given_ne [] x default e = absurd (ground arith)
or_given_ne (y ∷ given) x default e = absurd (ground arith)

pub merge_flags-IsMerged : (flags file : UserConfig) → IsMerged flags file (merge_flags flags file)
unfolding merge_flags
merge_flags-IsMerged flags file = record {
  listen = default_list-or_given flags.listen file.listen _;
  upstream = default_list-or_given flags.upstream file.upstream _;
  acl = append_all-append flags.acl file.acl;
  block = append_all-append flags.block file.block;
  block_delete = append_all-append flags.block_delete file.block_delete;
  blocklist = append_all-append flags.blocklist file.blocklist;
  blocklist_aaaa = append_all-append flags.blocklist_aaaa file.blocklist_aaaa;
  blocklist_from_hosts = append_all-append flags.blocklist_from_hosts file.blocklist_from_hosts;
  local_rr = append_all-append flags.local_rr file.local_rr;
  local_rr_ptr = append_all-append flags.local_rr_ptr file.local_rr_ptr;
  localzone = append_all-append flags.localzone file.localzone;
  doh = append_all-append flags.doh file.doh;
  dns64_prefix = override-or_given flags.dns64_prefix file.dns64_prefix;
  api_bind = override-or_given flags.api_bind file.api_bind;
  doh_cert = override-or_given flags.doh_cert file.doh_cert;
  doh_key = override-or_given flags.doh_key file.doh_key;
  doh_path = override-or_given flags.doh_path file.doh_path;
  refresh_interval = override-or_given flags.refresh_interval file.refresh_interval;
  dns64 = refl;
  api = refl;
  refresh = refl;
  debug = refl;
  syslog = refl;
  discard = refl;
  setuid = refl;
}
