-- ===== src/Util/Tests.antt =====
-- UrlOpen, and the theorem on ParseAddr, at a bare IPv6 address on a system with an interface `lo`.
use dinosaur_dns.Common.{
  ◌≡◌, refl, List, [], ◌∷◌, none, some, Str, Str-discrete, ℕ_discrete, str_eq, if◌then◌else◌, arith,
}
use dinosaur_dns.Common.Results.{Result, ok, fail}
use dinosaur_dns.Common.Strings.{codes}
use dinosaur_dns.Util.Addrs.{System, parse_addr}
use dinosaur_dns.Util.Urls.{Opener, url_open}
use dinosaur_dns.Util.Addrs.Ports.{AllHavePorts, parse_addr-AllHavePorts}

abbrev system : System
system = record {
  interface_by_name = λ name.
      if str_eq name (codes "lo")
      then some
          (record { name = codes "lo"; addrs = ok (codes "127.0.0.1" ∷ codes "fe80::1" ∷ []) })
      else none;
  parse_ip = λ text. ok (record { text = text; link_local = str_eq text (codes "fe80::1") });
}

parse_addr-AllHavePorts_example :
    (r : Result Str (List Str)) × (parse_addr system (codes "::1") 53 ≡ some r) × AllHavePorts r
parse_addr-AllHavePorts_example =
    parse_addr-AllHavePorts system (codes "::1") 53 (λ e. absurd (ground arith))

bare : parse_addr system (codes "::1") 53 ≡ some (ok (codes "[::1]:53" ∷ []))
unfolding parse_addr dinosaur_dns.Util.Addrs.normal_addr dinosaur_dns.Util.Addrs.with_port
    dinosaur_dns.Util.Addrs.is_bare dinosaur_dns.Util.Addrs.has_port dinosaur_dns.Util.Addrs.is_port
    dinosaur_dns.Util.Addrs.all_digits dinosaur_dns.Util.Addrs.is_digit
    dinosaur_dns.Util.Addrs.count_colons dinosaur_dns.Util.Addrs.split_colon
    dinosaur_dns.Util.Addrs.cons_name dinosaur_dns.Util.Addrs.decimal_int
    dinosaur_dns.Util.Addrs.digits dinosaur_dns.Util.Addrs.lookup_addr
    dinosaur_dns.Util.Addrs.all_addrs dinosaur_dns.Util.Addrs.join_host_port Str-discrete ℕ_discrete
bare = refl

ported : parse_addr system (codes "[::1]:8053") 53 ≡ some (ok (codes "[::1]:8053" ∷ []))
unfolding parse_addr dinosaur_dns.Util.Addrs.normal_addr dinosaur_dns.Util.Addrs.with_port
    dinosaur_dns.Util.Addrs.is_bare dinosaur_dns.Util.Addrs.has_port dinosaur_dns.Util.Addrs.is_port
    dinosaur_dns.Util.Addrs.all_digits dinosaur_dns.Util.Addrs.is_digit
    dinosaur_dns.Util.Addrs.count_colons dinosaur_dns.Util.Addrs.split_colon
    dinosaur_dns.Util.Addrs.cons_name dinosaur_dns.Util.Addrs.decimal_int
    dinosaur_dns.Util.Addrs.digits dinosaur_dns.Util.Addrs.lookup_addr
    dinosaur_dns.Util.Addrs.all_addrs dinosaur_dns.Util.Addrs.join_host_port Str-discrete ℕ_discrete
ported = refl

interface :
    parse_addr system (codes "lo") 53
    ≡ some (ok (codes "127.0.0.1:53" ∷ codes "[fe80::1%lo]:53" ∷ []))
unfolding parse_addr dinosaur_dns.Util.Addrs.normal_addr dinosaur_dns.Util.Addrs.with_port
    dinosaur_dns.Util.Addrs.is_bare dinosaur_dns.Util.Addrs.has_port dinosaur_dns.Util.Addrs.is_port
    dinosaur_dns.Util.Addrs.all_digits dinosaur_dns.Util.Addrs.is_digit
    dinosaur_dns.Util.Addrs.count_colons dinosaur_dns.Util.Addrs.split_colon
    dinosaur_dns.Util.Addrs.cons_name dinosaur_dns.Util.Addrs.decimal_int
    dinosaur_dns.Util.Addrs.digits dinosaur_dns.Util.Addrs.lookup_addr
    dinosaur_dns.Util.Addrs.all_addrs dinosaur_dns.Util.Addrs.join_host_port Str-discrete ℕ_discrete
interface = refl

-- Every text is a path of the scheme file, but for one of the scheme ftp.
abbrev opener : Opener
opener = record {
  parse_url = λ arg. ok (record {
    scheme = if str_eq arg (codes "ftp:a") then codes "ftp" else codes "file";
    path = codes "/list";
  });
  open_file = λ path. ok path;
  http_get = λ url. fail url;
}

file_path : url_open opener (codes "file:///list") ≡ ok (codes "/list")
unfolding url_open Str-discrete ℕ_discrete
file_path = refl

no_ftp :
    url_open opener (codes "ftp:a")
    ≡ fail (codes "Invalid URL scheme: ftp:a (http/https/file supported)")
unfolding url_open Str-discrete ℕ_discrete
no_ftp = refl
