-- ===== src/Util/Addrs.antt =====
-- util/parseaddr.go, ParseAddr: the addresses that a listen option names. The interfaces of the
-- system are a parameter.
pub mod Ports
use dinosaur_dns.Common.{
  ℕ, zero, suc, ◌+◌, ◌/◌, ◌%◌, Bool, true, false, not, ◌&&◌, ◌||◌, List, [], ◌∷◌, ◌++◌, Option,
  none, some, Str, ltb, leb, ◌==◌, if◌then◌else◌,
}
use dinosaur_dns.Common.Results.{Result, ok, fail, ◌>>=◌}
use dinosaur_dns.Common.Strings.{codes}

-- An address of an interface: net.ParseCIDR's IP as text, and IsLinkLocalUnicast of it.
pub record InterfaceIp : Type 0 where
  pub text : Str
  pub link_local : Bool

-- net.Interface: its name, and what Addrs gives, as texts or an error
pub record Interface : Type 0 where
  pub name : Str
  pub addrs : Result Str (List Str)

-- net.InterfaceByName, and net.ParseCIDR as the code uses it here
pub record System : Type 0 where
  pub interface_by_name : Str → Option Interface
  pub parse_ip : Str → Result Str InterfaceIp

unfoldable pub digits : ℕ → ℕ → Str
digits zero n = []
digits (suc fuel) n =
    let rest = digits fuel (n / 10) in
    if ltb n 10 then (48 + n) ∷ [] else rest ++ ((48 + n % 10) ∷ [])

-- %d of a number: it has no more digits than one more than its value.
unfoldable pub decimal_int : ℕ → Str
decimal_int n = digits (suc n) n

unfoldable pub is_digit : ℕ → Bool
is_digit c = leb 48 c && leb c 57

unfoldable pub all_digits : Str → Bool
all_digits [] = true
all_digits (c ∷ s) = is_digit c && all_digits s

-- \d+$ at the start of the text
unfoldable pub is_port : Str → Bool
is_port [] = false
is_port (c ∷ s) = all_digits (c ∷ s)

-- portRE.MatchString: `:\d+$` at some place of the text
unfoldable pub has_port : Str → Bool
has_port [] = false
has_port (c ∷ s) = c == b':' && is_port s || has_port s

-- strings.Count(addr, ":")
unfoldable pub count_colons : Str → ℕ
count_colons [] = 0
count_colons (c ∷ s) = if c == b':' then suc (count_colons s) else count_colons s

unfoldable pub cons_name : ℕ → Option (Str × Str) → Option (Str × Str)
cons_name c none = none
cons_name c (some (name, port)) = some (c ∷ name, port)

-- strings.SplitN(addr, ":", 2): `none` if there is one part only
unfoldable pub split_colon : Str → Option (Str × Str)
unfolding cons_name
split_colon [] = none
split_colon (c ∷ s) =
    let rest = split_colon s in if c == b':' then some ([], s) else cons_name c rest

-- net.JoinHostPort
unfoldable pub join_host_port : Str → Str → Str
join_host_port host port =
    if count_colons host == 0 then host ++ (b':' ∷ port) else (b'[' ∷ host) ++ (b']' ∷ b':' ∷ port)

-- The first two steps: an IPv6 address that stands bare, and the default port.
unfoldable pub with_port : Str → ℕ → Str
with_port addr default_port =
    if has_port addr then addr else addr ++ (b':' ∷ decimal_int default_port)

unfoldable pub is_bare : ℕ → Str → Bool
is_bare first addr = not (first == b'[') && ltb 1 (count_colons addr)

unfoldable pub normal_addr : Str → ℕ → Option Str
normal_addr [] default_port = none
normal_addr (c ∷ s) default_port = some (
    if is_bare c (c ∷ s)
    then with_port ((b'[' ∷ c ∷ s) ++ (b']' ∷ b':' ∷ decimal_int default_port)) default_port
    else with_port (c ∷ s) default_port)

module _ (system : System) where
  open system use {interface_by_name, parse_ip}

  one_addr : Str → Str → InterfaceIp → Str
  one_addr name port ip =
      if ip.link_local
      then join_host_port (ip.text ++ (b'%' ∷ name)) port
      else join_host_port ip.text port

  parsed_ip : Str → Result Str InterfaceIp → Result Str InterfaceIp
  parsed_ip text (ok ip) = ok ip
  parsed_ip text (fail e) = fail (codes "Error parsing address <" ++ text ++ codes ">: " ++ e)

  -- The loop over the addresses of the interface
  unfoldable pub all_addrs : Str → Str → List Str → Result Str (List Str)
  unfolding one_addr parsed_ip
  all_addrs name port [] = ok []
  all_addrs name port (v ∷ ifaddrs) = do
    ip ← parsed_ip v (parse_ip v)
    addrs ← all_addrs name port ifaddrs
    ok (one_addr name port ip ∷ addrs)

  interface_addrs : Interface → Str → Result Str (List Str) → Result Str (List Str)
  interface_addrs netif port (ok ifaddrs) = all_addrs netif.name port ifaddrs
  interface_addrs netif port (fail e) = fail (codes "Error getting interface addresses: " ++ e)

  unfoldable pub lookup_addr : Str → Str × Str → Result Str (List Str)
  unfolding interface_addrs
  lookup_addr addr (name, port) = elim (interface_by_name name) [
    | none ↦ ok (addr ∷ [])
    | some netif ↦ interface_addrs netif port netif.addrs
  ]

  split_addr : Str → Option (Str × Str) → Option (Result Str (List Str))
  split_addr addr none = none
  split_addr addr (some parts) = some (lookup_addr addr parts)

  normalised : Option Str → Option (Result Str (List Str))
  normalised none = none
  normalised (some addr) = split_addr addr (split_colon addr)

  -- ParseAddr; `none` is a panic: at addr[0], or at split[1]
  unfoldable pub parse_addr : Str → ℕ → Option (Result Str (List Str))
  unfolding normalised split_addr
  parse_addr addr default_port = normalised (normal_addr addr default_port)
