-- ===== src/Util/Addrs/Ports.antt =====
-- parseaddr.go: ParseAddr panics for the empty text only, and each address has a port.
use mathlib.Core.Path.{subst}
use dinosaur_dns.Common.{
  ℕ, zero, suc, ◌+◌, ◌/◌, ◌%◌, ◌≡◌, ◌≢◌, refl, true, List, [], ◌∷◌, ◌++◌, none, some, Str, ltb,
  ◌==◌, All, arith, inl, inr, Bool-cases, Option-cases,
}
use dinosaur_dns.Common.Results.{Result, ok, fail, ◌>>=◌}
use dinosaur_dns.Util.Addrs.{
  Interface, InterfaceIp, System, digits, decimal_int, is_digit, all_digits, is_port, has_port,
  count_colons, split_colon, join_host_port, with_port, is_bare, normal_addr, all_addrs,
  lookup_addr, interface_addrs, one_addr, parsed_ip, split_addr, normalised, parse_addr,
}

all_digits-append :
    (s : Str) (c : ℕ) → all_digits s ≡ true → is_digit c ≡ true → all_digits (s ++ (c ∷ [])) ≡ true
unfolding all_digits
all_digits-append [] c a d = ground arith
all_digits-append (x ∷ s) c a d = ground (arith, all_digits-append s c)

digits-all_digits : (fuel n : ℕ) → all_digits (digits fuel n) ≡ true
unfolding digits all_digits is_digit
digits-all_digits zero n = refl
digits-all_digits (suc fuel) n = elim (Bool-cases (ltb n 10)) [
  | inl e ↦ ground arith
  | inr e ↦ rw e (
      all_digits-append (digits fuel (n / 10)) (48 + n % 10) (digits-all_digits fuel (n / 10))
        (ground arith))
]

is_port_of : (s : Str) → s ≢ [] → all_digits s ≡ true → is_port s ≡ true
unfolding is_port
is_port_of [] some_digit a = absurd (some_digit refl)
is_port_of (c ∷ s) some_digit a = a

append_last : (s : Str) (c : ℕ) → (s ++ (c ∷ [])) ≢ []
append_last [] c e = absurd (ground arith)
append_last (x ∷ s) c e = absurd (ground arith)

digits_ne : (fuel n : ℕ) → digits (suc fuel) n ≢ []
unfolding digits
digits_ne fuel n = elim (Bool-cases (ltb n 10)) [
  | inl e ↦ rw e (λ none_left. absurd (ground arith))
  | inr e ↦ rw e (append_last _ _)
]

is_port-decimal_int : (n : ℕ) → is_port (decimal_int n) ≡ true
unfolding decimal_int digits
is_port-decimal_int n = is_port_of (decimal_int n) (digits_ne n n) (digits-all_digits (suc n) n)

has_port-append : (s t : Str) → has_port t ≡ true → has_port (s ++ t) ≡ true
unfolding has_port
has_port-append [] t h = h
has_port-append (c ∷ s) t h = ground (arith, has_port-append s t h)

has_port-with_port : (addr : Str) (n : ℕ) → has_port (with_port addr n) ≡ true
unfolding with_port has_port
has_port-with_port addr n = elim (Bool-cases (has_port addr)) [
  | inl e ↦ rw e e
  | inr e ↦
      rw e (has_port-append addr (b':' ∷ decimal_int n) (ground (arith, is_port-decimal_int n)))
]

normal_addr-has_port :
    (addr : Str) (n : ℕ)
    → addr ≢ []
    → (a : Str) × (normal_addr addr n ≡ some a) × (has_port a ≡ true)
unfolding normal_addr
normal_addr-has_port [] n given = absurd (given refl)
normal_addr-has_port (c ∷ s) n given = elim (Bool-cases (is_bare c (c ∷ s))) [
  | inl e ↦
      let bracketed = (b'[' ∷ c ∷ s) ++ (b']' ∷ b':' ∷ decimal_int n) in
      rw e (with_port bracketed n, refl, has_port-with_port bracketed n)
  | inr e ↦ rw e (with_port (c ∷ s) n, refl, has_port-with_port (c ∷ s) n)
]

-- What follows the first colon of an address with a port is its port, behind a colon.
split_colon-has_port :
    (s : Str)
    → has_port s ≡ true
    → (name : Str) × (port : Str) × (split_colon s ≡ some (name, port))
      × (has_port (b':' ∷ port) ≡ true)
unfolding split_colon has_port
split_colon-has_port [] h = absurd (ground arith)
split_colon-has_port (c ∷ s) h = elim (Bool-cases (c == b':')) [
  | inl e ↦
      let colon : c ≡ b':' = ground arith in
      rw e ([], s, refl, subst (λ x. has_port (x ∷ s) ≡ true) colon h)
  | inr e ↦
      let (name, port, splits, ported) = split_colon-has_port s (ground arith) in
      rw (e, splits) (c ∷ name, port, refl, ported)
]

has_port-join_host_port :
    (host port : Str) → has_port (b':' ∷ port) ≡ true → has_port (join_host_port host port) ≡ true
unfolding join_host_port
has_port-join_host_port host port h = elim (Bool-cases (count_colons host == 0)) [
  | inl e ↦ rw e (has_port-append host (b':' ∷ port) h)
  | inr e ↦ rw e (
      has_port-append (b'[' ∷ host) (b']' ∷ b':' ∷ port)
        (has_port-append (b']' ∷ []) (b':' ∷ port) h))
]

-- Each address of a result has a port.
unfoldable pub AllHavePorts : Result Str (List Str) → Type 0
AllHavePorts (ok addrs) = All (λ a. has_port a ≡ true) addrs
AllHavePorts (fail e) = Unit

module _ (system : System) where
  one_addr-has_port :
      (name port : Str) (ip : InterfaceIp)
      → has_port (b':' ∷ port) ≡ true
      → has_port (one_addr system name port ip) ≡ true
  unfolding one_addr
  one_addr-has_port name port ip h = elim (Bool-cases ip.link_local) [
    | inl e ↦ rw e (has_port-join_host_port (ip.text ++ (b'%' ∷ name)) port h)
    | inr e ↦ rw e (has_port-join_host_port ip.text port h)
  ]

  all_addrs-AllHavePorts :
      (name port : Str) (ifaddrs : List Str)
      → has_port (b':' ∷ port) ≡ true
      → AllHavePorts (all_addrs system name port ifaddrs)
  unfolding all_addrs AllHavePorts
  all_addrs-AllHavePorts name port [] h = tt
  all_addrs-AllHavePorts name port (v ∷ ifaddrs) h =
      after (parsed_ip system v (system.parse_ip v)) (all_addrs system name port ifaddrs)
        (all_addrs-AllHavePorts name port ifaddrs h)
    where
      after :
          (ip : Result Str InterfaceIp) (rest : Result Str (List Str))
          → AllHavePorts rest
          → AllHavePorts (ip >>= λ x. rest >>= λ addrs. ok (one_addr system name port x ∷ addrs))
      after (ok ip) (ok addrs) ported = (one_addr-has_port name port ip h, ported)
      after (ok ip) (fail e) ported = tt
      after (fail e) rest ported = tt

  lookup_addr-AllHavePorts :
      (addr name port : Str)
      → has_port addr ≡ true
      → has_port (b':' ∷ port) ≡ true
      → AllHavePorts (lookup_addr system addr (name, port))
  unfolding lookup_addr AllHavePorts
  lookup_addr-AllHavePorts addr name port a h =
      elim (Option-cases (system.interface_by_name name)) [
        | inl e ↦ rw (e, lookup_addr) (a, tt)
        | inr (netif, e) ↦ rw (e, lookup_addr) (by_addrs netif netif.addrs)
      ]
    where
      by_addrs :
          (netif : Interface) (addrs : Result Str (List Str))
          → AllHavePorts (interface_addrs system netif port addrs)
      by_addrs netif (ok ifaddrs) = all_addrs-AllHavePorts netif.name port ifaddrs h
      by_addrs netif (fail e) = tt

  -- ParseAddr does not panic for a text that is not empty, and each address that it returns has a
  -- port.
  pub parse_addr-AllHavePorts :
      (addr : Str) (n : ℕ)
      → addr ≢ []
      → (r : Result Str (List Str)) × (parse_addr system addr n ≡ some r) × AllHavePorts r
  unfolding parse_addr normalised split_addr
  parse_addr-AllHavePorts addr n given =
      let (a, normal, ported) = normal_addr-has_port addr n given in
      let (name, port, splits, port_ported) = split_colon-has_port a ported in
      rw (normal, splits)
        (
          lookup_addr system a (name, port),
          refl,
          lookup_addr-AllHavePorts a name port ported port_ported,
        )

  -- The panic at addr[0]
  pub parse_addr-nil : (n : ℕ) → parse_addr system [] n ≡ none
  unfolding parse_addr normalised normal_addr
  parse_addr-nil n = refl
