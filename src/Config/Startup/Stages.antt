-- ===== src/Config/Startup/Stages.antt =====
-- userconfig.go, GetProxyConfig: what each of its stages makes when it has no error.
use mathlib.Core.List.{append_assoc, append-nil}
use dinosaur_dns.Common.{
  ℕ, ◌≤◌, ◌≡◌, refl, sym, ap₂, ==_iff, ◌∙◌, true, not, ◌&&◌, List, [], ◌∷◌, ◌++◌, Option, none,
  some, Str, str_eq, ltb, ◌==◌, All, arith, inl, inr, Bool-cases,
}
use dinosaur_dns.Common.Ints.{ℤ, pos, negsuc}
use dinosaur_dns.Common.Results.{Result, ok, fail, Holds, Holds-self, >>=-Holds}
use dinosaur_dns.Common.Strings.{codes}
use dinosaur_dns.Blocklist.Trie.{Level}
use dinosaur_dns.Cache.{second}
use dinosaur_dns.Util.Addrs.{has_port, parse_addr}
use dinosaur_dns.Util.Addrs.Ports.{AllHavePorts, parse_addr-AllHavePorts, parse_addr-nil}
use dinosaur_dns.Proxy.Upstream.{IpNet}
use dinosaur_dns.Config.{UserConfig}
use dinosaur_dns.Config.Sources.{LoadError}
use dinosaur_dns.Config.Startup.{
  Stop, Environment, default_dns64_prefix, leading_ones, all_zero, mask_length, mask_size, or_stop,
  parsed_addr, add_addrs, updated_list, parsed_net, add_acl, checked_prefix, dns64_prefix_of,
  checked_interval, refresh_interval_of,
}

-- A prefix of 96 bits of 128.
unfoldable pub Is96 : IpNet → Type 0
Is96 net = mask_size net.mask ≡ (96, 128)

-- The networks that the entries of an ACL name, in their order.
unfoldable pub Networks : (Str → Result Str IpNet) → List Str → List IpNet → Type 0
Networks parse_cidr [] [] = Unit
Networks parse_cidr (v ∷ vs) (net ∷ nets) = (parse_cidr v ≡ ok net) × Networks parse_cidr vs nets
Networks parse_cidr _ _ = ⊥

abbrev pub HavePorts : List Str → Type 0
HavePorts = All (λ a. has_port a ≡ true)

All-append : {A : Type 0} (P : A → Type 0) (xs ys : List A) → All P xs → All P ys → All P (xs ++ ys)
All-append P [] ys all all' = all'
All-append P (x ∷ xs) ys all all' = (all.0, All-append P xs ys all.1 all')

pub updated_list-Holds :
    (env : Environment) (r : Option (Level × Option LoadError))
    → Holds (λ b. r ≡ some (b, none)) (updated_list env r)
unfolding updated_list
updated_list-Holds env none = tt
updated_list-Holds env (some (b, some x)) = tt
updated_list-Holds env (some (b, none)) = refl

checked_prefix-Is96 :
    (env : Environment) (v : Str) (net : IpNet) → Holds Is96 (checked_prefix env v net)
unfolding checked_prefix Is96
checked_prefix-Is96 env v net = elim (Bool-cases ((mask_size net.mask).0 == 96)) [
  | inl e ↦ elim (Bool-cases ((mask_size net.mask).1 == 128)) [
    | inl e' ↦ rw (e, e') (ap₂ (λ a b. (a, b)) ((==_iff _ 96).0 e) ((==_iff _ 128).0 e'))
    | inr e' ↦ rw (e, e') tt
  ]
  | inr e ↦ rw e tt
]

checked_interval-le : (env : Environment) (d : ℤ) → Holds (λ n. second ≤ n) (checked_interval env d)
unfolding checked_interval
checked_interval-le env (negsuc k) = tt
checked_interval-le env (pos k) = elim (Bool-cases (ltb k second)) [
  | inl e ↦ rw e tt
  | inr e ↦ rw e (ground arith)
]

pub default_dns64_prefix-Is96 : Is96 default_dns64_prefix
unfolding Is96 mask_size mask_length leading_ones all_zero
default_dns64_prefix-Is96 = refl

module _ (env : Environment) where
  open env use {system, parse_cidr, parse_duration}

  or_stop-HavePorts : (r : Result Str (List Str)) → AllHavePorts r → Holds HavePorts (or_stop r)
  unfolding or_stop AllHavePorts
  or_stop-HavePorts (ok addrs) ported = ported
  or_stop-HavePorts (fail e) ported = tt

  parsed_addr-HavePorts :
      (v : Str) (n : ℕ) → Holds HavePorts (parsed_addr env (parse_addr system v n))
  unfolding parsed_addr
  parsed_addr-HavePorts [] n = rw (parse_addr-nil system n) tt
  parsed_addr-HavePorts (c ∷ s) n =
      let (r, parsed, ported) =
        parse_addr-AllHavePorts system (c ∷ s) n (λ no. absurd (ground arith)) in
      rw parsed (or_stop-HavePorts r ported)

  pub add_addrs-HavePorts :
      (n : ℕ) (vs bind : List Str) → HavePorts bind → Holds HavePorts (add_addrs env n vs bind)
  unfolding add_addrs
  add_addrs-HavePorts n [] bind ported = ported
  add_addrs-HavePorts n (v ∷ vs) bind ported =
      >>=-Holds _ (parsed_addr env (parse_addr system v n)) _ (parsed_addr-HavePorts v n)
        (λ addrs found.
          add_addrs-HavePorts n vs (bind ++ addrs)
            (All-append (λ a. has_port a ≡ true) bind addrs ported found))

  parsed_net-Holds :
      (what v : Str) (r : Result Str IpNet) → Holds (λ net. r ≡ ok net) (parsed_net env what v r)
  unfolding parsed_net
  parsed_net-Holds what v (ok net) = refl
  parsed_net-Holds what v (fail e) = tt

  -- The ACL that a loop over entries makes of an ACL.
  abbrev pub Extends : List Str → List IpNet → List IpNet → Type 0
  Extends vs acl got = (nets : List IpNet) × (got ≡ acl ++ nets) × Networks parse_cidr vs nets

  Extends-cons :
      (v : Str) (vs : List Str) (acl : List IpNet) (net : IpNet)
      → parse_cidr v ≡ ok net
      → (r : Result Stop (List IpNet)) → Holds (Extends vs (acl ++ (net ∷ []))) r
      → Holds (Extends (v ∷ vs) acl) r
  unfolding Networks
  Extends-cons v vs acl net parsed (ok got) (nets, same, named) =
      (net ∷ nets, same ∙ append_assoc acl (net ∷ []) nets, (parsed, named))
  Extends-cons v vs acl net parsed (fail e) h = tt

  pub add_acl-Extends :
      (vs : List Str) (acl : List IpNet) → Holds (Extends vs acl) (add_acl env vs acl)
  unfolding add_acl Networks
  add_acl-Extends [] acl = ([], sym (append-nil acl), tt)
  add_acl-Extends (v ∷ vs) acl =
      >>=-Holds _ (parsed_net env (codes "ACL Error") v (parse_cidr v)) _
        (parsed_net-Holds (codes "ACL Error") v (parse_cidr v))
        (λ net parsed.
          Extends-cons v vs acl net parsed (add_acl env vs (acl ++ (net ∷ [])))
            (add_acl-Extends vs (acl ++ (net ∷ []))))

  pub dns64_prefix_of-Is96 :
      (uc : UserConfig) (old : IpNet) → Is96 old → Holds Is96 (dns64_prefix_of env uc old)
  unfolding dns64_prefix_of
  dns64_prefix_of-Is96 uc old is96 =
      elim (Bool-cases (uc.dns64 && not (str_eq uc.dns64_prefix []))) [
        | inl b ↦ rw b (
            >>=-Holds _
              (parsed_net env (codes "Dns64 Prefix Error") uc.dns64_prefix
                (parse_cidr uc.dns64_prefix))
              _
              (parsed_net-Holds (codes "Dns64 Prefix Error") uc.dns64_prefix
                (parse_cidr uc.dns64_prefix))
              (λ net parsed. checked_prefix-Is96 env uc.dns64_prefix net))
        | inr b ↦ rw b is96
      ]

  pub refresh_interval_of-le :
      (uc : UserConfig) (old : ℕ)
      → second ≤ old
      → Holds (λ n. second ≤ n) (refresh_interval_of env uc old)
  unfolding refresh_interval_of
  refresh_interval_of-le uc old long = elim (Bool-cases (str_eq uc.refresh_interval [])) [
    | inl b ↦ rw b long
    | inr b ↦ rw b (
        >>=-Holds _ (or_stop (parse_duration uc.refresh_interval)) _ (Holds-self _)
          (λ d _. checked_interval-le env d))
  ]
