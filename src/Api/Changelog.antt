-- ===== src/Api/Changelog.antt =====
-- api/changelog.go: the net changes made through the API. A method runs under the lock, so it is
-- one step. `none` for a whole result is the panic at the nil record of a text with no record.
pub mod Tracks
pub mod Keys
pub mod Entries
use dinosaur_dns.Common.{
  ℕ, Bool, true, false, ◌||◌, ◌&&◌, List, [], ◌∷◌, ◌++◌, map, Option, none, some, Str, Map, lookup,
  insert, erase, keys, Str-discrete, is_some, ltb, ◌==◌, if◌then◌else◌,
}
use dinosaur_dns.Common.Strings.{to_lower, to_upper, trim_dot}
use dinosaur_dns.Dns.{Rr, DnsLib}

-- map[string]struct{}
abbrev pub StrSet : Type 0
StrSet = Map Str Unit

pub record ChangeLog : Type 0 where
  pub blocks : StrSet
  pub block_deletes : StrSet
  pub local_rrs : Map Str Str
  pub local_rr_ptrs : Map Str Str
  pub local_rr_deletes : StrSet

abbrev pub new_change_log : ChangeLog
new_change_log = record {
  blocks = [];
  block_deletes = [];
  local_rrs = [];
  local_rr_ptrs = [];
  local_rr_deletes = [];
}

-- _, ok := m[k]
abbrev pub has_key : {V : Type 0} → Str → Map Str V → Bool
has_key k m = is_some (lookup Str-discrete k m)

abbrev pub set_key : {V : Type 0} → Str → V → Map Str V → Map Str V
set_key = insert Str-discrete

abbrev pub delete_key : {V : Type 0} → Str → Map Str V → Map Str V
delete_key = erase Str-discrete

-- strings.SplitN(s, ":", 2): what stands before the first colon, and what stands behind it
unfoldable pub cut_colon : Str → Str × Option Str
cut_colon [] = ([], none)
cut_colon (x ∷ s) =
    let (domain, qtype) = cut_colon s in if x == b':' then ([], some s) else (x ∷ domain, qtype)

unfoldable pub normalize_block_entry : Str → Str
normalize_block_entry entry =
    let (first, rest) = cut_colon entry in
    let domain = to_lower (trim_dot first) in
    elim rest [ none ↦ domain | some qtype ↦ domain ++ (b':' ∷ to_upper qtype) ]

unfoldable pub add_block : Str → ChangeLog → ChangeLog
add_block entry c =
    let key = normalize_block_entry entry in
    if has_key key c.block_deletes
    then record c { block_deletes = delete_key key c.block_deletes }
    else record c { blocks = set_key key tt c.blocks }

unfoldable pub remove_block : Str → ChangeLog → ChangeLog
remove_block entry c =
    let key = normalize_block_entry entry in
    if has_key key c.blocks
    then record c { blocks = delete_key key c.blocks }
    else record c { block_deletes = set_key key tt c.block_deletes }

module _ (dns : DnsLib) where
  open dns use {fqdn, new_rr, type_to_string}

  unfoldable pub rr_key : Str → Str → Str
  rr_key name qtype = to_lower (fqdn name) ++ (b' ' ∷ to_upper qtype)

  -- addRR; `none` is a panic
  unfoldable pub add_rr : Str → ChangeLog → Option ChangeLog
  add_rr rr_str c = elim (new_rr rr_str) [
    | none ↦ some c
    | some none ↦ none
    | some (some rr) ↦
        let key = rr_key rr.name (type_to_string rr.rrtype) in
        some (
          if has_key key c.local_rr_deletes
          then record c { local_rr_deletes = delete_key key c.local_rr_deletes }
          else record c { local_rrs = set_key key rr_str c.local_rrs })
  ]

  -- addRRPtr; `none` is a panic
  unfoldable pub add_rr_ptr : Str → ChangeLog → Option ChangeLog
  add_rr_ptr rr_str c = elim (new_rr rr_str) [
    | none ↦ some c
    | some none ↦ none
    | some (some rr) ↦
        let key = rr_key rr.name (type_to_string rr.rrtype) in
        some (
          if has_key key c.local_rr_deletes
          then record c { local_rr_deletes = delete_key key c.local_rr_deletes }
          else record c { local_rr_ptrs = set_key key rr_str c.local_rr_ptrs })
  ]

  -- removeRR
  unfoldable pub remove_rr : Str → Str → ChangeLog → ChangeLog
  remove_rr name qtype c =
      let key = rr_key name qtype in
      if has_key key c.local_rrs
      then record c { local_rrs = delete_key key c.local_rrs }
      else if has_key key c.local_rr_ptrs
      then record c { local_rr_ptrs = delete_key key c.local_rr_ptrs }
      else record c { local_rr_deletes = set_key key tt c.local_rr_deletes }

-- GetChangesRes
pub record GetChangesRes : Type 0 where
  pub blocks : List Str
  pub block_deletes : List Str
  pub local_rrs : List Str
  pub local_rr_ptrs : List Str
  pub local_rr_deletes : List Str

-- Go's < on strings
unfoldable pub str_ltb : Str → Str → Bool
str_ltb [] [] = false
str_ltb [] (y ∷ t) = true
str_ltb (x ∷ s) [] = false
str_ltb (x ∷ s) (y ∷ t) = let rest = str_ltb s t in ltb x y || (x == y && rest)

-- sort.Strings
unfoldable pub insert_sorted : Str → List Str → List Str
insert_sorted s [] = s ∷ []
insert_sorted s (t ∷ ts) =
    let rest = insert_sorted s ts in if str_ltb t s then t ∷ rest else s ∷ t ∷ ts

unfoldable pub sort_strings : List Str → List Str
sort_strings [] = []
sort_strings (s ∷ ss) = insert_sorted s (sort_strings ss)

values : Map Str Str → List Str
values = map (λ e. e.1)

unfoldable pub snapshot : ChangeLog → GetChangesRes
unfolding values
snapshot c = record {
  blocks = sort_strings (keys c.blocks);
  block_deletes = sort_strings (keys c.block_deletes);
  local_rrs = sort_strings (values c.local_rrs);
  local_rr_ptrs = sort_strings (values c.local_rr_ptrs);
  local_rr_deletes = sort_strings (keys c.local_rr_deletes);
}
