-- ===== src/Api/Service.antt =====
-- api/jsonrpc.go: the calls that change the block list, the cache and the change log, and
-- GetMergedConfig, which puts the change log into the start-up configuration.
pub mod Merged
use dinosaur_dns.Common.{
  ℕ, Bool, true, false, not, List, [], ◌∷◌, ◌++◌, Option, none, some, ◌⊎◌, inl, inr, Str,
  if◌then◌else◌,
}
use dinosaur_dns.Config.{UserConfig}
use dinosaur_dns.Dns.{Rr, DnsLib}
use dinosaur_dns.Blocklist.{Error, add_entry, delete_entry}
use dinosaur_dns.Blocklist.Trie.{Level, type_any}
use dinosaur_dns.Cache
use dinosaur_dns.Cache.{DnsCache}
use dinosaur_dns.Api.Changelog.{
  StrSet, ChangeLog, GetChangesRes, has_key, set_key, normalize_block_entry, add_block,
  remove_block, rr_key, add_rr, add_rr_ptr, remove_rr, snapshot,
}

-- make(map[string]struct{}) and the loop that fills it
unfoldable pub set_of : List Str → StrSet
set_of [] = []
set_of (d ∷ ds) = set_key d tt (set_of ds)

-- The loop over uc.Block: the entries that stay, and the keys of those that go.
unfoldable pub filter_blocks : StrSet → List Str → List Str × StrSet
filter_blocks deleted [] = ([], [])
filter_blocks deleted (entry ∷ entries) =
    let (filtered, removed) = filter_blocks deleted entries in
    let k = normalize_block_entry entry in
    if has_key k deleted then (filtered, set_key k tt removed) else (entry ∷ filtered, removed)

unfoldable pub extra_deletes : StrSet → List Str → List Str
extra_deletes removed [] = []
extra_deletes removed (d ∷ ds) =
    let rest = extra_deletes removed ds in if has_key d removed then rest else d ∷ rest

-- GetMergedConfig, before the encoding: the block entries
unfoldable pub merge_blocks : GetChangesRes → UserConfig → UserConfig
merge_blocks cl uc =
    let (filtered, removed) = filter_blocks (set_of cl.block_deletes) uc.block in
    record uc {
      block = filtered ++ cl.blocks;
      block_delete = uc.block_delete ++ extra_deletes removed cl.block_deletes;
    }

module _ (dns : DnsLib) where
  open dns use {new_rr, type_to_string, string_to_type}

  -- BlockListAdd: the entries in order, up to the first error
  unfoldable pub block_list_add : List Str → Level → ChangeLog → Level × ChangeLog × Option Error
  block_list_add [] b c = (b, c, none)
  block_list_add (v ∷ entries) b c =
      let (b', err) = add_entry string_to_type v type_any b in
      let rest = block_list_add entries b' (add_block v c) in
      elim err [ none ↦ rest | some e ↦ (b', c, some e) ]

  -- BlockListDelete
  unfoldable pub block_list_delete : Str → Level → ChangeLog → Level × ChangeLog × (Bool ⊎ Error)
  block_list_delete name b c =
      let (b', result) = delete_entry string_to_type name type_any b in
      elim result [
        | inr e ↦ (b', c, inr e)
        | inl found ↦ (b', if found then remove_block name c else c, inl found)
      ]

  logged : Str → Bool → Bool → ChangeLog → Option ChangeLog
  logged rr permanent with_ptr c =
      if permanent then (if with_ptr then add_rr_ptr dns rr c else add_rr dns rr c) else some c

  -- CacheAdd: the inner `none` is the error of AddRRString, the outer one a panic.
  unfoldable pub cache_add :
      Str → Bool → Bool → ℕ → DnsCache → ChangeLog → Option (Option (DnsCache × ChangeLog))
  unfolding logged
  cache_add rr permanent with_ptr now cache c =
      elim (Cache.add_rr_string dns rr permanent with_ptr now cache) [
        | none ↦ some none
        | some cache' ↦ elim (logged rr permanent with_ptr c) [
          | none ↦ none
          | some c' ↦ some (some (cache', c'))
        ]
      ]

  -- CacheDelete; `none` is a panic
  unfoldable pub cache_delete :
      Str → Str → Bool → ℕ → ℕ → DnsCache → ChangeLog → Option (DnsCache × ChangeLog)
  cache_delete name qtype with_ptr now now' cache c =
      elim (Cache.delete_name dns name qtype with_ptr now now' cache) [
        | none ↦ none
        | some cache' ↦ some (cache', remove_rr dns name qtype c)
      ]

  keep_rr : StrSet → Str → Rr → List Str → List Str
  keep_rr deleted rr_str rr rest =
      if has_key (rr_key dns rr.name (type_to_string rr.rrtype)) deleted
      then rest
      else rr_str ∷ rest

  -- The loop of filterRRs; `none` is the panic at a text with no record.
  unfoldable pub filter_startup : StrSet → List Str → Option (List Str)
  unfolding keep_rr
  filter_startup deleted [] = some []
  filter_startup deleted (rr_str ∷ startup) =
      let rest = filter_startup deleted startup in
      elim (new_rr rr_str) [
        | some none ↦ none
        | none ↦ elim rest [ none ↦ none | some out ↦ some (rr_str ∷ out) ]
        | some (some rr) ↦ elim rest [
          | none ↦ none
          | some out ↦ some (keep_rr deleted rr_str rr out)
        ]
      ]

  -- filterRRs
  unfoldable pub filter_rrs : List Str → StrSet → List Str → Option (List Str)
  filter_rrs startup deleted additions = elim (filter_startup deleted startup) [
    | none ↦ none
    | some out ↦ some (out ++ additions)
  ]

  -- GetMergedConfig, before the encoding; `none` is a panic
  unfoldable pub get_merged_config : ChangeLog → UserConfig → Option UserConfig
  get_merged_config c uc =
      let cl = snapshot c in
      let merged = merge_blocks cl uc in
      elim (filter_rrs uc.local_rr (set_of cl.local_rr_deletes) cl.local_rrs) [
        | none ↦ none
        | some local_rr ↦
            elim (filter_rrs uc.local_rr_ptr (set_of cl.local_rr_deletes) cl.local_rr_ptrs) [
              | none ↦ none
              | some local_rr_ptr ↦
                  some (record merged { local_rr = local_rr; local_rr_ptr = local_rr_ptr })
            ]
      ]
