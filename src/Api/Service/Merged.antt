-- ===== src/Api/Service/Merged.antt =====
-- api/jsonrpc.go, GetMergedConfig: the block entries of the merged configuration against the change
-- log.
use dinosaur_dns.Common.{
  ◌≡◌, refl, sym, ap, ap₂, ◌∙◌, Bool, false, not, ◌&&◌, ◌||◌, List, [], ◌∷◌, ◌++◌, Str,
  Str-discrete, keys, lookup, str_eq, filter_by, arith,
}
use dinosaur_dns.Config.{UserConfig}
use dinosaur_dns.Api.Changelog.{
  StrSet, ChangeLog, has_key, normalize_block_entry, insert_sorted, sort_strings, snapshot,
}
use dinosaur_dns.Api.Changelog.Tracks.{has_key-set_key, applied}
use dinosaur_dns.Api.Service.{set_of, filter_blocks, extra_deletes, merge_blocks}

-- A string is in a list; an entry with this key is in a list.
unfoldable pub listed : Str → List Str → Bool
listed k [] = false
listed k (s ∷ ss) = str_eq s k || listed k ss

unfoldable pub lists_key : Str → List Str → Bool
lists_key k [] = false
lists_key k (s ∷ ss) = str_eq (normalize_block_entry s) k || lists_key k ss

listed-insert_sorted :
    (k s : Str) (ss : List Str) → listed k (insert_sorted s ss) ≡ (str_eq s k || listed k ss)
unfolding listed insert_sorted
listed-insert_sorted k s [] = refl
listed-insert_sorted k s (t ∷ ts) = ground (arith, listed-insert_sorted k s ts)

listed-sort_strings : (k : Str) (ss : List Str) → listed k (sort_strings ss) ≡ listed k ss
unfolding listed sort_strings
listed-sort_strings k [] = refl
listed-sort_strings k (s ∷ ss) =
    listed-insert_sorted k s (sort_strings ss) ∙ ap (◌||◌ (str_eq s k)) (listed-sort_strings k ss)

listed-keys : (k : Str) (m : StrSet) → listed k (keys m) ≡ has_key k m
unfolding listed lookup
listed-keys k [] = refl
listed-keys k ((j, v) ∷ m) = ground (arith, listed-keys k m)

has_key-set_of : (k : Str) (ss : List Str) → has_key k (set_of ss) ≡ listed k ss
unfolding listed set_of lookup
has_key-set_of k [] = refl
has_key-set_of k (s ∷ ss) =
    has_key-set_key s k tt (set_of ss) ∙ ap (◌||◌ (str_eq s k)) (has_key-set_of k ss)

lists_key-filter_blocks :
    (deleted : StrSet) (k : Str) (ss : List Str)
    → (lists_key k (filter_blocks deleted ss).0 ≡ (lists_key k ss && not (has_key k deleted)))
      × (has_key k (filter_blocks deleted ss).1 ≡ (lists_key k ss && has_key k deleted))
unfolding lists_key filter_blocks lookup
lists_key-filter_blocks deleted k [] = (refl, refl)
lists_key-filter_blocks deleted k (s ∷ ss) =
    let n = normalize_block_entry s in
    let (kept, gone) = lists_key-filter_blocks deleted k ss in
    let same = has_key-set_key n k tt (filter_blocks deleted ss).1 in
    elim (Str-discrete n k) [
      | yes p ↦
          let here : has_key n deleted ≡ has_key k deleted = ap (λ x. has_key x deleted) p in
          (ground arith, ground arith)
      | no p ↦ (ground arith, ground arith)
    ]

listed-extra_deletes :
    (removed : StrSet) (k : Str) (ds : List Str)
    → listed k (extra_deletes removed ds) ≡ (listed k ds && not (has_key k removed))
unfolding listed extra_deletes
listed-extra_deletes removed k [] = refl
listed-extra_deletes removed k (d ∷ ds) =
    let rest = listed-extra_deletes removed k ds in
    elim (Str-discrete d k) [
      | yes p ↦
          let here : has_key d removed ≡ has_key k removed = ap (λ x. has_key x removed) p in
          ground arith
      | no p ↦ ground arith
    ]

filter_blocks-kept :
    (deleted : StrSet) (gone : Str → Bool)
    → ((k : Str) → has_key k deleted ≡ gone k)
    → (ss : List Str)
    → (filter_blocks deleted ss).0 ≡ filter_by (λ s. not (gone (normalize_block_entry s))) ss
unfolding filter_blocks
filter_blocks-kept deleted gone same [] = refl
filter_blocks-kept deleted gone same (s ∷ ss) =
    ground (arith, filter_blocks-kept deleted gone same ss, same (normalize_block_entry s))

extra_deletes-kept :
    (removed : StrSet) (gone : Str → Bool)
    → ((k : Str) → has_key k removed ≡ gone k)
    → (ds : List Str) → extra_deletes removed ds ≡ filter_by (λ d. not (gone d)) ds
unfolding extra_deletes
extra_deletes-kept removed gone same [] = refl
extra_deletes-kept removed gone same (d ∷ ds) =
    ground (arith, extra_deletes-kept removed gone same ds, same d)

-- The block entries of the merged configuration are the start-up entries whose keys are not
-- deleted, in their order and each as often, and behind them the added keys, sorted. So together
-- they have the keys of the start-up entries with the log applied. The directives added to
-- block-delete are the deleted keys, sorted, but for those that a start-up block entry has.
pub merge_blocks-applied :
    (c : ChangeLog) (uc : UserConfig)
    → let merged = merge_blocks (snapshot c) uc in
      let kept =
        filter_by (λ s. not (has_key (normalize_block_entry s) c.block_deletes)) uc.block in
      let added = sort_strings (keys c.blocks) in
      let deletes =
        filter_by
          (λ d. not (lists_key d uc.block && has_key d c.block_deletes))
          (sort_strings (keys c.block_deletes)) in
      (merged.block ≡ kept ++ added)
      × (merged.block_delete ≡ uc.block_delete ++ deletes)
      × ((k : Str)
          → ((lists_key k kept || listed k added) ≡ applied (λ j. lists_key j uc.block) c k)
            × (listed k deletes ≡ (has_key k c.block_deletes && not (lists_key k uc.block))))
unfolding merge_blocks snapshot
merge_blocks-applied c uc =
    let deletes = sort_strings (keys c.block_deletes) in
    let in_set : (k : Str) → has_key k (set_of deletes) ≡ has_key k c.block_deletes = λ k.
      has_key-set_of k deletes
      ∙ listed-sort_strings k (keys c.block_deletes)
      ∙ listed-keys k c.block_deletes in
    let blocks =
      filter_blocks-kept (set_of deletes) (λ k. has_key k c.block_deletes) in_set uc.block in
    let in_gone = λ (k : Str).
      (lists_key-filter_blocks (set_of deletes) k uc.block).1
      ∙ ap (λ b. lists_key k uc.block && b) (in_set k) in
    let extra =
      extra_deletes-kept (filter_blocks (set_of deletes) uc.block).1
        (λ k. lists_key k uc.block && has_key k c.block_deletes) in_gone deletes in
    (
      ap (λ kept. kept ++ sort_strings (keys c.blocks)) blocks,
      ap (λ more. uc.block_delete ++ more) extra,
      λ k.
          let adds = listed-sort_strings k (keys c.blocks) ∙ listed-keys k c.blocks in
          let dels = listed-sort_strings k (keys c.block_deletes) ∙ listed-keys k c.block_deletes in
          let here = in_gone k in
          (
            ap₂ ◌||◌
                (ap (lists_key k) (sym blocks)
                  ∙ (lists_key-filter_blocks (set_of deletes) k uc.block).0
                  ∙ ap (λ d. lists_key k uc.block && not d) (in_set k))
                adds,
            ap (listed k) (sym extra)
                ∙ listed-extra_deletes (filter_blocks (set_of deletes) uc.block).1 k deletes
                ∙ ground (arith, dels, here),
          ),
    )
