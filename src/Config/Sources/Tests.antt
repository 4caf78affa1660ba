-- ===== src/Config/Sources/Tests.antt =====
-- The theorem on UpdateBlockList at a configuration that blocks ads.example and a.ads.example, and
-- deletes what is at or below ads.example.
use dinosaur_dns.Common.{
  ℕ_discrete, Str-discrete, ◌≡◌, refl, Bool, true, false, List, [], ◌∷◌, Option, none, some, Str,
}
use dinosaur_dns.Common.Strings.{lower, trim_dot, to_lower, split_on, codes, trim_space}
use dinosaur_dns.Blocklist.{split_name, add_entry, reader}
use dinosaur_dns.Dns.Sample.{sample_string_to_type}
use dinosaur_dns.Blocklist.Trie.{
  Level, level, child, leaf, new_level, type_any, add_rev, add_here, insert_child, lookup_child,
  contains, delete_tree_rev, delete_child,
}
use dinosaur_dns.Blocklist.Trie.Stored.{stored_rev}
use dinosaur_dns.Blocklist.Trie.Whole.{is_prefix}
use dinosaur_dns.Blocklist.Rules.{path}
use dinosaur_dns.Config.Sources.{
  load_sources, load_all, url_reader, delete_all, delete_last, update_block_list,
}
use dinosaur_dns.Util.Lines.{line_reader}
use dinosaur_dns.Blocklist
use dinosaur_dns.Blocklist.Trie
use dinosaur_dns.Config.{UserConfig, new_user_config}
use dinosaur_dns.Config.Sources.Deleted.{update_block_list-deleted}

abbrev config : UserConfig
config = record new_user_config {
  block = codes "ads.example" ∷ [];
  block_delete = codes "ads.example." ∷ [];
  blocklist = codes "list" ∷ [];
}

abbrev open_url : Str → Option (List Str × Bool)
open_url url = some (codes "a.ads.example" ∷ codes "b.example" ∷ [], false)

abbrev updated : Level
updated =
    level false []
      (child (codes "example") (level false [] (child (codes "b") (level true [] leaf) leaf)) leaf)

update : update_block_list sample_string_to_type open_url config new_level ≡ some (updated, none)
unfolding update_block_list load_sources load_all url_reader delete_all delete_last add_entry reader
    split_name line_reader split_on trim_space to_lower trim_dot lower Str-discrete ℕ_discrete
    add_rev add_here insert_child lookup_child contains delete_tree_rev delete_child
    Blocklist.delete_tree Trie.delete_tree Blocklist.add Trie.add Blocklist.entry_target
    Blocklist.is_root
update = refl

below :
    is_prefix (path (codes "ads.example.")) (codes "example" ∷ codes "ads" ∷ codes "a" ∷ []) ≡ true
unfolding is_prefix split_name split_on to_lower trim_dot lower Str-discrete ℕ_discrete
below = refl

update_block_list-deleted_example :
    stored_rev (codes "example" ∷ codes "ads" ∷ codes "a" ∷ []) type_any updated ≡ false
update_block_list-deleted_example =
    update_block_list-deleted sample_string_to_type open_url config new_level updated [] []
      (codes "ads.example.") (codes "example" ∷ codes "ads" ∷ codes "a" ∷ []) type_any refl update
      below
