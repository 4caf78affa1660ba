-- ===== src/Api/Tests.antt =====
-- The theorems on the change log at the block entries a.example, deleted again, and b.example.
use dinosaur_dns.Common.{
  All, inl, inr, filter_by, keys, ℕ, ◌+◌, ◌*◌, ◌≤◌, Bool, true, false, ltb, if◌then◌else◌, arith,
  List, [], ◌∷◌, ◌≡◌, refl, not, ◌&&◌, ◌||◌, ◌++◌, Str, Str-discrete, ℕ_discrete,
}
use dinosaur_dns.Common.Ints.{pos}
use dinosaur_dns.Dns.Sample.{sample_dns, sample_query}
use dinosaur_dns.Blocklist.Trie.{level, leaf}
use dinosaur_dns.Cache.{second}
use dinosaur_dns.Proxy.Upstream.{ProxyConfig}
use dinosaur_dns.Proxy.Handler.Blocking.{blocks_query}
use dinosaur_dns.Proxy.Sample.{sample_config}
use dinosaur_dns.Api.Pause.{
  max_pause, pause_seconds, add_time, duration, pause_blocking, resume_blocking,
  blocks_query-pause_blocking,
}
use dinosaur_dns.Common.Strings.{codes, to_lower, to_upper, upper, lower, trim_dot, split_on}
use dinosaur_dns.Config.{UserConfig, new_user_config}
use dinosaur_dns.Api.Changelog.{
  ChangeLog, new_change_log, has_key, normalize_block_entry, snapshot, sort_strings,
}
use dinosaur_dns.Api.Changelog.Tracks.{Change, block_entry, unblock_entry, log_changes, applied}
use dinosaur_dns.Api.Changelog.Keys.{same_name, same_fields, same_entry, IsEntry}
use dinosaur_dns.Api.Changelog.Entries.{
  entries_of, keys_of, blocked_after, entry_of, AllEffective, log_changes-blocked_after,
}
use dinosaur_dns.Api.Service.{merge_blocks}
use dinosaur_dns.Api.Service.Merged.{listed, lists_key, merge_blocks-applied}

abbrev startup : List Str
startup = codes "a.example" ∷ codes "c.example:AAAA" ∷ []

abbrev changes : List Change
changes =
    unblock_entry (codes "A.example.")
    ∷ block_entry (codes "b.example")
    ∷ block_entry (codes "c.example:A")
    ∷ []

startup-shape : All IsEntry startup
unfolding IsEntry split_on
startup-shape = (inl (codes "a.example", refl), (inr (codes "c.example", codes "AAAA", refl), tt))

changes-shape : All (λ change. IsEntry (entry_of change)) changes
unfolding IsEntry split_on
changes-shape = (
  inl (codes "A.example.", refl),
  (inl (codes "b.example", refl), (inr (codes "c.example", codes "A", refl), tt)),
)

query-shape : IsEntry (codes "c.example:A")
unfolding IsEntry split_on
query-shape = inr (codes "c.example", codes "A", refl)

changes-AllEffective : AllEffective changes (entries_of startup)
unfolding AllEffective entries_of same_entry same_fields same_name split_on Str-discrete to_lower
    to_upper upper trim_dot ℕ_discrete lower
changes-AllEffective = (refl, (refl, (refl, tt)))

log_changes-blocked_after_example :
    applied
      (keys_of startup)
      (log_changes changes new_change_log)
      (normalize_block_entry (codes "c.example:A"))
    ≡ blocked_after changes (entries_of startup) (codes "c.example:A")
log_changes-blocked_after_example =
    log_changes-blocked_after changes startup startup-shape changes-shape changes-AllEffective
      (codes "c.example:A") query-shape

abbrev user_config : UserConfig
user_config = record new_user_config { block = codes "a.example" ∷ [] }

abbrev change_log : ChangeLog
change_log = record new_change_log {
  blocks = (codes "b.example", tt) ∷ [];
  block_deletes = (codes "a.example", tt) ∷ [];
}

merge_blocks-applied_example :
    let merged = merge_blocks (snapshot change_log) user_config in
    let kept =
      filter_by
        (λ s. not (has_key (normalize_block_entry s) change_log.block_deletes))
        user_config.block in
    let added = sort_strings (keys change_log.blocks) in
    let deletes =
      filter_by
        (λ d. not (lists_key d user_config.block && has_key d change_log.block_deletes))
        (sort_strings (keys change_log.block_deletes)) in
    (merged.block ≡ kept ++ added)
    × (merged.block_delete ≡ user_config.block_delete ++ deletes)
    × ((k : Str)
        → ((lists_key k kept || listed k added)
            ≡ applied (λ j. lists_key j user_config.block) change_log k)
          × (listed k deletes
              ≡ (has_key k change_log.block_deletes && not (lists_key k user_config.block))))
merge_blocks-applied_example = merge_blocks-applied change_log user_config

abbrev blocking : ProxyConfig ℕ
blocking = record sample_config { block_list = level true [] leaf }

short : pause_seconds (pos 60) ≤ max_pause
unfolding pause_seconds
short = omega arith

blocks_query-pause_blocking_example :
    (◌≡◌ {A = Bool}
      (blocks_query sample_dns (pause_blocking (pos 60) 5 6 blocking).0 7 sample_query.question)
      (if ltb 7 (5 + pause_seconds (pos 60) * second)
        then false
        else blocks_query sample_dns (resume_blocking 8 blocking).0 7 sample_query.question))
blocks_query-pause_blocking_example =
    blocks_query-pause_blocking sample_dns (pos 60) 5 6 8 7 blocking sample_query.question
      (omega arith) short

-- A pause of one second more than the longest ends in the past: its duration overflows.
overflow : add_time 10000000000000000000 (duration 9223372037) ≡ 776627963290448384
unfolding add_time duration
overflow = refl
