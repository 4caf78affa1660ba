-- ===== src/Api/Changelog/Entries.antt =====
-- api/changelog.go: the change log against the block entries, by what they name.
use dinosaur_dns.Common.{
  ◌≡◌, refl, ap₂, ◌∙◌, Bool, true, false, not, ◌&&◌, ◌||◌, List, [], ◌∷◌, Str, str_eq, All,
}
use dinosaur_dns.Api.Changelog.{new_change_log, normalize_block_entry}
use dinosaur_dns.Api.Changelog.Tracks.{
  Live, Change, block_entry, unblock_entry, log_changes, live_after, Effective, applied,
  log_changes-applied,
}
use dinosaur_dns.Api.Changelog.Keys.{same_entry, IsEntry, str_eq-normalize_block_entry}

-- Which entries are blocked: one that names the same as an entry of a list, and after changes.
unfoldable pub entries_of : List Str → Str → Bool
entries_of [] e = false
entries_of (s ∷ ss) e = same_entry s e || entries_of ss e

-- The keys of a list of entries
unfoldable pub keys_of : List Str → Live
keys_of [] j = false
keys_of (s ∷ ss) j = str_eq (normalize_block_entry s) j || keys_of ss j

abbrev after_change : Change → (Str → Bool) → Str → Bool
after_change (block_entry x) blocked e = blocked e || same_entry x e
after_change (unblock_entry x) blocked e = blocked e && not (same_entry x e)

unfoldable pub blocked_after : List Change → (Str → Bool) → Str → Bool
blocked_after [] blocked = blocked
blocked_after (change ∷ changes) blocked = blocked_after changes (after_change change blocked)

abbrev pub entry_of : Change → Str
entry_of (block_entry x) = x
entry_of (unblock_entry x) = x

abbrev is_addition : Change → Bool
is_addition (block_entry x) = true
is_addition (unblock_entry x) = false

-- Each entry added was not blocked, and each entry removed was.
unfoldable pub AllEffective : List Change → (Str → Bool) → Type 0
AllEffective [] blocked = Unit
AllEffective (change ∷ changes) blocked =
    (blocked (entry_of change) ≡ not (is_addition change))
    × AllEffective changes (after_change change blocked)

-- Keys and entries are blocked alike.
abbrev Agree : Live → (Str → Bool) → Type 0
Agree live blocked = (e : Str) → IsEntry e → live (normalize_block_entry e) ≡ blocked e

startup-Agree : (ss : List Str) → All IsEntry ss → Agree (keys_of ss) (entries_of ss)
unfolding keys_of entries_of
startup-Agree [] shaped e h = refl
startup-Agree (s ∷ ss) shaped e h =
    ap₂ ◌||◌ (str_eq-normalize_block_entry s e shaped.0 h) (startup-Agree ss shaped.1 e h)

block-Agree :
    (x : Str) (live : Live) (blocked : Str → Bool)
    → IsEntry x
    → Agree live blocked
    → Agree
        (λ j. live j || str_eq (normalize_block_entry x) j)
        (after_change (block_entry x) blocked)
block-Agree x live blocked shaped agree e h =
    ap₂ ◌||◌ (agree e h) (str_eq-normalize_block_entry x e shaped h)

unblock-Agree :
    (x : Str) (live : Live) (blocked : Str → Bool)
    → IsEntry x
    → Agree live blocked
    → Agree
        (λ j. live j && not (str_eq (normalize_block_entry x) j))
        (after_change (unblock_entry x) blocked)
unblock-Agree x live blocked shaped agree e h =
    ap₂ (λ l s. l && not s) (agree e h) (str_eq-normalize_block_entry x e shaped h)

changes-Agree :
    (changes : List Change) (live : Live) (blocked : Str → Bool)
    → All (λ change. IsEntry (entry_of change)) changes
    → Agree live blocked
    → AllEffective changes blocked
    → Effective changes live × Agree (live_after changes live) (blocked_after changes blocked)
unfolding AllEffective live_after blocked_after
changes-Agree [] live blocked shaped agree effective = (tt, agree)
changes-Agree (block_entry x ∷ changes) live blocked shaped agree effective =
    let (rest, now) =
      changes-Agree changes _ _ shaped.1 (block-Agree x live blocked shaped.0 agree) effective.1 in
    ((agree x shaped.0 ∙ effective.0, rest), now)
changes-Agree (unblock_entry x ∷ changes) live blocked shaped agree effective =
    let (rest, now) =
      changes-Agree changes _ _ shaped.1 (unblock-Agree x live blocked shaped.0 agree)
        effective.1 in
    ((agree x shaped.0 ∙ effective.0, rest), now)

-- The change log keeps track of the entries that the changes add to the start-up entries and remove
-- from them. After changes that were each effective, an entry is one of these exactly if its key is
-- a key of a start-up entry and not deleted in the log, or an added key. Two entries are the same if
-- they name the same domain, but for letter case and a dot at the end, and the same type, but for
-- letter case, or both none; so `domain` and `domain:ANY` are two. All entries are to have at most
-- one colon.
pub log_changes-blocked_after :
    (changes : List Change) (startup : List Str)
    → All IsEntry startup
    → All (λ change. IsEntry (entry_of change)) changes
    → AllEffective changes (entries_of startup)
    → (e : Str) → IsEntry e
    → applied (keys_of startup) (log_changes changes new_change_log) (normalize_block_entry e)
      ≡ blocked_after changes (entries_of startup) e
log_changes-blocked_after changes startup shaped shaped' effective e h =
    let (keys_effective, now) =
      changes-Agree changes (keys_of startup) (entries_of startup) shaped'
        (startup-Agree startup shaped) effective in
    log_changes-applied changes (keys_of startup) keys_effective (normalize_block_entry e) ∙ now e h
