-- ===== src/Api/Changelog/Tracks.antt =====
-- api/changelog.go: the change log against the block list that it describes.
use dinosaur_dns.Common.{
  ◌≡◌, refl, sym, inl, inr, lookup, Bool, true, false, not, ◌&&◌, ◌||◌, List, [], ◌∷◌, Str,
  Str-discrete, Map, lookup-insert, lookup-erase, str_eq, arith, Bool-cases,
}
use dinosaur_dns.Api.Changelog.{
  ChangeLog, new_change_log, has_key, set_key, delete_key, normalize_block_entry, add_block,
  remove_block,
}

pub has_key-set_key :
    {V : Type 0} (k j : Str) (v : V) (m : Map Str V)
    → has_key j (set_key k v m) ≡ (str_eq k j || has_key j m)
has_key-set_key k j v m = ground (arith, lookup-insert Str-discrete k j v m)

pub has_key-delete_key :
    {V : Type 0} (k j : Str) (m : Map Str V)
    → has_key j (delete_key k m) ≡ (has_key j m && not (str_eq k j))
has_key-delete_key k j m = ground (arith, lookup-erase Str-discrete k j m)

-- A set of keys that are blocked.
abbrev pub Live : Type 0
Live = Str → Bool

-- An entry that is added to the block list, or removed from it.
pub data Change : Type 0 where
  block_entry unblock_entry : Str → Change

unfoldable pub log_changes : List Change → ChangeLog → ChangeLog
log_changes [] c = c
log_changes (block_entry e ∷ changes) c = log_changes changes (add_block e c)
log_changes (unblock_entry e ∷ changes) c = log_changes changes (remove_block e c)

unfoldable pub live_after : List Change → Live → Live
live_after [] live = live
live_after (block_entry e ∷ changes) live =
    live_after changes (λ j. live j || str_eq (normalize_block_entry e) j)
live_after (unblock_entry e ∷ changes) live =
    live_after changes (λ j. live j && not (str_eq (normalize_block_entry e) j))

-- Each entry added was not blocked, and each entry removed was.
abbrev pub Effective : List Change → Live → Type 0
Effective [] live = Unit
Effective (block_entry e ∷ changes) live =
    (live (normalize_block_entry e) ≡ false)
    × Effective changes (λ j. live j || str_eq (normalize_block_entry e) j)
Effective (unblock_entry e ∷ changes) live =
    (live (normalize_block_entry e) ≡ true)
    × Effective changes (λ j. live j && not (str_eq (normalize_block_entry e) j))

-- The start-up entries that are not deleted, and the added ones.
abbrev pub applied : Live → ChangeLog → Live
applied startup c j = (startup j && not (has_key j c.block_deletes)) || has_key j c.blocks

-- How a key is blocked at the start, deleted, added and blocked now.
pub record Tracks (s d b l : Bool) : Type 0 where
  pub now : l ≡ ((s && not d) || b)
  pub deleted : d ≡ true → s ≡ true
  pub new : b ≡ true → s ≡ false

abbrev pub AllTracks : Live → ChangeLog → Live → Type 0
AllTracks startup c live =
    (j : Str) → Tracks (startup j) (has_key j c.block_deletes) (has_key j c.blocks) (live j)

-- One key of the log, `same` if it is the key of the change: an addition that cancels a deletion, a
-- new addition, a removal that cancels an addition, and a new deletion.
module _ (s d b l : Bool) (t : Tracks s d b l) where
  Tracks-cancel_delete :
      (same : Bool)
      → (same ≡ true → (d ≡ true) × (l ≡ false))
      → Tracks s (d && not same) b (l || same)
  Tracks-cancel_delete true h =
      let (deleted, gone) = h refl in
      record { now = ground arith; deleted = λ e. ground arith; new = λ e. ground arith }
  Tracks-cancel_delete false h = record {
    now = ground arith;
    deleted = λ e. ground arith;
    new = λ e. ground arith;
  }

  Tracks-add :
      (same : Bool) → (same ≡ true → (d ≡ false) × (l ≡ false)) → Tracks s d (same || b) (l || same)
  Tracks-add true h =
      let (deleted, gone) = h refl in
      record { now = ground arith; deleted = λ e. ground arith; new = λ e. ground arith }
  Tracks-add false h = record {
    now = ground arith;
    deleted = λ e. ground arith;
    new = λ e. ground arith;
  }

  Tracks-cancel_add :
      (same : Bool)
      → (same ≡ true → (b ≡ true) × (l ≡ true))
      → Tracks s d (b && not same) (l && not same)
  Tracks-cancel_add true h =
      let (added, there) = h refl in
      record { now = ground arith; deleted = λ e. ground arith; new = λ e. ground arith }
  Tracks-cancel_add false h = record {
    now = ground arith;
    deleted = λ e. ground arith;
    new = λ e. ground arith;
  }

  Tracks-delete :
      (same : Bool)
      → (same ≡ true → (b ≡ false) × (l ≡ true))
      → Tracks s (same || d) b (l && not same)
  Tracks-delete true h =
      let (added, there) = h refl in
      record { now = ground arith; deleted = λ e. ground arith; new = λ e. ground arith }
  Tracks-delete false h = record {
    now = ground arith;
    deleted = λ e. ground arith;
    new = λ e. ground arith;
  }

str_eq-true : (k j : Str) → str_eq k j ≡ true → k ≡ j
str_eq-true k j h = elim (Str-discrete k j) [ yes p ↦ p | no p ↦ absurd (ground arith) ]

add_block-Tracks :
    (e : Str) (startup live : Live) (c : ChangeLog)
    → live (normalize_block_entry e) ≡ false
    → AllTracks startup c live
    → AllTracks startup (add_block e c) (λ j. live j || str_eq (normalize_block_entry e) j)
unfolding add_block
add_block-Tracks e startup live c h t j =
    let key = normalize_block_entry e in
    elim (Bool-cases (has_key key c.block_deletes)) [
      | inl d ↦
          rw (d, add_block, has_key-delete_key key j c.block_deletes)
            (Tracks-cancel_delete _ _ _ _ (t j) (str_eq key j)
              λ same. let p = str_eq-true key j same in (rw⁻¹ p d, rw⁻¹ p h))
      | inr d ↦
          rw (d, add_block, has_key-set_key key j tt c.blocks)
            (Tracks-add _ _ _ _ (t j) (str_eq key j)
              λ same. let p = str_eq-true key j same in (rw⁻¹ p d, rw⁻¹ p h))
    ]

remove_block-Tracks :
    (e : Str) (startup live : Live) (c : ChangeLog)
    → live (normalize_block_entry e) ≡ true
    → AllTracks startup c live
    → AllTracks startup (remove_block e c) (λ j. live j && not (str_eq (normalize_block_entry e) j))
unfolding remove_block
remove_block-Tracks e startup live c h t j =
    let key = normalize_block_entry e in
    elim (Bool-cases (has_key key c.blocks)) [
      | inl b ↦
          rw (b, remove_block, has_key-delete_key key j c.blocks)
            (Tracks-cancel_add _ _ _ _ (t j) (str_eq key j)
              λ same. let p = str_eq-true key j same in (rw⁻¹ p b, rw⁻¹ p h))
      | inr b ↦
          rw (b, remove_block, has_key-set_key key j tt c.block_deletes)
            (Tracks-delete _ _ _ _ (t j) (str_eq key j)
              λ same. let p = str_eq-true key j same in (rw⁻¹ p b, rw⁻¹ p h))
    ]

log_changes-Tracks :
    (changes : List Change) (startup live : Live) (c : ChangeLog)
    → AllTracks startup c live
    → Effective changes live
    → AllTracks startup (log_changes changes c) (live_after changes live)
unfolding log_changes live_after
log_changes-Tracks [] startup live c t e = t
log_changes-Tracks (block_entry x ∷ changes) startup live c t e =
    log_changes-Tracks changes startup _ (add_block x c) (add_block-Tracks x startup live c e.0 t)
      e.1
log_changes-Tracks (unblock_entry x ∷ changes) startup live c t e =
    log_changes-Tracks changes startup _ (remove_block x c)
      (remove_block-Tracks x startup live c e.0 t) e.1

-- After changes that were each effective, the start-up keys with the log applied are the keys that
-- the changes leave.
pub log_changes-applied :
    (changes : List Change) (startup : Live)
    → Effective changes startup
    → (j : Str)
    → applied startup (log_changes changes new_change_log) j ≡ live_after changes startup j
unfolding lookup
log_changes-applied changes startup e j = sym (
    Tracks.now (
      log_changes-Tracks changes startup startup new_change_log
        (λ k. record {
          now = ground arith;
          deleted = λ d. absurd (ground arith);
          new = λ d. absurd (ground arith);
        })
        e j))
