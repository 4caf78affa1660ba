-- ===== src/Config/Sources/Deleted.antt =====
-- config/userconfig.go, UpdateBlockList: the deletions come last.
use mathlib.Core.Path.{subst}
use dinosaur_dns.Common.{
  ℕ, ◌≡◌, refl, sym, ap, ◌∙◌, Bool, true, false, not, ◌&&◌, List, [], ◌∷◌, ◌++◌, Option, none, some,
  Str, arith, Option-cases, inl, inr,
}
use dinosaur_dns.Blocklist.{delete_tree}
use dinosaur_dns.Blocklist.Trie
use dinosaur_dns.Blocklist.Trie.{Level, delete_tree_rev}
use dinosaur_dns.Blocklist.Trie.Stored.{stored_rev}
use dinosaur_dns.Blocklist.Trie.Whole.{is_prefix, delete_tree_rev_lem}
use dinosaur_dns.Blocklist.Rules.{path}
use dinosaur_dns.Config.{UserConfig}
use dinosaur_dns.Config.Sources.{
  LoadError, delete_all, delete_last, load_sources, update_block_list,
}

-- DeleteTree keeps no entry at or below the path, and adds none.
abbrev Trims : List Str → Level → Option (Level × Bool) → Type 0
Trims path b none = Unit
Trims path b (some (b', found)) =
    (p : List Str) (q : ℕ) → stored_rev p q b' ≡ (stored_rev p q b && not (is_prefix path p))

delete_tree_rev-Trims : (path : List Str) (b : Level) → Trims path b (delete_tree_rev path b)
unfolding delete_tree_rev
delete_tree_rev-Trims [] b = tt
delete_tree_rev-Trims (n ∷ path) b =
    let (b', e, kept, valid) = delete_tree_rev_lem n path b in
    subst (Trims (n ∷ path) b) (sym e) kept

delete_tree-Trims : (v : Str) (b : Level) → Trims (path v) b (delete_tree v b)
unfolding delete_tree Trie.delete_tree
delete_tree-Trims v b = delete_tree_rev-Trims (path v) b

abbrev Absent : List Str → ℕ → Option Level → Type 0
Absent p q none = Unit
Absent p q (some b) = stored_rev p q b ≡ false

delete_all-Absent :
    (vs : List Str) (p : List Str) (q : ℕ) (b : Level)
    → stored_rev p q b ≡ false
    → Absent p q (delete_all vs b)
unfolding delete_all
delete_all-Absent [] p q b h = h
delete_all-Absent (v ∷ vs) p q b h = elim (Option-cases (delete_tree v b)) [
  | inl e ↦ rw (e, delete_all) tt
  | inr ((b', found), e) ↦
      let trims = subst (Trims (path v) b) e (delete_tree-Trims v b) in
      rw (e, delete_all) (delete_all-Absent vs p q b' (trims p q ∙ rw h refl))
]

delete_all-deleted :
    (before after : List Str) (v : Str) (p : List Str) (q : ℕ) (b : Level)
    → is_prefix (path v) p ≡ true
    → Absent p q (delete_all (before ++ (v ∷ after)) b)
unfolding delete_all
delete_all-deleted [] after v p q b h = elim (Option-cases (delete_tree v b)) [
  | inl e ↦ rw (e, delete_all) tt
  | inr ((b', found), e) ↦
      let trims = subst (Trims (path v) b) e (delete_tree-Trims v b) in
      rw (e, delete_all) (delete_all-Absent after p q b' (ground (arith, trims p q)))
]
delete_all-deleted (w ∷ before) after v p q b h = elim (Option-cases (delete_tree w b)) [
  | inl e ↦ rw (e, delete_all) tt
  | inr ((b', found), e) ↦ rw (e, delete_all) (delete_all-deleted before after v p q b' h)
]

delete_last-Absent :
    (vs : List Str) (loaded : Level × Option LoadError) (b' : Level) (p : List Str) (q : ℕ)
    → delete_last vs loaded ≡ some (b', none)
    → Absent p q (delete_all vs loaded.0)
    → stored_rev p q b' ≡ false
unfolding delete_last
delete_last-Absent vs (b, some x) b' p q done gone = absurd (ground arith)
delete_last-Absent vs (b, none) b' p q done gone = elim (Option-cases (delete_all vs b)) [
  | inl e ↦ absurd (ground arith)
  | inr (b0, e) ↦ let same : b0 ≡ b' = ground arith in subst (Absent p q) (e ∙ ap some same) gone
]

module _ (string_to_type : Str → Option ℕ) (open_url : Str → Option (List Str × Bool)) where
  -- If UpdateBlockList returns with no error, no entry is left at or below a name of block-delete,
  -- whatever the other sources of the block list have.
  pub update_block_list-deleted :
      (config : UserConfig) (b b' : Level) (before after : List Str) (v : Str) (p : List Str)
      (q : ℕ)
      → config.block_delete ≡ before ++ (v ∷ after)
      → update_block_list string_to_type open_url config b ≡ some (b', none)
      → is_prefix (path v) p ≡ true
      → stored_rev p q b' ≡ false
  unfolding update_block_list
  update_block_list-deleted config b b' before after v p q e done h =
      let loaded = load_sources string_to_type open_url config b in
      delete_last-Absent config.block_delete loaded b' p q done (
        subst (λ vs. Absent p q (delete_all vs loaded.0)) (sym e)
          (delete_all-deleted before after v p q loaded.0 h))
