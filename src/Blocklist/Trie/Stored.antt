-- ===== src/Blocklist/Trie/Stored.antt =====
-- Which (path, qtype) entries a trie holds, and how Add changes that. Paths are top level first.
use dinosaur_dns.Common.{
  ℕ, ◌≡◌, refl, Bool, true, false, List, [], ◌∷◌, ◌++◌, none, some, Str, Str-discrete, ite, ◌&&◌,
  ◌||◌, ◌==◌, if◌then◌else◌, holds, arith,
}
use dinosaur_dns.Blocklist.Trie.{
  Level, level, Children, leaf, child, new_level, type_any, contains, lookup_child, insert_child,
  delete_child, add_here, add_rev, child_or_new,
}

-- The entry (path, qtype) itself is in the trie.
unfoldable pub stored_rev : List Str → ℕ → Level → Bool
stored_rev [] qtype (level any qs cs) = if qtype == type_any then any else contains qs qtype
stored_rev (next ∷ rest) qtype (level any qs cs) = elim (lookup_child next cs) [
  | none ↦ false
  | some c ↦ stored_rev rest qtype c
]

unfoldable pub same_path : List Str → List Str → Bool
same_path [] [] = true
same_path [] (b ∷ bs) = false
same_path (a ∷ as') [] = false
same_path (a ∷ as') (b ∷ bs) = holds (Str-discrete a b) && same_path as' bs

pub lookup_child-insert_child :
    (k j : Str) (c : Level) (cs : Children)
    → lookup_child j (insert_child k c cs) ≡ ite (Str-discrete k j) (some c) (lookup_child j cs)
unfolding lookup_child insert_child
lookup_child-insert_child k j c leaf = refl
lookup_child-insert_child k j c (child i l cs) = ground (arith, lookup_child-insert_child k j c cs)

pub lookup_child-delete_child :
    (k j : Str) (cs : Children)
    → lookup_child j (delete_child k cs) ≡ ite (Str-discrete k j) none (lookup_child j cs)
unfolding lookup_child delete_child
lookup_child-delete_child k j leaf = ground arith
lookup_child-delete_child k j (child i l cs) = ground (arith, lookup_child-delete_child k j cs)

pub contains-append :
    (qs rs : List ℕ) (q : ℕ) → contains (qs ++ rs) q ≡ (contains qs q || contains rs q)
unfolding contains
contains-append [] rs q = refl
contains-append (v ∷ qs) rs q = ground (arith, contains-append qs rs q)

pub stored_rev-new_level : (p : List Str) (q : ℕ) → stored_rev p q new_level ≡ false
unfolding stored_rev contains lookup_child
stored_rev-new_level [] q = ground arith
stored_rev-new_level (n ∷ p) q = refl

stored_rev-add_here :
    (p : List Str) (q q' : ℕ) (l : Level)
    → stored_rev p q' (add_here q l) ≡ (stored_rev p q' l || (same_path [] p && q == q'))
unfolding stored_rev add_here same_path contains
stored_rev-add_here [] q q' (level any qs cs) = ground (arith, contains-append qs (q ∷ []) q')
stored_rev-add_here (n ∷ p) q q' (level any qs cs) = ground arith

-- Add stores exactly the entry that it is given, and keeps every other entry.
pub stored_rev-add_rev :
    (p p' : List Str) (q q' : ℕ) (l : Level)
    → stored_rev p' q' (add_rev p q l) ≡ (stored_rev p' q' l || (same_path p p' && q == q'))
unfolding stored_rev add_rev same_path
stored_rev-add_rev [] p' q q' l = stored_rev-add_here p' q q' l
stored_rev-add_rev (a ∷ p) [] q q' (level any qs cs) = ground arith
stored_rev-add_rev (a ∷ p) (b ∷ p') q q' (level any qs cs) = ground (
  arith,
  lookup_child-insert_child a b (add_rev p q (child_or_new (lookup_child a cs))) cs,
  stored_rev-add_rev p p' q q' (child_or_new (lookup_child a cs)),
  stored_rev-new_level p' q',
)
