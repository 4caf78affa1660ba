-- ===== src/Blocklist/Trie/Nodes.antt =====
-- Which paths a trie has nodes for: Add makes them, Delete keeps them, and DeleteTree removes a
-- subtree of them.
use mathlib.Core.Path.{subst}
use dinosaur_dns.Common.{
  ℕ, ◌≡◌, refl, sym, Bool, Option, str_eq_self, str_eq_ne, List, [], ◌∷◌, none, some, Str,
  Str-discrete, not, ◌&&◌, ◌||◌, arith, Option-cases, inl, inr,
}
use dinosaur_dns.Blocklist.Trie.{
  Level, level, Children, delete_child, lookup_child, insert_child, add_here, add_rev, child_or_new,
  delete_here, delete_rev, delete_tree_rev, new_level,
}
use dinosaur_dns.Blocklist.Trie.Stored.{lookup_child-insert_child, lookup_child-delete_child}
use dinosaur_dns.Blocklist.Trie.Whole.{is_prefix, has_node}

new_level_nodes : (p' p : List Str) → (has_node p' new_level || is_prefix p' p) ≡ is_prefix p' p
unfolding has_node lookup_child is_prefix
new_level_nodes [] p = refl
new_level_nodes (b ∷ p') p = refl

-- Add makes the nodes of the path.
pub has_node-add_rev :
    (p p' : List Str) (q : ℕ) (l : Level)
    → has_node p' (add_rev p q l) ≡ (has_node p' l || is_prefix p' p)
unfolding has_node add_rev is_prefix child_or_new
has_node-add_rev [] [] q l = ground arith
has_node-add_rev [] (b ∷ p') q (level any qs cs) = unfold add_here in ground arith
has_node-add_rev (a ∷ p) [] q (level any qs cs) = ground arith
has_node-add_rev (a ∷ p) (b ∷ p') q (level any qs cs) = elim (Str-discrete a b) [
  | yes e ↦ rw e (elim (Option-cases (lookup_child b cs)) [
    | inl missing ↦ ground (
      arith,
      lookup_child-insert_child b b (add_rev p q (child_or_new (lookup_child b cs))) cs,
      str_eq_self b,
      has_node-add_rev p p' q new_level,
      new_level_nodes p' p,
    )
    | inr (c, there) ↦ ground (
      arith,
      lookup_child-insert_child b b (add_rev p q (child_or_new (lookup_child b cs))) cs,
      str_eq_self b,
      has_node-add_rev p p' q c,
    )
  ])
  | no n ↦ ground (
    arith,
    lookup_child-insert_child a b (add_rev p q (child_or_new (lookup_child a cs))) cs,
    str_eq_ne b a (λ e. n (sym e)),
  )
]

-- Delete keeps all nodes.
pub has_node-delete_rev :
    (p p' : List Str) (q : ℕ) (l : Level) → has_node p' (delete_rev p q l).0 ≡ has_node p' l
unfolding has_node delete_rev
has_node-delete_rev p [] q l = refl
has_node-delete_rev [] (b ∷ p') q (level any qs cs) = unfold delete_here in ground arith
has_node-delete_rev (a ∷ p) (b ∷ p') q (level any qs cs) = elim (Option-cases (lookup_child a cs)) [
  | inl e ↦ ground arith
  | inr (c, e) ↦
      ground
        (arith, lookup_child-insert_child a b (delete_rev p q c).0 cs, has_node-delete_rev p p' q c)
]

unfoldable pub AfterTree : (Level → Type 0) → Option (Level × Bool) → Type 0
AfterTree P none = Unit
AfterTree P (some (l, found)) = P l

-- The nodes of the second trie are those of the first, but for the ones at and below the path.
abbrev pub IsTrimmed : List Str → Level → Level → Type 0
IsTrimmed p l l' = (p' : List Str) → has_node p' l' ≡ (has_node p' l && not (is_prefix p p'))

deleted_nodes :
    (n : Str) (any : Bool) (qs : List ℕ) (cs : Children)
    → IsTrimmed (n ∷ []) (level any qs cs) (level any qs (delete_child n cs))
unfolding has_node is_prefix
deleted_nodes n any qs cs [] = refl
deleted_nodes n any qs cs (b ∷ p') = ground (arith, lookup_child-delete_child n b cs)

module _ (n : Str) (p : List Str) (any : Bool) (qs : List ℕ) (cs : Children) where
  missing_nodes : lookup_child n cs ≡ none → IsTrimmed (n ∷ p) (level any qs cs) (level any qs cs)
  unfolding has_node is_prefix
  missing_nodes e [] = ground arith
  missing_nodes e (b ∷ p') = ground arith

  pruned_nodes :
      (c c' : Level)
      → lookup_child n cs ≡ some c
      → IsTrimmed p c c'
      → IsTrimmed (n ∷ p) (level any qs cs) (level any qs (insert_child n c' cs))
  unfolding has_node is_prefix
  pruned_nodes c c' e h [] = ground arith
  pruned_nodes c c' e h (b ∷ p') = ground (arith, lookup_child-insert_child n b c' cs, h p')

-- DeleteTree removes the nodes at and below the path.
pub delete_tree_rev-IsTrimmed :
    (n : Str) (p : List Str) (l : Level)
    → AfterTree (IsTrimmed (n ∷ p) l) (delete_tree_rev (n ∷ p) l)
unfolding delete_tree_rev AfterTree
delete_tree_rev-IsTrimmed n [] (level any qs cs) = deleted_nodes n any qs cs
delete_tree_rev-IsTrimmed n (m ∷ p) (level any qs cs) = elim (Option-cases (lookup_child n cs)) [
  | inl e ↦ rw (e, AfterTree) (missing_nodes n (m ∷ p) any qs cs e)
  | inr (c, e) ↦ elim (Option-cases (delete_tree_rev (m ∷ p) c)) [
    | inl x ↦ rw (e, x, AfterTree) tt
    | inr ((c', found), x) ↦
        rw (e, x, AfterTree)
          (pruned_nodes n (m ∷ p) any qs cs c c' e
            (subst (AfterTree (IsTrimmed (m ∷ p) c)) x (delete_tree_rev-IsTrimmed m p c)))
  ]
]
