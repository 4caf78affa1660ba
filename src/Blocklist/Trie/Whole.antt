-- ===== src/Blocklist/Trie/Whole.antt =====
-- DeleteTree, Count and Dump: the operations on whole subtrees.
use mathlib.Core.Path.{subst}
use dinosaur_dns.Blocklist.Trie.Invariant.{
  IsValid, ValidOption, lookup_child-IsValid, delete_child-ValidChildren,
  insert_child-ValidChildren,
}
use dinosaur_dns.Common.{
  ℕ, ◌+◌, ◌≡◌, refl, Bool, true, false, List, [], ◌∷◌, ◌++◌, Option, none, some, Str, Str-discrete,
  not, ◌&&◌, if◌then◌else◌, holds, arith, Option-cases, inl, inr, length, length-append, length-map,
  ltb,
}
use dinosaur_dns.Blocklist.Trie.{
  Level, level, Children, leaf, child, lookup_child, insert_child, delete_child, add_here, add_rev,
  child_or_new, remove_qtype, delete_here, delete_rev, delete_tree_rev, count, count_children,
  BlockEntry, dump_entry, dump, dump_children,
}
use dinosaur_dns.Blocklist.Trie.Stored.{
  stored_rev, stored_rev-new_level, lookup_child-insert_child, lookup_child-delete_child,
}

unfoldable pub is_prefix : List Str → List Str → Bool
is_prefix [] p' = true
is_prefix (a ∷ p) [] = false
is_prefix (a ∷ p) (b ∷ p') = holds (Str-discrete a b) && is_prefix p p'

-- The trie has a node for the path.
unfoldable pub has_node : List Str → Level → Bool
has_node [] l = true
has_node (a ∷ p) (level any qs cs) = elim (lookup_child a cs) [
  | none ↦ false
  | some c ↦ has_node p c
]

module _ (n : Str) (p : List Str) (any : Bool) (qs : List ℕ) (cs : Children) where
  missing_subtree :
      lookup_child n cs ≡ none
      → (p' : List Str) (q : ℕ)
      → stored_rev p' q (level any qs cs)
        ≡ (stored_rev p' q (level any qs cs) && not (is_prefix (n ∷ p) p'))
  unfolding stored_rev is_prefix
  missing_subtree e [] q = ground arith
  missing_subtree e (b ∷ p') q = ground arith

  trimmed_subtree :
      (c c' : Level)
      → lookup_child n cs ≡ some c
      → ((p' : List Str) (q : ℕ) → stored_rev p' q c' ≡ (stored_rev p' q c && not (is_prefix p p')))
      → (p' : List Str) (q : ℕ)
      → stored_rev p' q (level any qs (insert_child n c' cs))
        ≡ (stored_rev p' q (level any qs cs) && not (is_prefix (n ∷ p) p'))
  unfolding stored_rev is_prefix
  trimmed_subtree c c' e h [] q = ground arith
  trimmed_subtree c c' e h (b ∷ p') q = ground (arith, lookup_child-insert_child n b c' cs, h p' q)

-- On a path that is not empty DeleteTree removes exactly the entries at and below the path, and
-- reports whether there was a node. It keeps the invariant.
pub delete_tree_rev_lem :
    (n : Str) (p : List Str) (l : Level)
    → (l' : Level) × (delete_tree_rev (n ∷ p) l ≡ some (l', has_node (n ∷ p) l))
      × ((p' : List Str) (q : ℕ)
          → stored_rev p' q l' ≡ (stored_rev p' q l && not (is_prefix (n ∷ p) p')))
      × (IsValid l → IsValid l')
unfolding delete_tree_rev has_node stored_rev is_prefix
delete_tree_rev_lem n [] (level any qs cs) = (
  level any qs (delete_child n cs),
  ground arith,
  go,
  λ v. (v.0, delete_child-ValidChildren n cs v.1),
)
  where
    go :
        (p' : List Str) (q : ℕ)
        → stored_rev p' q (level any qs (delete_child n cs))
          ≡ (stored_rev p' q (level any qs cs) && not (is_prefix (n ∷ []) p'))
    go [] q = ground arith
    go (b ∷ p') q = ground (arith, lookup_child-delete_child n b cs)
delete_tree_rev_lem n (m ∷ p) (level any qs cs) = elim (Option-cases (lookup_child n cs)) [
  | inl e ↦ (level any qs cs, ground arith, missing_subtree n (m ∷ p) any qs cs e, λ v. v)
  | inr (c, e) ↦
      let (c', run, kept, valid) = delete_tree_rev_lem m p c in
      (
        level any qs (insert_child n c' cs),
        ground arith,
        trimmed_subtree n (m ∷ p) any qs cs c c' e kept,
        λ v. (
          v.0,
          insert_child-ValidChildren n c' cs
              (valid (subst ValidOption e (lookup_child-IsValid n cs v.1))) v.1,
        ),
      )
]

count_option : Option Level → ℕ
count_option none = 0
count_option (some c) = count c

count_children-insert_child :
    (k : Str) (c : Level) (cs : Children)
    → count_children (insert_child k c cs) + count_option (lookup_child k cs)
      ≡ count_children cs + count c
unfolding insert_child lookup_child count_option count
count_children-insert_child k c leaf = omega arith
count_children-insert_child k c (child j l cs) = ground (arith, count_children-insert_child k c cs)

count-child_or_new : (o : Option Level) → count (child_or_new o) ≡ count_option o
unfolding child_or_new count_option count
count-child_or_new none = refl
count-child_or_new (some c) = refl

stored_rev-child_or_new :
    (p : List Str) (q : ℕ) (n : Str) (any : Bool) (qs : List ℕ) (cs : Children)
    → stored_rev p q (child_or_new (lookup_child n cs)) ≡ stored_rev (n ∷ p) q (level any qs cs)
unfolding child_or_new stored_rev
stored_rev-child_or_new p q n any qs cs = elim (Option-cases (lookup_child n cs)) [
  | inl e ↦ rw (e, child_or_new, stored_rev) (stored_rev-new_level p q)
  | inr (c, e) ↦ rw (e, child_or_new, stored_rev)
]

-- Add counts one more entry exactly when the entry was not there.
pub count-add_rev :
    (p : List Str) (q : ℕ) (l : Level)
    → count (add_rev p q l) ≡ count l + (if stored_rev p q l then 0 else 1)
unfolding add_rev count
count-add_rev [] q (level any qs cs) =
    unfold add_here stored_rev in ground (arith, length-append qs (q ∷ []))
count-add_rev (n ∷ p) q (level any qs cs) = ground (
  arith,
  count_children-insert_child n (add_rev p q (child_or_new (lookup_child n cs))) cs,
  count-add_rev p q (child_or_new (lookup_child n cs)),
  count-child_or_new (lookup_child n cs),
  stored_rev-child_or_new p q n any qs cs,
)

length-remove_qtype :
    (q : ℕ) (qs : List ℕ)
    → length (remove_qtype q qs).0 + (if (remove_qtype q qs).1 then 1 else 0) ≡ length qs
unfolding remove_qtype
length-remove_qtype q [] = refl
length-remove_qtype q (x ∷ qs) = ground (arith, length-remove_qtype q qs)

-- Delete counts one entry less exactly when it reports that the entry was there.
pub count-delete_rev :
    (p : List Str) (q : ℕ) (l : Level)
    → count (delete_rev p q l).0 + (if (delete_rev p q l).1 then 1 else 0) ≡ count l
unfolding delete_rev count count_option
count-delete_rev [] q (level any qs cs) =
    unfold delete_here in ground (arith, length-remove_qtype q qs)
count-delete_rev (n ∷ p) q (level any qs cs) = elim (Option-cases (lookup_child n cs)) [
  | inl e ↦ ground arith
  | inr (c, e) ↦
      ground (arith, count_children-insert_child n (delete_rev p q c).0 cs, count-delete_rev p q c)
]

-- How many block types the dumped entries name together.
unfoldable pub total_blocks : List BlockEntry → ℕ
total_blocks [] = 0
total_blocks (e ∷ es) = length e.block + total_blocks es

total_blocks-append :
    (es fs : List BlockEntry) → total_blocks (es ++ fs) ≡ total_blocks es + total_blocks fs
unfolding total_blocks
total_blocks-append [] fs = omega arith
total_blocks-append (e ∷ es) fs = omega (arith, total_blocks-append es fs)

total_blocks-push :
    (out : List BlockEntry) (e : BlockEntry)
    → total_blocks (if ltb 0 (length e.block) then out ++ (e ∷ []) else out)
      ≡ total_blocks out + length e.block
unfolding total_blocks
total_blocks-push out e = ground (arith, total_blocks-append out (e ∷ []))

length-entry :
    (type_to_string : ℕ → Str) (prefix : List Str) (any : Bool) (qs : List ℕ) (cs : Children)
    → length (dump_entry type_to_string prefix (level any qs cs)).block
      ≡ (if any then 1 else 0) + length qs
unfolding dump_entry
length-entry type_to_string prefix true qs cs = omega (arith, length-map type_to_string qs)
length-entry type_to_string prefix false qs cs = omega (arith, length-map type_to_string qs)

module _ (type_to_string : ℕ → Str) where
  mutual
    unfolding count dump total_blocks

    total_blocks-dump_aux :
        (prefix : List Str) (l : Level) (out : List BlockEntry)
        → total_blocks (dump type_to_string prefix l out) ≡ total_blocks out + count l
    total_blocks-dump_aux prefix (level any qs cs) out =
        let e = dump_entry type_to_string prefix (level any qs cs) in
        omega (
          arith,
          total_blocks-dump_children prefix cs
              (if ltb 0 (length e.block) then out ++ (e ∷ []) else out),
          total_blocks-push out e,
          length-entry type_to_string prefix any qs cs,
        )

    total_blocks-dump_children :
        (prefix : List Str) (cs : Children) (out : List BlockEntry)
        → total_blocks (dump_children type_to_string prefix cs out)
          ≡ total_blocks out + count_children cs
    total_blocks-dump_children prefix leaf out = omega arith
    total_blocks-dump_children prefix (child k l cs) out = omega (
      arith,
      total_blocks-dump_children prefix cs (dump type_to_string (k ∷ prefix) l out),
      total_blocks-dump_aux (k ∷ prefix) l out,
    )

  -- What Dump lists is as many blocks as Count counts.
  pub total_blocks-dump : (l : Level) → total_blocks (dump type_to_string [] l []) ≡ count l
  unfolding total_blocks
  total_blocks-dump l = omega (arith, total_blocks-dump_aux [] l [])
