-- ===== src/Blocklist/Trie/Delete.antt =====
-- What Delete removes and reports, under the trie's invariant.
use mathlib.Core.Path.{subst}
use dinosaur_dns.Common.{
  ℕ, ◌≡◌, refl, false, List, [], ◌∷◌, Str, not, ◌&&◌, ◌==◌, arith, Option-cases, inl, inr,
}
use dinosaur_dns.Blocklist.Trie.{
  Level, level, type_any, contains, lookup_child, remove_qtype, delete_here, delete_rev,
}
use dinosaur_dns.Blocklist.Trie.Stored.{stored_rev, same_path, lookup_child-insert_child}
use dinosaur_dns.Blocklist.Trie.Invariant.{Distinct, IsValid, ValidOption, lookup_child-IsValid}

pub not-contains-any : (qs : List ℕ) → Distinct qs → contains qs type_any ≡ false
unfolding contains
not-contains-any [] d = refl
not-contains-any (x ∷ qs) d = ground (arith, not-contains-any qs d.2)

contains-remove_qtype :
    (q v : ℕ) (qs : List ℕ)
    → Distinct qs
    → contains (remove_qtype q qs).0 v ≡ (contains qs v && not (q == v))
unfolding remove_qtype contains
contains-remove_qtype q v [] d = refl
contains-remove_qtype q v (x ∷ qs) d = ground (arith, contains-remove_qtype q v qs d.2)

found-remove_qtype : (q : ℕ) (qs : List ℕ) → (remove_qtype q qs).1 ≡ contains qs q
unfolding remove_qtype contains
found-remove_qtype q [] = refl
found-remove_qtype q (x ∷ qs) = ground (arith, found-remove_qtype q qs)

stored_rev-delete_here :
    (p : List Str) (q q' : ℕ) (l : Level)
    → IsValid l
    → stored_rev p q' (delete_here q l).0 ≡ (stored_rev p q' l && not (same_path [] p && q == q'))
unfolding stored_rev delete_here same_path
stored_rev-delete_here [] q q' (level any qs cs) v =
    ground (arith, contains-remove_qtype q q' qs v.0, not-contains-any qs v.0)
stored_rev-delete_here (n ∷ p) q q' (level any qs cs) v = ground arith

-- Delete removes exactly the entry that it is given, and keeps every other entry.
pub stored_rev-delete_rev :
    (p p' : List Str) (q q' : ℕ) (l : Level)
    → IsValid l
    → stored_rev p' q' (delete_rev p q l).0
      ≡ (stored_rev p' q' l && not (same_path p p' && q == q'))
unfolding stored_rev delete_rev same_path
stored_rev-delete_rev [] p' q q' l v = stored_rev-delete_here p' q q' l v
stored_rev-delete_rev (a ∷ p) [] q q' (level any qs cs) v = ground arith
stored_rev-delete_rev (a ∷ p) (b ∷ p') q q' (level any qs cs) v =
    elim (Option-cases (lookup_child a cs)) [
      | inl e ↦ ground arith
      | inr (c, e) ↦ ground (
        arith,
        lookup_child-insert_child a b (delete_rev p q c).0 cs,
        stored_rev-delete_rev p p' q q' c (subst ValidOption e (lookup_child-IsValid a cs v.1)),
      )
    ]

-- Delete reports whether the entry was there.
pub found-delete_rev :
    (p : List Str) (q : ℕ) (l : Level) → IsValid l → (delete_rev p q l).1 ≡ stored_rev p q l
unfolding stored_rev delete_rev
found-delete_rev [] q (level any qs cs) v =
    unfold delete_here in ground (arith, found-remove_qtype q qs, not-contains-any qs v.0)
found-delete_rev (a ∷ p) q (level any qs cs) v = elim (Option-cases (lookup_child a cs)) [
  | inl e ↦ ground arith
  | inr (c, e) ↦
      ground (arith, found-delete_rev p q c (subst ValidOption e (lookup_child-IsValid a cs v.1)))
]
