-- ===== src/Blocklist/Trie/Invariant.antt =====
-- The representation invariant of the trie: at every level the blocked qtypes are distinct and
-- none of them is ANY, which has its own flag, and each map key stands once.
use mathlib.Core.Path.{subst}
use dinosaur_dns.Common.{
  ℕ, ◌≡◌, ◌≢◌, refl, false, List, [], ◌∷◌, ◌++◌, Option, none, some, Str, Str-discrete, if_pos,
  if_neg, arith, Option-cases, inl, inr,
}
use dinosaur_dns.Blocklist.Trie.{
  Level, level, Children, leaf, child, new_level, type_any, contains, lookup_child, insert_child,
  delete_child, add_here, add_rev, child_or_new, remove_qtype, delete_here, delete_rev,
}
use dinosaur_dns.Blocklist.Trie.Stored.{
  contains-append, lookup_child-insert_child, lookup_child-delete_child,
}

abbrev pub Distinct : List ℕ → Type 0
Distinct [] = Unit
Distinct (q ∷ qs) = (contains qs q ≡ false) × (q ≢ type_any) × Distinct qs

abbrev mutual
  pub IsValid : Level → Type 0
  IsValid (level any qs cs) = Distinct qs × ValidChildren cs

  pub ValidChildren : Children → Type 0
  ValidChildren leaf = Unit
  ValidChildren (child k l cs) = (lookup_child k cs ≡ none) × IsValid l × ValidChildren cs

pub new_level-IsValid : IsValid new_level
new_level-IsValid = (tt, tt)

Distinct-append :
    (qs : List ℕ) (q : ℕ)
    → contains qs q ≡ false
    → q ≢ type_any
    → Distinct qs
    → Distinct (qs ++ (q ∷ []))
unfolding contains
Distinct-append [] q h ne d = ground arith
Distinct-append (v ∷ qs) q h ne d =
    ground (arith, contains-append qs (q ∷ []) v, Distinct-append qs q)

abbrev pub ValidOption : Option Level → Type 0
ValidOption none = Unit
ValidOption (some c) = IsValid c

pub lookup_child-IsValid :
    (k : Str) (cs : Children) → ValidChildren cs → ValidOption (lookup_child k cs)
unfolding lookup_child
lookup_child-IsValid k leaf v = tt
lookup_child-IsValid k (child j l cs) v = elim (Str-discrete j k) [
  | yes p ↦ rw (if_pos (Str-discrete j k) p) v.1
  | no p ↦ rw (if_neg (Str-discrete j k) p) (lookup_child-IsValid k cs v.2)
]

pub child_or_new-IsValid : (o : Option Level) → ValidOption o → IsValid (child_or_new o)
unfolding child_or_new
child_or_new-IsValid none v = new_level-IsValid
child_or_new-IsValid (some c) v = v

pub insert_child-ValidChildren :
    (k : Str) (c : Level) (cs : Children)
    → IsValid c
    → ValidChildren cs
    → ValidChildren (insert_child k c cs)
unfolding insert_child lookup_child
insert_child-ValidChildren k c leaf vc v = (refl, vc, tt)
insert_child-ValidChildren k c (child j l cs) vc v = elim (Str-discrete j k) [
  | yes p ↦ rw (if_pos (Str-discrete j k) p) (subst (λ i. lookup_child i cs ≡ none) p v.0, vc, v.2)
  | no p ↦ rw (if_neg (Str-discrete j k) p) (
    ground (arith, lookup_child-insert_child k j c cs),
    v.1,
    insert_child-ValidChildren k c cs vc v.2,
  )
]

pub add_here-IsValid : (q : ℕ) (l : Level) → IsValid l → IsValid (add_here q l)
unfolding add_here
add_here-IsValid q (level any qs cs) v = ground (arith, Distinct-append qs q)

-- Add keeps the invariant.
pub add_rev-IsValid : (p : List Str) (q : ℕ) (l : Level) → IsValid l → IsValid (add_rev p q l)
unfolding add_rev
add_rev-IsValid [] q l v = add_here-IsValid q l v
add_rev-IsValid (n ∷ p) q (level any qs cs) v = (
  v.0,
  insert_child-ValidChildren n _ cs
      (add_rev-IsValid p q _ (child_or_new-IsValid _ (lookup_child-IsValid n cs v.1))) v.1,
)

remove_qtype-contains :
    (q v : ℕ) (qs : List ℕ) → contains qs v ≡ false → contains (remove_qtype q qs).0 v ≡ false
unfolding remove_qtype contains
remove_qtype-contains q v [] h = refl
remove_qtype-contains q v (x ∷ qs) h = ground (arith, remove_qtype-contains q v qs)

remove_qtype-Distinct : (q : ℕ) (qs : List ℕ) → Distinct qs → Distinct (remove_qtype q qs).0
unfolding remove_qtype
remove_qtype-Distinct q [] d = tt
remove_qtype-Distinct q (x ∷ qs) d =
    ground (arith, remove_qtype-contains q x qs, remove_qtype-Distinct q qs)

delete_here-IsValid : (q : ℕ) (l : Level) → IsValid l → IsValid (delete_here q l).0
unfolding delete_here
delete_here-IsValid q (level any qs cs) v = ground (arith, remove_qtype-Distinct q qs)

-- Delete keeps the invariant.
pub delete_rev-IsValid :
    (p : List Str) (q : ℕ) (l : Level) → IsValid l → IsValid (delete_rev p q l).0
unfolding delete_rev
delete_rev-IsValid [] q l v = delete_here-IsValid q l v
delete_rev-IsValid (n ∷ p) q (level any qs cs) v = elim (Option-cases (lookup_child n cs)) [
  | inl e ↦ rw (e, delete_rev) v
  | inr (c, e) ↦
      rw (e, delete_rev)
        (
          v.0,
          insert_child-ValidChildren n _ cs
              (delete_rev-IsValid p q c (subst ValidOption e (lookup_child-IsValid n cs v.1))) v.1,
        )
]

pub delete_child-ValidChildren :
    (k : Str) (cs : Children) → ValidChildren cs → ValidChildren (delete_child k cs)
unfolding delete_child
delete_child-ValidChildren k leaf v = tt
delete_child-ValidChildren k (child j l cs) v = elim (Str-discrete j k) [
  | yes p ↦ rw (if_pos (Str-discrete j k) p) (delete_child-ValidChildren k cs v.2)
  | no p ↦
      rw (if_neg (Str-discrete j k) p)
        (ground (arith, lookup_child-delete_child k j cs), v.1, delete_child-ValidChildren k cs v.2)
]
