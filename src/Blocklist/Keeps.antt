-- ===== src/Blocklist/Keeps.antt =====
-- blocklist.go: the operations keep the invariant of the trie, those on entries and lines too.
use dinosaur_dns.Common.{
  ℕ, Bool, not, ◌||◌, List, [], ◌∷◌, Option, none, some, Str, str_eq, ◌⊎◌, inl, inr, Bool-cases,
  Option-cases, reverse,
}
use dinosaur_dns.Common.Strings.{codes, split_on, trim_space}
use dinosaur_dns.Blocklist.{
  Error, split_name, add, delete, delete_tree, entry_target, add_entry, delete_entry, cut_space,
  hosts_fields, add_hosts_entry, is_comment, reader, hosts_reader,
}
use dinosaur_dns.Blocklist.Trie
use dinosaur_dns.Blocklist.Trie.{Level, type_any, delete_tree_rev}
use dinosaur_dns.Blocklist.Trie.Invariant.{IsValid, add_rev-IsValid, delete_rev-IsValid}
use dinosaur_dns.Blocklist.Trie.Whole.{delete_tree_rev_lem}

add-IsValid : (name : Str) (qtype : ℕ) (b : Level) → IsValid b → IsValid (add name qtype b)
unfolding add Trie.add
add-IsValid name qtype b v = add_rev-IsValid (reverse (split_name name)) qtype b v

delete-IsValid : (name : Str) (qtype : ℕ) (b : Level) → IsValid b → IsValid (delete name qtype b).0
unfolding delete Trie.delete
delete-IsValid name qtype b v = delete_rev-IsValid (reverse (split_name name)) qtype b v

-- A deletion that does not panic.
abbrev pub ValidTree : Option (Level × Bool) → Type 0
ValidTree none = Unit
ValidTree (some (b, found)) = IsValid b

delete_tree_rev-ValidTree : (p : List Str) (b : Level) → IsValid b → ValidTree (delete_tree_rev p b)
unfolding delete_tree_rev
delete_tree_rev-ValidTree [] b v = tt
delete_tree_rev-ValidTree (n ∷ p) b v =
    let (b', e, kept, valid) = delete_tree_rev_lem n p b in rw e (valid v)

pub delete_tree-ValidTree : (name : Str) (b : Level) → IsValid b → ValidTree (delete_tree name b)
unfolding delete_tree Trie.delete_tree
delete_tree-ValidTree name b v = delete_tree_rev-ValidTree (reverse (split_name name)) b v

module _ (string_to_type : Str → Option ℕ) where
  pub add_entry-IsValid :
      (entry : Str) (q : ℕ) (b : Level) → IsValid b → IsValid (add_entry string_to_type entry q b).0
  unfolding add_entry
  add_entry-IsValid entry q b v =
      by_target (entry_target string_to_type entry q (split_on b':' entry))
    where
      by_target :
          (target : (Str × ℕ) ⊎ Error)
          → IsValid
              (elim target as (λ _. Level × Option Error) [
                | inl (name, qtype) ↦ (add name qtype b, none)
                | inr e ↦ (b, some e)
              ]).0
      by_target (inl (name, qtype)) = add-IsValid name qtype b v
      by_target (inr e) = v

  pub delete_entry-IsValid :
      (entry : Str) (q : ℕ) (b : Level)
      → IsValid b
      → IsValid (delete_entry string_to_type entry q b).0
  unfolding delete_entry
  delete_entry-IsValid entry q b v =
      by_target (entry_target string_to_type entry q (split_on b':' entry))
    where
      by_target :
          (target : (Str × ℕ) ⊎ Error)
          → IsValid
              (elim target as (λ _. Level × (Bool ⊎ Error)) [
                | inl (name, qtype) ↦ let (b', found) = delete name qtype b in (b', inl found)
                | inr e ↦ (b, inr e)
              ]).0
      by_target (inl (name, qtype)) = delete-IsValid name qtype b v
      by_target (inr e) = v

  pub reader-IsValid :
      (q : ℕ) (line : Str) (b : Level) → IsValid b → IsValid (reader string_to_type q line b).0
  unfolding reader
  reader-IsValid q line b v = elim (Bool-cases (is_comment (trim_space line))) [
    | inl e ↦ rw (e, reader) v
    | inr e ↦ rw (e, reader) (add_entry-IsValid (trim_space line) q b v)
  ]

  hosts_fields-IsValid :
      (ip domain : Str) (b : Level)
      → IsValid b
      → IsValid (hosts_fields string_to_type ip domain b).0
  unfolding hosts_fields
  hosts_fields-IsValid ip domain b v =
      elim (Bool-cases (not (str_eq ip (codes "0.0.0.0")) || str_eq domain (codes "0.0.0.0"))) [
        | inl e ↦ rw (e, hosts_fields) v
        | inr e ↦ rw (e, hosts_fields) (add_entry-IsValid domain type_any b v)
      ]

  add_hosts_entry-IsValid :
      (line : Str) (b : Level) → IsValid b → IsValid (add_hosts_entry string_to_type line b).0
  unfolding add_hosts_entry
  add_hosts_entry-IsValid line b v = elim (Option-cases (cut_space line).1) [
    | inl e ↦ rw (e, add_hosts_entry) v
    | inr (rest, e) ↦ rw (e, add_hosts_entry) (hosts_fields-IsValid _ _ b v)
  ]

  pub hosts_reader-IsValid :
      (line : Str) (b : Level) → IsValid b → IsValid (hosts_reader string_to_type line b).0
  unfolding hosts_reader
  hosts_reader-IsValid line b v = elim (Bool-cases (is_comment (trim_space line))) [
    | inl e ↦ rw (e, hosts_reader) v
    | inr e ↦ rw (e, hosts_reader) (add_hosts_entry-IsValid (trim_space line) b v)
  ]
