-- ===== src/Blocklist.antt =====
-- blocklist/: the trie of trie.go in `Trie`, and here the block list of blocklist.go over it.
-- A `BlockList` is its root level: each method runs under the lock, so it is one step from root to
-- root. `string_to_type` is the map dns.StringToType.
pub mod Trie
pub mod Matching
pub mod Rules
pub mod Entries
pub mod Load
pub mod Keeps
mod Tests
use dinosaur_dns.Common.{
  ℕ, Bool, true, false, List, [], ◌∷◌, Option, none, some, Str, ◌⊎◌, inl, inr, str_eq, ◌||◌, ◌==◌,
  not, if◌then◌else◌,
}
use dinosaur_dns.Common.Strings.{
  codes, to_lower, trim_dot, split_on, is_space, trim_space, cons_head, trim_left,
}
use dinosaur_dns.Blocklist.Trie.{Level, type_any, BlockEntry}
use dinosaur_dns.Blocklist.Trie

unfoldable pub is_root : Str → Bool
is_root [] = true
is_root (x ∷ []) = x == b'.'
is_root (x ∷ y ∷ s) = false

unfoldable pub split_name : Str → List Str
unfolding is_root
split_name name = if is_root name then [] else split_on b'.' (to_lower (trim_dot name))

pub data Error : Type 0 where
  invalid_qtype : Str → Str → Error
  invalid_entry : Str → Error
  invalid_hosts_entry : Str → Error

-- (*BlockList).Add
unfoldable pub add : Str → ℕ → Level → Level
add name qtype b = Trie.add (split_name name) qtype b

-- (*BlockList).Match
unfoldable pub match : Str → ℕ → Level → Bool
match qname qtype b = Trie.match (split_name qname) qtype b

-- (*BlockList).Delete
unfoldable pub delete : Str → ℕ → Level → Level × Bool
delete qname qtype b = Trie.delete (split_name qname) qtype b

-- (*BlockList).DeleteTree; `none` is its panic
unfoldable pub delete_tree : Str → Level → Option (Level × Bool)
delete_tree qname b = Trie.delete_tree (split_name qname) b

-- (*BlockList).Count
unfoldable pub count : Level → ℕ
count b = Trie.count b

-- (*BlockList).Dump
unfoldable pub dump : (ℕ → Str) → Level → List BlockEntry
dump type_to_string b = Trie.dump type_to_string [] b []

-- regexp `\s+`: what is left behind a run of white space.
skip_space : Str → Str
skip_space [] = []
skip_space (x ∷ s) = let rest = skip_space s in if is_space x then rest else x ∷ s

cons_first : ℕ → Str × Option Str → Str × Option Str
cons_first x (first, rest) = (x ∷ first, rest)

-- What stands before the first run of white space, and what stands behind it, if there is a run.
unfoldable pub cut_space : Str → Str × Option Str
unfolding skip_space cons_first
cut_space [] = ([], none)
cut_space (x ∷ s) =
    let cut = cut_space s in if is_space x then ([], some (skip_space s)) else cons_first x cut

-- len(line) == 0 || line[0] == '#'
is_comment : Str → Bool
is_comment [] = true
is_comment (c ∷ s) = c == b'#'

module _ (string_to_type : Str → Option ℕ) where
  -- The switch of AddEntry and of DeleteEntry: the name and the qtype that an entry stands for.
  unfoldable pub entry_target : Str → ℕ → List Str → (Str × ℕ) ⊎ Error
  entry_target entry default_qtype (name ∷ []) = inl (name, default_qtype)
  entry_target entry default_qtype (name ∷ qt ∷ []) = elim (string_to_type qt) [
    | none ↦ inr (invalid_qtype name qt)
    | some qtype ↦ inl (name, qtype)
  ]
  entry_target entry default_qtype _ = inr (invalid_entry entry)

  -- (*BlockList).AddEntry
  unfoldable pub add_entry : Str → ℕ → Level → Level × Option Error
  unfolding entry_target
  add_entry entry default_qtype b = elim (entry_target entry default_qtype (split_on b':' entry)) [
    | inl (name, qtype) ↦ (add name qtype b, none)
    | inr e ↦ (b, some e)
  ]

  -- (*BlockList).DeleteEntry
  unfoldable pub delete_entry : Str → ℕ → Level → Level × (Bool ⊎ Error)
  unfolding entry_target
  delete_entry entry default_qtype b =
      elim (entry_target entry default_qtype (split_on b':' entry)) [
        | inl (name, qtype) ↦ let (b', found) = delete name qtype b in (b', inl found)
        | inr e ↦ (b, inr e)
      ]

  hosts_fields : Str → Str → Level → Level × Option Error
  hosts_fields ip domain b =
      if not (str_eq ip (codes "0.0.0.0")) || str_eq domain (codes "0.0.0.0")
      then (b, none)
      else add_entry domain type_any b

  -- (*BlockList).AddHostsEntry: only the first two of at most three fields are read.
  unfoldable pub add_hosts_entry : Str → Level → Level × Option Error
  unfolding hosts_fields
  add_hosts_entry entry b =
      let (ip, more) = cut_space entry in
      elim more [
        | none ↦ (b, some (invalid_hosts_entry entry))
        | some rest ↦ hosts_fields ip (cut_space rest).0 b
      ]

  -- MakeBlockListReaderf
  unfoldable pub reader : ℕ → Str → Level → Level × Option Error
  unfolding is_comment
  reader default_qtype line b =
      let text = trim_space line in
      if is_comment text then (b, none) else add_entry text default_qtype b

  -- MakeBlockListHostsReaderf
  unfoldable pub hosts_reader : Str → Level → Level × Option Error
  unfolding is_comment
  hosts_reader line b =
      let text = trim_space line in if is_comment text then (b, none) else add_hosts_entry text b
