-- ===== src/Blocklist/Trie.antt =====
-- blocklist/trie.go: the trie `level` and its operations.
-- The Go methods pop the last domain component of `parts`, so each recursion here walks the
-- reversed list (`*_rev`), and the operation itself starts it at `reverse parts`. A method that
-- updates `*l` returns the new level. A Go map is an association list: its order is unspecified.
pub mod Stored
pub mod Invariant
pub mod Delete
pub mod Match
pub mod Whole
pub mod Nodes
use dinosaur_dns.Common.{
  ℕ, Bool, true, false, List, [], ◌∷◌, ◌++◌, reverse, Option, none, some, Str, Str-discrete, ite,
  ◌+◌, map, length, ltb, is_some, ◌&&◌, ◌||◌, ◌==◌, if◌then◌else◌,
}

-- dns.TypeANY
abbrev pub type_any : ℕ
type_any = 255

mutual
  -- level: BlockAny, BlockQtype, Children
  pub data Level : Type 0 where
    level : Bool → List ℕ → Children → Level

  -- map[string]*level
  pub data Children : Type 0 where
    leaf : Children
    child : Str → Level → Children → Children

-- NewLevel
abbrev pub new_level : Level
new_level = level false [] leaf

-- contains, at uint16
unfoldable pub contains : List ℕ → ℕ → Bool
contains [] value = false
contains (v ∷ slice) value = value == v || contains slice value

abbrev pub block_any : Level → Bool
block_any (level any qs cs) = any

abbrev pub block_qtype : Level → List ℕ
block_qtype (level any qs cs) = qs

abbrev pub children : Level → Children
children (level any qs cs) = cs

-- child, ok := l.Children[k]
unfoldable pub lookup_child : Str → Children → Option Level
lookup_child k leaf = none
lookup_child k (child j l cs) = ite (Str-discrete j k) (some l) (lookup_child k cs)

-- l.Children[k] = child
unfoldable pub insert_child : Str → Level → Children → Children
insert_child k c leaf = child k c leaf
insert_child k c (child j l cs) =
    ite (Str-discrete j k) (child k c cs) (child j l (insert_child k c cs))

-- delete(l.Children, k)
unfoldable pub delete_child : Str → Children → Children
delete_child k leaf = leaf
delete_child k (child j l cs) =
    let rest = delete_child k cs in ite (Str-discrete j k) rest (child j l rest)

-- the last element of the path: mark the qtype, unless it is there
unfoldable pub add_here : ℕ → Level → Level
add_here qtype (level any qs cs) =
    if qtype == type_any
    then level true qs cs
    else if contains qs qtype
    then level any qs cs
    else level any (qs ++ (qtype ∷ [])) cs

pub child_or_new : Option Level → Level
child_or_new none = new_level
child_or_new (some c) = c

unfoldable pub add_rev : List Str → ℕ → Level → Level
unfolding child_or_new
add_rev [] qtype l = add_here qtype l
add_rev (next ∷ rest) qtype (level any qs cs) =
    level any qs (insert_child next (add_rev rest qtype (child_or_new (lookup_child next cs))) cs)

-- (*level).Add
unfoldable pub add : List Str → ℕ → Level → Level
add parts qtype l = add_rev (reverse parts) qtype l

-- The recursive call is made only if no test above it passed.
unfoldable pub match_rev : List Str → ℕ → Level → Bool
match_rev [] qtype (level any qs cs) = any || contains qs qtype
match_rev (next ∷ rest) qtype (level any qs cs) =
    if any
    then true
    else if contains qs qtype
    then true
    else elim (lookup_child next cs) [ none ↦ false | some c ↦ match_rev rest qtype c ]

-- (*level).Match
unfoldable pub match : List Str → ℕ → Level → Bool
match parts qtype l = match_rev (reverse parts) qtype l

-- the loop that removes the first occurrence of `qtype`, if there is one
unfoldable pub remove_qtype : ℕ → List ℕ → List ℕ × Bool
remove_qtype qtype [] = ([], false)
remove_qtype qtype (v ∷ qs) =
    let (rest, found) = remove_qtype qtype qs in
    if qtype == v then (qs, true) else (v ∷ rest, found)

unfoldable pub delete_here : ℕ → Level → Level × Bool
delete_here qtype (level any qs cs) =
    let (rest, found) = remove_qtype qtype qs in
    if qtype == type_any && any then (level false qs cs, true) else (level any rest cs, found)

unfoldable pub delete_rev : List Str → ℕ → Level → Level × Bool
delete_rev [] qtype l = delete_here qtype l
delete_rev (next ∷ rest) qtype (level any qs cs) = elim (lookup_child next cs) [
  | none ↦ (level any qs cs, false)
  | some c ↦
      let (c', found) = delete_rev rest qtype c in (level any qs (insert_child next c' cs), found)
]

-- (*level).Delete. The Go code updates the child in place: here it is put back under its key.
unfoldable pub delete : List Str → ℕ → Level → Level × Bool
delete parts qtype l = delete_rev (reverse parts) qtype l

-- (*level).DeleteTree. `none` is the panic of `parts[len(parts)-1]` at an empty `parts`.
unfoldable pub delete_tree_rev : List Str → Level → Option (Level × Bool)
delete_tree_rev [] l = none
delete_tree_rev (next ∷ []) (level any qs cs) =
    some (level any qs (delete_child next cs), is_some (lookup_child next cs))
delete_tree_rev (next ∷ second ∷ rest) (level any qs cs) = elim (lookup_child next cs) [
  | none ↦ some (level any qs cs, false)
  | some c ↦ elim (delete_tree_rev (second ∷ rest) c) [
    | none ↦ none
    | some (c', found) ↦ some (level any qs (insert_child next c' cs), found)
  ]
]

unfoldable pub delete_tree : List Str → Level → Option (Level × Bool)
delete_tree parts l = delete_tree_rev (reverse parts) l

-- (*level).Count
unfoldable mutual
  pub count : Level → ℕ
  count (level any qs cs) = (if any then 1 else 0) + length qs + count_children cs

  pub count_children : Children → ℕ
  count_children leaf = 0
  count_children (child k l cs) = count l + count_children cs

pub record BlockEntry : Type 0 where
  pub name : Str
  pub block : List Str

-- strings.Join(prefix, ".") + "."
unfoldable pub dotted : List Str → Str
dotted [] = b'.' ∷ []
dotted (k ∷ []) = k ++ (b'.' ∷ [])
dotted (k ∷ j ∷ rest) = k ++ (b'.' ∷ dotted (j ∷ rest))

-- (*level).Dump; the map `dns.TypeToString` is the parameter.
module _ (type_to_string : ℕ → Str) where
  unfoldable pub dump_entry : List Str → Level → BlockEntry
  dump_entry prefix (level any qs cs) = record {
    name = dotted prefix;
    block = (if any then (b'A' ∷ b'N' ∷ b'Y' ∷ []) ∷ [] else []) ++ map type_to_string qs;
  }

  unfoldable mutual
    pub dump : List Str → Level → List BlockEntry → List BlockEntry
    dump prefix (level any qs cs) out =
        let entry = dump_entry prefix (level any qs cs) in
        dump_children prefix cs (if ltb 0 (length entry.block) then out ++ (entry ∷ []) else out)

    pub dump_children : List Str → Children → List BlockEntry → List BlockEntry
    dump_children prefix leaf out = out
    dump_children prefix (child k l cs) out = dump_children prefix cs (dump (k ∷ prefix) l out)
