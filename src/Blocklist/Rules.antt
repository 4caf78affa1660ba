-- ===== src/Blocklist/Rules.antt =====
-- The block list against its specification: a set of (path, qtype) rules, and the set of the paths
-- that the trie has nodes for, which DeleteTree reports.
use mathlib.Core.Path.{fun_ext, subst}
use dinosaur_dns.Common.{
  ℕ, ◌≡◌, refl, ap, ap₂, ◌∙◌, Bool, List, [], ◌∷◌, reverse, none, some, Str, ◌||◌, ◌&&◌, not, ◌==◌,
}
use dinosaur_dns.Blocklist.{split_name, add, match, delete, delete_tree}
use dinosaur_dns.Blocklist.Trie
use dinosaur_dns.Blocklist.Trie.{Level, type_any, delete_tree_rev}
use dinosaur_dns.Blocklist.Trie.Stored.{stored_rev, same_path, stored_rev-add_rev}
use dinosaur_dns.Blocklist.Trie.Invariant.{IsValid, add_rev-IsValid, delete_rev-IsValid}
use dinosaur_dns.Blocklist.Trie.Match.{any_prefix, match_rev-eq-any_prefix}
use dinosaur_dns.Blocklist.Trie.Delete.{stored_rev-delete_rev, found-delete_rev}
use dinosaur_dns.Blocklist.Trie.Whole.{is_prefix, has_node, delete_tree_rev_lem}
use dinosaur_dns.Blocklist.Trie.Nodes.{
  AfterTree, IsTrimmed, has_node-add_rev, has_node-delete_rev, delete_tree_rev-IsTrimmed,
}

-- A call on a block list, and what its caller sees.
pub data Op : Type 0 where
  add_op delete_op match_op : Str → ℕ → Op
  delete_tree_op : Str → Op

pub data Reply : Type 0 where
  done : Reply
  found : Bool → Reply
  matched : Bool → Reply
  panicked : Reply

-- The calls in order on the trie. A panic ends the run.
unfoldable pub run : List Op → Level → List Reply
run [] b = []
run (add_op n q ∷ ops) b = done ∷ run ops (add n q b)
run (delete_op n q ∷ ops) b = let (b', f) = delete n q b in found f ∷ run ops b'
run (match_op n q ∷ ops) b = matched (match n q b) ∷ run ops b
run (delete_tree_op n ∷ ops) b = elim (delete_tree n b) [
  | none ↦ panicked ∷ []
  | some (b', f) ↦ found f ∷ run ops b'
]

-- A set of rules, on paths with the top level first.
abbrev pub Rules : Type 0
Rules = List Str → ℕ → Bool

abbrev pub path : Str → List Str
path name = reverse (split_name name)

abbrev pub add_rule : List Str → ℕ → Rules → Rules
add_rule p q rules p' q' = rules p' q' || (same_path p p' && q == q')

abbrev pub delete_rule : List Str → ℕ → Rules → Rules
delete_rule p q rules p' q' = rules p' q' && not (same_path p p' && q == q')

abbrev pub delete_below : List Str → Rules → Rules
delete_below p rules p' q' = rules p' q' && not (is_prefix p p')

abbrev pub blocked_by : Rules → List Str → ℕ → Bool
blocked_by rules p q = any_prefix (λ r. rules r type_any || rules r q) p

-- A set of paths. Add makes all paths up to its own, and Delete keeps them.
abbrev pub Nodes : Type 0
Nodes = List Str → Bool

abbrev pub add_node : List Str → Nodes → Nodes
add_node p nodes p' = nodes p' || is_prefix p' p

abbrev pub delete_nodes : List Str → Nodes → Nodes
delete_nodes p nodes p' = nodes p' && not (is_prefix p p')

below_root : List Str → Bool → List Reply → List Reply
below_root [] there rest = panicked ∷ []
below_root (m ∷ p) there rest = found there ∷ rest

-- The same calls on a set of rules and a set of nodes: deletion below the root is refused.
unfoldable pub run_rules : List Op → Rules → Nodes → List Reply
unfolding below_root
run_rules [] rules nodes = []
run_rules (add_op n q ∷ ops) rules nodes =
    done ∷ run_rules ops (add_rule (path n) q rules) (add_node (path n) nodes)
run_rules (delete_op n q ∷ ops) rules nodes =
    found (rules (path n) q) ∷ run_rules ops (delete_rule (path n) q rules) nodes
run_rules (match_op n q ∷ ops) rules nodes =
    matched (blocked_by rules (path n) q) ∷ run_rules ops rules nodes
run_rules (delete_tree_op n ∷ ops) rules nodes =
    below_root (path n) (nodes (path n))
      (run_rules ops (delete_below (path n) rules) (delete_nodes (path n) nodes))

abbrev pub rules_of : Level → Rules
rules_of b p q = stored_rev p q b

abbrev pub nodes_of : Level → Nodes
nodes_of b p = has_node p b

same_run :
    (ops : List Op) (rules rules' : Rules) (nodes nodes' : Nodes)
    → ((p : List Str) (q : ℕ) → rules p q ≡ rules' p q)
    → ((p : List Str) → nodes p ≡ nodes' p)
    → run_rules ops rules nodes ≡ run_rules ops rules' nodes'
same_run ops rules rules' nodes nodes' same same' =
    ap₂ (run_rules ops) (fun_ext λ p. fun_ext λ q. same p q) (fun_ext λ p. same' p)

delete_tree_step :
    (p : List Str) (ops : List Op) (b : Level)
    → ((b' : Level) → IsValid b' → run ops b' ≡ run_rules ops (rules_of b') (nodes_of b'))
    → IsValid b
    → ◌≡◌ {A = List Reply}
        (elim (delete_tree_rev p b) [ none ↦ panicked ∷ [] | some (b', f) ↦ found f ∷ run ops b' ])
        (below_root p
          (has_node p b)
          (run_rules ops (delete_below p (rules_of b)) (delete_nodes p (nodes_of b))))
unfolding delete_tree_rev below_root AfterTree
delete_tree_step [] ops b ih v = refl
delete_tree_step (n ∷ p) ops b ih v =
    let (b', e, kept, valid) = delete_tree_rev_lem n p b in
    let trimmed = subst (AfterTree (IsTrimmed (n ∷ p) b)) e (delete_tree_rev-IsTrimmed n p b) in
    rw e
      (ap (◌∷◌ (found (has_node (n ∷ p) b))) (ih b' (valid v) ∙ same_run ops _ _ _ _ kept trimmed))

-- From a valid trie, a sequence of calls of Add, Delete, DeleteTree and Match gives what the set of
-- the trie's entries and the set of its nodes give: the Booleans of Match, Delete and DeleteTree,
-- and the panic of DeleteTree at the root. DeleteTree reports whether there was a node, which may
-- be one whose entries Delete has removed.
pub run_refines :
    (ops : List Op) (b : Level) → IsValid b → run ops b ≡ run_rules ops (rules_of b) (nodes_of b)
unfolding run run_rules add delete match delete_tree Trie.add Trie.delete Trie.match
    Trie.delete_tree
run_refines [] b v = refl
run_refines (add_op n q ∷ ops) b v = ap (◌∷◌ done) (
    run_refines ops (add n q b) (add_rev-IsValid (path n) q b v)
    ∙ same_run ops _ _ _ _ (λ p' q'. stored_rev-add_rev (path n) p' q q' b)
        (λ p'. has_node-add_rev (path n) p' q b))
run_refines (delete_op n q ∷ ops) b v =
    ap₂ (λ f rest. found f ∷ rest) (found-delete_rev (path n) q b v)
      (run_refines ops (delete n q b).0 (delete_rev-IsValid (path n) q b v)
        ∙ same_run ops _ _ _ _ (λ p' q'. stored_rev-delete_rev (path n) p' q q' b v)
            (λ p'. has_node-delete_rev (path n) p' q b))
run_refines (match_op n q ∷ ops) b v =
    ap₂ (λ f rest. matched f ∷ rest) (match_rev-eq-any_prefix (path n) q b v) (run_refines ops b v)
run_refines (delete_tree_op n ∷ ops) b v =
    delete_tree_step (path n) ops b (λ b' v'. run_refines ops b' v') v
